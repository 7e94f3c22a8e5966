-- ===== src/Websocket/Hub/Delivery.antt =====
-- Which connection of `Hub` (websocket/hub.go) an address has, and what is sent to it.
use wifigo.Base.{
  ℕ, String, Bool, true, false, ◌≡◌, refl, ap, subst, ◌∙◌, Option, none, some, List, [], ◌∷◌, ◌++◌,
  if◌then◌else◌,
}
use wifigo.Base.Texts.{◌==◌, test_self, eq_of_test}
use wifigo.Base.Lists.{lookup, insert, erase, lookup-insert, lookup-erase}
use wifigo.Websocket.Hub.{
  written, closed, Hub, Message, register, unregister, broadcast, send_to_ip, handle, run,
}

-- The connection of one address, by the messages alone.
abbrev pub connected : String → List Message → Option ℕ → Option ℕ
connected ip [] o = o
connected ip (register j conn ∷ messages) o =
    connected ip messages (if j == ip then some conn else o)
connected ip (unregister j ∷ messages) o = connected ip messages (if j == ip then none else o)
connected ip (broadcast _ ∷ messages) o = connected ip messages o
connected ip (send_to_ip _ _ ∷ messages) o = connected ip messages o

handle-unregister :
    (ip j : String) (h : Hub)
    → lookup ip (handle (unregister j) h).clients ≡ (if j == ip then none else lookup ip h.clients)
unfolding handle
handle-unregister ip j h = split (lookup j h.clients) refl
  where
    missing :
        (b : Bool)
        → (j == ip) ≡ b
        → lookup j h.clients ≡ none
        → lookup ip h.clients ≡ (if b then none else lookup ip h.clients)
    missing true same absent = subst (λ k. lookup k h.clients ≡ none) (eq_of_test j ip same) absent
    missing false other absent = refl

    split :
        (x : Option ℕ)
        → lookup j h.clients ≡ x
        → lookup ip
            (elim x as (λ _. Hub) [
              | none ↦ h
              | some conn ↦ record {
                clients = erase j h.clients;
                actions = h.actions ++ closed conn ∷ [];
              }
            ]).clients
          ≡ (if j == ip then none else lookup ip h.clients)
    split none absent = missing (j == ip) refl absent
    split (some conn) there = lookup-erase j ip h.clients

handle-sent : (j message : String) (h : Hub) → (handle (send_to_ip j message) h).clients ≡ h.clients
unfolding handle
handle-sent j message h = split (lookup j h.clients)
  where
    split :
        (x : Option ℕ)
        → (elim x as (λ _. Hub) [
          | none ↦ h
          | some conn ↦ record h { actions = h.actions ++ written conn message ∷ [] }
        ]).clients
          ≡ h.clients
    split none = refl
    split (some conn) = refl

handle-register :
    (ip j : String) (conn : ℕ) (h : Hub)
    → lookup ip (handle (register j conn) h).clients
      ≡ (if j == ip then some conn else lookup ip h.clients)
unfolding handle
handle-register ip j conn h = lookup-insert j ip conn h.clients

handle-broadcast : (message : String) (h : Hub) → (handle (broadcast message) h).clients ≡ h.clients
unfolding handle
handle-broadcast message h = refl

-- After any messages, the hub has for an address the connection of the last registration of that
-- address that no later unregistration of it undoes, or that of the beginning where there are
-- neither, whatever happens to other addresses.
pub run-connected :
    (ip : String) (messages : List Message) (h : Hub)
    → lookup ip (run messages h).clients ≡ connected ip messages (lookup ip h.clients)
unfolding run
run-connected ip [] h = refl
run-connected ip (register j conn ∷ messages) h =
    run-connected ip messages (handle (register j conn) h)
    ∙ ap (connected ip messages) (handle-register ip j conn h)
run-connected ip (unregister j ∷ messages) h =
    run-connected ip messages (handle (unregister j) h)
    ∙ ap (connected ip messages) (handle-unregister ip j h)
run-connected ip (broadcast message ∷ messages) h =
    run-connected ip messages (handle (broadcast message) h)
    ∙ ap (λ c. connected ip messages (lookup ip c)) (handle-broadcast message h)
run-connected ip (send_to_ip j message ∷ messages) h =
    run-connected ip messages (handle (send_to_ip j message) h)
    ∙ ap (λ c. connected ip messages (lookup ip c)) (handle-sent j message h)

closing :
    (ip : String) (conn : ℕ) (h : Hub)
    → lookup ip h.clients ≡ some conn
    → (handle (unregister ip) h).actions ≡ h.actions ++ closed conn ∷ []
unfolding handle
closing ip conn h there = split (lookup ip h.clients) there
  where
    split :
        (x : Option ℕ)
        → x ≡ some conn
        → (elim x as (λ _. Hub) [
          | none ↦ h
          | some c ↦ record { clients = erase ip h.clients; actions = h.actions ++ closed c ∷ [] }
        ]).actions
          ≡ h.actions ++ closed conn ∷ []
    split none e = absurd (cc e)
    split (some c) e = cc e

-- What the messages of a client that registers twice, and is unregistered for the first one, do.
abbrev pub reconnect : String → ℕ → ℕ → List Message
reconnect ip first second = register ip first ∷ register ip second ∷ unregister ip ∷ []

-- A client that registers a second connection for its address, before the end of the first one is
-- noticed, loses it: the unregistration of the first connection closes the second one and leaves
-- the address without a connection, and the first one is not closed.
pub reconnect-lost :
    (ip : String) (first second : ℕ) (h : Hub)
    → (lookup ip (run (reconnect ip first second) h).clients ≡ none)
      × ((run (reconnect ip first second) h).actions ≡ h.actions ++ closed second ∷ [])
unfolding run handle
reconnect-lost ip first second h = (
  run-connected ip (reconnect ip first second) h ∙ rw (test_self ip) refl,
  closing ip second (handle (register ip second) (handle (register ip first) h))
      (lookup-insert ip ip second (insert ip first h.clients) ∙ rw (test_self ip) refl),
)
