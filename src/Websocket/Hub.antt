-- ===== src/Websocket/Hub.antt =====
-- `Hub` of websocket/hub.go: the connections by IP address, and what its loop does with the
-- messages of its channels. A connection is a number; `Upgrade` gives each a new one.
pub mod Delivery
use wifigo.Base.{ℕ, String, Bool, true, false, Option, none, some, List, [], ◌∷◌, ◌++◌}
use wifigo.Base.Lists.{lookup, insert, erase}

-- What has been done to the connections, in order.
pub data Action : Type 0 where
  -- `conn.WriteMessage(websocket.TextMessage, message)`
  written : ℕ → String → Action
  -- `conn.Close()`
  closed : ℕ → Action

pub record Hub : Type 0 where
  pub clients : List (String × ℕ)
  pub actions : List Action

-- The messages of the three channels, and the calls of `SendToIP`, which take the same lock.
pub data Message : Type 0 where
  register : String → ℕ → Message
  unregister : String → Message
  broadcast : String → Message
  send_to_ip : String → String → Message

-- The walk through the map of a broadcast; Go's order is any, here that of the entries.
unfoldable pub write_all : String → List (String × ℕ) → List Action
write_all message [] = []
write_all message ((ip, conn) ∷ clients) = written conn message ∷ write_all message clients

-- `NewHub`
abbrev pub new_hub : Hub
new_hub = record { clients = []; actions = [] }

-- `SendToIP`
abbrev send : String → String → Hub → Hub
send ip message h = elim (lookup ip h.clients) [
  | none ↦ h
  | some conn ↦ record h { actions = h.actions ++ written conn message ∷ [] }
]

-- One case of the loop of `Run`, or a call of `SendToIP`.
unfoldable pub handle : Message → Hub → Hub
handle (register ip conn) h = record h { clients = insert ip conn h.clients }
handle (unregister ip) h = elim (lookup ip h.clients) [
  | none ↦ h
  | some conn ↦ record { clients = erase ip h.clients; actions = h.actions ++ closed conn ∷ [] }
]
handle (broadcast message) h = record h { actions = h.actions ++ write_all message h.clients }
handle (send_to_ip ip message) h = send ip message h

-- `Run` on a sequence of messages.
unfoldable pub run : List Message → Hub → Hub
run [] h = h
run (m ∷ messages) h = run messages (handle m h)
