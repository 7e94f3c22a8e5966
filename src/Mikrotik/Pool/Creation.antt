-- ===== src/Mikrotik/Pool/Creation.antt =====
-- `newDevicePool` of mikrotik/manager.go, by the connections that it opens and closes.
use mathlib.Core.List.{append-nil, append_assoc}
use wifigo.Base.{
  ℕ, zero, suc, ◌+◌, String, ◌≡◌, refl, sym, ap, ◌∙◌, Option, none, some, List, [], ◌∷◌, ◌++◌,
  arith,
}
use wifigo.Base.Lists.{length, length-append}
use wifigo.Base.Texts.{concat}
use wifigo.Base.Outcome.{Outcome, ok, err}
use wifigo.Mikrotik.Pool.{
  DeviceConfig, World, DevicePool, Dialer, dial, endpoint, close_clients, capacity, fill,
  new_device_pool,
}

pub close_clients-closed :
    (clients : List ℕ) (w : World)
    → ((close_clients clients w).closed ≡ w.closed ++ clients)
      × ((close_clients clients w).opened ≡ w.opened)
unfolding close_clients
close_clients-closed [] w = (sym (append-nil w.closed), refl)
close_clients-closed (c ∷ clients) w =
    let (gone, kept) = close_clients-closed clients (record w { closed = w.closed ++ c ∷ [] }) in
    (gone ∙ append_assoc w.closed (c ∷ []) clients, kept)

-- A pool has all the connections that were opened for it, in order, and they are as many as it
-- holds; where there is no pool, each connection opened for it has been closed again, in order.
abbrev pub Made : DeviceConfig → World → Outcome DevicePool × World → Type 0
Made c w (ok p, w') =
    (p.config ≡ c)
    × (length p.clients ≡ capacity c)
    × (w'.opened ≡ w.opened ++ p.clients)
    × (w'.closed ≡ w.closed)
Made c w (err why, w') = (cs : List ℕ) × (w'.opened ≡ w.opened ++ cs) × (w'.closed ≡ w.closed ++ cs)

-- The same where some connections have been made since the world `w₀`.
abbrev Filled : DeviceConfig → World → List ℕ → ℕ → Outcome DevicePool × World → Type 0
Filled c w₀ clients n (ok p, w') =
    (p.config ≡ c)
    × (length p.clients ≡ length clients + n)
    × (w'.opened ≡ w₀.opened ++ p.clients)
    × (w'.closed ≡ w₀.closed)
Filled c w₀ clients n (err why, w') =
    (cs : List ℕ) × (w'.opened ≡ w₀.opened ++ cs) × (w'.closed ≡ w₀.closed ++ cs)

Filled-more :
    (c : DeviceConfig) (w₀ : World) (clients : List ℕ) (x n : ℕ) (r : Outcome DevicePool × World)
    → Filled c w₀ (clients ++ x ∷ []) n r
    → Filled c w₀ clients (suc n) r
Filled-more c w₀ clients x n (ok p, w') (same, size, opened, closed) =
    (same, omega (arith, size, length-append clients (x ∷ [])), opened, closed)
Filled-more c w₀ clients x n (err why, w') h = h

module _ (d : Dialer) (c : DeviceConfig) where
  fill-Filled :
      (n : ℕ) (clients : List ℕ) (w₀ w : World)
      → w.opened ≡ w₀.opened ++ clients
      → w.closed ≡ w₀.closed
      → Filled c w₀ clients n (fill d c n clients w)
  unfolding fill dial
  fill-Filled zero clients w₀ w opened closed = (refl, omega arith, opened, closed)
  fill-Filled (suc n) clients w₀ w opened closed =
      split
        (fill-Filled n (clients ++ w.dials ∷ []) w₀ _
          (ap (λ l. l ++ w.dials ∷ []) opened ∙ append_assoc w₀.opened clients (w.dials ∷ []))
          closed)
        (d.fails w.dials (endpoint c) c.username c.password)
    where
      answered : Option String → Outcome ℕ × World
      answered x = elim x [
        | some why ↦ (err why, record w { dials = suc w.dials })
        | none ↦ (
          ok w.dials,
          record { dials = suc w.dials; opened = w.opened ++ w.dials ∷ []; closed = w.closed },
        )
      ]

      split :
          Filled c w₀
            (clients ++ w.dials ∷ [])
            n
            (fill d c n (clients ++ w.dials ∷ []) (answered none).1)
          → (x : Option String)
          → Filled c w₀ clients (suc n) (
              let (r, w') = answered x in
              elim r [
                | ok client ↦ fill d c n (clients ++ client ∷ []) w'
                | err why ↦ (
                  err (
                      concat "failed to create client "
                        (concat (d.decimal (length clients)) (concat ": " why))),
                  close_clients clients w',
                )
              ])
      split rest none = Filled-more c w₀ clients w.dials n _ rest
      split rest (some why) =
          let (gone, kept) = close_clients-closed clients (record w { dials = suc w.dials }) in
          (clients, kept ∙ opened, gone ∙ ap (λ l. l ++ clients) closed)

  -- `newDevicePool` returns a pool with as many connections as its capacity, which are those that
  -- it opened, in order, and it closed none; or it returns an error, and then it has closed each
  -- connection that it opened, in order. This holds whichever dials fail.
  pub new_device_pool-Made : (w : World) → Made c w (new_device_pool d c w)
  unfolding new_device_pool
  new_device_pool-Made w =
      made (fill d c (capacity c) [] w)
        (fill-Filled (capacity c) [] w w (sym (append-nil w.opened)) refl)
    where
      made : (r : Outcome DevicePool × World) → Filled c w [] (capacity c) r → Made c w r
      made (ok p, w') (same, size, opened, closed) = (same, omega (arith, size), opened, closed)
      made (err why, w') h = h
