-- ===== src/Mikrotik/Pool/Accounting.antt =====
-- A pool in use: the steps that its callers take, and the numbers of connections that are closed,
-- idle in the pool (mikrotik/manager.go) and lent to callers.
use wifigo.Base.{
  ℕ, zero, suc, ◌+◌, ◌≤◌, String, ◌≡◌, refl, subst, ◌⊎◌, inl, inr, Option, none, some, List, [],
  ◌∷◌, ltb, Bool-cases, Option-cases, arith,
}
use wifigo.Base.Lists.{length, length-append}
use wifigo.Base.Outcome.{Outcome, ok, err}
use wifigo.Mikrotik.Pool.{
  DeviceConfig, World, DevicePool, Dialer, dial, close_client, close_clients, capacity,
  new_device_pool, get_client, return_client, execute, drain, close_pool,
}
use wifigo.Mikrotik.Pool.Creation.{Made, new_device_pool-Made}

-- A pool in use, with the number of connections that its callers hold.
pub record PoolState : Type 0 where
  pub pool : DevicePool
  pub world : World
  pub lent : ℕ

-- What callers may do, one after another. A receive that a return serves in time comes after it.
pub data Step (d : Dialer) : PoolState → PoolState → Type 0 where
  taken :
      (p p' : DevicePool) (w w' : World) (n c : ℕ)
      → get_client d p w ≡ (some c, (p', w'))
      → Step d
          (record { pool = p; world = w; lent = n })
          (record { pool = p'; world = w'; lent = suc n })
  refused :
      (p p' : DevicePool) (w w' : World) (n : ℕ)
      → get_client d p w ≡ (none, (p', w'))
      → Step d
          (record { pool = p; world = w; lent = n })
          (record { pool = p'; world = w'; lent = n })
  returned :
      (p p' : DevicePool) (w w' : World) (n c : ℕ)
      → return_client (some c) p w ≡ (p', w')
      → Step d
          (record { pool = p; world = w; lent = suc n })
          (record { pool = p'; world = w'; lent = n })
  drained :
      (p p' : DevicePool) (w w' : World) (n : ℕ)
      → close_pool p w ≡ (p', w')
      → Step d
          (record { pool = p; world = w; lent = n })
          (record { pool = p'; world = w'; lent = n })

pub data Steps (d : Dialer) : PoolState → PoolState → Type 0 where
  done : (s : PoolState) → Steps d s s
  also : (s s' s'' : PoolState) → Steps d s s' → Step d s' s'' → Steps d s s''

-- The connections add up, and the queue is within its bound.
pub record Accounts (s : PoolState) : Type 0 where
  pub kept : length s.world.opened ≡ length s.world.closed + length s.pool.clients + s.lent
  pub bound : length s.pool.clients ≤ capacity s.pool.config

List-cases {ℓ} : {A : Type ℓ} (xs : List A) → (xs ≡ []) ⊎ ((x : A) × (ys : List A) × (xs ≡ x ∷ ys))
List-cases [] = inl refl
List-cases (x ∷ ys) = inr (x, ys, refl)

pub drain-sizes :
    (n : ℕ) (clients : List ℕ) (w : World)
    → (length (drain n clients w).1.closed + length (drain n clients w).0
        ≡ length w.closed + length clients)
      × (length (drain n clients w).0 ≤ length clients)
      × ((drain n clients w).1.opened ≡ w.opened)
unfolding drain
drain-sizes zero clients w = (refl, omega arith, refl)
drain-sizes (suc n) [] w = (refl, omega arith, refl)
drain-sizes (suc n) (c ∷ clients) w =
    let (sizes, less, same) = drain-sizes n clients (close_client c w) in
    (omega (arith, sizes, length-append w.closed (c ∷ [])), omega (arith, less), same)

-- `Close` leaves no idle connection in a pool that is within its bound.
pub drain-all :
    (n : ℕ) (clients : List ℕ) (w : World)
    → length clients ≤ n
    → drain n clients w ≡ ([], close_clients clients w)
unfolding drain close_clients
drain-all zero [] w h = refl
drain-all zero (c ∷ clients) w h = absurd (omega (arith, h))
drain-all (suc n) [] w h = refl
drain-all (suc n) (c ∷ clients) w h = drain-all n clients (close_client c w) (omega (arith, h))

-- A world without connections.
abbrev pub fresh : World
fresh = record { dials = 0; opened = []; closed = [] }

module _ (d : Dialer) where
  get-sizes :
      (p p' : DevicePool) (w w' : World) (x : Option ℕ)
      → get_client d p w ≡ (x, (p', w'))
      → (p'.config ≡ p.config)
        × (length p'.clients ≤ length p.clients)
        × (w'.closed ≡ w.closed)
        × (length w'.opened + length p.clients
            ≡ length w.opened + length p'.clients + (elim x [ none ↦ 0 | some _ ↦ 1 ]))
  unfolding get_client dial
  get-sizes p p' w w' x h = elim (List-cases p.clients) [
    | inr (c, cs, full) ↦ ground (arith, full, h)
    | inl empty ↦
        elim (Option-cases (d.fails w.dials p.config.address p.config.username p.config.password)) [
          | inl fine ↦ ground (arith, empty, fine, h, length-append w.opened (w.dials ∷ []))
          | inr (why, bad) ↦ ground (arith, empty, bad, h)
        ]
  ]

  return-sizes :
      (p p' : DevicePool) (w w' : World) (c : ℕ)
      → return_client (some c) p w ≡ (p', w')
      → (p'.config ≡ p.config)
        × (length p.clients ≤ capacity p.config → length p'.clients ≤ capacity p.config)
        × (w'.opened ≡ w.opened)
        × (length w'.closed + length p'.clients ≡ suc (length w.closed + length p.clients))
  unfolding return_client
  return-sizes p p' w w' c h = elim (Bool-cases (ltb (length p.clients) (capacity p.config))) [
    | inl b ↦ ground (arith, b, h, length-append p.clients (c ∷ []))
    | inr b ↦ ground (arith, b, h, length-append w.closed (c ∷ []))
  ]

  closed-Accounts :
      (p : DevicePool) (w : World) (n : ℕ)
      → Accounts (record { pool = p; world = w; lent = n })
      → Accounts (record { pool = (close_pool p w).0; world = (close_pool p w).1; lent = n })
  unfolding close_pool
  closed-Accounts p w n a =
      let (sizes, less, same) = drain-sizes (capacity p.config) p.clients w in
      record { kept = rw same (omega (arith, sizes, a.kept)); bound = omega (arith, less, a.bound) }

  Step-Accounts : (s s' : PoolState) → Step d s s' → Accounts s → Accounts s'
  Step-Accounts _ _ (taken p p' w w' n c h) a =
      let (same, less, closed, opened) = get-sizes p p' w w' (some c) h in
      record {
        kept = rw closed (omega (arith, opened, a.kept));
        bound = rw same (omega (arith, less, a.bound));
      }
  Step-Accounts _ _ (refused p p' w w' n h) a =
      let (same, less, closed, opened) = get-sizes p p' w w' none h in
      record {
        kept = rw closed (omega (arith, opened, a.kept));
        bound = rw same (omega (arith, less, a.bound));
      }
  Step-Accounts _ _ (returned p p' w w' n c h) a =
      let (same, less, opened, closed) = return-sizes p p' w w' c h in
      record { kept = rw opened (omega (arith, closed, a.kept)); bound = rw same (less a.bound) }
  Step-Accounts _ _ (drained p p' w w' n h) a =
      subst (λ (r : DevicePool × World). Accounts (record { pool = r.0; world = r.1; lent = n })) h
        (closed-Accounts p w n a)

  -- However callers take, return and close from a pool that `newDevicePool` made, at every moment
  -- the connections ever opened are as many as those closed, those idle in the pool and those lent
  -- to callers together, and the idle ones are never more than the capacity of the pool.
  pub pool-Steps-Accounts :
      (c : DeviceConfig) (p : DevicePool) (w : World) (s : PoolState)
      → new_device_pool d c fresh ≡ (ok p, w)
      → Steps d (record { pool = p; world = w; lent = 0 }) s
      → Accounts s
  pool-Steps-Accounts c p w s made steps =
      along _ _ steps (start (subst (Made c fresh) made (new_device_pool-Made d c fresh)))
    where
      start : Made c fresh (ok p, w) → Accounts (record { pool = p; world = w; lent = 0 })
      start (same, size, opened, closed) = record {
        kept = rw (opened, closed) (omega arith);
        bound = rw same (omega (arith, size));
      }

      along : (s s' : PoolState) → Steps d s s' → Accounts s → Accounts s'
      along _ _ (Steps.done _) a = a
      along _ _ (also s s' s'' steps one) a = Step-Accounts s' s'' one (along s s' steps a)

  -- A pool and a world that add up, with `n` connections lent.
  abbrev Left : ℕ → DevicePool × World → Type 0
  Left n (p, w) = Accounts (record { pool = p; world = w; lent = n })

  -- `Execute` gives back the connection that it took, whatever the device answers: a pool that adds
  -- up does so again, with as many connections lent as before.
  pub execute-Accounts :
      (run : ℕ → List String → Outcome (List (List (String × String)))) (command : String)
      (args : List String) (p : DevicePool) (w : World) (n : ℕ)
      → Accounts (record { pool = p; world = w; lent = n })
      → Accounts (record {
        pool = (execute d run command args p w).1.0;
        world = (execute d run command args p w).1.1;
        lent = n;
      })
  unfolding execute
  execute-Accounts run command args p w n a = split (get_client d p w) refl
    where
      ran :
          Option ℕ × (DevicePool × World)
          → Outcome (List (List (String × String))) × (DevicePool × World)
      ran (none, (p', w')) = (err "failed to get client from pool", (p', w'))
      ran (some client, (p', w')) = (run client (command ∷ args), return_client (some client) p' w')

      split : (r : Option ℕ × (DevicePool × World)) → get_client d p w ≡ r → Left n (ran r).1
      split (none, (p', w')) g = Step-Accounts _ _ (refused p p' w w' n g) a
      split (some c, (p', w')) g =
          Step-Accounts _ _ (returned p' _ w' _ n c refl)
            (Step-Accounts _ _ (taken p p' w w' n c g) a)
