-- ===== src/Mikrotik/Manager/Devices.antt =====
-- What adding and removing a device does to the manager and to the connections.
use wifigo.Base.{
  ℕ, ◌≤◌, String, Bool, true, false, ◌≡◌, ◌≢◌, refl, sym, Option, none, some, List, [], ◌++◌,
  if◌then◌else◌,
}
use mathlib.Core.List.{append-nil}
use wifigo.Base.Texts.{◌==◌, test_self, test_ne, concat}
use wifigo.Base.Lists.{length, lookup, insert, erase, lookup-insert, lookup-erase}
use wifigo.Base.Outcome.{Outcome, ok, err}
use wifigo.Mikrotik.Pool.{
  DeviceConfig, World, DevicePool, Dialer, capacity, new_device_pool, close_pool,
}
use wifigo.Mikrotik.Pool.Creation.{Made, new_device_pool-Made, close_clients-closed}
use wifigo.Mikrotik.Pool.Accounting.{drain-all, drain-sizes}
use wifigo.Mikrotik.Manager.{Manager, with_size, add_device, remove_device}

-- What `AddDevice` leaves behind: where it fails, the devices are as they were, and each
-- connection that it opened is closed; else the device has a full pool of new connections, the
-- other devices have the pools that they had, and no connection has been closed.
abbrev pub Added : DeviceConfig → Manager → World → Option String × (Manager × World) → Type 0
Added c m w (some why, (m', w')) =
    (m' ≡ m) × ((cs : List ℕ) × (w'.opened ≡ w.opened ++ cs) × (w'.closed ≡ w.closed ++ cs))
Added c m w (none, (m', w')) =
    ((id : String) → id ≢ c.id → lookup id m' ≡ lookup id m)
    × ((p : DevicePool) × (lookup c.id m' ≡ some p)
        × (p.config ≡ with_size c)
        × (length p.clients ≡ capacity (with_size c))
        × (w'.opened ≡ w.opened ++ p.clients)
        × (w'.closed ≡ w.closed))

-- `AddDevice` of a manager fails, and then its devices are as they were, and each connection that
-- it opened is closed again; or it succeeds, and then the device has a full pool of connections
-- that were opened for it, the other devices have the pools that they had, and no connection has
-- been closed. So a pool that the device had before loses its connections without closing them.
pub add_device-Added :
    (d : Dialer) (c : DeviceConfig) (m : Manager) (w : World) → Added c m w (add_device d c m w)
unfolding add_device
add_device-Added d c m w = named (c.id == "")
  where
    made : Outcome DevicePool × World → Option String × (Manager × World)
    made (err why, w') = (some why, (m, w'))
    made (ok pool, w') = (none, (insert c.id pool m, w'))

    other :
        (pool : DevicePool) (id : String) → id ≢ c.id → lookup id (insert c.id pool m) ≡ lookup id m
    other pool id ne = rw (lookup-insert c.id id pool m, test_ne c.id id (λ h. ne (sym h)))

    there : (pool : DevicePool) → lookup c.id (insert c.id pool m) ≡ some pool
    there pool = rw (lookup-insert c.id c.id pool m, test_self c.id)

    pooled : (r : Outcome DevicePool × World) → Made (with_size c) w r → Added c m w (made r)
    pooled (err why, w') (cs, opened, closed) = (refl, (cs, opened, closed))
    pooled (ok pool, w') (same, size, opened, closed) =
        (other pool, (pool, there pool, same, size, opened, closed))

    named :
        (b : Bool)
        → Added c m w (
            if b
            then (some "device ID cannot be empty", (m, w))
            else made (new_device_pool d (with_size c) w))
    named true = (refl, ([], sym (append-nil w.opened), sym (append-nil w.closed)))
    named false = pooled _ (new_device_pool-Made d (with_size c) w)

-- What `RemoveDevice` leaves behind.
abbrev pub RemovedDevice : String → Manager → World → Option String × (Manager × World) → Type 0
RemovedDevice id m w (some why, (m', w')) = (lookup id m ≡ none) × (m' ≡ m) × (w' ≡ w)
RemovedDevice id m w (none, (m', w')) =
    ((j : String) → lookup j m' ≡ (if id == j then none else lookup j m))
    × ((p : DevicePool) × (lookup id m ≡ some p)
        × (w'.closed ≡ w.closed ++ p.clients)
        × (w'.opened ≡ w.opened))

-- `RemoveDevice` fails, and then there is no such device, and nothing has changed; or it succeeds,
-- and then the device is gone, the other devices have the pools that they had, and all idle
-- connections of its pool have been closed, in order. The idle connections of the device are
-- assumed to be within the bound of their pool.
pub remove_device-RemovedDevice :
    (id : String) (m : Manager) (w : World)
    → ((p : DevicePool) → lookup id m ≡ some p → length p.clients ≤ capacity p.config)
    → RemovedDevice id m w (remove_device id m w)
unfolding remove_device close_pool
remove_device-RemovedDevice id m w few = split (lookup id m) refl
  where
    split :
        (x : Option DevicePool)
        → lookup id m ≡ x
        → RemovedDevice id m w (elim x [
          | none ↦ (some (concat "no device with ID " (concat id " found")), (m, w))
          | some pool ↦ (none, (erase id m, (close_pool pool w).1))
        ])
    split none h = (h, refl, refl)
    split (some pool) h = (
      λ j. lookup-erase id j m,
      (pool, h, closed, (drain-sizes (capacity pool.config) pool.clients w).2),
    )
      where
        closed : (close_pool pool w).1.closed ≡ w.closed ++ pool.clients
        closed =
            rw (drain-all (capacity pool.config) pool.clients w (few pool h))
              (close_clients-closed pool.clients w).0
