-- ===== src/Mikrotik/Manager.antt =====
-- `Manager` of mikrotik/manager.go: the pools of the devices, by device ID.
pub mod Devices
use wifigo.Base.{String, Bool, true, false, Option, none, some, List, [], ◌∷◌, map, if◌then◌else◌}
use wifigo.Base.Int.{ℤ, pos, negsuc, lt_ℤ}
use wifigo.Base.Texts.{◌==◌, concat}
use wifigo.Base.Lists.{filter, lookup, insert, erase}
use wifigo.Base.Outcome.{Outcome, ok, err}
use wifigo.Mikrotik.Pool.{DeviceConfig, World, DevicePool, Dialer, new_device_pool, close_pool}

-- `m.devices`
abbrev pub Manager : Type 0
Manager = List (String × DevicePool)

-- `if config.PoolSize <= 0 { config.PoolSize = 5 }`
unfoldable pub with_size : DeviceConfig → DeviceConfig
with_size c = if lt_ℤ (pos 0) c.pool_size then c else record c { pool_size = pos 5 }

unfoldable pub add_device :
    Dialer → DeviceConfig → Manager → World → Option String × (Manager × World)
add_device d c m w =
    if c.id == ""
    then (some "device ID cannot be empty", (m, w))
    else made (new_device_pool d (with_size c) w)
  where
    made : Outcome DevicePool × World → Option String × (Manager × World)
    made (err why, w') = (some why, (m, w'))
    made (ok pool, w') = (none, (insert c.id pool m, w'))

unfoldable pub get_device : String → Manager → Outcome DevicePool
get_device id m = elim (lookup id m) [
  | some pool ↦ ok pool
  | none ↦ err (concat "no device with ID " (concat id " found"))
]

-- A Go map is walked in an order of its own: this is one of them.
unfoldable pub get_devices_by_isp : String → Manager → List DevicePool
get_devices_by_isp isp m =
    map (λ (entry : String × DevicePool). entry.1)
      (filter (λ entry. entry.1.config.isp_id == isp) m)

unfoldable pub list_all_devices : Manager → List DeviceConfig
list_all_devices m = map (λ (entry : String × DevicePool). entry.1.config) m

unfoldable pub remove_device : String → Manager → World → Option String × (Manager × World)
remove_device id m w = elim (lookup id m) [
  | none ↦ (some (concat "no device with ID " (concat id " found")), (m, w))
  | some pool ↦ (none, (erase id m, (close_pool pool w).1))
]

-- The pools stay in the map, without their connections.
unfoldable pub close : Manager → World → Manager × World
close [] w = ([], w)
close ((id, pool) ∷ m) w =
    let rest = close m (close_pool pool w).1 in ((id, (close_pool pool w).0) ∷ rest.0, rest.1)
