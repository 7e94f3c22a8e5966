-- ===== src/Mikrotik/Tests.antt =====
-- The pools and the manager on small inputs.
use wifigo.Base.{
  ◌≤◌, subst, ℕ, String, ◌≡◌, refl, none, some, List, [], ◌∷◌, if◌then◌else◌, eqb, arith,
}
use wifigo.Base.Int.{pos}
use wifigo.Base.Lists.{length, lookup}
use wifigo.Base.Texts.{◌==◌}
use wifigo.Base.Outcome.{Outcome, ok}
use wifigo.Mikrotik.Pool.{
  DeviceConfig, World, DevicePool, Dialer, capacity, new_device_pool, get_client, execute,
}
use wifigo.Mikrotik.Pool.Creation.{Made, new_device_pool-Made}
use wifigo.Mikrotik.Pool.Accounting.{
  PoolState, Step, taken, Steps, also, Accounts, fresh, pool-Steps-Accounts, execute-Accounts,
}
use wifigo.Mikrotik.Manager.{add_device, remove_device}
use wifigo.Mikrotik.Manager.Devices.{
  Added, add_device-Added, RemovedDevice, remove_device-RemovedDevice,
}

abbrev router : DeviceConfig
router = record {
  id = "r1";
  name = "router";
  address = "10.0.0.1";
  port = "8728";
  username = "admin";
  password = "pw";
  pool_size = pos 2;
  isp_id = "isp";
  description = "";
}

-- The third dial fails.
abbrev dialer : Dialer
dialer = record { fails = λ n _ _ _. if eqb n 2 then some "refused" else none; decimal = λ _. "0" }

abbrev full_pool : DevicePool
full_pool = record { config = router; clients = 0 ∷ 1 ∷ [] }

abbrev two_dialled : World
two_dialled = record { dials = 2; opened = 0 ∷ 1 ∷ []; closed = [] }

pool_made : new_device_pool dialer router fresh ≡ (ok full_pool, two_dialled)
unfolding new_device_pool wifigo.Mikrotik.Pool.fill wifigo.Mikrotik.Pool.dial
    wifigo.Mikrotik.Pool.capacity
pool_made = refl

new_device_pool-Made_example : Made router fresh (new_device_pool dialer router fresh)
new_device_pool-Made_example = new_device_pool-Made dialer router fresh

abbrev one_lent : PoolState
one_lent = record {
  pool = record { config = router; clients = 1 ∷ [] };
  world = two_dialled;
  lent = 1;
}

abbrev none_lent : PoolState
none_lent = record { pool = full_pool; world = two_dialled; lent = 0 }

one_taken : Step dialer none_lent one_lent
unfolding get_client
one_taken = taken full_pool one_lent.pool two_dialled two_dialled 0 0 refl

pool-Steps-Accounts_example : Accounts one_lent
pool-Steps-Accounts_example =
    pool-Steps-Accounts dialer router full_pool two_dialled one_lent pool_made
      (also none_lent none_lent one_lent (Steps.done none_lent) one_taken)

full_pool-Accounts : Accounts none_lent
unfolding wifigo.Mikrotik.Pool.capacity
full_pool-Accounts = record { kept = omega arith; bound = omega arith }

abbrev run_nothing : ℕ → List String → Outcome (List (List (String × String)))
run_nothing _ _ = ok []

execute-Accounts_example : Accounts (record {
  pool = (execute dialer run_nothing "/system/reboot" [] full_pool two_dialled).1.0;
  world = (execute dialer run_nothing "/system/reboot" [] full_pool two_dialled).1.1;
  lent = 0;
})
execute-Accounts_example =
    execute-Accounts dialer run_nothing "/system/reboot" [] full_pool two_dialled 0
      full_pool-Accounts

add_device-Added_example : Added router [] fresh (add_device dialer router [] fresh)
add_device-Added_example = add_device-Added dialer router [] fresh

full_pool_bound :
    (p : DevicePool)
    → lookup "r1" (("r1", full_pool) ∷ []) ≡ some p
    → length p.clients ≤ capacity p.config
unfolding lookup ◌==◌ capacity
full_pool_bound p h =
    let same : full_pool ≡ p = cc h in
    subst (λ (x : DevicePool). length x.clients ≤ capacity x.config) same (omega arith)

remove_device-RemovedDevice_example :
    RemovedDevice "r1"
      (("r1", full_pool) ∷ [])
      two_dialled
      (remove_device "r1" (("r1", full_pool) ∷ []) two_dialled)
remove_device-RemovedDevice_example =
    remove_device-RemovedDevice "r1" (("r1", full_pool) ∷ []) two_dialled full_pool_bound
