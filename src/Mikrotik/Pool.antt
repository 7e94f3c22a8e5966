-- ===== src/Mikrotik/Pool.antt =====
-- `DevicePool` of mikrotik/manager.go: a bounded queue of connections to one device. A connection is
-- the number of the dial that made it. What `routeros.Dial` answers is a parameter.
pub mod Creation
pub mod Accounting
use wifigo.Base.{
  ℕ, zero, suc, String, Bool, true, false, Option, none, some, List, [], ◌∷◌, ◌++◌, ltb,
  if◌then◌else◌,
}
use wifigo.Base.Int.{ℤ, pos, negsuc}
use wifigo.Base.Texts.{concat}
use wifigo.Base.Lists.{length}
use wifigo.Base.Outcome.{Outcome, ok, err}

-- `config.DeviceConfig`
pub record DeviceConfig : Type 0 where
  pub id : String
  pub name : String
  pub address : String
  pub port : String
  pub username : String
  pub password : String
  pub pool_size : ℤ
  pub isp_id : String
  pub description : String

-- The dials that were made, and the connections that were opened and closed, in order.
pub record World : Type 0 where
  pub dials : ℕ
  pub opened : List ℕ
  pub closed : List ℕ

pub record DevicePool : Type 0 where
  pub config : DeviceConfig
  pub clients : List ℕ

-- What the pools use of other packages.
pub record Dialer : Type 0 where
  -- `routeros.Dial`: the error of the dial with this number, for an address, a user and a password.
  pub fails : ℕ → String → String → String → Option String
  -- `%d`
  pub decimal : ℕ → String

unfoldable pub dial : Dialer → String → String → String → World → Outcome ℕ × World
dial d address username password w = elim (d.fails w.dials address username password) [
  | some why ↦ (err why, record w { dials = suc w.dials })
  | none ↦ (
    ok w.dials,
    record { dials = suc w.dials; opened = w.opened ++ w.dials ∷ []; closed = w.closed },
  )
]

-- `client.Close()`
abbrev pub close_client : ℕ → World → World
close_client c w = record w { closed = w.closed ++ c ∷ [] }

-- `for j := 0; j < i; j++ { client := <-p.clients; client.Close() }`
unfoldable pub close_clients : List ℕ → World → World
close_clients [] w = w
close_clients (c ∷ clients) w = close_clients clients (close_client c w)

-- `cap(p.clients)`; `AddDevice` lets no other size through than a positive one.
unfoldable pub capacity : DeviceConfig → ℕ
capacity c = elim c.pool_size [ pos n ↦ n | negsuc _ ↦ 0 ]

-- The address with the port, as `newDevicePool` dials it.
abbrev pub endpoint : DeviceConfig → String
endpoint c = concat c.address (concat ":" c.port)

-- The loop of `newDevicePool`, with the connections made so far and the number left to make.
unfoldable pub fill : Dialer → DeviceConfig → ℕ → List ℕ → World → Outcome DevicePool × World
fill d c zero clients w = (ok (record { config = c; clients = clients }), w)
fill d c (suc n) clients w =
    let (r, w') = dial d (endpoint c) c.username c.password w in
    elim r [
      | ok client ↦ fill d c n (clients ++ client ∷ []) w'
      | err why ↦ (
        err (
            concat "failed to create client "
              (concat (d.decimal (length clients)) (concat ": " why))),
        close_clients clients w',
      )
    ]

unfoldable pub new_device_pool : Dialer → DeviceConfig → World → Outcome DevicePool × World
new_device_pool d c w = fill d c (capacity c) [] w

-- `GetClient`. A receive that another goroutine serves within the five seconds is one that comes
-- after that return; the empty pool is then the case of the timeout.
unfoldable pub get_client : Dialer → DevicePool → World → Option ℕ × (DevicePool × World)
get_client d p w = received p.clients
  where
    dialled : Outcome ℕ × World → Option ℕ × (DevicePool × World)
    dialled (ok client, w') = (some client, (p, w'))
    dialled (err why, w') = (none, (p, w'))

    received : List ℕ → Option ℕ × (DevicePool × World)
    received (client ∷ clients) = (some client, (record p { clients = clients }, w))
    received [] = dialled (dial d p.config.address p.config.username p.config.password w)

-- `ReturnClient`
unfoldable pub return_client : Option ℕ → DevicePool → World → DevicePool × World
return_client none p w = (p, w)
return_client (some client) p w =
    if ltb (length p.clients) (capacity p.config)
    then (record p { clients = p.clients ++ client ∷ [] }, w)
    else (p, close_client client w)

-- `Execute`: `run` is `client.RunArgs`, on the command and its arguments, with the reply's maps.
unfoldable pub execute :
    Dialer
    → (ℕ → List String → Outcome (List (List (String × String))))
    → String
    → List String
    → DevicePool
    → World
    → Outcome (List (List (String × String))) × (DevicePool × World)
execute d run command args p w = got (get_client d p w)
  where
    got :
        Option ℕ × (DevicePool × World)
        → Outcome (List (List (String × String))) × (DevicePool × World)
    got (none, (p', w')) = (err "failed to get client from pool", (p', w'))
    got (some client, (p', w')) = (run client (command ∷ args), return_client (some client) p' w')

-- The loop of `Close`, `n` rounds of it being left.
unfoldable pub drain : ℕ → List ℕ → World → List ℕ × World
drain zero clients w = (clients, w)
drain (suc n) [] w = ([], w)
drain (suc n) (client ∷ clients) w = drain n clients (close_client client w)

-- `Close`
unfoldable pub close_pool : DevicePool → World → DevicePool × World
close_pool p w = (
  record p { clients = (drain (capacity p.config) p.clients w).0 },
  (drain (capacity p.config) p.clients w).1,
)
