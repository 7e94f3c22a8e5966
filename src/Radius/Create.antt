-- ===== src/Radius/Create.antt =====
-- `CreateHotspotUser`, `GetHotspotUser` and `DeleteHotspotUser` of
-- server/handler/hotspot_user.go.
pub mod Written
pub mod Created
pub mod Deleted
use wifigo.Base.{String, Bool, true, false, Option, none, some, List, [], ◌∷◌, if◌then◌else◌}
use wifigo.Base.Int.{ℤ, pos}
use wifigo.Base.Texts.{◌==◌, concat}
use wifigo.Base.Outcome.{Outcome, ok, err}
use wifigo.Radius.Rows.{Tables, AttrInput, RadUserGroupInput, HotspotUserInput, HotspotUser}
use wifigo.Radius.Engine.{
  Session, direct, Engine, checks, replies, delete_user_attrs, delete_user_groups,
}
use wifigo.Radius.Queries.{
  user_exists, insert_rad_check, insert_rad_reply, insert_rad_user_group, get_rad_check_attributes,
  get_rad_reply_attributes, get_rad_user_groups,
}
use wifigo.Radius.Transaction.{
  Response, text, details, refuse, failed, Tx, go, stop, pure, ◌>>=◌, ◌>>◌, write, query, stop_if,
  for_each, Result, in_transaction,
}

abbrev pub default_op : String
default_op = ":="

-- `op := attr.Op; if op == "" { op = defaultOp }`
unfoldable pub op_or_default : String → String
op_or_default op = if op == "" then default_op else op

-- `priority := 1; if group.Priority != nil { … }`
abbrev pub priority_or_default : Option ℤ → ℤ
priority_or_default none = pos 1
priority_or_default (some p) = p

-- `range` over a slice that may be nil.
abbrev pub items {ℓ} : {A : Type ℓ} → Option (List A) → List A
items none = []
items (some xs) = xs

-- The error of an attribute or group, `fmt.Sprintf("… '%s': %s", …)`.
abbrev pub failed_for : String → String → String → Response
failed_for what name why = refuse 500 (concat what (concat name (concat "': " why)))

-- The password of a new user, or `Auth-Type := Accept` where there is none.
unfoldable pub add_credentials : Engine → Session → String → Option String → Tx (Unit {0})
add_credentials e s u none =
    write (insert_rad_check e s u "Auth-Type" default_op "Accept") (failed "Failed to add accept: ")
add_credentials e s u (some password) =
    if password == ""
    then write (insert_rad_check e s u "Auth-Type" default_op "Accept")
        (failed "Failed to add accept: ")
    else write (insert_rad_check e s u "Cleartext-Password" default_op password)
        (failed "Failed to add password: ")

unfoldable pub add_check : Engine → Session → String → AttrInput → Tx (Unit {0})
unfolding op_or_default
add_check e s u a =
    write (insert_rad_check e s u a.attribute (op_or_default a.op) a.value)
      (failed_for "Failed to add check attribute '" a.attribute)

unfoldable pub add_reply : Engine → Session → String → AttrInput → Tx (Unit {0})
unfolding op_or_default
add_reply e s u a =
    write (insert_rad_reply e s u a.attribute (op_or_default a.op) a.value)
      (failed_for "Failed to add reply attribute '" a.attribute)

unfoldable pub add_group : Engine → Session → String → RadUserGroupInput → Tx (Unit {0})
add_group e s u g =
    write (insert_rad_user_group e s u g.groupname (priority_or_default g.priority))
      (failed_for "Failed to add user to group '" g.groupname)

unfoldable pub create_steps : Engine → HotspotUserInput → Session → Tx Response
create_steps e input s = do
  exists ← query (user_exists e s input.username) (failed "Failed to check if user exists: ")
  stop_if exists (refuse 409 "User already exists")
  add_credentials e s input.username input.password
  for_each (add_check e s input.username) (items input.check_attributes)
  for_each (add_reply e s input.username) (items input.reply_attributes)
  for_each (add_group e s input.username) (items input.groups)
  pure (record {
    body =
        ("message", text "Hotspot user created successfully")
        ∷ ("username", text input.username)
        ∷ [];
    status = 201;
  })

unfoldable pub create_hotspot_user : Engine → HotspotUserInput → Tables → Result
create_hotspot_user e input = in_transaction e (create_steps e input)

-- The answer of a handler that only reads.
abbrev answered : Tx Response → Tables → Response
answered m t = elim (m t) [ go r _ ↦ r | stop r ↦ r ]

unfoldable pub get_hotspot_user : Engine → String → Tables → Response
get_hotspot_user e username = answered do
  exists ← query (user_exists e direct username) (failed "Failed to check if user exists: ")
  stop_if (if exists then false else true) (refuse 404 "User not found")
  check_attrs ←
      query (get_rad_check_attributes e username) (failed "Failed to get check attributes: ")
  reply_attrs ←
      query (get_rad_reply_attributes e username) (failed "Failed to get reply attributes: ")
  groups ← query (get_rad_user_groups e username) (failed "Failed to get group memberships: ")
  pure (record {
    body =
        (
          "user",
          details (record {
            username = username;
            check_attributes = check_attrs;
            reply_attributes = reply_attrs;
            groups = groups;
          }),
        )
        ∷ [];
    status = 200;
  })

unfoldable pub delete_steps : Engine → String → Session → Tx Response
delete_steps e username s = do
  write (e.exec s (delete_user_attrs checks username)) (failed "Failed to delete from radcheck: ")
  write (e.exec s (delete_user_attrs replies username)) (failed "Failed to delete from radreply: ")
  write (e.exec s (delete_user_groups username)) (failed "Failed to delete from radusergroup: ")
  pure (record {
    body = ("message", text "Hotspot user deleted successfully") ∷ ("username", text username) ∷ [];
    status = 200;
  })

unfoldable pub delete_hotspot_user : Engine → String → Tables → Result
delete_hotspot_user e username t = elim (user_exists e direct username t) [
  | err why ↦ (failed "Failed to check if user exists: " why, t)
  | ok false ↦ (refuse 404 "User not found", t)
  | ok true ↦ in_transaction e (delete_steps e username) t
]
