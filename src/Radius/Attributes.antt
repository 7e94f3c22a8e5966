-- ===== src/Radius/Attributes.antt =====
-- The single-row handlers of server/handler/hotspot_user.go, outside any transaction:
-- `AddOrUpdateRadCheckAttribute`, `DeleteRadCheckAttribute`, the same for replies, `AddRadUserGroup`
-- and `DeleteRadUserGroup`.
pub mod Guard
pub mod Upsert
pub mod Removal
use wifigo.Base.{String, Bool, true, false, Option, List, [], ◌∷◌, if◌then◌else◌}
use wifigo.Base.Int.{ℤ}
use wifigo.Base.Outcome.{Outcome, ok, err}
use wifigo.Radius.Rows.{Tables, AttrInput, RadUserGroupInput}
use wifigo.Radius.Engine.{direct, Engine}
use wifigo.Radius.Queries.{
  user_exists, insert_rad_check, insert_rad_reply, insert_rad_user_group,
  update_rad_check_attribute, update_rad_reply_attribute, update_rad_user_group,
  delete_rad_check_attribute, delete_rad_reply_attribute, delete_rad_user_group,
  check_attribute_exists, reply_attribute_exists, user_group_exists,
}
use wifigo.Radius.Transaction.{
  Response, text, number, refuse, failed, Flow, Tx, go, stop, pure, ◌>>=◌, ◌>>◌, write, query,
  stop_if, Result,
}
use wifigo.Radius.Create.{op_or_default, priority_or_default}

-- The end of a handler without a transaction. Each of these handlers writes by its last statement
-- only, so where it stops, the tables are those that it began with.
unfoldable pub unguarded : Tx Response → Tables → Result
unguarded m t = elim (m t) [ go r t' ↦ (r, t') | stop r ↦ (r, t) ]

-- The test that opens every handler.
unfoldable pub require_user : Engine → String → Tx (Unit {0})
require_user e username = do
  exists ← query (user_exists e direct username) (failed "Failed to check if user exists: ")
  stop_if (if exists then false else true) (refuse 404 "User not found")

unfoldable pub add_or_update_rad_check_attribute : Engine → String → AttrInput → Tables → Result
unfolding op_or_default
add_or_update_rad_check_attribute e username input = unguarded do
  require_user e username
  exists ←
      query (check_attribute_exists e username input.attribute)
        (failed "Failed to check if attribute exists: ")
  (if exists
      then write
          (update_rad_check_attribute e username input.attribute (op_or_default input.op)
            input.value)
          (failed "Failed to update attribute: ")
      else write
          (insert_rad_check e direct username input.attribute (op_or_default input.op) input.value)
          (failed "Failed to add attribute: "))
  pure (record {
    body =
        ("message", text "Attribute updated successfully")
        ∷ ("username", text username)
        ∷ ("attribute", text input.attribute)
        ∷ ("value", text input.value)
        ∷ [];
    status = 200;
  })

unfoldable pub delete_rad_check_attribute_of : Engine → String → String → Tables → Result
delete_rad_check_attribute_of e username attribute = unguarded do
  require_user e username
  exists ←
      query (check_attribute_exists e username attribute)
        (failed "Failed to check if attribute exists: ")
  stop_if (if exists then false else true) (refuse 404 "Attribute not found")
  write (delete_rad_check_attribute e username attribute) (failed "Failed to delete attribute: ")
  pure (record {
    body =
        ("message", text "Attribute deleted successfully")
        ∷ ("username", text username)
        ∷ ("attribute", text attribute)
        ∷ [];
    status = 200;
  })

unfoldable pub add_or_update_rad_reply_attribute : Engine → String → AttrInput → Tables → Result
unfolding op_or_default
add_or_update_rad_reply_attribute e username input = unguarded do
  require_user e username
  exists ←
      query (reply_attribute_exists e username input.attribute)
        (failed "Failed to check if attribute exists: ")
  (if exists
      then write
          (update_rad_reply_attribute e username input.attribute (op_or_default input.op)
            input.value)
          (failed "Failed to update attribute: ")
      else write
          (insert_rad_reply e direct username input.attribute (op_or_default input.op) input.value)
          (failed "Failed to add attribute: "))
  pure (record {
    body =
        ("message", text "Reply attribute updated successfully")
        ∷ ("username", text username)
        ∷ ("attribute", text input.attribute)
        ∷ ("value", text input.value)
        ∷ [];
    status = 200;
  })

unfoldable pub delete_rad_reply_attribute_of : Engine → String → String → Tables → Result
delete_rad_reply_attribute_of e username attribute = unguarded do
  require_user e username
  exists ←
      query (reply_attribute_exists e username attribute)
        (failed "Failed to check if attribute exists: ")
  stop_if (if exists then false else true) (refuse 404 "Attribute not found")
  write (delete_rad_reply_attribute e username attribute) (failed "Failed to delete attribute: ")
  pure (record {
    body =
        ("message", text "Reply attribute deleted successfully")
        ∷ ("username", text username)
        ∷ ("attribute", text attribute)
        ∷ [];
    status = 200;
  })

unfoldable pub add_rad_user_group : Engine → String → RadUserGroupInput → Tables → Result
add_rad_user_group e username input = unguarded do
  require_user e username
  exists ←
      query (user_group_exists e username input.groupname)
        (failed "Failed to check if user is in group: ")
  (if exists
      then write
          (update_rad_user_group e username input.groupname (priority_or_default input.priority))
          (failed "Failed to update user group: ")
      else write
          (insert_rad_user_group e direct username input.groupname
            (priority_or_default input.priority))
          (failed "Failed to add user to group: "))
  pure (record {
    body =
        ("message", text "User added to group successfully")
        ∷ ("username", text username)
        ∷ ("groupname", text input.groupname)
        ∷ ("priority", number (priority_or_default input.priority))
        ∷ [];
    status = 200;
  })

unfoldable pub delete_rad_user_group_of : Engine → String → String → Tables → Result
delete_rad_user_group_of e username groupname = unguarded do
  require_user e username
  exists ←
      query (user_group_exists e username groupname)
        (failed "Failed to check if user is in group: ")
  stop_if (if exists then false else true) (refuse 404 "User is not a member of this group")
  write (delete_rad_user_group e username groupname) (failed "Failed to delete user from group: ")
  pure (record {
    body =
        ("message", text "User removed from group successfully")
        ∷ ("username", text username)
        ∷ ("groupname", text groupname)
        ∷ [];
    status = 200;
  })
