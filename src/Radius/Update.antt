-- ===== src/Radius/Update.antt =====
-- `UpdateHotspotUser` of server/handler/hotspot_user.go.
pub mod Columns
pub mod Laws
pub mod Untouched
pub mod Steps
pub mod Updated
pub mod Stops
pub mod AllOrNothing
pub mod Wanted
mod Tests
use wifigo.Base.{
  ℕ, String, Bool, true, false, not, ◌&&◌, ◌||◌, Option, none, some, List, [], ◌∷◌, map,
  if◌then◌else◌,
}
use wifigo.Base.Int.{ℤ, eq_ℤ}
use wifigo.Base.Texts.{◌==◌}
use wifigo.Base.Outcome.{Outcome, ok, err}
use wifigo.Radius.Rows.{
  RadAttr, RadUserGroup, Tables, AttrInput, RadUserGroupInput, HotspotUserInput,
}
use wifigo.Radius.Engine.{Session, direct, tx, Engine}
use wifigo.Radius.Queries.{
  user_exists, insert_rad_check, insert_rad_reply, insert_rad_user_group,
  update_rad_check_attribute_tx, update_rad_reply_attribute_tx, update_rad_user_group_tx,
  delete_rad_check_attribute_tx, delete_rad_reply_attribute_tx, delete_rad_user_group_tx,
  get_rad_check_attributes_tx, get_rad_reply_attributes_tx, get_rad_user_groups_tx,
}
use wifigo.Radius.Transaction.{
  Response, text, refuse, failed, Tx, go, stop, pure, ◌>>=◌, ◌>>◌, write, query, Result, finish,
}
use wifigo.Radius.Create.{default_op, op_or_default, priority_or_default, failed_for}
use wifigo.Radius.Sync.{Column, index_by, sync}

-- An operator and a value.
abbrev pub Setting : Type 0
Setting = String × String

unfoldable pub check_column : Engine → Session → String → Column Setting
check_column e s u = record {
  same = λ (old : Setting) (new : Setting). old.0 == new.0 && old.1 == new.1;
  update_row = λ a (p : Setting).
      write (update_rad_check_attribute_tx e s u a p.0 p.1)
        (failed_for "Failed to update check attribute '" a);
  insert_row = λ a (p : Setting).
      write (insert_rad_check e s u a p.0 p.1) (failed_for "Failed to add check attribute '" a);
  delete_rows = λ a.
      write (delete_rad_check_attribute_tx e s u a)
        (failed_for "Failed to delete check attribute '" a);
}

unfoldable pub reply_column : Engine → Session → String → Column Setting
reply_column e s u = record {
  same = λ (old : Setting) (new : Setting). old.0 == new.0 && old.1 == new.1;
  update_row = λ a (p : Setting).
      write (update_rad_reply_attribute_tx e s u a p.0 p.1)
        (failed_for "Failed to update reply attribute '" a);
  insert_row = λ a (p : Setting).
      write (insert_rad_reply e s u a p.0 p.1) (failed_for "Failed to add reply attribute '" a);
  delete_rows = λ a.
      write (delete_rad_reply_attribute_tx e s u a)
        (failed_for "Failed to delete reply attribute '" a);
}

unfoldable pub group_column : Engine → Session → String → Column ℤ
group_column e s u = record {
  same = eq_ℤ;
  update_row =
      λ g p. write (update_rad_user_group_tx e s u g p) (failed_for "Failed to update group '" g);
  insert_row =
      λ g p. write (insert_rad_user_group e s u g p) (failed_for "Failed to add user to group '" g);
  delete_rows = λ g.
      write (delete_rad_user_group_tx e s u g) (failed_for "Failed to remove user from group '" g);
}

-- `currentAttrMap[attr.Attribute] = attr`, in the order of the rows.
unfoldable pub attr_map : List RadAttr → List (String × Setting)
unfolding index_by
attr_map rows = index_by (λ r. r.attribute) (λ r. (r.op, r.value)) (λ _. false) rows []

-- The same for the check attributes, where the password is skipped.
unfoldable pub check_map : List RadAttr → List (String × Setting)
unfolding index_by
check_map rows =
    index_by (λ r. r.attribute) (λ r. (r.op, r.value)) (λ r. r.attribute == "Cleartext-Password")
      rows []

unfoldable pub group_map : List RadUserGroup → List (String × ℤ)
unfolding index_by
group_map rows = index_by (λ r. r.groupname) (λ r. r.priority) (λ _. false) rows []

abbrev pub attr_item : AttrInput → String × Setting
attr_item a = (a.attribute, (if a.op == "" then default_op else a.op, a.value))

abbrev pub group_item : RadUserGroupInput → String × ℤ
group_item g = (g.groupname, priority_or_default g.priority)

-- The password of the request; the result is `authTypeAdded`.
unfoldable pub update_password : Engine → Session → String → Option String → Tx Bool
update_password e s u none =
    write (insert_rad_check e s u "Auth-Type" default_op "Accept") (failed "Failed to add accept: ")
    >> pure true
update_password e s u (some password) =
    write (delete_rad_check_attribute_tx e s u "Cleartext-Password")
      (failed "Failed to update password: ")
    >> ((if password == ""
          then pure tt
          else write (insert_rad_check e s u "Cleartext-Password" default_op password)
              (failed "Failed to update password: "))
        >> pure false)

-- `shouldPreserve`
unfoldable pub should_preserve : Bool → String → Bool
should_preserve auth_type_added a = a == "Cleartext-Password" || auth_type_added && a == "Auth-Type"

unfoldable pub update_checks :
    Engine → Session → String → Bool → Option (List AttrInput) → Tx (Unit {0})
update_checks e s u added none = pure tt
update_checks e s u added (some inputs) = do
  rows ←
      query (get_rad_check_attributes_tx e s u) (failed "Failed to get current check attributes: ")
  sync (check_column e s u) (should_preserve added) (check_map rows) (map attr_item inputs)

unfoldable pub update_replies : Engine → Session → String → Option (List AttrInput) → Tx (Unit {0})
update_replies e s u none = pure tt
update_replies e s u (some inputs) = do
  rows ←
      query (get_rad_reply_attributes_tx e s u) (failed "Failed to get current reply attributes: ")
  sync (reply_column e s u) (λ _. false) (attr_map rows) (map attr_item inputs)

unfoldable pub update_groups :
    Engine → Session → String → Option (List RadUserGroupInput) → Tx (Unit {0})
update_groups e s u none = pure tt
update_groups e s u (some inputs) = do
  rows ← query (get_rad_user_groups_tx e s u) (failed "Failed to get current groups: ")
  sync (group_column e s u) (λ _. false) (group_map rows) (map group_item inputs)

unfoldable pub update_steps : Engine → HotspotUserInput → Session → Tx Response
update_steps e i s = do
  added ← update_password e s i.username i.password
  update_checks e s i.username added i.check_attributes
  update_replies e s i.username i.reply_attributes
  update_groups e s i.username i.groups
  pure (record {
    body =
        ("message", text "Hotspot user updated successfully") ∷ ("username", text i.username) ∷ [];
    status = 200;
  })

-- After `tx := db.Begin()` the source tests a stale `err` and never `tx.Error`, so the steps run
-- also where the transaction has not begun.
unfoldable pub update_hotspot_user : Engine → HotspotUserInput → Tables → Result
update_hotspot_user e i t = elim (user_exists e direct i.username t) [
  | err why ↦ (failed "Failed to check if user exists: " why, t)
  | ok false ↦ (refuse 404 "User not found", t)
  | ok true ↦ finish e t (update_steps e i (tx (e.begin t)) t)
]
