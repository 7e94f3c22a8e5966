-- ===== src/Radius/Queries.antt =====
-- The helper functions at the end of server/handler/hotspot_user.go, which wrap one SQL statement
-- each. The variants with and without `Tx` differ by the session and by the text of the error.
pub mod Answers
use wifigo.Base.{ℕ, String, Bool, true, false, ◌≡◌, Option, none, some, List, ltb, if◌then◌else◌}
use wifigo.Base.Int.{ℤ}
use wifigo.Base.Outcome.{Outcome, ok, err, wrap}
use wifigo.Radius.Rows.{RadAttr, RadUserGroup, Tables}
use wifigo.Radius.Engine.{
  AttrTable, checks, replies, Statement, insert_attr, insert_group, update_attr, update_group,
  delete_attr, delete_group, Count, user_rows, attr_rows, group_rows, Session, direct, tx, Engine,
}

-- `count > 0`
abbrev positive : Outcome ℕ → Outcome Bool
positive (ok n) = ok (ltb 0 n)
positive (err why) = err why

-- The test `tx == nil` of the helpers that then look for a connection.
abbrev connected {ℓ} : {A : Type ℓ} → Engine → Session → Outcome A → Outcome A
connected e direct run = if e.available then run else err "database connection not available"
connected e (tx _) run = run

unfoldable pub user_exists : Engine → Session → String → Tables → Outcome Bool
user_exists e s u t =
    connected e s (positive (wrap "failed to query user existence: " (e.count s (user_rows u) t)))

unfoldable pub insert_rad_check :
    Engine → Session → String → String → String → String → Tables → Outcome Tables
insert_rad_check e s u a o v t =
    wrap "failed to insert into radcheck: " (e.exec s (insert_attr checks u a o v) t)

unfoldable pub insert_rad_reply :
    Engine → Session → String → String → String → String → Tables → Outcome Tables
insert_rad_reply e s u a o v t =
    connected e s
      (wrap "failed to insert into radreply: " (e.exec s (insert_attr replies u a o v) t))

unfoldable pub insert_rad_user_group :
    Engine → Session → String → String → ℤ → Tables → Outcome Tables
insert_rad_user_group e s u g p t =
    connected e s (wrap "failed to insert into radusergroup: " (e.exec s (insert_group u g p) t))

unfoldable pub get_rad_check_attributes : Engine → String → Tables → Outcome (List RadAttr)
get_rad_check_attributes e u t =
    wrap "failed to query radcheck attributes: " (e.select_attrs direct checks u t)

unfoldable pub get_rad_check_attributes_tx :
    Engine → Session → String → Tables → Outcome (List RadAttr)
get_rad_check_attributes_tx e s u t =
    wrap "failed to retrieve radcheck attributes (tx): " (e.select_attrs s checks u t)

unfoldable pub get_rad_reply_attributes : Engine → String → Tables → Outcome (List RadAttr)
get_rad_reply_attributes e u t =
    wrap "failed to query radreply attributes: " (e.select_attrs direct replies u t)

unfoldable pub get_rad_reply_attributes_tx :
    Engine → Session → String → Tables → Outcome (List RadAttr)
get_rad_reply_attributes_tx e s u t =
    wrap "failed to retrieve radreply attributes (tx): " (e.select_attrs s replies u t)

unfoldable pub get_rad_user_groups : Engine → String → Tables → Outcome (List RadUserGroup)
get_rad_user_groups e u t =
    wrap "failed to query radusergroup memberships: " (e.select_groups direct u t)

unfoldable pub get_rad_user_groups_tx :
    Engine → Session → String → Tables → Outcome (List RadUserGroup)
get_rad_user_groups_tx e s u t =
    wrap "failed to retrieve radusergroup memberships (tx): " (e.select_groups s u t)

unfoldable pub update_rad_check_attribute :
    Engine → String → String → String → String → Tables → Outcome Tables
update_rad_check_attribute e u a o v t =
    wrap "failed to update radcheck attribute: " (e.exec direct (update_attr checks o v u a) t)

unfoldable pub update_rad_check_attribute_tx :
    Engine → Session → String → String → String → String → Tables → Outcome Tables
update_rad_check_attribute_tx e s u a o v t =
    wrap "failed to update radcheck attribute (tx): " (e.exec s (update_attr checks o v u a) t)

unfoldable pub update_rad_reply_attribute :
    Engine → String → String → String → String → Tables → Outcome Tables
update_rad_reply_attribute e u a o v t =
    wrap "failed to update radreply attribute: " (e.exec direct (update_attr replies o v u a) t)

unfoldable pub update_rad_reply_attribute_tx :
    Engine → Session → String → String → String → String → Tables → Outcome Tables
update_rad_reply_attribute_tx e s u a o v t =
    wrap "failed to update radreply attribute (tx): " (e.exec s (update_attr replies o v u a) t)

unfoldable pub update_rad_user_group : Engine → String → String → ℤ → Tables → Outcome Tables
update_rad_user_group e u g p t =
    wrap "failed to update radusergroup: " (e.exec direct (update_group p u g) t)

unfoldable pub update_rad_user_group_tx :
    Engine → Session → String → String → ℤ → Tables → Outcome Tables
update_rad_user_group_tx e s u g p t =
    wrap "failed to update radusergroup (tx): " (e.exec s (update_group p u g) t)

unfoldable pub delete_rad_check_attribute : Engine → String → String → Tables → Outcome Tables
delete_rad_check_attribute e u a t =
    wrap "failed to delete radcheck attribute: " (e.exec direct (delete_attr checks u a) t)

unfoldable pub delete_rad_check_attribute_tx :
    Engine → Session → String → String → Tables → Outcome Tables
delete_rad_check_attribute_tx e s u a t =
    wrap "failed to delete radcheck attribute (tx): " (e.exec s (delete_attr checks u a) t)

unfoldable pub delete_rad_reply_attribute : Engine → String → String → Tables → Outcome Tables
delete_rad_reply_attribute e u a t =
    wrap "failed to delete radreply attribute: " (e.exec direct (delete_attr replies u a) t)

unfoldable pub delete_rad_reply_attribute_tx :
    Engine → Session → String → String → Tables → Outcome Tables
delete_rad_reply_attribute_tx e s u a t =
    wrap "failed to delete radreply attribute (tx): " (e.exec s (delete_attr replies u a) t)

unfoldable pub delete_rad_user_group : Engine → String → String → Tables → Outcome Tables
delete_rad_user_group e u g t =
    wrap "failed to delete radusergroup: " (e.exec direct (delete_group u g) t)

unfoldable pub delete_rad_user_group_tx :
    Engine → Session → String → String → Tables → Outcome Tables
delete_rad_user_group_tx e s u g t =
    wrap "failed to delete radusergroup (tx): " (e.exec s (delete_group u g) t)

unfoldable pub check_attribute_exists : Engine → String → String → Tables → Outcome Bool
check_attribute_exists e u a t = positive (
    wrap "failed to check radcheck attribute existence: " (e.count direct (attr_rows checks u a) t))

unfoldable pub reply_attribute_exists : Engine → String → String → Tables → Outcome Bool
reply_attribute_exists e u a t = positive (
    wrap "failed to check radreply attribute existence: "
      (e.count direct (attr_rows replies u a) t))

unfoldable pub user_group_exists : Engine → String → String → Tables → Outcome Bool
user_group_exists e u g t =
    positive (wrap "failed to check user group existence: " (e.count direct (group_rows u g) t))
