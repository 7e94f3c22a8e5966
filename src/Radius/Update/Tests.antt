-- ===== src/Radius/Update/Tests.antt =====
-- Updates of a user of the sample tables.
use wifigo.Base.{◌≤◌, false, ◌≡◌, refl, none, some, List, [], ◌∷◌, map, arith}
use wifigo.Base.Texts.{◌==◌}
use wifigo.Base.Lists.{length, lookup}
use wifigo.Radius.Rows.{AttrInput, RadUserGroupInput, HotspotUserInput}
use wifigo.Radius.Engine.{is_attr, is_group}
use wifigo.Radius.Sync.Laws.{AtMostOnce, to_list}
use wifigo.Radius.Update.{attr_item, group_item, update_hotspot_user}
use wifigo.Radius.Update.Columns.{settings_in, priorities_in}
use wifigo.Radius.Update.Untouched.{rows_of}
use wifigo.Radius.Update.Wanted.{
  Brings, update-checks, update-replies, update-groups, update-others,
}
use wifigo.Radius.Tests.{memory, memory-IsSql, sample}

abbrev limits : List AttrInput
limits = record { attribute = "Expiration"; op = ""; value = "160" } ∷ []

abbrev idle : List AttrInput
idle = record { attribute = "Idle-Timeout"; op = "="; value = "600" } ∷ []

abbrev weekly : List RadUserGroupInput
weekly = record { groupname = "weekly"; priority = none } ∷ []

abbrev renewal : HotspotUserInput
renewal = record {
  username = "ann";
  password = some "new";
  check_attributes = some limits;
  reply_attributes = some idle;
  groups = some weekly;
}

not_password : ("Expiration" == "Cleartext-Password") ≡ false
unfolding ◌==◌
not_password = refl

not_auth_type : ("Expiration" == "Auth-Type") ≡ false
unfolding ◌==◌
not_auth_type = refl

limits_once : AtMostOnce "Expiration" (map attr_item limits)
unfolding lookup
limits_once = (λ _. refl, tt)

one_expiration : length (settings_in "ann" "Expiration" sample.radcheck) ≤ 1
unfolding is_attr ◌==◌
one_expiration = omega arith

update-checks_example :
    Brings
      (λ u. settings_in "ann" "Expiration" u.radcheck)
      (to_list (lookup "Expiration" (map attr_item limits)))
      sample
      (update_hotspot_user memory renewal sample)
update-checks_example =
    update-checks memory memory-IsSql renewal sample limits "Expiration" refl not_password
      not_auth_type limits_once one_expiration

idle_once : AtMostOnce "Idle-Timeout" (map attr_item idle)
unfolding lookup
idle_once = (λ _. refl, tt)

one_timeout : length (settings_in "ann" "Idle-Timeout" sample.radreply) ≤ 1
unfolding is_attr ◌==◌
one_timeout = omega arith

update-replies_example :
    Brings
      (λ u. settings_in "ann" "Idle-Timeout" u.radreply)
      (to_list (lookup "Idle-Timeout" (map attr_item idle)))
      sample
      (update_hotspot_user memory renewal sample)
update-replies_example =
    update-replies memory memory-IsSql renewal sample idle "Idle-Timeout" refl idle_once one_timeout

weekly_once : AtMostOnce "daily" (map group_item weekly)
unfolding lookup
weekly_once = (λ _. refl, tt)

one_group : length (priorities_in "ann" "daily" sample.radusergroup) ≤ 1
unfolding is_group ◌==◌
one_group = omega arith

update-groups_example :
    Brings
      (λ u. priorities_in "ann" "daily" u.radusergroup)
      (to_list (lookup "daily" (map group_item weekly)))
      sample
      (update_hotspot_user memory renewal sample)
update-groups_example =
    update-groups memory memory-IsSql renewal sample weekly "daily" refl weekly_once one_group

bob_other : ("ann" == "bob") ≡ false
unfolding ◌==◌
bob_other = refl

update-others_example :
    rows_of "bob" (update_hotspot_user memory renewal sample).1 ≡ rows_of "bob" sample
update-others_example = update-others memory memory-IsSql renewal sample "bob" bob_other
