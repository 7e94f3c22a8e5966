-- ===== src/Radius/Tests.antt =====
-- A database in memory, which runs every statement, and the handlers run on it.
use wifigo.Base.{
  ◌≤◌, String, true, false, ◌≡◌, ◌≢◌, refl, inl, inr, none, some, List, [], ◌∷◌, arith,
}
use wifigo.Base.Int.{pos, ◌+ℤ◌, lt_ℤ}
use wifigo.Base.Texts.{◌==◌}
use wifigo.Base.Lists.{length, filter}
use wifigo.Base.Outcome.{Outcome, ok}
use wifigo.Radius.Rows.{RadAttr, Tables, AttrInput, HotspotUserInput, HotspotSubscriptionRequest}
use wifigo.Radius.Engine.{Engine, IsSql, SomeValue, effect, counted, attrs, owns, belongs, is_attr}
use wifigo.Radius.Transaction.{refuse, Result}
use wifigo.Radius.Queries.{user_exists}
use wifigo.Radius.Create.{create_hotspot_user, delete_hotspot_user}
use wifigo.Radius.Create.Created.{Creates, create_all_or_nothing}
use wifigo.Radius.Create.Deleted.{Deletes, delete_all_or_nothing}
use wifigo.Radius.Update.Columns.{settings_in}
use wifigo.Radius.Attributes.{
  delete_rad_check_attribute_of, delete_rad_reply_attribute_of, delete_rad_user_group_of,
}
use wifigo.Radius.Attributes.Removal.{
  CutsCheck, CutsReply, CutsGroup, check_delete_all_or_nothing, reply_delete_all_or_nothing,
  group_delete_all_or_nothing,
}
use wifigo.Radius.Subscription.{
  Host, UserStatus, no_exist, expired, not_expired, is_user_expired, expiration_of,
  manage_hotspot_user,
}
use wifigo.Radius.Subscription.Verdict.{Verdict, is_user_expired-Verdict}
use wifigo.Radius.Subscription.Managed.{Manages, manage_all_or_nothing}
use wifigo.Radius.Subscription.Activation.{manage-active}

abbrev first_value : List RadAttr → String
first_value [] = ""
first_value (r ∷ rows) = r.value

first_value-SomeValue : (rows : List RadAttr) → SomeValue rows (first_value rows)
first_value-SomeValue [] = inl (refl, refl)
first_value-SomeValue (r ∷ rows) = inr (r, [], rows, refl, refl)

abbrev pub memory : Engine
memory = record {
  available = true;
  begin = λ _. none;
  exec = λ _ st t. ok (effect st t);
  count = λ _ q t. ok (counted q t);
  select_attrs = λ _ tab u t. ok (filter (owns u) (attrs tab t));
  select_groups = λ _ u t. ok (filter (belongs u) t.radusergroup);
  select_value = λ _ u a t. ok (first_value (filter (is_attr u a) t.radcheck));
  commit = λ _ _. none;
}

ok_same {ℓ} : {A : Type ℓ} (a b : A) → Outcome.ok a ≡ ok b → b ≡ a
ok_same a b h = cc

pub memory-IsSql : IsSql memory
memory-IsSql = record {
  exec_effect = λ _ st t t' h. ok_same _ _ h;
  count_rows = λ _ q t n h. ok_same _ _ h;
  select_attrs_rows = λ _ tab u t rows h. ok_same _ _ h;
  select_groups_rows = λ _ u t rows h. ok_same _ _ h;
  select_value_row =
      λ _ u a t v h. rw (ok_same _ _ h) (first_value-SomeValue (filter (is_attr u a) t.radcheck));
}

abbrev attr : String → String → String → String → RadAttr
attr u a o v = record { username = u; attribute = a; op = o; value = v }

abbrev pub sample : Tables
sample = record {
  radcheck =
      attr "ann" "Cleartext-Password" ":=" "secret"
      ∷ attr "ann" "Expiration" ":=" "60"
      ∷ attr "bob" "Auth-Type" ":=" "Accept"
      ∷ [];
  radreply = attr "ann" "Idle-Timeout" ":=" "300" ∷ [];
  radusergroup = record { username = "ann"; groupname = "daily"; priority = pos 1 } ∷ [];
}

abbrev request : String → HotspotUserInput
request u = record {
  username = u;
  password = some "pw";
  check_attributes = some (record { attribute = "Simultaneous-Use"; op = ""; value = "2" } ∷ []);
  reply_attributes = none;
  groups = some (record { groupname = "weekly"; priority = none } ∷ []);
}

abbrev pub host : Host
host = record {
  now = pos 100;
  checked = pos 100;
  format = λ _. "160";
  parse = λ s. elim (s == "60") [ true ↦ ok (pos 60) | false ↦ ok (pos 160) ];
  sprint = λ _. "2";
}

abbrev order : String → HotspotSubscriptionRequest
order u = record {
  phone = "254700000000";
  username = u;
  password = none;
  is_home_user = false;
  isp = "isp";
  service_name = "weekly";
  duration = pos 60;
  devices = pos 2;
}

create_all_or_nothing_example :
    Creates (request "eve") sample (create_hotspot_user memory (request "eve") sample)
create_all_or_nothing_example = create_all_or_nothing memory memory-IsSql (request "eve") sample

delete_all_or_nothing_example : Deletes "ann" sample (delete_hotspot_user memory "ann" sample)
delete_all_or_nothing_example = delete_all_or_nothing memory memory-IsSql "ann" sample

check_delete_all_or_nothing_example :
    CutsCheck "ann" "Expiration" sample
      (delete_rad_check_attribute_of memory "ann" "Expiration" sample)
check_delete_all_or_nothing_example =
    check_delete_all_or_nothing memory memory-IsSql "ann" "Expiration" sample

reply_delete_all_or_nothing_example :
    CutsReply "ann" "Idle-Timeout" sample
      (delete_rad_reply_attribute_of memory "ann" "Idle-Timeout" sample)
reply_delete_all_or_nothing_example =
    reply_delete_all_or_nothing memory memory-IsSql "ann" "Idle-Timeout" sample

group_delete_all_or_nothing_example :
    CutsGroup "ann" "daily" sample (delete_rad_user_group_of memory "ann" "daily" sample)
group_delete_all_or_nothing_example =
    group_delete_all_or_nothing memory memory-IsSql "ann" "daily" sample

ann_expired : is_user_expired memory host "ann" sample ≡ ok expired
unfolding is_user_expired wifigo.Radius.Subscription.judge user_exists counted owns is_attr lt_ℤ
    ◌==◌
ann_expired = refl

is_user_expired-Verdict_example : Verdict host "ann" sample expired
is_user_expired-Verdict_example =
    is_user_expired-Verdict memory memory-IsSql host "ann" sample expired ann_expired

manage_all_or_nothing_example :
    Manages memory host
      (order "ann")
      sample
      (manage_hotspot_user memory host (order "ann") true sample)
manage_all_or_nothing_example =
    manage_all_or_nothing memory memory-IsSql host (order "ann") sample true

abbrev idle : AttrInput
idle = record { attribute = "Expiration"; op = ""; value = "90" }

-- The runs of the handlers on the sample.
eve_created : (create_hotspot_user memory (request "eve") sample).0.status ≡ 201
unfolding create_hotspot_user wifigo.Radius.Transaction.in_transaction
    wifigo.Radius.Create.create_steps user_exists counted owns ◌==◌
    wifigo.Radius.Create.add_credentials wifigo.Radius.Queries.insert_rad_check
    wifigo.Radius.Transaction.for_each wifigo.Radius.Create.add_check wifigo.Radius.Create.add_group
    wifigo.Radius.Queries.insert_rad_user_group
eve_created = refl

eve_managed : (manage_hotspot_user memory host (order "eve") true sample).0.status ≡ 200
unfolding manage_hotspot_user wifigo.Radius.Subscription.subscribe is_user_expired
    wifigo.Radius.Subscription.relay create_hotspot_user wifigo.Radius.Transaction.in_transaction
    wifigo.Radius.Create.create_steps user_exists counted owns ◌==◌
    wifigo.Radius.Create.add_credentials wifigo.Radius.Queries.insert_rad_check
    wifigo.Radius.Transaction.for_each wifigo.Radius.Create.add_check wifigo.Radius.Create.add_group
    wifigo.Radius.Queries.insert_rad_user_group
eve_managed = refl

eve_active :
    is_user_expired memory host "eve" (manage_hotspot_user memory host (order "eve") true sample).1
    ≡ ok not_expired
unfolding manage_hotspot_user wifigo.Radius.Subscription.subscribe is_user_expired
    wifigo.Radius.Subscription.relay create_hotspot_user wifigo.Radius.Transaction.in_transaction
    wifigo.Radius.Create.create_steps user_exists counted owns ◌==◌
    wifigo.Radius.Create.add_credentials wifigo.Radius.Queries.insert_rad_check
    wifigo.Radius.Transaction.for_each wifigo.Radius.Create.add_check wifigo.Radius.Create.add_group
    wifigo.Radius.Queries.insert_rad_user_group effect is_attr lt_ℤ wifigo.Radius.Subscription.judge
eve_active = refl

eve_new : length (settings_in "eve" "Expiration" sample.radcheck) ≤ 1
unfolding is_attr ◌==◌
eve_new = omega arith

stamp_parses : host.parse (expiration_of host (order "eve")) ≡ ok (host.now +ℤ pos 60)
unfolding ◌==◌ ◌+ℤ◌
stamp_parses = refl

stamp_there : expiration_of host (order "eve") ≢ ""
unfolding ◌==◌
stamp_there h = cc h

in_time : lt_ℤ (host.now +ℤ pos 60) host.checked ≡ false
unfolding lt_ℤ ◌+ℤ◌
in_time = refl

manage-active_example : UserStatus.not_expired ≡ not_expired
manage-active_example =
    manage-active memory memory-IsSql host host (order "eve") true sample not_expired eve_managed
      eve_new stamp_parses stamp_there in_time eve_active
