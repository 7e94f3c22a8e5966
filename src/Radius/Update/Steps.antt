-- ===== src/Radius/Update/Steps.antt =====
-- What each part of `UpdateHotspotUser` achieves, and what it leaves alone.
use wifigo.Base.{
  ◌≤◌, String, Bool, false, ◌≡◌, refl, sym, ◌∙◌, Option, none, some, List, [], ◌∷◌, map,
  if◌then◌else◌, ◌⊎◌, inl, inr, Bool-cases, arith,
}
use wifigo.Base.Int.{ℤ}
use wifigo.Base.Texts.{◌==◌, eq_of_test}
use wifigo.Base.Lists.{length, filter, lookup}
use wifigo.Radius.Rows.{RadAttr, RadUserGroup, Tables, AttrInput, RadUserGroupInput}
use wifigo.Radius.Engine.{
  checks, replies, tx, Engine, IsSql, attrs, insert_attr, delete_attr, owns, belongs, is_attr,
  is_group,
}
use wifigo.Radius.Queries.{
  insert_rad_check, delete_rad_check_attribute_tx, get_rad_check_attributes_tx,
  get_rad_reply_attributes_tx, get_rad_user_groups_tx,
}
use wifigo.Radius.Transaction.{Tx, pure, ◌>>◌, write, failed}
use wifigo.Radius.Transaction.Steps.{After, query-After, write-After}
use wifigo.Radius.Sync.{sync}
use wifigo.Radius.Sync.Index.{found, index_by-lookup}
use wifigo.Radius.Sync.Laws.{AtMostOnce, to_list, target-to_list, sync-view}
use wifigo.Radius.Sync.Same.{Leaves, >>-Leaves, pure-Leaves}
use wifigo.Radius.Update.{
  Setting, check_column, reply_column, group_column, check_map, attr_map, group_map, attr_item,
  group_item, update_password, should_preserve, update_checks, update_replies, update_groups,
}
use wifigo.Radius.Update.Columns.{settings_in, priorities_in}
use wifigo.Radius.Update.Laws.{check_column-Laws, reply_column-Laws, group_column-Laws}
use wifigo.Radius.Update.Untouched.{Untouched, exec-Leaves}

abbrev setting_of : RadAttr → Setting
setting_of r = (r.op, r.value)

-- The rows of one user, by name.
found-settings :
    (u a : String) (rows : List RadAttr)
    → map setting_of (filter (λ r. r.attribute == a) (filter (owns u) rows)) ≡ settings_in u a rows
unfolding owns is_attr
found-settings u a [] = refl
found-settings u a (r ∷ rows) = ground (arith, found-settings u a rows)

found-priorities :
    (u g : String) (rows : List RadUserGroup)
    → map
        (λ (r : RadUserGroup). r.priority)
        (filter (λ r. r.groupname == g) (filter (belongs u) rows))
      ≡ priorities_in u g rows
unfolding belongs is_group
found-priorities u g [] = refl
found-priorities u g (r ∷ rows) = ground (arith, found-priorities u g rows)

module _ (e : Engine) (sql : IsSql e) (began : Option String) (u : String) where
  pub update_groups-view :
      (inputs : List RadUserGroupInput) (g : String) (t : Tables)
      → AtMostOnce g (map group_item inputs)
      → length (priorities_in u g t.radusergroup) ≤ 1
      → After
          (update_groups e (tx began) u (some inputs))
          t
          (λ _ t'. priorities_in u g t'.radusergroup ≡ to_list (lookup g (map group_item inputs)))
  unfolding update_groups get_rad_user_groups_tx group_map lookup
  update_groups-view inputs g t once few =
      query-After (get_rad_user_groups_tx e (tx began) u) (failed "Failed to get current groups: ")
        _ t
        λ rows asked x t' ran.
          let same : rows ≡ filter (belongs u) t.radusergroup =
            sql.select_groups_rows (tx began) u t rows (ground arith) in
          let finds : found (λ (r : RadUserGroup). r.groupname) (λ r. r.priority) (λ _. false) g
                rows
              ≡ priorities_in u g t.radusergroup =
            rw same (found-priorities u g t.radusergroup) in
          let start =
            index_by-lookup (λ (r : RadUserGroup). r.groupname) (λ r. r.priority) (λ _. false) g
              (λ r _. refl) rows [] refl (rw finds few) in
          sync-view (group_column e (tx began) u) (λ g t. priorities_in u g t.radusergroup)
            (group_column-Laws e sql began u) (group_map rows) g (λ _. false)
            (map group_item inputs) t once (sym (start ∙ finds)) x t' ran
          ∙ target-to_list (lookup g (map group_item inputs)) false _ refl

  pub update_replies-view :
      (inputs : List AttrInput) (a : String) (t : Tables)
      → AtMostOnce a (map attr_item inputs)
      → length (settings_in u a t.radreply) ≤ 1
      → After
          (update_replies e (tx began) u (some inputs))
          t
          (λ _ t'. settings_in u a t'.radreply ≡ to_list (lookup a (map attr_item inputs)))
  unfolding update_replies get_rad_reply_attributes_tx attr_map lookup attrs
  update_replies-view inputs a t once few =
      query-After (get_rad_reply_attributes_tx e (tx began) u)
        (failed "Failed to get current reply attributes: ") _ t
        λ rows asked x t' ran.
          let same : rows ≡ filter (owns u) t.radreply =
            sql.select_attrs_rows (tx began) replies u t rows (ground arith) in
          let finds : found (λ (r : RadAttr). r.attribute) setting_of (λ _. false) a rows
              ≡ settings_in u a t.radreply =
            rw same (found-settings u a t.radreply) in
          let start =
            index_by-lookup (λ (r : RadAttr). r.attribute) setting_of (λ _. false) a (λ r _. refl)
              rows [] refl (rw finds few) in
          sync-view (reply_column e (tx began) u) (λ a t. settings_in u a t.radreply)
            (reply_column-Laws e sql began u) (attr_map rows) a (λ _. false) (map attr_item inputs)
            t once (sym (start ∙ finds)) x t' ran
          ∙ target-to_list (lookup a (map attr_item inputs)) false _ refl

  pub update_checks-view :
      (added : Bool) (inputs : List AttrInput) (a : String) (t : Tables)
      → (a == "Cleartext-Password") ≡ false
      → should_preserve added a ≡ false
      → AtMostOnce a (map attr_item inputs)
      → length (settings_in u a t.radcheck) ≤ 1
      → After
          (update_checks e (tx began) u added (some inputs))
          t
          (λ _ t'. settings_in u a t'.radcheck ≡ to_list (lookup a (map attr_item inputs)))
  unfolding update_checks get_rad_check_attributes_tx check_map lookup attrs
  update_checks-view added inputs a t password preserved once few =
      query-After (get_rad_check_attributes_tx e (tx began) u)
        (failed "Failed to get current check attributes: ") _ t
        λ rows asked x t' ran.
          let same : rows ≡ filter (owns u) t.radcheck =
            sql.select_attrs_rows (tx began) checks u t rows (ground arith) in
          let finds : found (λ (r : RadAttr). r.attribute) setting_of
                (λ r. r.attribute == "Cleartext-Password") a rows
              ≡ settings_in u a t.radcheck =
            rw same (found-settings u a t.radcheck) in
          let start =
            index_by-lookup (λ (r : RadAttr). r.attribute) setting_of
              (λ r. r.attribute == "Cleartext-Password") a
              (λ r h. rw (eq_of_test r.attribute a h) password) rows [] refl (rw finds few) in
          sync-view (check_column e (tx began) u) (λ a t. settings_in u a t.radcheck)
            (check_column-Laws e sql began u) (check_map rows) a (should_preserve added)
            (map attr_item inputs) t once (sym (start ∙ finds)) x t' ran
          ∙ target-to_list (lookup a (map attr_item inputs)) (should_preserve added a) _ preserved

  module _ {ℓ} {X : Type ℓ} (part : Tables → X) where
    pub update_password-Leaves :
        (p : Option String)
        → ((a v : String)
            → (a ≡ "Auth-Type") ⊎ (a ≡ "Cleartext-Password")
            → Untouched part (insert_attr checks u a ":=" v))
        → Untouched part (delete_attr checks u "Cleartext-Password")
        → Leaves part (update_password e (tx began) u p)
    unfolding update_password insert_rad_check delete_rad_check_attribute_tx
    update_password-Leaves none inserts deletes t =
        write-After {P = λ _ t'. part t' ≡ part t}
          (insert_rad_check e (tx began) u "Auth-Type" ":=" "Accept")
          (failed "Failed to add accept: ") _ t
          λ v ran x t' done.
            let same : v ≡ t' = ground arith in
            rw (← same) (
              exec-Leaves part e sql began u (insert_attr checks u "Auth-Type" ":=" "Accept") t v
                (inserts "Auth-Type" "Accept" (inl refl)) (ground arith))
    update_password-Leaves (some p) inserts deletes t =
        write-After {P = λ _ t'. part t' ≡ part t}
          (delete_rad_check_attribute_tx e (tx began) u "Cleartext-Password")
          (failed "Failed to update password: ") _ t
          λ v ran added t' rest.
            new_password v added t' rest
            ∙ exec-Leaves part e sql began u (delete_attr checks u "Cleartext-Password") t v deletes
                (ground arith)
      where
        add : Tx (Unit {0})
        add =
            if p == ""
            then pure tt
            else write (insert_rad_check e (tx began) u "Cleartext-Password" ":=" p)
                (failed "Failed to update password: ")

        add-Leaves : Leaves part add
        add-Leaves t = elim (Bool-cases (p == "")) [
          | inl c ↦ rw c (pure-Leaves part tt t)
          | inr c ↦ rw c (λ x t' h.
              exec-Leaves part e sql began u (insert_attr checks u "Cleartext-Password" ":=" p) t t'
                (inserts "Cleartext-Password" p (inr refl)) (ground arith))
        ]

        new_password : Leaves part (add >> pure false)
        new_password = >>-Leaves part add (pure false) add-Leaves (pure-Leaves part false)

    pub update_checks-Leaves :
        (added : Bool) (inputs : Option (List AttrInput))
        → ((items : List (String × Setting)) (preserve : String → Bool)
              (current : List (String × Setting))
            → Leaves part (sync (check_column e (tx began) u) preserve current items))
        → Leaves part (update_checks e (tx began) u added inputs)
    unfolding update_checks
    update_checks-Leaves added none synced t = pure-Leaves part tt t
    update_checks-Leaves added (some inputs) synced t =
        query-After (get_rad_check_attributes_tx e (tx began) u)
          (failed "Failed to get current check attributes: ") _ t
          λ rows _. synced (map attr_item inputs) (should_preserve added) (check_map rows) t

    pub update_replies-Leaves :
        (inputs : Option (List AttrInput))
        → ((items : List (String × Setting)) (current : List (String × Setting))
            → Leaves part (sync (reply_column e (tx began) u) (λ _. false) current items))
        → Leaves part (update_replies e (tx began) u inputs)
    unfolding update_replies
    update_replies-Leaves none synced t = pure-Leaves part tt t
    update_replies-Leaves (some inputs) synced t =
        query-After (get_rad_reply_attributes_tx e (tx began) u)
          (failed "Failed to get current reply attributes: ") _ t
          λ rows _. synced (map attr_item inputs) (attr_map rows) t

    pub update_groups-Leaves :
        (inputs : Option (List RadUserGroupInput))
        → ((items : List (String × ℤ)) (current : List (String × ℤ))
            → Leaves part (sync (group_column e (tx began) u) (λ _. false) current items))
        → Leaves part (update_groups e (tx began) u inputs)
    unfolding update_groups
    update_groups-Leaves none synced t = pure-Leaves part tt t
    update_groups-Leaves (some inputs) synced t =
        query-After (get_rad_user_groups_tx e (tx began) u)
          (failed "Failed to get current groups: ") _ t
          λ rows _. synced (map group_item inputs) (group_map rows) t
