-- ===== src/Radius/Update/Updated.antt =====
-- What a successful `UpdateHotspotUser` is to make of the tables, and how its four parts leave one
-- another's rows alone.
use wifigo.Base.{
  ◌≤◌, String, Bool, false, ◌≡◌, refl, ◌∙◌, Option, none, some, List, map, ◌⊎◌, inl, inr,
}
use wifigo.Base.Texts.{◌==◌, test_comm}
use wifigo.Base.Lists.{length, lookup}
use wifigo.Radius.Rows.{Tables, AttrInput, RadUserGroupInput, HotspotUserInput}
use wifigo.Radius.Engine.{
  checks, replies, tx, Engine, IsSql, effect, insert_attr, update_attr, delete_attr,
}
use wifigo.Radius.Transaction.{go}
use wifigo.Radius.Sync.Laws.{AtMostOnce, to_list}
use wifigo.Radius.Update.{
  attr_item, group_item, update_password, update_checks, update_replies, update_groups,
}
use wifigo.Radius.Update.Columns.{
  settings_in, priorities_in, settings_in-insert, settings_in-delete,
}
use wifigo.Radius.Update.Steps.{
  update_password-Leaves, update_checks-Leaves, update_replies-Leaves, update_groups-Leaves,
}
use wifigo.Radius.Update.Untouched.{
  rows_of, Untouched, checks-Leaves, replies-Leaves, groups-Leaves, insert_attr-other,
  update_attr-other, delete_attr-other, insert_group-other, update_group-other, delete_group-other,
}

-- What a successful update has made of the tables. A name that the user had at most once, and that
-- the request lists at most once, has the row of the request, or none where the request does not
-- list it; what the request leaves out is as it was, and so are the rows of every other user.
-- The two attributes by which a user logs in are apart.
pub record Updated (i : HotspotUserInput) (t t' : Tables) : Type 0 where
  pub groups_wanted :
      (inputs : List RadUserGroupInput)
      → i.groups ≡ some inputs
      → (g : String) → AtMostOnce g (map group_item inputs)
      → length (priorities_in i.username g t.radusergroup) ≤ 1
      → priorities_in i.username g t'.radusergroup ≡ to_list (lookup g (map group_item inputs))
  pub replies_wanted :
      (inputs : List AttrInput)
      → i.reply_attributes ≡ some inputs
      → (a : String) → AtMostOnce a (map attr_item inputs)
      → length (settings_in i.username a t.radreply) ≤ 1
      → settings_in i.username a t'.radreply ≡ to_list (lookup a (map attr_item inputs))
  pub checks_wanted :
      (inputs : List AttrInput)
      → i.check_attributes ≡ some inputs
      → (a : String) → (a == "Cleartext-Password") ≡ false
      → (a == "Auth-Type") ≡ false
      → AtMostOnce a (map attr_item inputs)
      → length (settings_in i.username a t.radcheck) ≤ 1
      → settings_in i.username a t'.radcheck ≡ to_list (lookup a (map attr_item inputs))
  pub groups_left : i.groups ≡ none → t'.radusergroup ≡ t.radusergroup
  pub replies_left : i.reply_attributes ≡ none → t'.radreply ≡ t.radreply
  pub others_left : (v : String) → (i.username == v) ≡ false → rows_of v t' ≡ rows_of v t

module _ (e : Engine) (sql : IsSql e) (began : Option String) (i : HotspotUserInput) where
  module _ {ℓ} {X : Type ℓ} (part : Tables → X) where
    password_checks-Leaves :
        ((a o v : String) → Untouched part (insert_attr checks i.username a o v))
        → ((a o v : String) → Untouched part (update_attr checks o v i.username a))
        → ((a : String) → Untouched part (delete_attr checks i.username a))
        → (t t₁ t₂ : Tables) (added : Bool)
        → update_password e (tx began) i.username i.password t ≡ go added t₁
        → update_checks e (tx began) i.username added i.check_attributes t₁ ≡ go tt t₂
        → part t₂ ≡ part t
    password_checks-Leaves inserts updates deletes t t₁ t₂ added ran₁ ran₂ =
        update_checks-Leaves e sql began i.username part added i.check_attributes
          (λ items preserve current.
            checks-Leaves part e sql began i.username updates inserts deletes preserve current
              items)
          t₁ tt t₂ ran₂
        ∙ update_password-Leaves e sql began i.username part i.password (λ a v _. inserts a ":=" v)
            (deletes "Cleartext-Password") t added t₁ ran₁

  pub password-settings :
      (a : String) (t t₁ : Tables) (added : Bool)
      → (a == "Cleartext-Password") ≡ false
      → (a == "Auth-Type") ≡ false
      → update_password e (tx began) i.username i.password t ≡ go added t₁
      → settings_in i.username a t₁.radcheck ≡ settings_in i.username a t.radcheck
  unfolding effect
  password-settings a t t₁ added not_password not_auth ran =
      update_password-Leaves e sql began i.username (λ t. settings_in i.username a t.radcheck)
        i.password inserts deletes t added t₁ ran
    where
      inserts :
          (b v : String)
          → (b ≡ "Auth-Type") ⊎ (b ≡ "Cleartext-Password")
          → Untouched
              (λ t. settings_in i.username a t.radcheck)
              (insert_attr checks i.username b ":=" v)
      inserts b v (inl b_auth) t =
          settings_in-insert i.username b a ":=" v t.radcheck
          ∙ rw (b_auth, test_comm a "Auth-Type" not_auth)
      inserts b v (inr b_password) t =
          settings_in-insert i.username b a ":=" v t.radcheck
          ∙ rw (b_password, test_comm a "Cleartext-Password" not_password)

      deletes :
          Untouched
            (λ t. settings_in i.username a t.radcheck)
            (delete_attr checks i.username "Cleartext-Password")
      deletes t =
          settings_in-delete i.username "Cleartext-Password" a t.radcheck
          ∙ rw (test_comm a "Cleartext-Password" not_password)

  module _ (t t₁ t₂ t₃ t₄ : Tables) (added : Bool)
      (ran₁ : update_password e (tx began) i.username i.password t ≡ go added t₁)
      (ran₂ : update_checks e (tx began) i.username added i.check_attributes t₁ ≡ go tt t₂)
      (ran₃ : update_replies e (tx began) i.username i.reply_attributes t₂ ≡ go tt t₃)
      (ran₄ : update_groups e (tx began) i.username i.groups t₃ ≡ go tt t₄) where
    pub groups_before : t₃.radusergroup ≡ t.radusergroup
    unfolding effect
    groups_before =
        update_replies-Leaves e sql began i.username (λ t. t.radusergroup) i.reply_attributes
          (λ items current.
            replies-Leaves (λ t. t.radusergroup) e sql began i.username (λ _ _ _ _. refl)
              (λ _ _ _ _. refl) (λ _ _. refl) (λ _. false) current items)
          t₂ tt t₃ ran₃
        ∙ password_checks-Leaves (λ t. t.radusergroup) (λ _ _ _ _. refl) (λ _ _ _ _. refl)
            (λ _ _. refl) t t₁ t₂ added ran₁ ran₂

    pub replies_before : t₂.radreply ≡ t.radreply
    unfolding effect
    replies_before =
        password_checks-Leaves (λ t. t.radreply) (λ _ _ _ _. refl) (λ _ _ _ _. refl) (λ _ _. refl) t
          t₁ t₂ added ran₁ ran₂

    pub replies_after : t₄.radreply ≡ t₃.radreply
    unfolding effect
    replies_after =
        update_groups-Leaves e sql began i.username (λ t. t.radreply) i.groups
          (λ items current.
            groups-Leaves (λ t. t.radreply) e sql began i.username (λ _ _ _. refl) (λ _ _ _. refl)
              (λ _ _. refl) (λ _. false) current items)
          t₃ tt t₄ ran₄

    pub checks_after : t₄.radcheck ≡ t₂.radcheck
    unfolding effect
    checks_after =
        update_groups-Leaves e sql began i.username (λ t. t.radcheck) i.groups
          (λ items current.
            groups-Leaves (λ t. t.radcheck) e sql began i.username (λ _ _ _. refl) (λ _ _ _. refl)
              (λ _ _. refl) (λ _. false) current items)
          t₃ tt t₄ ran₄
        ∙ update_replies-Leaves e sql began i.username (λ t. t.radcheck) i.reply_attributes
            (λ items current.
              replies-Leaves (λ t. t.radcheck) e sql began i.username (λ _ _ _ _. refl)
                (λ _ _ _ _. refl) (λ _ _. refl) (λ _. false) current items)
            t₂ tt t₃ ran₃

    pub others_after : (v : String) → (i.username == v) ≡ false → rows_of v t₄ ≡ rows_of v t
    others_after v other =
        update_groups-Leaves e sql began i.username (rows_of v) i.groups
          (λ items current.
            groups-Leaves (rows_of v) e sql began i.username (update_group-other i.username v other)
              (insert_group-other i.username v other) (delete_group-other i.username v other)
              (λ _. false) current items)
          t₃ tt t₄ ran₄
        ∙ (update_replies-Leaves e sql began i.username (rows_of v) i.reply_attributes
              (λ items current.
                replies-Leaves (rows_of v) e sql began i.username
                  (update_attr-other i.username v other replies)
                  (insert_attr-other i.username v other replies)
                  (delete_attr-other i.username v other replies) (λ _. false) current items)
              t₂ tt t₃ ran₃
            ∙ password_checks-Leaves (rows_of v) (insert_attr-other i.username v other checks)
                (update_attr-other i.username v other checks)
                (delete_attr-other i.username v other checks) t t₁ t₂ added ran₁ ran₂)
