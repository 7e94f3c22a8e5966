-- ===== src/Radius/Update/Wanted.antt =====
-- What `UpdateHotspotUser` makes of each kind of row.
use wifigo.Base.{◌≤◌, String, false, ◌≡◌, ◌≢◌, ◌⊎◌, inl, inr, ap, some, List, map}
use wifigo.Base.Texts.{◌==◌}
use wifigo.Base.Lists.{length, lookup}
use wifigo.Radius.Rows.{Tables, AttrInput, RadUserGroupInput, HotspotUserInput}
use wifigo.Radius.Engine.{Engine, IsSql}
use wifigo.Radius.Transaction.{Result}
use wifigo.Radius.Sync.Laws.{AtMostOnce, to_list}
use wifigo.Radius.Update.{attr_item, group_item, update_hotspot_user}
use wifigo.Radius.Update.Columns.{settings_in, priorities_in}
use wifigo.Radius.Update.Untouched.{rows_of}
use wifigo.Radius.Update.AllOrNothing.{update_all_or_nothing}

-- A part of the tables is as wanted, with an answer of 200, or all of them are as they were.
abbrev pub Brings {ℓ} : {X : Type ℓ} → (Tables → X) → X → Tables → Result → Type ℓ
Brings part wanted t (r, t') =
    ((r.status ≡ 200) × (part t' ≡ wanted)) ⊎ ((r.status ≢ 200) × (t' ≡ t))

module _ (e : Engine) (sql : IsSql e) (i : HotspotUserInput) (t : Tables) where
  -- `UpdateHotspotUser` answers 200, and then the user's rows of `radcheck` under a name, other
  -- than the two names that let a user in, are the one that the request lists under it, or none
  -- where it lists none; or it answers with another status, and the tables are as they were. This
  -- holds whichever statements fail, where the request has check attributes, and the user and the
  -- request have the name at most once.
  pub update-checks :
      (inputs : List AttrInput) (a : String)
      → i.check_attributes ≡ some inputs
      → (a == "Cleartext-Password") ≡ false
      → (a == "Auth-Type") ≡ false
      → AtMostOnce a (map attr_item inputs)
      → length (settings_in i.username a t.radcheck) ≤ 1
      → Brings
          (λ u. settings_in i.username a u.radcheck)
          (to_list (lookup a (map attr_item inputs)))
          t
          (update_hotspot_user e i t)
  update-checks inputs a given password auth once few = elim (update_all_or_nothing e sql i t) [
    | inl (good, rows) ↦ inl (good, rows.checks_wanted inputs given a password auth once few)
    | inr same ↦ inr same
  ]

  -- `UpdateHotspotUser` answers 200, and then the user's rows of `radreply` under a name are the
  -- one that the request lists under it, or none where it lists none; or it answers with another
  -- status, and the tables are as they were. This holds whichever statements fail, where the
  -- request has reply attributes, and the user and the request have the name at most once.
  pub update-replies :
      (inputs : List AttrInput) (a : String)
      → i.reply_attributes ≡ some inputs
      → AtMostOnce a (map attr_item inputs)
      → length (settings_in i.username a t.radreply) ≤ 1
      → Brings
          (λ u. settings_in i.username a u.radreply)
          (to_list (lookup a (map attr_item inputs)))
          t
          (update_hotspot_user e i t)
  update-replies inputs a given once few = elim (update_all_or_nothing e sql i t) [
    | inl (good, rows) ↦ inl (good, rows.replies_wanted inputs given a once few)
    | inr same ↦ inr same
  ]

  -- `UpdateHotspotUser` answers 200, and then the user's memberships of a group are the one that
  -- the request lists, or none where it lists none; or it answers with another status, and the
  -- tables are as they were. This holds whichever statements fail, where the request has groups,
  -- and the user and the request have the group at most once.
  pub update-groups :
      (inputs : List RadUserGroupInput) (g : String)
      → i.groups ≡ some inputs
      → AtMostOnce g (map group_item inputs)
      → length (priorities_in i.username g t.radusergroup) ≤ 1
      → Brings
          (λ u. priorities_in i.username g u.radusergroup)
          (to_list (lookup g (map group_item inputs)))
          t
          (update_hotspot_user e i t)
  update-groups inputs g given once few = elim (update_all_or_nothing e sql i t) [
    | inl (good, rows) ↦ inl (good, rows.groups_wanted inputs given g once few)
    | inr same ↦ inr same
  ]

  -- `UpdateHotspotUser` leaves the rows of every other user, in all three tables, as they were,
  -- whatever it answers.
  pub update-others :
      (v : String)
      → (i.username == v) ≡ false
      → rows_of v (update_hotspot_user e i t).1 ≡ rows_of v t
  update-others v other = elim (update_all_or_nothing e sql i t) [
    | inl (_, rows) ↦ rows.others_left v other
    | inr (_, same) ↦ ap (rows_of v) same
  ]
