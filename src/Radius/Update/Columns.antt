-- ===== src/Radius/Update/Columns.antt =====
-- The statements of the three loops of `UpdateHotspotUser`, seen as changes of what one user has
-- under each name.
use wifigo.Base.{String, not, ◌≡◌, List, [], ◌∷◌, ◌++◌, map, if◌then◌else◌, arith}
use wifigo.Base.Int.{ℤ}
use wifigo.Base.Texts.{◌==◌, test_self, test_agree, test_exclude}
use wifigo.Base.Lists.{filter}
use wifigo.Radius.Rows.{RadAttr, RadUserGroup}
use wifigo.Radius.Engine.{is_attr, is_group, set_attr, set_priority}
use wifigo.Radius.Update.{Setting}

-- What the user's rows of a table hold under an attribute.
abbrev pub settings_in : String → String → List RadAttr → List Setting
settings_in u a rows = map (λ r. (r.op, r.value)) (filter (is_attr u a) rows)

abbrev pub priorities_in : String → String → List RadUserGroup → List ℤ
priorities_in u g rows = map (λ r. r.priority) (filter (is_group u g) rows)

module _ (u k j : String) where
  pub settings_in-insert :
      (o v : String) (rows : List RadAttr)
      → settings_in u j (rows ++ record { username = u; attribute = k; op = o; value = v } ∷ [])
        ≡ (if k == j then settings_in u j rows ++ (o, v) ∷ [] else settings_in u j rows)
  unfolding is_attr
  settings_in-insert o v [] = ground (arith, test_self u)
  settings_in-insert o v (r ∷ rows) = ground (arith, settings_in-insert o v rows)

  pub settings_in-update :
      (o v : String) (rows : List RadAttr)
      → settings_in u j (set_attr o v u k rows)
        ≡ (if k == j then map (λ _. (o, v)) (settings_in u j rows) else settings_in u j rows)
  unfolding is_attr set_attr
  settings_in-update o v [] = ground arith
  settings_in-update o v (r ∷ rows) =
      ground (
        arith,
        settings_in-update o v rows,
        test_agree r.attribute k j,
        test_exclude r.attribute k j,
      )

  pub settings_in-delete :
      (rows : List RadAttr)
      → settings_in u j (filter (λ r. not (is_attr u k r)) rows)
        ≡ (if k == j then [] else settings_in u j rows)
  unfolding is_attr
  settings_in-delete [] = ground arith
  settings_in-delete (r ∷ rows) =
      ground
        (arith, settings_in-delete rows, test_agree r.attribute k j, test_exclude r.attribute k j)

  pub priorities_in-insert :
      (p : ℤ) (rows : List RadUserGroup)
      → priorities_in u j (rows ++ record { username = u; groupname = k; priority = p } ∷ [])
        ≡ (if k == j then priorities_in u j rows ++ p ∷ [] else priorities_in u j rows)
  unfolding is_group
  priorities_in-insert p [] = ground (arith, test_self u)
  priorities_in-insert p (r ∷ rows) = ground (arith, priorities_in-insert p rows)

  pub priorities_in-update :
      (p : ℤ) (rows : List RadUserGroup)
      → priorities_in u j (set_priority p u k rows)
        ≡ (if k == j then map (λ _. p) (priorities_in u j rows) else priorities_in u j rows)
  unfolding is_group set_priority
  priorities_in-update p [] = ground arith
  priorities_in-update p (r ∷ rows) =
      ground (
        arith,
        priorities_in-update p rows,
        test_agree r.groupname k j,
        test_exclude r.groupname k j,
      )

  pub priorities_in-delete :
      (rows : List RadUserGroup)
      → priorities_in u j (filter (λ r. not (is_group u k r)) rows)
        ≡ (if k == j then [] else priorities_in u j rows)
  unfolding is_group
  priorities_in-delete [] = ground arith
  priorities_in-delete (r ∷ rows) =
      ground
        (arith, priorities_in-delete rows, test_agree r.groupname k j, test_exclude r.groupname k j)
