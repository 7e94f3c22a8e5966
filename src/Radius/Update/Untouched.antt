-- ===== src/Radius/Update/Untouched.antt =====
-- What the statements for one user leave alone: the other tables, and the rows of the others.
use wifigo.Base.{String, Bool, true, false, not, ◌≡◌, refl, Option, List, [], ◌∷◌, ◌++◌, arith}
use wifigo.Base.Int.{ℤ}
use wifigo.Base.Texts.{◌==◌, eq_of_test}
use wifigo.Base.Lists.{filter}
use wifigo.Base.Outcome.{ok}
use wifigo.Radius.Rows.{RadAttr, RadUserGroup, Tables}
use wifigo.Radius.Engine.{
  AttrTable, checks, replies, Statement, tx, Engine, IsSql, effect, insert_attr, update_attr,
  delete_attr, insert_group, update_group, delete_group, owns, belongs, is_attr, is_group, set_attr,
  set_priority,
}
use wifigo.Radius.Queries.{
  insert_rad_check, insert_rad_reply, insert_rad_user_group, update_rad_check_attribute_tx,
  update_rad_reply_attribute_tx, update_rad_user_group_tx, delete_rad_check_attribute_tx,
  delete_rad_reply_attribute_tx, delete_rad_user_group_tx,
}
use wifigo.Radius.Sync.{sync}
use wifigo.Radius.Sync.Same.{Leaves, sync-Leaves}
use wifigo.Radius.Update.{Setting, check_column, reply_column, group_column}

-- A statement leaves `part` of the tables alone.
abbrev pub Untouched {ℓ} : {X : Type ℓ} → (Tables → X) → Statement → Type ℓ
Untouched part st = (t : Tables) → part (effect st t) ≡ part t

module _ {ℓ} {X : Type ℓ} (part : Tables → X) (e : Engine) (sql : IsSql e) (began : Option String)
    (u : String) where
  pub exec-Leaves :
      (st : Statement) (t t' : Tables)
      → Untouched part st
      → e.exec (tx began) st t ≡ ok t'
      → part t' ≡ part t
  exec-Leaves st t t' same h = rw (sql.exec_effect (tx began) st t t' h) (same t)

  pub checks-Leaves :
      ((a o v : String) → Untouched part (update_attr checks o v u a))
      → ((a o v : String) → Untouched part (insert_attr checks u a o v))
      → ((a : String) → Untouched part (delete_attr checks u a))
      → (preserve : String → Bool) (current items : List (String × Setting))
      → Leaves part (sync (check_column e (tx began) u) preserve current items)
  unfolding check_column insert_rad_check update_rad_check_attribute_tx
      delete_rad_check_attribute_tx
  checks-Leaves updates inserts deletes =
      sync-Leaves part (check_column e (tx began) u)
        (λ a p t x t' h.
          exec-Leaves (update_attr checks p.0 p.1 u a) t t' (updates a p.0 p.1) (ground arith))
        (λ a p t x t' h.
          exec-Leaves (insert_attr checks u a p.0 p.1) t t' (inserts a p.0 p.1) (ground arith))
        (λ a t x t' h. exec-Leaves (delete_attr checks u a) t t' (deletes a) (ground arith))

  pub replies-Leaves :
      ((a o v : String) → Untouched part (update_attr replies o v u a))
      → ((a o v : String) → Untouched part (insert_attr replies u a o v))
      → ((a : String) → Untouched part (delete_attr replies u a))
      → (preserve : String → Bool) (current items : List (String × Setting))
      → Leaves part (sync (reply_column e (tx began) u) preserve current items)
  unfolding reply_column insert_rad_reply update_rad_reply_attribute_tx
      delete_rad_reply_attribute_tx
  replies-Leaves updates inserts deletes =
      sync-Leaves part (reply_column e (tx began) u)
        (λ a p t x t' h.
          exec-Leaves (update_attr replies p.0 p.1 u a) t t' (updates a p.0 p.1) (ground arith))
        (λ a p t x t' h.
          exec-Leaves (insert_attr replies u a p.0 p.1) t t' (inserts a p.0 p.1) (ground arith))
        (λ a t x t' h. exec-Leaves (delete_attr replies u a) t t' (deletes a) (ground arith))

  pub groups-Leaves :
      ((g : String) (p : ℤ) → Untouched part (update_group p u g))
      → ((g : String) (p : ℤ) → Untouched part (insert_group u g p))
      → ((g : String) → Untouched part (delete_group u g))
      → (preserve : String → Bool) (current items : List (String × ℤ))
      → Leaves part (sync (group_column e (tx began) u) preserve current items)
  unfolding group_column insert_rad_user_group update_rad_user_group_tx delete_rad_user_group_tx
  groups-Leaves updates inserts deletes =
      sync-Leaves part (group_column e (tx began) u)
        (λ g p t x t' h. exec-Leaves (update_group p u g) t t' (updates g p) (ground arith))
        (λ g p t x t' h. exec-Leaves (insert_group u g p) t t' (inserts g p) (ground arith))
        (λ g t x t' h. exec-Leaves (delete_group u g) t t' (deletes g) (ground arith))

-- The rows of one user in the three tables.
abbrev pub rows_of : String → Tables → List RadAttr × List RadAttr × List RadUserGroup
rows_of v t =
    (filter (owns v) t.radcheck, filter (owns v) t.radreply, filter (belongs v) t.radusergroup)

-- A statement for `u` touches no row of `v`.
module _ (u v : String) (other : (u == v) ≡ false) where
  owns_only : (r : RadAttr) → owns u r ≡ true → owns v r ≡ false
  unfolding owns
  owns_only r h = rw (eq_of_test r.username u h) other

  belongs_only : (r : RadUserGroup) → belongs u r ≡ true → belongs v r ≡ false
  unfolding belongs
  belongs_only r h = rw (eq_of_test r.username u h) other

  owns-insert :
      (a o w : String) (rows : List RadAttr)
      → filter (owns v) (rows ++ record { username = u; attribute = a; op = o; value = w } ∷ [])
        ≡ filter (owns v) rows
  unfolding owns
  owns-insert a o w [] = ground arith
  owns-insert a o w (r ∷ rows) = ground (arith, owns-insert a o w rows)

  owns-set_attr :
      (o w a : String) (rows : List RadAttr)
      → filter (owns v) (set_attr o w u a rows) ≡ filter (owns v) rows
  unfolding owns set_attr is_attr
  owns-set_attr o w a [] = refl
  owns-set_attr o w a (r ∷ rows) = ground (arith, owns-set_attr o w a rows, owns_only r)

  owns-delete :
      (a : String) (rows : List RadAttr)
      → filter (owns v) (filter (λ r. not (is_attr u a r)) rows) ≡ filter (owns v) rows
  unfolding owns is_attr
  owns-delete a [] = refl
  owns-delete a (r ∷ rows) = ground (arith, owns-delete a rows, owns_only r)

  belongs-insert :
      (g : String) (p : ℤ) (rows : List RadUserGroup)
      → filter (belongs v) (rows ++ record { username = u; groupname = g; priority = p } ∷ [])
        ≡ filter (belongs v) rows
  unfolding belongs
  belongs-insert g p [] = ground arith
  belongs-insert g p (r ∷ rows) = ground (arith, belongs-insert g p rows)

  belongs-set_priority :
      (p : ℤ) (g : String) (rows : List RadUserGroup)
      → filter (belongs v) (set_priority p u g rows) ≡ filter (belongs v) rows
  unfolding belongs set_priority is_group
  belongs-set_priority p g [] = refl
  belongs-set_priority p g (r ∷ rows) =
      ground (arith, belongs-set_priority p g rows, belongs_only r)

  belongs-delete :
      (g : String) (rows : List RadUserGroup)
      → filter (belongs v) (filter (λ r. not (is_group u g r)) rows) ≡ filter (belongs v) rows
  unfolding belongs is_group
  belongs-delete g [] = refl
  belongs-delete g (r ∷ rows) = ground (arith, belongs-delete g rows, belongs_only r)

  pub insert_attr-other :
      (tab : AttrTable) (a o w : String) → Untouched (rows_of v) (insert_attr tab u a o w)
  unfolding effect
  insert_attr-other checks a o w t = rw (owns-insert a o w t.radcheck)
  insert_attr-other replies a o w t = rw (owns-insert a o w t.radreply)

  pub update_attr-other :
      (tab : AttrTable) (a o w : String) → Untouched (rows_of v) (update_attr tab o w u a)
  unfolding effect
  update_attr-other checks a o w t = rw (owns-set_attr o w a t.radcheck)
  update_attr-other replies a o w t = rw (owns-set_attr o w a t.radreply)

  pub delete_attr-other :
      (tab : AttrTable) (a : String) → Untouched (rows_of v) (delete_attr tab u a)
  unfolding effect
  delete_attr-other checks a t = rw (owns-delete a t.radcheck)
  delete_attr-other replies a t = rw (owns-delete a t.radreply)

  pub insert_group-other : (g : String) (p : ℤ) → Untouched (rows_of v) (insert_group u g p)
  unfolding effect
  insert_group-other g p t = rw (belongs-insert g p t.radusergroup)

  pub update_group-other : (g : String) (p : ℤ) → Untouched (rows_of v) (update_group p u g)
  unfolding effect
  update_group-other g p t = rw (belongs-set_priority p g t.radusergroup)

  pub delete_group-other : (g : String) → Untouched (rows_of v) (delete_group u g)
  unfolding effect
  delete_group-other g t = rw (belongs-delete g t.radusergroup)
