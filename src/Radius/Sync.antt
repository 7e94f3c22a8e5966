-- ===== src/Radius/Sync.antt =====
-- The loop that `UpdateHotspotUser` (server/handler/hotspot_user.go) writes out three times, for
-- check attributes, reply attributes and groups: bring the rows of one user in line with a list.
pub mod Laws
pub mod Index
pub mod Same
pub mod Stops
use wifigo.Base.{String, Bool, true, false, ◌||◌, Option, none, some, List, [], ◌∷◌, if◌then◌else◌}
use wifigo.Base.Texts.{◌==◌}
use wifigo.Base.Lists.{lookup, insert}
use wifigo.Radius.Transaction.{Tx, pure, ◌>>=◌, ◌>>◌}

-- The statements on one table, for one user, in one transaction; `P` is what a row holds besides
-- its name.
pub record Column (P : Type 0) : Type 0 where
  pub same : P → P → Bool
  pub update_row : String → P → Tx (Unit {0})
  pub insert_row : String → P → Tx (Unit {0})
  pub delete_rows : String → Tx (Unit {0})

-- `processed[name]`
unfoldable pub is_processed : String → List String → Bool
is_processed k [] = false
is_processed k (j ∷ js) = j == k || is_processed k js

-- The map of the rows by name, but for those to be skipped; a later row takes the place of an
-- earlier one. Go visits a map in any order, here in that of the first rows.
unfoldable pub index_by :
    {R P : Type 0}
    → (R → String)
    → (R → P)
    → (R → Bool)
    → List R
    → List (String × P)
    → List (String × P)
index_by name value skip [] m = m
index_by name value skip (r ∷ rows) m =
    index_by name value skip rows (if skip r then m else insert (name r) (value r) m)

module _ {P : Type 0} (column : Column P) where
  -- One item of the request, against the row that the user has under its name.
  unfoldable pub process_item : String → P → Option P → Tx (Unit {0})
  process_item k p none = column.insert_row k p
  process_item k p (some old) = if column.same old p then pure tt else column.update_row k p

  -- The loop over the request; the map of the current rows is not updated on the way.
  unfoldable pub process : List (String × P) → List (String × P) → List String → Tx (List String)
  process current [] done = pure done
  process current ((k, p) ∷ inputs) done =
      process_item k p (lookup k current) >> process current inputs (k ∷ done)

  -- The loop over the current rows, without those to be preserved.
  unfoldable pub delete_stale : (String → Bool) → List String → List (String × P) → Tx (Unit {0})
  delete_stale preserve done [] = pure tt
  delete_stale preserve done ((k, old) ∷ current) =
      (if preserve k || is_processed k done then pure tt else column.delete_rows k)
      >> delete_stale preserve done current

  unfoldable pub sync : (String → Bool) → List (String × P) → List (String × P) → Tx (Unit {0})
  sync preserve current inputs = do
    done ← process current inputs []
    delete_stale preserve done current
