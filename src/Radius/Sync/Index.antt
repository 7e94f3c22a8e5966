-- ===== src/Radius/Sync/Index.antt =====
-- The map of the current rows that the loop looks names up in.
use wifigo.Base.{
  ◌≤◌, String, Bool, true, false, ◌≡◌, refl, ◌∙◌, none, List, [], ◌∷◌, map, if◌then◌else◌, inl, inr,
  Bool-cases, arith,
}
use wifigo.Base.Texts.{◌==◌}
use wifigo.Base.Lists.{length, nil_of_length, filter, lookup, insert, lookup-insert}
use wifigo.Radius.Sync.{index_by}
use wifigo.Radius.Sync.Laws.{to_list}

module _ {R P : Type 0} (name : R → String) (value : R → P) (skip : R → Bool) (j : String) where
  -- What the rows under the name hold.
  abbrev pub found : List R → List P
  found rows = map value (filter (λ r. name r == j) rows)

  module _ (tracked : (r : R) → (name r == j) ≡ true → skip r ≡ false) where
    index_by-missing :
        (rows : List R) (m : List (String × P))
        → found rows ≡ []
        → lookup j (index_by name value skip rows m) ≡ lookup j m
    unfolding index_by
    index_by-missing [] m h = refl
    index_by-missing (r ∷ rows) m h = elim (Bool-cases (name r == j)) [
      | inl e ↦ ground arith
      | inr e ↦
          index_by-missing rows (if skip r then m else insert (name r) (value r) m) (rw e at h)
          ∙ ground (arith, lookup-insert (name r) j (value r) m)
    ]

    pub index_by-lookup :
        (rows : List R) (m : List (String × P))
        → lookup j m ≡ none
        → length (found rows) ≤ 1
        → to_list (lookup j (index_by name value skip rows m)) ≡ found rows
    unfolding index_by
    index_by-lookup [] m h few = ground arith
    index_by-lookup (r ∷ rows) m h few = elim (Bool-cases (name r == j)) [
      | inl e ↦
          let last : found rows ≡ [] = nil_of_length (found rows) (rw e at few) in
          let rest =
            index_by-missing rows (if skip r then m else insert (name r) (value r) m) last in
          ground (arith, rest, lookup-insert (name r) j (value r) m, tracked r e)
      | inr e ↦
          let ih =
            index_by-lookup rows (if skip r then m else insert (name r) (value r) m)
              (ground (arith, lookup-insert (name r) j (value r) m)) (rw e at few) in
          ground (arith, ih)
    ]
