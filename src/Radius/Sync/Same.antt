-- ===== src/Radius/Sync/Same.antt =====
-- Parts of the tables that no statement of the loop changes.
use wifigo.Base.{
  String, Bool, ◌||◌, ◌≡◌, ◌∙◌, Option, none, some, List, [], ◌∷◌, if◌then◌else◌, inl, inr,
  Bool-cases, arith,
}
use wifigo.Base.Lists.{lookup}
use wifigo.Radius.Rows.{Tables}
use wifigo.Radius.Transaction.{Tx, pure, ◌>>=◌, ◌>>◌}
use wifigo.Radius.Transaction.Steps.{After, >>=-After}
use wifigo.Radius.Sync.{Column, is_processed, process_item, process, delete_stale, sync}

-- These steps leave `part` of the tables alone.
abbrev pub Leaves {ℓ κ} : {X : Type ℓ} {A : Type κ} → (Tables → X) → Tx A → Type (ℓ ⊔ κ)
Leaves part m = (t : Tables) → After m t (λ _ t'. part t' ≡ part t)

pub >>=-Leaves {ℓ κ λ₁} :
    {X : Type ℓ} {A : Type κ} {B : Type λ₁} (part : Tables → X) (m : Tx A) (f : A → Tx B)
    → Leaves part m
    → ((a : A) → Leaves part (f a))
    → Leaves part (m >>= f)
>>=-Leaves part m f first rest t =
    >>=-After {P = λ _ w. part w ≡ part t} m f t
      λ a u ran b t' ran'. rest a u b t' ran' ∙ first t a u ran

pub >>-Leaves {ℓ κ} :
    {X : Type ℓ} {B : Type κ} (part : Tables → X) (m : Tx (Unit {0})) (k : Tx B)
    → Leaves part m
    → Leaves part k
    → Leaves part (m >> k)
>>-Leaves part m k first rest = >>=-Leaves part m (λ _. k) first (λ _. rest)

pub pure-Leaves {ℓ κ} : {X : Type ℓ} {A : Type κ} (part : Tables → X) (a : A) → Leaves part (pure a)
pure-Leaves part a t b t' h = ground arith

module _ {ℓ} {X : Type ℓ} {P : Type 0} (part : Tables → X) (c : Column P)
    (updates : (k : String) (p : P) → Leaves part (c.update_row k p))
    (inserts : (k : String) (p : P) → Leaves part (c.insert_row k p))
    (deletes : (k : String) → Leaves part (c.delete_rows k)) where
  process_item-Leaves : (k : String) (p : P) (o : Option P) → Leaves part (process_item c k p o)
  unfolding process_item
  process_item-Leaves k p none t = inserts k p t
  process_item-Leaves k p (some old) t = elim (Bool-cases (c.same old p)) [
    | inl s ↦ rw s (pure-Leaves part tt t)
    | inr s ↦ rw s (updates k p t)
  ]

  process-Leaves :
      (current items : List (String × P)) (done : List String)
      → Leaves part (process c current items done)
  unfolding process
  process-Leaves current [] done = pure-Leaves part done
  process-Leaves current ((k, p) ∷ items) done =
      >>-Leaves part _ _ (process_item-Leaves k p (lookup k current))
        (process-Leaves current items (k ∷ done))

  delete_stale-Leaves :
      (preserve : String → Bool) (done : List String) (rows : List (String × P))
      → Leaves part (delete_stale c preserve done rows)
  unfolding delete_stale
  delete_stale-Leaves preserve done [] = pure-Leaves part tt
  delete_stale-Leaves preserve done ((k, old) ∷ rows) =
      >>-Leaves part (if preserve k || is_processed k done then pure tt else c.delete_rows k) _
        (λ t. elim (Bool-cases (preserve k || is_processed k done)) [
          | inl keep ↦ rw keep (pure-Leaves part tt t)
          | inr stale ↦ rw stale (deletes k t)
        ])
        (delete_stale-Leaves preserve done rows)

  pub sync-Leaves :
      (preserve : String → Bool) (current items : List (String × P))
      → Leaves part (sync c preserve current items)
  unfolding sync
  sync-Leaves preserve current items =
      >>=-Leaves part (process c current items []) _ (process-Leaves current items [])
        (λ done. delete_stale-Leaves preserve done current)
