-- ===== src/Radius/Sync/Stops.antt =====
-- With which status the loop answers where one of its statements fails.
use wifigo.Base.{
  ℕ, String, Bool, ◌||◌, Option, none, some, List, [], ◌∷◌, if◌then◌else◌, inl, inr, Bool-cases,
}
use wifigo.Base.Lists.{lookup}
use wifigo.Radius.Transaction.{pure}
use wifigo.Radius.Transaction.Stops.{Stops, >>=-Stops, >>-Stops}
use wifigo.Radius.Sync.{Column, is_processed, process_item, process, delete_stale, sync}

module _ (Q : ℕ → Type 0) {P : Type 0} (c : Column P)
    (updates : (k : String) (p : P) → Stops Q (c.update_row k p))
    (inserts : (k : String) (p : P) → Stops Q (c.insert_row k p))
    (deletes : (k : String) → Stops Q (c.delete_rows k)) where
  process_item-Stops : (k : String) (p : P) (o : Option P) → Stops Q (process_item c k p o)
  unfolding process_item
  process_item-Stops k p none t = inserts k p t
  process_item-Stops k p (some old) t = elim (Bool-cases (c.same old p)) [
    | inl s ↦ rw s tt
    | inr s ↦ rw s (updates k p t)
  ]

  process-Stops :
      (current items : List (String × P)) (done : List String)
      → Stops Q (process c current items done)
  unfolding process
  process-Stops current [] done t = tt
  process-Stops current ((k, p) ∷ items) done t =
      >>-Stops Q (process_item c k p (lookup k current)) (process c current items (k ∷ done))
        (process_item-Stops k p (lookup k current)) (process-Stops current items (k ∷ done)) t

  delete_stale-Stops :
      (preserve : String → Bool) (done : List String) (rows : List (String × P))
      → Stops Q (delete_stale c preserve done rows)
  unfolding delete_stale
  delete_stale-Stops preserve done [] t = tt
  delete_stale-Stops preserve done ((k, old) ∷ rows) t =
      >>-Stops Q (if preserve k || is_processed k done then pure tt else c.delete_rows k)
        (delete_stale c preserve done rows)
        (λ t. elim (Bool-cases (preserve k || is_processed k done)) [
          | inl keep ↦ rw keep tt
          | inr stale ↦ rw stale (deletes k t)
        ])
        (delete_stale-Stops preserve done rows) t

  pub sync-Stops :
      (preserve : String → Bool) (current items : List (String × P))
      → Stops Q (sync c preserve current items)
  unfolding sync
  sync-Stops preserve current items =
      >>=-Stops Q (process c current items []) (λ done. delete_stale c preserve done current)
        (process-Stops current items []) (λ done. delete_stale-Stops preserve done current)
