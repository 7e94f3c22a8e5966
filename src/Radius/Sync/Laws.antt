-- ===== src/Radius/Sync/Laws.antt =====
-- What `sync` makes of the rows under one name, from the laws of the statements of a column.
use wifigo.Base.{
  String, Bool, true, false, ◌||◌, ◌≡◌, ◌≢◌, refl, sym, subst, ◌∙◌, Option, none, some, List, [],
  ◌∷◌, ◌++◌, map, if◌then◌else◌, inl, inr, Bool-cases, arith,
}
use wifigo.Base.Texts.{◌==◌, eq_of_test}
use wifigo.Base.Lists.{lookup}
use wifigo.Radius.Rows.{Tables}
use wifigo.Radius.Transaction.{pure}
use wifigo.Radius.Transaction.Steps.{After, >>=-After}
use wifigo.Radius.Sync.{Column, is_processed, process_item, process, delete_stale, sync}

-- `view k t` lists what the user's rows under the name `k` hold.
pub record ColumnLaws {P : Type 0} (c : Column P) (view : String → Tables → List P) : Type 0 where
  pub same_eq : (p q : P) → c.same p q ≡ true → p ≡ q
  pub update_view :
      (k : String) (p : P) (t : Tables)
      → After (c.update_row k p) t (λ _ t'.
        (j : String) → view j t' ≡ (if k == j then map (λ _. p) (view j t) else view j t))
  pub insert_view :
      (k : String) (p : P) (t : Tables)
      → After
          (c.insert_row k p)
          t
          (λ _ t'. (j : String) → view j t' ≡ (if k == j then view j t ++ p ∷ [] else view j t))
  pub delete_view :
      (k : String) (t : Tables)
      → After
          (c.delete_rows k)
          t
          (λ _ t'. (j : String) → view j t' ≡ (if k == j then [] else view j t))

-- A value that may be missing, as a list.
abbrev pub to_list {ℓ} : {A : Type ℓ} → Option A → List A
to_list none = []
to_list (some a) = a ∷ []

abbrev pub is_some {ℓ} : {A : Type ℓ} → Option A → Bool
is_some none = false
is_some (some _) = true

-- No two items have the name `j`.
abbrev pub AtMostOnce {ℓ} : {P : Type ℓ} → String → List (String × P) → Type ℓ
AtMostOnce j [] = Unit
AtMostOnce j ((k, p) ∷ items) = ((k == j) ≡ true → lookup j items ≡ none) × AtMostOnce j items

-- What the user should have under the name `j`: the item of the request, else what was there, if
-- it is preserved.
abbrev pub target {ℓ} : {P : Type ℓ} → Option P → Bool → List P → List P
target (some p) preserved old = p ∷ []
target none true old = old
target none false old = []

pub target-to_list {ℓ} :
    {P : Type ℓ} (wanted : Option P) (preserved : Bool) (old : List P)
    → preserved ≡ false
    → target wanted preserved old ≡ to_list wanted
target-to_list none preserved old h = rw h
target-to_list (some p) preserved old h = refl

module _ {P : Type 0} (c : Column P) (view : String → Tables → List P) (laws : ColumnLaws c view)
    (current : List (String × P)) (j : String) where
  -- One item that is new for the user, or replaces the row it has.
  process_item-view :
      (k : String) (p : P) (o : Option P) (t : Tables)
      → ((k == j) ≡ true → view j t ≡ to_list o)
      → After (process_item c k p o) t (λ _ t'. view j t' ≡ (if k == j then p ∷ [] else view j t))
  unfolding process_item
  process_item-view k p none t start x t' h =
      laws.insert_view k p t x t' h j
      ∙ (elim (Bool-cases (k == j)) [ inl e ↦ rw (e, start e) | inr e ↦ rw e ])
  process_item-view k p (some old) t start x t' h = elim (Bool-cases (c.same old p)) [
    | inl s ↦ elim (Bool-cases (k == j)) [
      | inl e ↦ ground (arith, laws.same_eq old p s, start e)
      | inr e ↦ ground arith
    ]
    | inr s ↦
        laws.update_view k p t x t' (rw s at h) j
        ∙ (elim (Bool-cases (k == j)) [ inl e ↦ rw (e, start e) | inr e ↦ rw e ])
  ]

  -- The loop over the request.
  process-view :
      (items : List (String × P)) (done : List String) (t : Tables)
      → AtMostOnce j items
      → (lookup j items ≢ none → view j t ≡ to_list (lookup j current))
      → After (process c current items done) t (λ done' t'.
        (view j t' ≡ target (lookup j items) true (view j t))
        × (is_processed j done' ≡ (is_some (lookup j items) || is_processed j done)))
  unfolding process lookup is_processed
  process-view [] done t once start = λ done' t' h. ground arith
  process-view ((k, p) ∷ items) done t once start =
      >>=-After (process_item c k p (lookup k current)) _ t λ x u first done' t' rest.
        elim (Bool-cases (k == j)) [
          | inl e ↦
              let current_row : view j t ≡ to_list (lookup k current) =
                subst (λ (n : String). view j t ≡ to_list (lookup n current))
                  (sym (eq_of_test k j e)) (start (rw e (λ none_some. cc))) in
              let now = process_item-view k p (lookup k current) t (λ _. current_row) x u first in
              let gone = once.0 e in
              let ih =
                process-view items (k ∷ done) u once.1 (λ ne. absurd (ne gone)) done' t' rest in
              ground (arith, now, gone, ih)
          | inr e ↦
              let now = process_item-view k p (lookup k current) t (λ e'. cc) x u first in
              let ih =
                process-view items (k ∷ done) u once.1 (λ ne. (rw e at now) ∙ start (rw e ne)) done'
                  t' rest in
              ground (arith, now, ih)
        ]

  -- The loop over the current rows.
  delete_stale-view :
      (preserve : String → Bool) (done : List String) (rows : List (String × P)) (t : Tables)
      → After (delete_stale c preserve done rows) t (λ _ t'. view j t' ≡ (
          if is_some (lookup j rows)
          then (if preserve j || is_processed j done then view j t else [])
          else view j t))
  unfolding delete_stale lookup
  delete_stale-view preserve done [] t = λ _ t' h. ground arith
  delete_stale-view preserve done ((k, old) ∷ rows) t =
      >>=-After (if preserve k || is_processed k done then pure tt else c.delete_rows k) _ t
        λ x u first y t' rest.
          let ih = delete_stale-view preserve done rows u y t' rest in
          elim (Bool-cases (k == j)) [
            | inl e ↦
                let both : (preserve j || is_processed j done)
                    ≡ (preserve k || is_processed k done) =
                  rw (eq_of_test k j e) in
                elim (Bool-cases (preserve k || is_processed k done)) [
                  | inl keep ↦
                      let kept : t ≡ u = ground arith in
                      rw (e, both, keep, kept) (ih ∙ (rw (both, keep) (ground arith)))
                  | inr stale ↦
                      let gone = laws.delete_view k t x u (rw stale at first) j in
                      ground (arith, gone, both, ih)
                ]
            | inr e ↦ elim (Bool-cases (preserve k || is_processed k done)) [
              | inl keep ↦ let kept : t ≡ u = ground arith in ground (arith, ih)
              | inr stale ↦
                  let gone = laws.delete_view k t x u (rw stale at first) j in
                  ground (arith, gone, ih)
            ]
          ]

  -- Where the user has at most the one row under `j` that the map records, and the request has at
  -- most one item for it, the rows under `j` become those wanted.
  pub sync-view :
      (preserve : String → Bool) (items : List (String × P)) (t : Tables)
      → AtMostOnce j items
      → view j t ≡ to_list (lookup j current)
      → After
          (sync c preserve current items)
          t
          (λ _ t'. view j t' ≡ target (lookup j items) (preserve j) (view j t))
  unfolding sync is_processed
  sync-view preserve items t once start =
      >>=-After (process c current items []) _ t λ done u first x t' rest.
        let wanted = process-view items [] t once (λ _. start) done u first in
        let left = delete_stale-view preserve done current u x t' rest in
        ground (arith, wanted, left)
