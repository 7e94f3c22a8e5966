-- ===== src/TwoFactor/Codes.antt =====
-- `GenerateCode` of service/twoFA.go, and the loops of `CreateBackup2FA` around it. The source of
-- randomness is a sequence: at each position `rand.Int` returns a number or an error.
use Prim.Native.Char.{Char}
use Prim.Native.String
use Prim.Native.String.{char_at, count}
use wifigo.Base.{
  ℕ, zero, suc, String, ◌≡◌, refl, sym, ap, subst, ◌∙◌, ◌+◌, ◌≤◌, ◌<◌, ◌⊎◌, inl, inr, Option, none,
  some, List, [], ◌∷◌, arith, Option-cases,
}
use wifigo.Base.Lists.{length}
use wifigo.Base.Outcome.{Outcome, ok, err, Outcome-cases}

abbrev pub Random : Type 0
Random = ℕ → Outcome ℕ

abbrev pub characters : String
characters = "ABCDEFGHIJKLMNOPQRSTUVWXYZabcdefghijklmnopqrstuvwxyz0123456789"

-- A character before a code.
abbrev prepend : Char → Outcome String × ℕ → Outcome String × ℕ
prepend c (ok s, k) = (ok (String.◌∷◌ c s), k)
prepend c (err why, k) = (err why, k)

module _ (random : Random) where
  -- `GenerateCode(length)` from a position on: the code or the error, and the next position.
  unfoldable pub generate_code : ℕ → ℕ → Outcome String × ℕ
  generate_code zero k = (ok "", k)
  generate_code (suc n) k = elim (random k) [
    | err why ↦ (err why, suc k)
    | ok i ↦ prepend (char_at characters i) (generate_code n (suc k))
  ]

  -- The inner loop: an error means another attempt. With no fuel left it still runs.
  unfoldable pub retry : ℕ → ℕ → ℕ → Option (String × ℕ)
  retry zero n k = none
  retry (suc fuel) n k =
      let (code, next) = generate_code n k in
      elim code [ ok c ↦ some (c, next) | err why ↦ retry fuel n next ]

  -- The outer loop, for so many codes.
  unfoldable pub generate_codes : ℕ → ℕ → ℕ → Option (List String × ℕ)
  generate_codes fuel zero k = some ([], k)
  generate_codes fuel (suc m) k = elim (retry fuel 16 k) [
    | none ↦ none
    | some (c, next) ↦ elim (generate_codes fuel m next) [
      | none ↦ none
      | some (cs, last) ↦ some (c ∷ cs, last)
    ]
  ]

le_or_lt : (m k : ℕ) → (m ≤ k) ⊎ (k < m)
le_or_lt m k = ground arith

first_of :
    {a b : String} {k l : ℕ} → ◌≡◌ {A = Option (String × ℕ)} (some (a, k)) (some (b, l)) → a ≡ b
first_of h = cc h

ok_of : {a b : String} {k l : ℕ} → ◌≡◌ {A = Outcome String × ℕ} (ok a, k) (ok b, l) → a ≡ b
ok_of h = cc h

list_of :
    {a b : List String} {k l : ℕ}
    → ◌≡◌ {A = Option (List String × ℕ)} (some (a, k)) (some (b, l))
    → a ≡ b
list_of h = cc h

prepend-ok :
    (c : Char) (q : Outcome String × ℕ) {s : String} {next : ℕ}
    → prepend c q ≡ (ok s, next)
    → (t : String) × (q ≡ (ok t, q.1)) × (String.◌∷◌ c t ≡ s)
prepend-ok c (ok t, k) h = (t, refl, ok_of h)
prepend-ok c (err why, k) h = absurd (cc h)

-- A list of texts of so many characters each.
abbrev pub AllOf : ℕ → List String → Type 0
AllOf n [] = Unit
AllOf n (c ∷ cs) = (count c ≡ n) × AllOf n cs

module _ (random : Random) where
  generate_code-count :
      (n k : ℕ) {c : String} {next : ℕ} → generate_code random n k ≡ (ok c, next) → count c ≡ n
  unfolding generate_code
  generate_code-count zero k h = ap count (sym (ok_of h))
  generate_code-count (suc n) k h = elim (Outcome-cases (random k)) [
    | inr (why, e) ↦ absurd (cc (ap (λ (q : Outcome String × ℕ). q.0) (rw (generate_code, e) at h)))
    | inl (i, e) ↦
        let (t, g, same) =
          prepend-ok (char_at characters i) (generate_code random n (suc k))
            (rw (generate_code, e) at h) in
        ap count (sym same)
        ∙ (λ j. String.count.cons (char_at characters i) t j)
        ∙ ap suc (generate_code-count n (suc k) g)
  ]

  retry-count :
      (fuel n k : ℕ) {c : String} {next : ℕ} → retry random fuel n k ≡ some (c, next) → count c ≡ n
  unfolding retry
  retry-count zero n k h = absurd (cc h)
  retry-count (suc fuel) n k {c = c} {next = next} h =
      split (λ l. retry-count fuel n l {c = c} {next = next}) (generate_code random n k) refl h
    where
      split :
          ((l : ℕ) → retry random fuel n l ≡ some (c, next) → count c ≡ n)
          → (q : Outcome String × ℕ) → generate_code random n k ≡ q
          → elim q.0 as (λ _. Option (String × ℕ)) [
            | ok c ↦ some (c, q.1)
            | err why ↦ retry random fuel n q.1
          ]
            ≡ some (c, next)
          → count c ≡ n
      split again (ok d, l) e g = ap count (sym (first_of g)) ∙ generate_code-count n k e
      split again (err why, l) e g = again l g

  -- The codes are as many as asked for, with 16 characters each.
  pub codes-count :
      (fuel n k : ℕ) {cs : List String} {next : ℕ}
      → generate_codes random fuel n k ≡ some (cs, next)
      → (length cs ≡ n) × AllOf 16 cs
  unfolding generate_codes
  codes-count fuel zero k h =
      subst (λ (xs : List String). (length xs ≡ 0) × AllOf 16 xs) (list_of h) (refl, tt)
  codes-count fuel (suc n) k h = elim (Option-cases (retry random fuel 16 k)) [
    | inl e ↦ absurd (cc (rw (generate_codes, e) at h))
    | inr ((c, next), e) ↦ elim (Option-cases (generate_codes random fuel n next)) [
      | inl f ↦ absurd (cc (rw (generate_codes, e, f) at h))
      | inr ((cs, last), f) ↦
          let (len, all) = codes-count fuel n next f in
          subst (λ (xs : List String). (length xs ≡ suc n) × AllOf 16 xs)
            (list_of (rw (generate_codes, e, f) at h)) (ap suc len, (retry-count fuel 16 k e, all))
    ]
  ]

-- Every number of the source from a position on is there.
abbrev pub SteadyFrom : Random → ℕ → Type 0
SteadyFrom random m = (k : ℕ) → m ≤ k → (i : ℕ) × (random k ≡ ok i)

module _ (random : Random) where
  early : (m : ℕ) → SteadyFrom random m → (k : ℕ) {why : String} → random k ≡ err why → k < m
  early m steady k e = elim (le_or_lt m k) [
    | inl le ↦ let (i, o) = steady k le in absurd (cc (e, o))
    | inr lt ↦ lt
  ]

  -- An attempt that fails has moved on, and one from a steady position succeeds.
  generate_code-ends :
      (m : ℕ) (steady : SteadyFrom random m) (n k : ℕ)
      → ((c : String) × (next : ℕ) × (generate_code random n k ≡ (ok c, next)) × (k ≤ next))
        ⊎ ((why : String) × (next : ℕ) × (generate_code random n k ≡ (err why, next))
            × (k < next)
            × (k < m))
  unfolding generate_code
  generate_code-ends m steady zero k = inl ("", k, refl, omega arith)
  generate_code-ends m steady (suc n) k = elim (Outcome-cases (random k)) [
    | inr (why, e) ↦ inr (why, suc k, rw (generate_code, e) refl, omega arith, early m steady k e)
    | inl (i, e) ↦ elim (generate_code-ends m steady n (suc k)) [
      | inl (c, next, g, le) ↦ inl (
        String.◌∷◌ (char_at characters i) c,
        next,
        rw (generate_code, e, g) refl,
        omega (arith, le),
      )
      | inr (why, next, g, lt, before) ↦
          inr (why, next, rw (generate_code, e, g) refl, omega (arith, lt), omega (arith, before))
    ]
  ]

  retry-ends :
      (m : ℕ) (steady : SteadyFrom random m) (fuel n k : ℕ)
      → m < fuel + k
      → 0 < fuel
      → (c : String) × (next : ℕ) × (retry random fuel n k ≡ some (c, next)) × (k ≤ next)
  unfolding retry
  retry-ends m steady zero n k h pos = absurd (omega (arith, pos))
  retry-ends m steady (suc fuel) n k h pos = elim (generate_code-ends m steady n k) [
    | inl (c, next, g, le) ↦
        (c, next, rw (retry, g) (ap (λ (q : Outcome String × ℕ). some (c, q.1)) g), le)
    | inr (why, next, g, lt, before) ↦
        let (c, last, r, le) =
          retry-ends m steady fuel n next (omega (arith, h, lt)) (omega (arith, h, before)) in
        (
          c,
          last,
          rw (retry, g) (ap (λ (q : Outcome String × ℕ). retry random fuel n q.1) g ∙ r),
          omega (arith, lt, le),
        )
  ]

  pub codes-end :
      (m : ℕ) (steady : SteadyFrom random m) (fuel n k : ℕ)
      → m < fuel + k
      → 0 < fuel
      → (cs : List String) × (next : ℕ) × (generate_codes random fuel n k ≡ some (cs, next))
  unfolding generate_codes
  codes-end m steady fuel zero k h pos = ([], k, refl)
  codes-end m steady fuel (suc n) k h pos =
      let (c, next, r, le) = retry-ends m steady fuel 16 k h pos in
      let (cs, last, g) = codes-end m steady fuel n next (omega (arith, h, le)) pos in
      (c ∷ cs, last, rw (generate_codes, r, g) refl)
