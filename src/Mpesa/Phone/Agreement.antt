-- ===== src/Mpesa/Phone/Agreement.antt =====
-- Where the two normalisations of telephone numbers, in server/handler/mpesa_callback.go and
-- server/handler/mpesa_stk.go, agree.
use Prim.Native.Nat.{ℕ, suc, ◌+◌, Ordering, compare}
use Prim.Native.Char.{char, code, IsScalar, len_utf8, len_utf8_def}
use Prim.Native.String
use Prim.Native.String.{len}
use wifigo.Base.{
  String, Bool, true, false, ◌≡◌, refl, sym, ap, ◌∙◌, ◌↔◌, ◌≢◌, inl, inr, ◌&&◌, ◌||◌, eqb, eqb_iff,
  Bool-cases, arith,
}
use wifigo.Base.Texts.{concat}
use wifigo.Base.Words.{has_prefix, letter, concat-letter, concat_nil}
use wifigo.Mpesa.Phone.{starts_with, tail, stored_phone, format_phone_number}

concat_254 : (s : String) → concat "254" s ≡ letter 50 tt (letter 53 tt (letter 52 tt s))
concat_254 s =
    rw
      (
        concat-letter 50 tt "54" s,
        concat-letter 53 tt "4" s,
        concat-letter 52 tt "" s,
        concat_nil s,
      )
      refl

-- A character of one byte before a text.
len-letter :
    (n : ℕ) (h : IsScalar n) (s : String) {k : ℕ}
    → len_utf8 (char n h) ≡ 1
    → len s ≡ k
    → len (letter n h s) ≡ 1 + k
len-letter n h s one e = (λ i. String.len.cons (char n h) s i) ∙ (λ i. one i + e i)

len-concat_254 : (s : String) {k : ℕ} → len s ≡ k → len (concat "254" s) ≡ 3 + k
len-concat_254 s {k} e =
    let longer : len (letter 50 tt (letter 53 tt (letter 52 tt s))) ≡ 1 + (1 + (1 + k)) =
      len-letter 50 tt _ refl (len-letter 53 tt _ refl (len-letter 52 tt s refl e)) in
    let all = ap len (concat_254 s) ∙ longer in omega (arith, all)

-- The rest of a text behind a character of one byte.
len-tail :
    (n : ℕ) (s : String) {k : ℕ}
    → compare n 128 ≡ Ordering.lt
    → starts_with n s ≡ true
    → len s ≡ suc k
    → len (tail s) ≡ k
unfolding starts_with tail
len-tail n String.[] small h e = absurd (cc h)
len-tail n (String.◌∷◌ c s) small h e =
    let one : len_utf8 c ≡ 1 =
      (λ i. len_utf8_def c i) ∙ rw ((eqb_iff (code c) n).0 h, small) refl in
    let all : len (String.◌∷◌ c s) ≡ 1 + len s =
      (λ i. String.len.cons c s i) ∙ ap (λ w. w + len s) one in
    omega (arith, all, e)

starts_with-one : (s : String) → starts_with 55 s ≡ true → starts_with 49 s ≡ false
unfolding starts_with
starts_with-one String.[] h = refl
starts_with-one (String.◌∷◌ c s) h = ground arith

has_prefix-plus : (s : String) → has_prefix s "+254" ≡ true → starts_with 43 s ≡ true
unfolding has_prefix starts_with
has_prefix-plus String.[] h = h
has_prefix-plus (String.◌∷◌ c s) h = ground arith

-- A text of twelve bytes is left as it is.
stored_phone-twelve : (s : String) → len s ≡ 12 → stored_phone s ≡ s
unfolding stored_phone
stored_phone-twelve s e = elim (Bool-cases (has_prefix s "254")) [
  | inl p ↦ rw (stored_phone, e, p) refl
  | inr p ↦ rw (stored_phone, e, p) refl
]

-- Nine bytes of which the first is a 1.
abbrev nine_from_1 : String → Bool
nine_from_1 s = eqb (len s) 9 && starts_with 49 s

-- Thirteen bytes of which the first four are +254.
abbrev with_plus : String → Bool
with_plus s = eqb (len s) 13 && has_prefix s "+254"

-- How the two functions treat a text: alike, with a result that the callback leaves alone; or only
-- one of the two changes it.
data Treatment : String → Type 0 where
  alike :
      {s : String} (t : String)
      → stored_phone s ≡ t
      → format_phone_number s ≡ t
      → stored_phone t ≡ t
      → nine_from_1 s ≡ false
      → with_plus s ≡ false
      → Treatment s
  stored_only :
      {s : String}
      → stored_phone s ≡ concat "254" s
      → format_phone_number s ≡ s
      → nine_from_1 s ≡ true
      → len s ≡ 9
      → Treatment s
  formatted_only :
      {s : String} (t : String)
      → stored_phone s ≡ s
      → format_phone_number s ≡ t
      → len t ≡ 12
      → len s ≡ 13
      → nine_from_1 s ≡ false
      → with_plus s ≡ true
      → Treatment s

nine-Treatment : (s : String) → len s ≡ 9 → Treatment s
unfolding stored_phone format_phone_number
nine-Treatment s e = elim (Bool-cases (starts_with 55 s)) [
  | inl seven ↦
      alike (concat "254" s) (rw (stored_phone, e, seven) refl)
        (rw (format_phone_number, e, seven) refl)
        (stored_phone-twelve (concat "254" s) (len-concat_254 s e))
        (rw (e, starts_with-one s seven) refl) (rw e refl)
  | inr other ↦ elim (Bool-cases (starts_with 49 s)) [
    | inl one ↦
        stored_only (rw (stored_phone, e, other, one) refl)
          (rw (format_phone_number, e, other) refl) (rw (e, one) refl) e
    | inr neither ↦
        alike s (rw (stored_phone, e, other, neither) refl)
          (rw (format_phone_number, e, other) refl) (rw (stored_phone, e, other, neither) refl)
          (rw (e, neither) refl) (rw e refl)
  ]
]

ten-Treatment : (s : String) → len s ≡ 10 → Treatment s
unfolding stored_phone format_phone_number
ten-Treatment s e = elim (Bool-cases (starts_with 48 s)) [
  | inl zero_first ↦
      alike (concat "254" (tail s)) (rw (stored_phone, e, zero_first) refl)
        (rw (format_phone_number, e, zero_first) refl)
        (stored_phone-twelve (concat "254" (tail s))
          (len-concat_254 (tail s) (len-tail 48 s refl zero_first e)))
        (rw e refl) (rw e refl)
  | inr other ↦
      alike s (rw (stored_phone, e, other) refl) (rw (format_phone_number, e, other) refl)
        (rw (stored_phone, e, other) refl) (rw e refl) (rw e refl)
]

thirteen-Treatment : (s : String) → len s ≡ 13 → Treatment s
unfolding stored_phone format_phone_number
thirteen-Treatment s e = elim (Bool-cases (has_prefix s "+254")) [
  | inl plus ↦
      formatted_only (tail s) (rw (stored_phone, e) refl) (rw (format_phone_number, e, plus) refl)
        (len-tail 43 s refl (has_prefix-plus s plus) e) e (rw e refl) (rw (e, plus) refl)
  | inr other ↦
      alike s (rw (stored_phone, e) refl) (rw (format_phone_number, e, other) refl)
        (rw (stored_phone, e) refl) (rw e refl) (rw (e, other) refl)
]

treatment : (s : String) → Treatment s
unfolding stored_phone format_phone_number
treatment s = elim (Bool-cases (eqb (len s) 9)) [
  | inl nine ↦ nine-Treatment s ((eqb_iff (len s) 9).0 nine)
  | inr n ↦ elim (Bool-cases (eqb (len s) 10)) [
    | inl ten ↦ ten-Treatment s ((eqb_iff (len s) 10).0 ten)
    | inr m ↦ elim (Bool-cases (eqb (len s) 13)) [
      | inl thirteen ↦ thirteen-Treatment s ((eqb_iff (len s) 13).0 thirteen)
      | inr k ↦
          let stored : stored_phone s ≡ s = elim (Bool-cases (eqb (len s) 12)) [
            | inl twelve ↦ stored_phone-twelve s ((eqb_iff (len s) 12).0 twelve)
            | inr other ↦ rw (stored_phone, n, m, other) refl
          ] in
          alike s stored (rw (format_phone_number, n, m, k) refl) stored (rw n refl) (rw k refl)
    ]
  ]
]

-- The callback and the STK push make the same of a text, whatever it is, except of nine bytes that
-- start with 1, to which only the callback adds 254, and of thirteen bytes that start with +254,
-- of which only the push drops the +: of these they make different texts. And the callback leaves a
-- number that the push has sent as it is, except of nine bytes that start with 1.
pub phones-Agree :
    (s : String)
    → ((stored_phone s ≡ format_phone_number s) ↔ (
        ((eqb (len s) 9 && starts_with 49 s) || (eqb (len s) 13 && has_prefix s "+254")) ≡ false))
      × ((stored_phone (format_phone_number s) ≡ format_phone_number s)
          ↔ ((eqb (len s) 9 && starts_with 49 s) ≡ false))
phones-Agree s = by_treatment s (treatment s)
  where
    Claim : String → Type 0
    Claim s =
        ((stored_phone s ≡ format_phone_number s) ↔ ((nine_from_1 s || with_plus s) ≡ false))
        × ((stored_phone (format_phone_number s) ≡ format_phone_number s) ↔ (nine_from_1 s ≡ false))

    by_treatment : (s : String) → Treatment s → Claim s
    by_treatment s (alike t a b c n w) =
        ((λ _. rw (n, w) refl, λ _. a ∙ sym b), (λ _. n, λ _. ap stored_phone b ∙ c ∙ sym b))
    by_treatment s (stored_only a b n9 e) =
        let longer = len-concat_254 s e in
        let differ : stored_phone s ≢ s = λ h. omega (arith, e, longer, ap len (sym a ∙ h)) in
        (
          (λ h. absurd (differ (h ∙ b)), λ f. absurd (cc (rw n9 at f))),
          (λ h. absurd (differ (ap stored_phone (sym b) ∙ h ∙ b)), λ f. absurd (cc (n9, f))),
        )
    by_treatment s (formatted_only t a b e l n w) =
        let differ : s ≢ t = λ h. omega (arith, e, l, ap len h) in
        (
          (λ h. absurd (differ (sym a ∙ h ∙ b)), λ f. absurd (cc (rw (n, w) at f))),
          (λ _. n, λ _. ap stored_phone b ∙ stored_phone-twelve t e ∙ sym b),
        )
