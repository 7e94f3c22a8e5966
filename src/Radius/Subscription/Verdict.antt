-- ===== src/Radius/Subscription/Verdict.antt =====
-- What the answers of `IsUserExpired` say of the tables.
use wifigo.Base.{
  String, Bool, true, false, ◌≡◌, ◌≢◌, refl, ap, ◌⊎◌, inl, inr, if◌then◌else◌, Bool-cases, arith,
}
use wifigo.Base.Int.{ℤ, lt_ℤ}
use wifigo.Base.Texts.{◌==◌, eq_of_test, test_self}
use wifigo.Base.Lists.{filter}
use wifigo.Base.Outcome.{Outcome, ok, err}
use wifigo.Radius.Rows.{Tables}
use wifigo.Radius.Engine.{direct, Engine, IsSql, SomeValue, user_rows, counted, is_attr}
use wifigo.Radius.Queries.{user_exists}
use wifigo.Radius.Queries.Answers.{user_exists-ok}
use wifigo.Radius.Subscription.{
  Host, UserStatus, no_exist, expired, not_expired, judge, is_user_expired,
}

-- The value of one of the user's expiration rows, or the empty text where there is none.
abbrev pub Expiration : String → Tables → String → Type 0
Expiration u t v = SomeValue (filter (is_attr u "Expiration") t.radcheck) v

-- The user has rows and an expiration with the property `P`.
abbrev pub Has : String → Tables → (String → Type 0) → Type 0
Has u t P = (counted (user_rows u) t ≢ 0) × ((v : String) × Expiration u t v × P v)

abbrev pub Verdict : Host → String → Tables → UserStatus → Type 0
Verdict host u t no_exist = counted (user_rows u) t ≡ 0
Verdict host u t expired =
    Has u t λ v. (v ≡ "") ⊎ ((x : ℤ) × (host.parse v ≡ ok x) × (lt_ℤ x host.checked ≡ true))
Verdict host u t not_expired =
    Has u t λ v. (v ≢ "") × ((x : ℤ) × (host.parse v ≡ ok x) × (lt_ℤ x host.checked ≡ false))

-- What `judge` says of an expiration text.
abbrev Judged : Host → String → UserStatus → Type 0
Judged host v no_exist = ⊥
Judged host v expired = (v ≡ "") ⊎ ((x : ℤ) × (host.parse v ≡ ok x) × (lt_ℤ x host.checked ≡ true))
Judged host v not_expired =
    (v ≢ "") × ((x : ℤ) × (host.parse v ≡ ok x) × (lt_ℤ x host.checked ≡ false))

judge-Judged :
    (host : Host) (u v : String) (s : UserStatus) → judge host u v ≡ ok s → Judged host v s
unfolding judge
judge-Judged host u v s h = elim (Bool-cases (v == "")) [
  | inl b ↦ empty b s h
  | inr b ↦ parsed b (host.parse v) refl s h
]
  where
    empty : (v == "") ≡ true → (s : UserStatus) → judge host u v ≡ ok s → Judged host v s
    empty b no_exist k = ground arith
    empty b expired k = inl (eq_of_test v "" b)
    empty b not_expired k = ground arith

    compared :
        (v == "") ≡ false
        → (x : ℤ) → host.parse v ≡ ok x
        → (c : Bool) → lt_ℤ x host.checked ≡ c
        → (s : UserStatus) → (if c then expired else not_expired) ≡ s
        → Judged host v s
    compared b x p true l no_exist k = ground arith
    compared b x p true l expired k = inr (x, p, l)
    compared b x p true l not_expired k = ground arith
    compared b x p false l no_exist k = ground arith
    compared b x p false l expired k = ground arith
    compared b x p false l not_expired k =
        (λ z. ground (arith, b, ap (λ w. w == "") z, test_self ""), (x, p, l))

    parsed :
        (v == "") ≡ false
        → (p : Outcome ℤ) → host.parse v ≡ p
        → (s : UserStatus) → judge host u v ≡ ok s
        → Judged host v s
    parsed b (ok x) p s k = compared b x p (lt_ℤ x host.checked) refl s (ground (arith, b, p, k))
    parsed b (err why) p s k = absurd (ground (arith, b, p, k))

-- Where `IsUserExpired` reports no error, "NO_EXIST" means that the user has no row in `radcheck`;
-- "EXPIRED" that the user has rows, and has no expiration, or an empty one, or one that the clock
-- has passed; "NOT_EXPIRED" that the user has rows and an expiration that the clock has not passed.
pub is_user_expired-Verdict :
    (e : Engine)
    → IsSql e
    → (host : Host) (u : String) (t : Tables) (s : UserStatus) → is_user_expired e host u t ≡ ok s
    → Verdict host u t s
unfolding is_user_expired
is_user_expired-Verdict e sql host u t s h = asked (user_exists e direct u t) refl
  where
    judged :
        counted (user_rows u) t ≢ 0
        → (v : String) → Expiration u t v
        → (s : UserStatus) → Judged host v s
        → Verdict host u t s
    judged there v row no_exist j = absurd j
    judged there v row expired j = (there, (v, row, j))
    judged there v row not_expired j = (there, (v, row, j))

    selected :
        user_exists e direct u t ≡ ok true
        → (o : Outcome String) → e.select_value direct u "Expiration" t ≡ o
        → Verdict host u t s
    selected x (err why) q = absurd (cc (rw (x, q, is_user_expired) at h))
    selected x (ok v) q =
        judged (ground (arith, user_exists-ok e sql direct u t true x)) v
          (sql.select_value_row direct u "Expiration" t v q) s
          (judge-Judged host u v s (rw (x, q, is_user_expired) at h))

    asked : (o : Outcome Bool) → user_exists e direct u t ≡ o → Verdict host u t s
    asked (err why) x = absurd (cc (rw (x, is_user_expired) at h))
    asked (ok true) x = selected x (e.select_value direct u "Expiration" t) refl
    asked (ok false) x = missing s (rw (x, is_user_expired) at h)
      where
        missing : (s : UserStatus) → Outcome.ok no_exist ≡ ok s → Verdict host u t s
        missing no_exist k = ground (arith, user_exists-ok e sql direct u t false x)
        missing expired k = ground arith
        missing not_expired k = ground arith
