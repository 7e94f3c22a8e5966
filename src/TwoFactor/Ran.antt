-- ===== src/TwoFactor/Ran.antt =====
-- What a run of a handler that gets to its end has done.
use wifigo.Base.{
  ℕ, String, Bool, true, false, not, ◌≡◌, refl, sym, ap, subst, ◌∙◌, ◌⊎◌, inl, inr, Option, none,
  some, if◌then◌else◌, Bool-cases, eqb, eqb_iff,
}
use wifigo.Base.Outcome.{Outcome, ok, err, Outcome-cases}
use wifigo.Jwt.{MyCustomClaims, get_jwt}
use wifigo.TwoFactor.{Auth, Statement, Rows, World, JwtPayload, tokens, HttpResponse, AuthDb, App}
use wifigo.TwoFactor.Actions.{
  Flow, go, stop, Act, ◌>>=◌, ◌>>◌, stop_if, attempt, is_not_found, row_or, row_if_any, some_or,
  served, with_rows, del_mem2fa, transaction, issue, check_password,
}

pub >>=-go {ℓ κ} :
    {A : Type ℓ} {B : Type κ} (m : Act A) (f : A → Act B) (w : World) {b : B} {u : World}
    → (m >>= f) w ≡ go b u
    → (a : A) × (v : World) × (m w ≡ go a v) × (f a v ≡ go b u)
unfolding ◌>>=◌
>>=-go {A} {B} m f w {b} {u} h = split (m w) refl
  where
    split : (x : Flow A) → m w ≡ x → (a : A) × (v : World) × (m w ≡ go a v) × (f a v ≡ go b u)
    split (go a v) e = (a, v, e, rw (◌>>=◌, e) at h)
    split (stop status why v) e = absurd (cc (rw (◌>>=◌, e) at h))

pub >>-go {κ} :
    {B : Type κ} (m : Act (Unit {0})) (k : Act B) (w : World) {b : B} {u : World}
    → (m >> k) w ≡ go b u
    → (v : World) × (m w ≡ go tt v) × (k v ≡ go b u)
unfolding ◌>>◌
>>-go {B} m k w {b} {u} h = split (m w) refl
  where
    split : (x : Flow (Unit {0})) → m w ≡ x → (v : World) × (m w ≡ go tt v) × (k v ≡ go b u)
    split (go a v) e = (v, e, rw (◌>>◌, e) at h)
    split (stop status why v) e = absurd (cc (rw (◌>>◌, e) at h))

-- The state after a statement that has been written.
abbrev pub after_commit : AuthDb → Statement → World → Rows → World
after_commit db st w rows = if db.commits st w.rows then with_rows rows w else w

-- The end of a run is the value that it goes on with, and its state.
ended {ℓ} :
    {A : Type ℓ} {a b : A} {w u : World} → ◌≡◌ {A = Flow A} (go a w) (go b u) → (a ≡ b) × (w ≡ u)
ended h = (cc h, cc h)

pub pure-go {ℓ} :
    {A : Type ℓ} {a b : A} {w u : World} → ◌≡◌ {A = Flow A} (go a w) (go b u) → (a ≡ b) × (w ≡ u)
pure-go h = ended h

-- One step after another: each says what the step found, and that the rest ran.
module _ {ℓ} {B : Type ℓ} {r : B} {u : World} where
  pub stop_if-go :
      (b : Bool) (status : ℕ) (why : String) (k : Act B) (w : World)
      → (stop_if b status why >> k) w ≡ go r u
      → (b ≡ false) × (k w ≡ go r u)
  unfolding ◌>>◌
  stop_if-go true status why k w h = absurd (cc h)
  stop_if-go false status why k w h = (refl, h)

  pub attempt-go {κ} :
      {A : Type κ} (o : Outcome A) (f : A → Act B) (w : World)
      → (attempt o >>= f) w ≡ go r u
      → (a : A) × (o ≡ ok a) × (f a w ≡ go r u)
  unfolding ◌>>=◌
  attempt-go (ok a) f w h = (a, refl, h)
  attempt-go (err why) f w h = absurd (cc h)

  pub some_or-go {κ} :
      {A : Type κ} (o : Option A) (status : ℕ) (why : String) (f : A → Act B) (w : World)
      → (some_or o status why >>= f) w ≡ go r u
      → (a : A) × (o ≡ some a) × (f a w ≡ go r u)
  unfolding ◌>>=◌
  some_or-go (some a) status why f w h = (a, refl, h)
  some_or-go none status why f w h = absurd (cc h)

  pub row_or-go {κ} :
      {A : Type κ} (o : Outcome A) (status : ℕ) (why : String) (f : A → Act B) (w : World)
      → (row_or o status why >>= f) w ≡ go r u
      → (a : A) × (o ≡ ok a) × (f a w ≡ go r u)
  unfolding ◌>>=◌
  row_or-go (ok a) status why f w h = (a, refl, h)
  row_or-go (err e) status why f w h = elim (Bool-cases (is_not_found e)) [
    | inl b ↦ absurd (cc (rw (◌>>=◌, b) at h))
    | inr b ↦ absurd (cc (rw (◌>>=◌, b) at h))
  ]

  pub row_if_any-go {κ} :
      {A : Type κ} (o : Outcome A) (f : Option A → Act B) (w : World)
      → (row_if_any o >>= f) w ≡ go r u
      → ((a : A) × (o ≡ ok a) × (f (some a) w ≡ go r u))
        ⊎ ((why : String) × (o ≡ err why) × (is_not_found why ≡ true) × (f none w ≡ go r u))
  unfolding ◌>>=◌
  row_if_any-go (ok a) f w h = inl (a, refl, h)
  row_if_any-go (err e) f w h = elim (Bool-cases (is_not_found e)) [
    | inl b ↦ inr (e, refl, b, rw (◌>>=◌, b) at h)
    | inr b ↦ absurd (cc (rw (◌>>=◌, b) at h))
  ]

  -- The state after a statement: it was written and committed, written only, or refused.
  pub transaction-go :
      (db : AuthDb) (st : Statement) (f : Bool → Act B) (w : World)
      → (transaction db st >>= f) w ≡ go r u
      → ((rows : Rows) × (db.write st w.rows ≡ ok rows)
          × (f true (after_commit db st w rows) ≡ go r u))
        ⊎ (f false w ≡ go r u)
  unfolding ◌>>=◌ transaction
  transaction-go db st f w h = elim (Outcome-cases (db.write st w.rows)) [
    | inl (rows, e) ↦ inl (rows, e, rw (◌>>=◌, transaction, e) at h)
    | inr (why, e) ↦ inr (rw (◌>>=◌, transaction, e) at h)
  ]

stop_if-alone :
    (b : Bool) (status : ℕ) (why : String) (w : World) {u : World}
    → stop_if b status why w ≡ go tt u
    → (b ≡ false) × (w ≡ u)
stop_if-alone true status why w h = absurd (cc h)
stop_if-alone false status why w h = (refl, (pure-go h).1)

eqb_self : (n : ℕ) → eqb n n ≡ true
eqb_self n = (eqb_iff n n).1 refl

-- An attempt at the end.
pub attempt-ended {ℓ} :
    {A : Type ℓ} (o : Outcome A) (w : World) {a : A} {u : World}
    → attempt o w ≡ go a u
    → (o ≡ ok a) × (w ≡ u)
attempt-ended (ok a) w h = (ap ok (pure-go h).0, (pure-go h).1)
attempt-ended (err why) w h = absurd (cc h)

pub was_true : (b : Bool) → not b ≡ false → b ≡ true
was_true true h = refl
was_true false h = absurd (cc h)

pub check_password-go {ℓ} :
    {B : Type ℓ} {r : B} {u : World} {Otp : Type 0} (app : App Otp) (status : ℕ) (password : String)
    (v : Auth) (k : Act B) (w : World)
    → (check_password app status password v >> k) w ≡ go r u
    → (app.packages.compare_password_and_hash password app.security.hash_sec v.password ≡ ok true)
      × (k w ≡ go r u)
unfolding check_password
check_password-go {r = r} {u = u} app status password v k w h =
    let (x, e, f) = >>-go _ _ w h in
    let (verified, compared, g) = attempt-go _ _ w e in
    let (right, same) = stop_if-alone (not verified) status "wrong credentials" w g in
    (compared ∙ ap ok (was_true verified right), subst (λ y. k y ≡ go r u) (sym same) f)

-- The tokens that are issued.
pub record IsIssued {Otp : Type 0} (app : App Otp) (claims : MyCustomClaims) (p : JwtPayload)
    : Type 0 where
  pub access :
      (id : String) × (get_jwt app.jwt app.jwt_params app.now (app.packages.uuid 2) claims "access"
        ≡ ok (p.access_jwt, id))
  pub refresh :
      (id : String) × (get_jwt app.jwt app.jwt_params app.now (app.packages.uuid 3) claims "refresh"
        ≡ ok (p.refresh_jwt, id))
  pub two_auth : p.two_auth ≡ claims.two_fa

tokens_of : {p q : JwtPayload} → tokens p ≡ tokens q → p ≡ q
tokens_of h = cc h

pub issue-go :
    {Otp : Type 0} (app : App Otp) (claims : MyCustomClaims) (key : String) (w : World)
    {r : HttpResponse} {u : World} {p : JwtPayload}
    → issue app claims key w ≡ go r u
    → r.message ≡ tokens p
    → IsIssued app claims p × (w ≡ u)
unfolding issue
issue-go app claims key w h m =
    let (a, access, f) = attempt-go _ _ w h in
    let (b, refresh, i) = attempt-go _ _ w f in
    let (same_r, same_u) = pure-go i in
    let paid = tokens_of (ap (λ (q : HttpResponse). q.message) same_r ∙ m) in
    (
      record {
        access = (a.1, access ∙ ap (λ (q : JwtPayload). ok (q.access_jwt, a.1)) paid);
        refresh = (b.1, refresh ∙ ap (λ (q : JwtPayload). ok (q.refresh_jwt, b.1)) paid);
        two_auth = ap (λ (q : JwtPayload). q.two_auth) (sym paid);
      },
      same_u,
    )

-- The response of a run whose message is a pair of tokens is one that it ended with.
pub served-tokens :
    (x : Flow HttpResponse) {p : JwtPayload}
    → (served x).0.message ≡ tokens p
    → (r : HttpResponse) × (x ≡ go r (served x).1) × (r.message ≡ tokens p)
served-tokens (go r w) h = (r, refl, h)
served-tokens (stop status why w) h = absurd (cc h)

-- What follows `DelMem2FA` runs with an empty memory for the account.
pub del_mem2fa-go {ℓ} :
    {B : Type ℓ} {r : B} {u : World} (id : ℕ) (k : Act B) (w : World)
    → (del_mem2fa id >> k) w ≡ go r u
    → (v : World) × (v.memory id ≡ none) × (v.rows ≡ w.rows) × (k v ≡ go r u)
unfolding ◌>>◌
del_mem2fa-go id k w h = (_, rw (eqb_self id) refl, refl, h)
