-- ===== src/TwoFactor/Validated.antt =====
-- The one-time passwords by which `Validate2FA` and `ValidateBackup2FA` issue tokens.
use Prim.Native.String.{len}
use wifigo.Base.{
  ℕ, String, Bool, true, false, ◌≡◌, refl, sym, ap, ◌∙◌, inl, inr, Option, none, some, eqb,
  if◌then◌else◌, Bool-cases,
}
use wifigo.Base.Texts.{◌==◌, eq_of_test}
use wifigo.Base.Outcome.{ok, Outcome-cases}
use wifigo.Jwt.{MyCustomClaims}
use wifigo.TwoFactor.{TwoFa, Secret2Fa, AuthPayload, JwtPayload, tokens, HttpResponse, World, App}
use wifigo.TwoFactor.Actions.{
  Flow, go, Act, ◌>>=◌, ◌>>◌, refuse, served, del_mem2fa, with_two_fa, issue, remove_all_space,
}
use wifigo.TwoFactor.Validate.{
  Checked, validated, failed, totp_bytes, validate_totp, sorted, validate2fa, message_of,
  validate_checks, wrong_otp, right_otp, validate_steps,
}
use wifigo.TwoFactor.Ran.{
  >>=-go, >>-go, pure-go, stop_if-go, attempt-go, row_or-go, some_or-go, transaction-go, IsIssued,
  issue-go, del_mem2fa-go, served-tokens, was_true,
}

bytes_of : {a b : String} → validated a ≡ validated b → a ≡ b
bytes_of h = cc h

module _ {Otp : Type 0} (app : App Otp) where
  -- What the checks have found.
  pub record IsChecked (claims : MyCustomClaims) (otp : String) (w : World) (d : Secret2Fa)
      (t : TwoFa) : Type 0 where
    pub claims_on : claims.two_fa ≡ app.security.on
    pub remembered : w.memory claims.auth_id ≡ some d
    pub digits : eqb (len otp) app.security.digits ≡ true
    pub row : app.db.first_two_fa claims.auth_id w.rows ≡ ok t
    pub row_on : t.status ≡ app.security.on

  validate_checks-go :
      (claims : MyCustomClaims) (otp : String) (w : World) {B : Type 0}
      (f : Secret2Fa × TwoFa → Act B) {r : B} {u : World}
      → (validate_checks app claims otp >>= f) w ≡ go r u
      → (d : Secret2Fa) × (t : TwoFa) × IsChecked claims otp w d t × (f (d, t) w ≡ go r u)
  unfolding validate_checks
  validate_checks-go claims otp w f {r} {u} h =
      let (found, v, e, rest) = >>=-go _ _ w h in
      let (_, h1) = stop_if-go _ _ _ _ w e in
      let (_, h2) = stop_if-go _ _ _ _ w h1 in
      let (on, h3) = stop_if-go _ _ _ _ w h2 in
      let (d', remembered, h4) = some_or-go _ _ _ _ w h3 in
      let (digits, h5) = stop_if-go _ _ _ _ w h4 in
      let (t', row, h6) = row_or-go _ _ _ _ w h5 in
      let (row_on, h7) = stop_if-go _ _ _ _ w h6 in
      let (same, same_v) = pure-go h7 in
      (
        d',
        t',
        record {
          claims_on = eq_of_test claims.two_fa app.security.on (was_true _ on);
          remembered = remembered;
          digits = was_true _ digits;
          row = row;
          row_on = eq_of_test t'.status app.security.on (was_true _ row_on);
        },
        (λ i. f (same i) (same_v i)) ∙ rest,
      )

  -- The object by which the password was validated.
  pub record IsValidOtp (message otp bytes : String) : Type 0 where
    pub before : Otp
    pub after : Otp
    pub parsed : app.packages.totp_from_bytes message app.security.issuer ≡ ok before
    pub accepted : app.packages.totp_validate otp before ≡ (after, none)
    pub printed : app.packages.totp_to_bytes after ≡ ok bytes

  sorted-validated :
      (q : String × Option String) {bytes : String}
      → sorted app q ≡ validated bytes
      → q ≡ (bytes, none)
  unfolding sorted
  sorted-validated (b, none) h = ap (λ (x : String). (x, none)) (bytes_of h)
  sorted-validated (b, some why) h = elim (Bool-cases (b == "")) [
    | inl e ↦ absurd (cc (rw (sorted, e) at h))
    | inr e ↦ absurd (cc (rw (sorted, e) at h))
  ]

  totp_bytes-none :
      (q : Otp × Option String) {bytes : String}
      → totp_bytes app q ≡ (bytes, none)
      → (q ≡ (q.0, none)) × (app.packages.totp_to_bytes q.0 ≡ ok bytes)
  unfolding totp_bytes
  totp_bytes-none (otp, e) h = elim (Outcome-cases (app.packages.totp_to_bytes otp)) [
    | inl (bytes, printed) ↦
        let g = rw (totp_bytes, printed) at h in
        (
          ap (λ (x : Option String). (otp, x)) (ap (λ (x : String × Option String). x.1) g),
          printed ∙ ap (λ (x : String × Option String). ok x.0) g,
        )
    | inr (why, broken) ↦ absurd (cc (rw (totp_bytes, broken) at h))
  ]

  pub validate2fa-validated :
      (message otp : String) {bytes : String}
      → validate2fa app message otp ≡ validated bytes
      → IsValidOtp message otp bytes
  unfolding validate2fa validate_totp
  validate2fa-validated message otp h =
      elim (Outcome-cases (app.packages.totp_from_bytes message app.security.issuer)) [
        | inr (why, broken) ↦ absurd (
            cc (rw (validate_totp, broken) at (sorted-validated (validate_totp app message otp) h)))
        | inl (before, parsed) ↦
            let (accepted, printed) = totp_bytes-none (app.packages.totp_validate otp before) (
              rw (validate_totp, parsed) at (sorted-validated (validate_totp app message otp) h)) in
            record {
              before = before;
              after = (app.packages.totp_validate otp before).0;
              parsed = parsed;
              accepted = accepted;
              printed = printed;
            }
      ]

  -- The tokens after `DelMem2FA`: nothing is left in memory.
  pub forget-issue-go :
      (id : ℕ) (claims : MyCustomClaims) (key : String) (w : World) {r : HttpResponse} {u : World}
      {p : JwtPayload}
      → (del_mem2fa id >> issue app claims key) w ≡ go r u
      → r.message ≡ tokens p
      → IsIssued app claims p × (u.memory id ≡ none) × (u.rows ≡ w.rows)
  forget-issue-go id claims key w h m =
      let (v, forgotten, rows, h1) = del_mem2fa-go id _ w h in
      let (issued, same) = issue-go app claims key v h1 m in
      (
        issued,
        ap (λ (x : World). x.memory id) (sym same) ∙ forgotten,
        ap (λ (x : World). x.rows) (sym same) ∙ rows,
      )

  right_otp-go :
      (claims : MyCustomClaims) (d : Secret2Fa) (t : TwoFa) (bytes : String) (w : World)
      {r : HttpResponse} {u : World} {p : JwtPayload}
      → right_otp app claims d t bytes w ≡ go r u
      → r.message ≡ tokens p
      → IsIssued app (with_two_fa app.security.verified claims) p × (u.memory claims.auth_id ≡ none)
  unfolding right_otp
  right_otp-go claims d t bytes w h m =
      let (key_main, _, h1) = attempt-go _ _ w h in
      elim (transaction-go app.db _ _ w h1) [
        | inl (rows, _, h2) ↦
            let (issued, forgotten, _) = forget-issue-go claims.auth_id _ _ _ h2 m in
            (issued, forgotten)
        | inr h2 ↦
            let (issued, forgotten, _) = forget-issue-go claims.auth_id _ _ _ h2 m in
            (issued, forgotten)
      ]

  wrong_otp-none :
      (id : ℕ) (d : Secret2Fa) (t : TwoFa) (bytes : String) (w : World) {r : HttpResponse}
      {u : World}
      → wrong_otp app id d t bytes w ≡ go r u
      → ⊥
  unfolding wrong_otp
  wrong_otp-none id d t bytes w h =
      let (v, _, h1) = >>-go _ _ w h in
      elim (transaction-go app.db _ _ v h1) [
        | inl (rows, _, h2) ↦ absurd (cc h2)
        | inr h2 ↦ absurd (cc h2)
      ]

  refused-or_wrong :
      (b : Bool) (id : ℕ) (d : Secret2Fa) (t : TwoFa) (bytes : String) (w : World)
      {r : HttpResponse} {u : World}
      → ◌≡◌ {A = Flow HttpResponse}
          ((if b then wrong_otp app id d t bytes else refuse 500 "internal server error") w)
          (go r u)
      → ⊥
  refused-or_wrong true id d t bytes w h = wrong_otp-none id d t bytes w h
  refused-or_wrong false id d t bytes w h = cc h

  checked-go :
      (claims : MyCustomClaims) (d : Secret2Fa) (t : TwoFa) (x : Checked) (w : World)
      {r : HttpResponse} {u : World} {p : JwtPayload}
      → ◌≡◌ {A = Flow HttpResponse}
          ((elim x as (λ _. Act HttpResponse) [
            | validated otp_byte ↦ right_otp app claims d t otp_byte
            | failed status otp_byte ↦
                if status == app.security.invalid
                then wrong_otp app claims.auth_id d t otp_byte
                else refuse 500 "internal server error"
          ])
            w)
          (go r u)
      → r.message ≡ tokens p
      → (bytes : String) × (x ≡ validated bytes)
        × IsIssued app (with_two_fa app.security.verified claims) p
        × (u.memory claims.auth_id ≡ none)
  checked-go claims d t (validated bytes) w h m =
      let (issued, forgotten) = right_otp-go claims d t bytes w h m in
      (bytes, refl, issued, forgotten)
  checked-go claims d t (failed status bytes) w h m =
      absurd (refused-or_wrong (status == app.security.invalid) claims.auth_id d t bytes w h)

  -- `Validate2FA` answers with tokens only to a request whose token says that two-factor
  -- authentication is on, for an account whose row says the same, with a secret in memory, and
  -- with a one-time password that the object in memory, or the one decrypted from the row,
  -- accepts. The tokens are those of `GetJWT` for the claims with the status "verified", and
  -- the memory of the account is empty afterwards.
  pub validate_steps-tokens :
      (claims : MyCustomClaims) (payload : AuthPayload) (w : World) (p : JwtPayload)
      → (served (validate_steps app claims payload w)).0.message ≡ tokens p
      → (d : Secret2Fa) × (t : TwoFa) × (message : String) × (bytes : String) × IsChecked claims
          (remove_all_space payload.otp)
          w
          d
          t
        × (message_of app d t ≡ ok message)
        × IsValidOtp message (remove_all_space payload.otp) bytes
        × IsIssued app (with_two_fa app.security.verified claims) p
        × ((served (validate_steps app claims payload w)).1.memory claims.auth_id ≡ none)
  unfolding validate_steps
  validate_steps-tokens claims payload w p h =
      let (r, e, m) = served-tokens (validate_steps app claims payload w) h in
      let (d, t, checked, h1) = validate_checks-go claims (remove_all_space payload.otp) w _ e in
      let (message, is_message, h2) = attempt-go _ _ w h1 in
      let (bytes, accepted, issued, forgotten) = checked-go claims d t _ w h2 m in
      (
        d,
        t,
        message,
        bytes,
        checked,
        is_message,
        validate2fa-validated message (remove_all_space payload.otp) accepted,
        issued,
        forgotten,
      )
