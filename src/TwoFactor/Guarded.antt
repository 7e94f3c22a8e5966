-- ===== src/TwoFactor/Guarded.antt =====
-- The login of an account with two-factor authentication, and the filters before the protected
-- routes.
use wifigo.Base.{
  ℕ, String, true, ◌≡◌, ◌≢◌, refl, sym, ap, subst, ◌∙◌, inl, inr, ◌+◌, ◌*◌, ◌<◌, ◌≤◌, some,
  Bool-cases,
}
use wifigo.Base.Texts.{◌==◌, test_self, test_ne}
use wifigo.Base.Outcome.{ok}
use wifigo.Jwt.{MyCustomClaims, IsJwt}
use wifigo.Jwt.Keys.{IsPaired}
use wifigo.Base.Words.{trim_space}
use wifigo.Jwt.Filters.{
  Request, Context, next, abort, then_filter, access_text, Blacklist, is_token_allowed, asked_jti,
  jwt_blacklist_checker, two_fa,
}
use wifigo.Jwt.Issued.{jwt-get_jwt}
use wifigo.Jwt.Routes.{auth_middleware}
use wifigo.TwoFactor.{Auth, TwoFa, AuthPayload, JwtPayload, tokens, World, App}
use wifigo.TwoFactor.Actions.{go, served, get_hash}
use wifigo.TwoFactor.Login.{get_user_by_email, claims_of, login_status, check_two_fa, login_steps}
use wifigo.TwoFactor.Ran.{
  >>=-go, >>-go, pure-go, stop_if-go, attempt-go, row_or-go, row_if_any-go, check_password-go,
  IsIssued, issue-go, served-tokens,
}

row_of : {a b : TwoFa} → ok a ≡ ok b → a ≡ b
row_of h = cc h

auth_of : {a b : Auth} → ok a ≡ ok b → a ≡ b
auth_of h = cc h

module _ {Otp : Type 0} (app : App Otp) where
  login_status-go :
      (id : ℕ) (password : String) (t : TwoFa) (w : World) {s : String} {u : World}
      → login_status app id password (some t) w ≡ go s u
      → s ≡ t.status
  unfolding login_status
  login_status-go id password t w h = elim (Bool-cases (t.status == app.security.on)) [
    | inr e ↦ sym (pure-go (rw (login_status, e) at h)).0
    | inl e ↦
        let (hash, _, h1) = attempt-go _ _ w (rw (login_status, e) at h) in
        let (v, _, h2) = >>-go _ _ w h1 in sym (pure-go h2).0
  ]

  check_two_fa-go :
      (id : ℕ) (password : String) (t : TwoFa) (w : World) {s : String} {u : World}
      → app.security.must_2fa ≡ true
      → app.db.first_two_fa id w.rows ≡ ok t
      → check_two_fa app id password w ≡ go s u
      → s ≡ t.status
  unfolding check_two_fa login_status get_hash
  check_two_fa-go id password t w must row h =
      elim (row_if_any-go _ _ w (rw (check_two_fa, must) at h)) [
        | inl (t₂, row₂, h1) ↦
            login_status-go id password t₂ w h1
            ∙ ap (λ (x : TwoFa). x.status) (row_of (sym row₂ ∙ row))
        | inr (why, missing, _, h1) ↦ absurd (cc (missing, row))
      ]

  -- A login that answers with tokens has found the account of the address and compared its
  -- password; with 2-FA in use, the tokens carry the status of the account's row.
  login_steps-tokens :
      (payload : AuthPayload) (w : World) (p : JwtPayload)
      → app.security.must_2fa ≡ true
      → (served (login_steps app payload w)).0.message ≡ tokens p
      → (v : Auth) × (get_user_by_email app (trim_space payload.email) w.rows ≡ ok v)
        × (app.packages.compare_password_and_hash payload.password app.security.hash_sec v.password
            ≡ ok true)
        × ((t : TwoFa)
            → app.db.first_two_fa v.auth_id w.rows ≡ ok t
            → IsIssued app (claims_of app v.auth_id t.status) p)
  unfolding login_steps
  login_steps-tokens payload w p must h =
      let (r, e, m) = served-tokens (login_steps app payload w) h in
      let (_, h1) = stop_if-go _ _ _ _ w e in
      let (v, found, h2) = row_or-go _ _ _ _ w h1 in
      let (_, h3) = stop_if-go _ _ _ _ w h2 in
      let (compared, h4) = check_password-go app _ _ v _ w h3 in
      let (status, u, checked, h5) = >>=-go _ _ w h4 in
      let (issued, _) = issue-go app _ _ u h5 m in
      (
        v,
        found,
        compared,
        λ t row.
            subst (λ (s : String). IsIssued app (claims_of app v.auth_id s) p)
              (check_two_fa-go v.auth_id payload.password t w must row checked) issued,
      )

two_fa-on :
    (on off verified : String) (x : Context)
    → on ≢ ""
    → on ≢ off
    → x.custom.two_fa ≡ on
    → two_fa on off verified x ≡ abort 401 "2-fa: required valid OTP"
unfolding two_fa
two_fa-on on off verified x not_empty not_off same =
    rw (two_fa, same, test_ne on "" not_empty, test_ne on off not_off, test_self on) refl

-- After the filter of access tokens, a context with the status "on" goes no further.
on-aborts :
    (b : Blacklist) (on off verified : String) (y : Context)
    → on ≢ ""
    → on ≢ off
    → y.custom.two_fa ≡ on
    → (why : String) × (then_filter
          (then_filter (next y) (jwt_blacklist_checker b))
          (two_fa on off verified)
        ≡ abort 401 why)
unfolding then_filter jwt_blacklist_checker
on-aborts b on off verified y not_empty not_off same =
    elim (Bool-cases (is_token_allowed b (asked_jti y))) [
      | inl e ↦ (
        "2-fa: required valid OTP",
        rw (then_filter, jwt_blacklist_checker, e)
            (two_fa-on on off verified y not_empty not_off same),
      )
      | inr e ↦ ("invalid token", rw (then_filter, jwt_blacklist_checker, e) refl)
    ]

module _ {Otp : Type 0} (app : App Otp) (j : IsJwt app.jwt)
    (paired : IsPaired app.jwt app.jwt_params) where
  -- A password alone does not open a protected route to an account with two-factor
  -- authentication: the access token that its login issues is stopped with 401 by the filters
  -- before the handler, for as long as the token is current, whatever the blacklist. The word
  -- for "on" is neither empty nor the word for "off".
  pub login-Guarded :
      (payload : AuthPayload) (w : World) (p : JwtPayload) (v : Auth) (t : TwoFa) (later : ℕ)
      (b : Blacklist) (r : Request) (x : Context)
      → app.security.must_2fa ≡ true
      → app.security.on ≢ ""
      → app.security.on ≢ app.security.off
      → (served (login_steps app payload w)).0.message ≡ tokens p
      → get_user_by_email app (trim_space payload.email) w.rows ≡ ok v
      → app.db.first_two_fa v.auth_id w.rows ≡ ok t
      → t.status ≡ app.security.on
      → access_text r ≡ some p.access_jwt
      → app.now + app.jwt_params.acc_nbf ≤ later
      → later < app.now + 60 * app.jwt_params.access_key_ttl
      → (why : String) × (auth_middleware app.jwt app.jwt_params later b true app.security.on
            app.security.off app.security.verified r x
          ≡ abort 401 why)
  unfolding auth_middleware
  login-Guarded payload w p v t later b r x must not_empty not_off h found row on text from until =
      let (v₂, found₂, _, issues) = login_steps-tokens app payload w p must h in
      let same = auth_of (sym found₂ ∙ found) in
      let issued = issues t (ap (λ (a : Auth). app.db.first_two_fa a.auth_id w.rows) same ∙ row) in
      let (y, passes, is_access) =
        jwt-get_jwt app.jwt app.jwt_params j paired app.now later (app.packages.uuid 2) p.access_jwt
          issued.access.0 (claims_of app v₂.auth_id t.status) r x issued.access.1 text from until in
      let (why, aborts) =
        on-aborts b app.security.on app.security.off app.security.verified y not_empty not_off
          (ap (λ (c : MyCustomClaims). c.two_fa) is_access.custom_same ∙ on) in
      (why, rw (auth_middleware, passes) aborts)
