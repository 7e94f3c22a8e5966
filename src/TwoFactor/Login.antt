-- ===== src/TwoFactor/Login.antt =====
-- `Login` and `Refresh` of handler/login.go, and `GetUserByEmail` of service/auth.go.
use wifigo.Base.{ℕ, String, not, ◌&&◌, Option, none, some, if◌then◌else◌}
use wifigo.Base.Texts.{◌==◌}
use wifigo.Base.Outcome.{Outcome, ok, err}
use wifigo.Jwt.{MyCustomClaims}
use wifigo.TwoFactor.{Auth, TwoFa, AuthPayload, HttpResponse, App}
use wifigo.TwoFactor.Actions.{
  Act, go, pure, ◌>>=◌, ◌>>◌, stop_if, attempt, row_or, row_if_any, put_memory, validate_auth_id,
  issue, calc_hash, get_hash, check_password,
}
use wifigo.Base.Int.{pos, eq_ℤ}
use wifigo.Base.Words.{trim_space}
use wifigo.TwoFactor.{Rows}

module _ {Otp : Type 0} (app : App Otp) where
  -- `GetUserByEmail(email, false)`: the error is that of the first query also where the second
  -- one, by the hash, fails, since the second has a variable of its own.
  unfoldable pub get_user_by_email : String → Rows → Outcome Auth
  get_user_by_email email rows = elim (app.db.first_auth_by_email email rows) [
    | ok v ↦ ok v
    | err first ↦
        if app.security.is_cipher
        then elim (calc_hash app email) [
          | err why ↦ err why
          | ok h ↦ elim (app.db.first_auth_by_hash (app.packages.hex_encode h) rows) [
            | ok v ↦ ok v
            | err why ↦ err first
          ]
        ]
        else err first
  ]

  abbrev pub claims_of : ℕ → String → MyCustomClaims
  claims_of id status = record {
    auth_id = id;
    email = "";
    role = "";
    scope = "";
    two_fa = status;
    site_lan = "";
    custom1 = "";
    custom2 = "";
  }

  -- The status for the claims, by the row; where it is on, the hash of the password is kept.
  unfoldable pub login_status : ℕ → String → Option TwoFa → Act String
  login_status id password none = pure ""
  login_status id password (some t) =
      if t.status == app.security.on
      then (do
        hash_pass ← attempt (get_hash app password)
        put_memory id (record { pass_sha = hash_pass; secret = ""; image = "" })
        pure t.status)
      else pure t.status

  unfoldable pub check_two_fa : ℕ → String → Act String
  check_two_fa id password w =
      if app.security.must_2fa
      then (do t ← row_if_any (app.db.first_two_fa id w.rows); login_status id password t) w
      else go "" w

  unfoldable pub login_steps : AuthPayload → Act HttpResponse
  login_steps payload w =
      (do
        stop_if (not (app.packages.validate_email (trim_space payload.email))) 400
            "wrong email address"
        v ← row_or (get_user_by_email (trim_space payload.email) w.rows) 404 "email not found"
        stop_if (app.security.must_verify_email && not (eq_ℤ v.verify_email (pos 1))) 401
            "email verification required"
        check_password app 401 payload.password v
        status ← check_two_fa v.auth_id payload.password
        issue app (claims_of v.auth_id status) "")
        w

  unfoldable pub refresh_steps : MyCustomClaims → Act HttpResponse
  refresh_steps claims w =
      (do
        stop_if (not (validate_auth_id app.db claims.auth_id w.rows)) 401 "access denied"
        issue app claims "")
        w
