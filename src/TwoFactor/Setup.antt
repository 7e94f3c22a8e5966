-- ===== src/TwoFactor/Setup.antt =====
-- `Setup2FA` of handler/twoFA.go: the secret of a new one-time password, kept in memory.
use wifigo.Base.{ℕ, String, false, not, none, some, ◌∷◌, if◌then◌else◌}
use wifigo.Base.Texts.{◌==◌, concat}
use wifigo.Base.Outcome.{Outcome, ok, err}
use wifigo.Jwt.{MyCustomClaims}
use wifigo.TwoFactor.{Auth, AuthPayload, text, HttpResponse, App}
use wifigo.TwoFactor.Actions.{
  Act, go, pure, ◌>>=◌, ◌>>◌, stop_if, attempt, row_or, row_if_any, put_memory, validate_auth_id,
  get_hash, check_password, remove_image, with_images,
}

module _ {Otp : Type 0} (app : App Otp) where
  -- The e-mail address of an account, decrypted where it is not kept in plain text.
  unfoldable pub email_of : Auth → Outcome String
  email_of v =
      if app.packages.validate_email v.email
      then ok v.email
      else elim (app.packages.hex_decode v.email_nonce) [
        | err why ↦ err why
        | ok nonce ↦ elim (app.packages.hex_decode v.email_cipher) [
          | err why ↦ err why
          | ok cipher ↦ app.packages.decrypt_chacha20poly1305 app.security.cipher_key nonce cipher
        ]
      ]

  -- `lib.NewTOTP`
  unfoldable pub new_totp : String → Outcome String
  new_totp account = elim (app.packages.new_totp account app.security.issuer app.security.digits) [
    | err why ↦ err why
    | ok otp ↦ app.packages.totp_to_bytes otp
  ]

  -- `lib.NewQR`
  unfoldable pub new_qr : String → Outcome String
  new_qr message = elim (app.packages.totp_from_bytes message app.security.issuer) [
    | err why ↦ err why
    | ok otp ↦ app.packages.totp_qr otp
  ]

  -- The checks on the token and on the tables, and the account's row.
  unfoldable pub setup_checks : MyCustomClaims → Act Auth
  setup_checks claims w =
      (do
        stop_if (not (validate_auth_id app.db claims.auth_id w.rows)) 401 "access denied"
        stop_if (claims.two_fa == app.security.verified) 200
            (concat "twoFA: " app.security.verified)
        stop_if (claims.two_fa == app.security.on) 400 (concat "twoFA: " app.security.on)
        two_fa ← row_if_any (app.db.first_two_fa claims.auth_id w.rows)
        stop_if (elim two_fa [ none ↦ false | some t ↦ t.status == app.security.on ]) 400
            (concat "twoFA: " app.security.on)
        row_or (app.db.first_auth claims.auth_id w.rows) 401 "user not found")
        w

  -- Steps 6 and 7, and the answer.
  unfoldable pub keep_secret : ℕ → String → String → String → Act HttpResponse
  keep_secret id secret image hash_pass w =
      (do
        elim (w.memory id) as (λ _. Act (Unit {0})) [
          | none ↦ pure tt
          | some d ↦ remove_image app d.image
        ]
        put_memory id (record { pass_sha = hash_pass; secret = secret; image = image })
        pure (record {
          status = 201;
          message = text (concat app.security.path_qr (concat "/" image));
        }))
        w

  unfoldable pub setup_steps : MyCustomClaims → AuthPayload → Act HttpResponse
  setup_steps claims payload = do
    v ← setup_checks claims
    check_password app 400 payload.password v
    email ← attempt (email_of v)
    otp_byte ← attempt (new_totp email)
    qr_byte ← attempt (new_qr otp_byte)
    image ← attempt (app.packages.byte_to_png qr_byte)
    (λ w. go tt (with_images (image ∷ w.images) w))
    hash_pass ← attempt (get_hash app payload.password)
    keep_secret claims.auth_id otp_byte image hash_pass
