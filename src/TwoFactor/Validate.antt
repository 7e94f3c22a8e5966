-- ===== src/TwoFactor/Validate.antt =====
-- `Validate2FA` of handler/twoFA.go, and `Validate2FA` of service with `ValidateTOTP` of lib.
use wifigo.Base.{ℕ, String, not, Option, none, some, eqb, if◌then◌else◌}
use wifigo.Base.Texts.{◌==◌, concat}
use wifigo.Base.Outcome.{Outcome, ok, err}
use wifigo.Jwt.{MyCustomClaims}
use wifigo.TwoFactor.{TwoFa, Secret2Fa, AuthPayload, HttpResponse, save_two_fa, App}
use wifigo.TwoFactor.Actions.{
  Act, pure, ◌>>=◌, ◌>>◌, refuse, stop_if, attempt, row_or, some_or, put_memory, del_mem2fa,
  transaction, validate_auth_id, with_two_fa, issue, remove_all_space,
}
use Prim.Native.String.{len}

-- The result of `service.Validate2FA`: the bytes of a validated object, or an error with the status
-- and the bytes that come with it.
pub data Checked : Type 0 where
  validated : String → Checked
  failed : String → String → Checked

module _ {Otp : Type 0} (app : App Otp) where
  -- The end of `lib.ValidateTOTP`: the bytes of the object, with the error of the validation.
  unfoldable pub totp_bytes : Otp × Option String → String × Option String
  totp_bytes (otp, e) = elim (app.packages.totp_to_bytes otp) [
    | err why ↦ ("", some why)
    | ok bytes ↦ (bytes, e)
  ]

  -- `lib.ValidateTOTP`: the bytes, and the error.
  unfoldable pub validate_totp : String → String → String × Option String
  validate_totp message input = elim (app.packages.totp_from_bytes message app.security.issuer) [
    | err why ↦ ("", some why)
    | ok otp ↦ totp_bytes (app.packages.totp_validate input otp)
  ]

  -- The two returns of `service.Validate2FA` on a failure, by whether there are bytes.
  unfoldable pub sorted : String × Option String → Checked
  sorted (bytes, none) = validated bytes
  sorted (bytes, some why) = if bytes == "" then failed "" "" else failed app.security.invalid bytes

  -- `service.Validate2FA`
  unfoldable pub validate2fa : String → String → Checked
  validate2fa message input = sorted (validate_totp message input)

  -- The secret as it is written: encrypted, and in base64.
  unfoldable pub sealed : String → TwoFa → TwoFa
  sealed key_main t = record {
    id = t.id;
    updated_at = app.now;
    key_main = app.packages.base64_encode key_main;
    key_backup = t.key_backup;
    uuid_sha = t.uuid_sha;
    uuid_enc = t.uuid_enc;
    status = t.status;
    id_auth = t.id_auth;
  }

  -- The wrong password: the object is kept in memory, and in the tables, whatever the errors.
  -- `lib.Encrypt` returns no bytes with an error, which is only logged.
  unfoldable pub wrong_otp : ℕ → Secret2Fa → TwoFa → String → Act HttpResponse
  wrong_otp id d t otp_byte = do
    put_memory id (record { pass_sha = d.pass_sha; secret = otp_byte; image = d.image })
    written ← transaction app.db (
        save_two_fa
          (sealed (elim (app.packages.encrypt otp_byte d.pass_sha) [ ok c ↦ c | err why ↦ "" ]) t))
    refuse 400 "wrong one-time password"

  -- Step 5: the object is saved, the secrets leave the memory, and tokens are issued. The error of
  -- the saving is only logged.
  unfoldable pub right_otp : MyCustomClaims → Secret2Fa → TwoFa → String → Act HttpResponse
  right_otp claims d t otp_byte = do
    key_main ← attempt (app.packages.encrypt otp_byte d.pass_sha)
    written ← transaction app.db (save_two_fa (sealed key_main t))
    del_mem2fa claims.auth_id
    issue app (with_two_fa app.security.verified claims) ""

  -- The secret to validate against: from memory, or from the tables with the hash of the password.
  unfoldable pub message_of : Secret2Fa → TwoFa → Outcome String
  message_of d t =
      if d.secret == ""
      then elim (app.packages.base64_decode t.key_main) [
        | err why ↦ err why
        | ok cipher ↦ app.packages.decrypt cipher d.pass_sha
      ]
      else ok d.secret

  -- What is in memory, and the row, after the checks.
  unfoldable pub validate_checks : MyCustomClaims → String → Act (Secret2Fa × TwoFa)
  validate_checks claims otp w =
      (do
        stop_if (not (validate_auth_id app.db claims.auth_id w.rows)) 401 "access denied"
        stop_if (claims.two_fa == app.security.verified) 200
            (concat "twoFA: " app.security.verified)
        stop_if (not (claims.two_fa == app.security.on)) 400
            "unexpected request (1): 2-fa is OFF / log in again"
        d ← some_or (w.memory claims.auth_id) 400 "log in again"
        stop_if (not (eqb (len otp) app.security.digits)) 400 "wrong one-time password"
        t ←
            row_or (app.db.first_two_fa claims.auth_id w.rows) 400
              "unexpected request (2): 2-fa is OFF / log in again"
        stop_if (not (t.status == app.security.on)) 400
            "unexpected request (3): 2-fa is OFF / log in again"
        pure (d, t))
        w

  unfoldable pub validate_steps : MyCustomClaims → AuthPayload → Act HttpResponse
  validate_steps claims payload = do
    found ← validate_checks claims (remove_all_space payload.otp)
    message ← attempt (message_of found.0 found.1)
    elim (validate2fa message (remove_all_space payload.otp)) as (λ _. Act HttpResponse) [
      | validated otp_byte ↦ right_otp claims found.0 found.1 otp_byte
      | failed status otp_byte ↦
          if status == app.security.invalid
          then wrong_otp claims.auth_id found.0 found.1 otp_byte
          else refuse 500 "internal server error"
    ]
