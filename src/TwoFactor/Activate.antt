-- ===== src/TwoFactor/Activate.antt =====
-- `Activate2FA` of handler/twoFA.go: the secret in memory becomes the one in the tables.
use wifigo.Base.{ℕ, String, not, Option, none, some, ◌-◌, eqb, if◌then◌else◌}
use wifigo.Base.Texts.{◌==◌, concat}
use wifigo.Jwt.{MyCustomClaims}
use wifigo.TwoFactor.{
  TwoFa, Secret2Fa, AuthPayload, HttpResponse, Statement, save_two_fa, create_two_fa, App,
}
use wifigo.TwoFactor.Actions.{
  Act, pure, ◌>>=◌, ◌>>◌, refuse, stop_if, attempt, row_if_any, some_or, put_memory, del_mem2fa,
  transaction, validate_auth_id, with_two_fa, issue, get_hash, remove_image, without,
  remove_all_space,
}
use Prim.Native.String.{len, slice}
use wifigo.TwoFactor.Validate.{validated, failed, validate2fa}

-- The keys that an activation stores, and the recovery key.
pub record Keys : Type 0 where
  pub main : String
  pub backup : String
  pub uuid_sha : String
  pub uuid_enc : String
  pub recovery : String

-- `s[len(s)-n:]`: the last bytes, of a text of at least `n` bytes.
abbrev pub last_bytes : ℕ → String → String
last_bytes n s = slice s (len s - n) (len s)

module _ {Otp : Type 0} (app : App Otp) where
  -- Steps 5 to 9, up to the encoding.
  unfoldable pub make_keys : String → Secret2Fa → Act Keys
  make_keys otp_byte d = do
    key_main ← attempt (app.packages.encrypt otp_byte d.pass_sha)
    recovery_hash ← attempt (get_hash app (key_recovery))
    key_backup ← attempt (app.packages.encrypt otp_byte recovery_hash)
    uuid_sha ← attempt (get_hash app (app.packages.uuid 1))
    uuid_enc ← attempt (app.packages.encrypt (app.packages.uuid 1) recovery_hash)
    pure (record {
      main = app.packages.base64_encode key_main;
      backup = app.packages.base64_encode key_backup;
      uuid_sha = app.packages.base64_encode uuid_sha;
      uuid_enc = app.packages.base64_encode uuid_enc;
      recovery = key_recovery;
    })
    where
      key_recovery : String
      key_recovery = last_bytes app.security.digits (without 45 (app.packages.uuid 0))

  -- The row that is written: the one that is there, or a new one.
  unfoldable pub activated : ℕ → Keys → Option TwoFa → Statement
  activated id keys (some t) = save_two_fa (record {
    id = t.id;
    updated_at = app.now;
    key_main = keys.main;
    key_backup = keys.backup;
    uuid_sha = keys.uuid_sha;
    uuid_enc = keys.uuid_enc;
    status = app.security.on;
    id_auth = id;
  })
  activated id keys none = create_two_fa (record {
    id = 0;
    updated_at = 0;
    key_main = keys.main;
    key_backup = keys.backup;
    uuid_sha = keys.uuid_sha;
    uuid_enc = keys.uuid_enc;
    status = app.security.on;
    id_auth = id;
  })

  -- Steps 10 to 13.
  unfoldable pub switch_on : MyCustomClaims → Secret2Fa → Option TwoFa → Keys → Act HttpResponse
  switch_on claims d t keys = do
    written ← transaction app.db (activated claims.auth_id keys t)
    stop_if (not written) 500 "internal server error"
    remove_image app d.image
    del_mem2fa claims.auth_id
    issue app (with_two_fa app.security.verified claims) keys.recovery

  -- Step 4: two-factor authentication that is on already is left as it is.
  unfoldable pub stop_if_on : ℕ → Secret2Fa → Option TwoFa → Act (Unit {0})
  stop_if_on id d none = pure tt
  stop_if_on id d (some t) =
      if t.status == app.security.on
      then (do
        remove_image app d.image
        del_mem2fa id
        refuse 400 (concat "twoFA: " app.security.on))
      else pure tt

  -- From the validated password on.
  unfoldable pub activate : MyCustomClaims → Secret2Fa → String → Act HttpResponse
  activate claims d otp_byte w =
      (do
        t ← row_if_any (app.db.first_two_fa claims.auth_id w.rows)
        stop_if_on claims.auth_id d t
        keys ← make_keys otp_byte d
        switch_on claims d t keys)
        w

  unfoldable pub activate_checks : MyCustomClaims → String → Act Secret2Fa
  activate_checks claims otp w =
      (do
        stop_if (not (validate_auth_id app.db claims.auth_id w.rows)) 401 "access denied"
        stop_if (claims.two_fa == app.security.verified) 400
            (concat "twoFA: " app.security.verified)
        stop_if (claims.two_fa == app.security.on) 400 (concat "twoFA: " app.security.on)
        d ← some_or (w.memory claims.auth_id) 400 "request for a new 2-fa secret"
        stop_if (not (eqb (len otp) app.security.digits)) 400 "wrong one-time password"
        pure d)
        w

  unfoldable pub activate_steps : MyCustomClaims → AuthPayload → Act HttpResponse
  activate_steps claims payload = do
    d ← activate_checks claims (remove_all_space payload.otp)
    elim (validate2fa app d.secret (remove_all_space payload.otp)) as (λ _. Act HttpResponse) [
      | validated otp_byte ↦ activate claims d otp_byte
      | failed status otp_byte ↦
          if status == app.security.invalid
          then (do
            put_memory claims.auth_id
                (record { pass_sha = d.pass_sha; secret = otp_byte; image = d.image })
            refuse 400 "wrong one-time password")
          else refuse 500 "internal server error"
    ]
