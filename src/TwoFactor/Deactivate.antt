-- ===== src/TwoFactor/Deactivate.antt =====
-- `Deactivate2FA` of handler/twoFA.go.
use wifigo.Base.{ℕ, String, not, ◌||◌, Option, none, some, [], ◌∷◌, if◌then◌else◌}
use wifigo.Base.Texts.{◌==◌, concat}
use wifigo.Base.Outcome.{ok, err}
use wifigo.Jwt.{MyCustomClaims}
use wifigo.TwoFactor.{TwoFa, AuthPayload, HttpResponse, save_two_fa, delete_backups, App}
use wifigo.TwoFactor.Actions.{
  Act, go, pure, ◌>>=◌, ◌>>◌, stop_if, row_or, row_if_any, transaction, with_two_fa, issue,
  check_password,
}

module _ {Otp : Type 0} (app : App Otp) where
  -- The row without its keys.
  unfoldable pub switched_off : TwoFa → TwoFa
  switched_off t = record {
    id = t.id;
    updated_at = app.now;
    key_main = "";
    key_backup = "";
    uuid_sha = "";
    uuid_enc = "";
    status = app.security.off;
    id_auth = t.id_auth;
  }

  -- The status for the tokens, by the row; a row that is on is switched off.
  unfoldable pub switch_off : String → Option TwoFa → Act String
  switch_off status none = pure ""
  switch_off status (some t) =
      if t.status == app.security.on
      then (do
        written ← transaction app.db (save_two_fa (switched_off t))
        stop_if (not written) 500 "internal server error"
        pure app.security.off)
      else if (t.status == "") || (t.status == app.security.off)
      then pure t.status
      else pure status

  -- The backup codes of the account are deleted; errors are only logged.
  unfoldable pub drop_backups : ℕ → Act (Unit {0})
  drop_backups id w = elim (app.db.find_backups id w.rows) [
    | err why ↦ go tt w
    | ok [] ↦ go tt w
    | ok (b ∷ bs) ↦ (do written ← transaction app.db (delete_backups (b ∷ bs)); pure tt) w
  ]

  unfoldable pub deactivate_steps : MyCustomClaims → AuthPayload → Act HttpResponse
  deactivate_steps claims payload w =
      (do
        stop_if ((claims.two_fa == "") || (claims.two_fa == app.security.off)) 200
            (concat "twoFA: " app.security.off)
        v ← row_or (app.db.first_auth claims.auth_id w.rows) 401 "user not found"
        check_password app 400 payload.password v
        two_fa ← row_if_any (app.db.first_two_fa v.auth_id w.rows)
        status ← switch_off claims.two_fa two_fa
        drop_backups v.auth_id
        issue app (with_two_fa status claims) "")
        w
