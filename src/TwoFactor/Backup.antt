-- ===== src/TwoFactor/Backup.antt =====
-- `CreateBackup2FA` and `ValidateBackup2FA` of handler/twoFA.go.
use wifigo.Base.{
  ℕ, String, Bool, true, false, not, Option, none, some, List, [], ◌∷◌, if◌then◌else◌,
}
use wifigo.Base.Texts.{◌==◌, concat}
use wifigo.Base.Outcome.{Outcome, ok, err}
use wifigo.Jwt.{MyCustomClaims}
use wifigo.TwoFactor.{
  TwoFaBackup, AuthPayload, codes, HttpResponse, delete_backups, create_backups, delete_backup,
  World, App,
}
use wifigo.TwoFactor.Actions.{
  Act, go, stop, pure, ◌>>=◌, ◌>>◌, refuse, stop_if, attempt, row_or, transaction, validate_auth_id,
  with_two_fa, issue, calc_hash, check_password,
}
use wifigo.Base.Words.{trim_space}
use wifigo.TwoFactor.Actions.{served}
use wifigo.TwoFactor.Codes.{Random, generate_codes}

-- The first code with a hash.
unfoldable pub backup_with : String → List TwoFaBackup → Option TwoFaBackup
backup_with hash [] = none
backup_with hash (b ∷ bs) = if b.code_hash == hash then some b else backup_with hash bs

module _ {Otp : Type 0} (app : App Otp) where
  -- Step 3: the hashes, or the first error.
  unfoldable pub hash_codes : List String → Outcome (List String)
  hash_codes [] = ok []
  hash_codes (c ∷ cs) = elim (calc_hash app c) [
    | err why ↦ err why
    | ok h ↦ elim (hash_codes cs) [
      | err why ↦ err why
      | ok hs ↦ ok (app.packages.hex_encode h ∷ hs)
    ]
  ]

  -- The rows of step 5.
  unfoldable pub new_backups : ℕ → List String → List TwoFaBackup
  new_backups id [] = []
  new_backups id (h ∷ hs) =
      record { id = 0; created_at = app.now; code_hash = h; id_auth = id } ∷ new_backups id hs

  -- Step 4.
  unfoldable pub delete_old : ℕ → Act (Unit {0})
  delete_old id w =
      (do
        old ← attempt (app.db.find_backups id w.rows)
        elim old as (λ _. Act (Unit {0})) [
          | [] ↦ pure tt
          | b ∷ bs ↦ (do
            deleted ← transaction app.db (delete_backups (b ∷ bs))
            stop_if (not deleted) 500 "internal server error")
        ])
        w

  -- From the generated codes on.
  unfoldable pub store_codes : ℕ → List String → Act HttpResponse
  store_codes id drawn = do
    hashes ← attempt (hash_codes drawn)
    delete_old id
    created ← transaction app.db (create_backups (new_backups id hashes))
    stop_if (not created) 500 "internal server error"
    pure (record { status = 200; message = codes drawn })

  unfoldable pub create_backup_checks : MyCustomClaims → AuthPayload → Act (Unit {0})
  create_backup_checks claims payload w =
      (do
        stop_if (not (validate_auth_id app.db claims.auth_id w.rows)) 401 "access denied"
        stop_if (not (claims.two_fa == app.security.verified)) 401 "access denied"
        v ← row_or (app.db.first_auth claims.auth_id w.rows) 401 "user not found"
        check_password app 400 payload.password v)
        w

  -- `CreateBackup2FA`; `none` where the loop for the codes still runs when the fuel is used up.
  unfoldable pub create_backup2fa :
      Random → ℕ → ℕ → MyCustomClaims → AuthPayload → World → Option (HttpResponse × World)
  create_backup2fa random fuel k claims payload w = elim (create_backup_checks claims payload w) [
    | stop status why u ↦ some (served (stop status why u))
    | go _ u ↦ elim (generate_codes random fuel 10 k) [
      | none ↦ none
      | some (drawn, _) ↦ some (served (store_codes claims.auth_id drawn u))
    ]
  ]

  unfoldable pub backup_checks : MyCustomClaims → String → Act (List TwoFaBackup)
  backup_checks claims otp w =
      (do
        stop_if (not (validate_auth_id app.db claims.auth_id w.rows)) 401 "access denied"
        stop_if (claims.two_fa == app.security.verified) 200
            (concat "twoFA: " app.security.verified)
        stop_if (not (claims.two_fa == app.security.on)) 400
            "unexpected request (1): 2-fa is OFF / log in again"
        stop_if (otp == "") 400 "required 2-fa backup code"
        attempt (app.db.find_backups claims.auth_id w.rows))
        w

  unfoldable pub no_backups : List TwoFaBackup → Bool
  no_backups [] = true
  no_backups (_ ∷ _) = false

  -- The comparison, the deletion of the code that was used, and the tokens.
  unfoldable pub use_backup : MyCustomClaims → List TwoFaBackup → String → Act HttpResponse
  use_backup claims bs hash = elim (backup_with hash bs) as (λ _. Act HttpResponse) [
    | none ↦ refuse 400 "invalid 2-fa backup code"
    | some b ↦ (do
      deleted ← transaction app.db (delete_backup b.id)
      stop_if (not deleted) 500 "internal server error"
      issue app (with_two_fa app.security.verified claims) "")
  ]

  unfoldable pub validate_backup_steps : MyCustomClaims → AuthPayload → Act HttpResponse
  validate_backup_steps claims payload = do
    bs ← backup_checks claims (trim_space payload.otp)
    stop_if (no_backups bs) 400 "user has no unused valid backup code"
    otp_byte ← attempt (calc_hash app (trim_space payload.otp))
    use_backup claims bs (app.packages.hex_encode otp_byte)
