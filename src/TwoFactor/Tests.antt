-- ===== src/TwoFactor/Tests.antt =====
-- Witnesses for the login and two-factor authentication: one account, its row and one backup code,
-- with packages that compute on plain texts.
use wifigo.Base.{
  ℕ, String, true, false, not, ◌≡◌, ◌≢◌, refl, sym, ap, ◌∙◌, inl, inr, Option, none, some, List, [],
  ◌∷◌, ◌++◌, eqb, if◌then◌else◌, arith,
}
use wifigo.Base.Int.{pos, eq_ℤ}
use wifigo.Base.Texts.{◌==◌, test_of_eq}
use wifigo.Base.Lists.{filter, length}
use wifigo.Base.Outcome.{Outcome, ok, err}
use wifigo.Jwt.{
  MyCustomClaims, JwtClaims, secret, Library, get_jwt, with_id, sign, claims_at, family,
}
use wifigo.Jwt.Keys.{IsPaired}
use wifigo.Jwt.Filters.{Blacklist, abort, access_text}
use wifigo.Jwt.Routes.{auth_middleware}
use wifigo.Base.Words.{trim_left, trim_right, keep}
use wifigo.Jwt.Tests.{parameters, request, fresh}
use wifigo.Jwt.Tests.Signer.{signer, signer-IsJwt}
use wifigo.TwoFactor.{
  Auth, TwoFa, TwoFaBackup, Secret2Fa, AuthPayload, JwtPayload, tokens, codes, HttpResponse, Rows,
  World, Statement, save_two_fa, create_two_fa, delete_backups, create_backups, delete_backup,
  AuthDb, Security, Packages, App,
}
use wifigo.TwoFactor.Actions.{
  served, with_two_fa, remove_all_space, ◌>>=◌, ◌>>◌, transaction, validate_auth_id, issue,
  get_hash, check_password, without,
}
use wifigo.TwoFactor.Codes.{Random, AllOf, generate_code, retry, generate_codes}
use wifigo.TwoFactor.Setup.{setup_steps}
use wifigo.TwoFactor.Activate.{activate_steps}
use wifigo.TwoFactor.Validate.{
  message_of, validate_steps, validate_checks, validate2fa, sorted, validate_totp, totp_bytes,
  right_otp, sealed,
}
use wifigo.TwoFactor.Deactivate.{deactivate_steps}
use wifigo.TwoFactor.Backup.{
  validate_backup_steps, create_backup2fa, new_backups, backup_checks, no_backups, use_backup,
  backup_with, create_backup_checks, store_codes, hash_codes, delete_old,
}
use wifigo.TwoFactor.Login.{login_steps, get_user_by_email, check_two_fa, login_status}
use wifigo.TwoFactor.Ran.{IsIssued}
use wifigo.TwoFactor.Validated.{IsChecked, IsValidOtp, validate_steps-tokens}
use wifigo.TwoFactor.Used.{IsBackupDb, Among, Unique, validate_backup-once}
use wifigo.TwoFactor.Guarded.{login-Guarded}
use wifigo.TwoFactor.Stored.{IsStored, create_backup2fa-ends, create_backup2fa-codes}
use wifigo.TwoFactor.Isolation.{handlers-Apart, setup_steps-rows}

abbrev account : Auth
account = record {
  auth_id = 7;
  email = "a@b.ke";
  email_cipher = "";
  email_nonce = "";
  email_hash = "";
  password = "secret";
  verify_email = pos 1;
}

abbrev row : TwoFa
row = record {
  id = 3;
  updated_at = 900;
  key_main = "seed";
  key_backup = "seed";
  uuid_sha = "u";
  uuid_enc = "u";
  status = "on";
  id_auth = 7;
}

abbrev backup : TwoFaBackup
backup = record { id = 1; created_at = 900; code_hash = "code"; id_auth = 7 }

abbrev tables : List TwoFaBackup → Rows
tables backups = record { auths = account ∷ []; two_fas = row ∷ []; backups = backups }

abbrev world : List TwoFaBackup → Option Secret2Fa → World
world backups d = record {
  rows = tables backups;
  memory = λ id. if eqb id 7 then d else none;
  images = [];
}

abbrev with_backups : List TwoFaBackup → Rows → Rows
with_backups backups r = record { auths = r.auths; two_fas = r.two_fas; backups = backups }

abbrev effect_of : Statement → Rows → Rows
effect_of (save_two_fa t) r = record { auths = r.auths; two_fas = t ∷ []; backups = r.backups }
effect_of (create_two_fa t) r = record {
  auths = r.auths;
  two_fas = t ∷ r.two_fas;
  backups = r.backups;
}
effect_of (delete_backups bs) r = with_backups [] r
effect_of (create_backups bs) r = with_backups (r.backups ++ bs) r
effect_of (delete_backup id) r = with_backups (filter (λ b. not (eqb b.id id)) r.backups) r

abbrev first : List TwoFa → Outcome TwoFa
first [] = err "record not found"
first (t ∷ ts) = ok t

abbrev db : AuthDb
db = record {
  first_auth = λ id rows. if eqb id 7 then ok account else err "record not found";
  first_auth_by_email =
      λ email rows. if email == "a@b.ke" then ok account else err "record not found";
  first_auth_by_hash = λ hash rows. err "record not found";
  first_two_fa = λ id rows. first rows.two_fas;
  find_backups = λ id rows. ok (filter (λ b. eqb b.id_auth id) rows.backups);
  write = λ st rows. ok (effect_of st rows);
  commits = λ st rows. true;
}

list_of : {a b : List TwoFaBackup} → ok a ≡ ok b → a ≡ b
list_of h = cc h

rows_of : {a b : Rows} → ok a ≡ ok b → a ≡ b
rows_of h = cc h

db-IsBackupDb : IsBackupDb db
db-IsBackupDb = record {
  finds = λ id rows h. sym (list_of h);
  deletes = λ id rows h. ap (λ (r : Rows). r.backups) (sym (rows_of h));
}

abbrev security : Security
security = record {
  on = "on";
  off = "off";
  verified = "verified";
  invalid = "invalid";
  issuer = "wifi";
  digits = 6;
  path_qr = "qr";
  double_hash = false;
  must_2fa = true;
  must_verify_email = true;
  is_cipher = false;
  hash_sec = "";
  blake2b_sec = "";
  cipher_key = "";
}

abbrev packages : Packages String
packages = record {
  compare_password_and_hash = λ password sec hash. ok (password == hash);
  validate_email = λ email. true;
  hex_encode = λ s. s;
  hex_decode = λ s. ok s;
  base64_encode = λ s. s;
  base64_decode = λ s. ok s;
  sha256 = λ s. s;
  blake2b256 = λ key s. ok s;
  encrypt = λ s key. ok s;
  decrypt = λ s key. ok s;
  decrypt_chacha20poly1305 = λ key nonce s. ok s;
  new_totp = λ name issuer digits. ok name;
  totp_from_bytes = λ s issuer. ok s;
  totp_to_bytes = λ otp. ok otp;
  totp_qr = λ otp. ok otp;
  totp_validate = λ input otp. (otp, if input == "123456" then none else some "wrong");
  byte_to_png = λ s. ok "image.png";
  remove_file = λ name. none;
  uuid = λ n. if eqb n 2 then "id-1" else "id-2";
}

abbrev claims : String → MyCustomClaims
claims status = record {
  auth_id = 7;
  email = "";
  role = "";
  scope = "";
  two_fa = status;
  site_lan = "";
  custom1 = "";
  custom2 = "";
}

abbrev signed_claims : String → ℕ → String → Option ℕ → JwtClaims
signed_claims status exp id nbf = record {
  custom = claims status;
  expires_at = some exp;
  id = id;
  issued_at = some 1000;
  issuer = "portal";
  subject = "login";
  audience = "wifi" ∷ [];
  not_before = nbf;
}

-- The application, with a library that signs the tokens of one status.
abbrev signs : String → Library
signs status =
    signer
      (
        record { alg = "HS256"; claims = signed_claims status 1900 "id-1" none },
        secret "access secret",
      )
      (
        record { alg = "HS256"; claims = signed_claims status 4600 "id-2" (some 1030) },
        secret "refresh secret",
      )

abbrev app : String → App String
app status = record {
  db = db;
  security = security;
  packages = packages;
  jwt = signs status;
  jwt_params = parameters "HS256";
  now = 1000;
}

abbrev payload : String → AuthPayload
payload otp = record { email = "a@b.ke"; password = "secret"; otp = otp }

abbrev pair_of : String → JwtPayload
pair_of status = record {
  access_jwt = "first";
  refresh_jwt = "second";
  two_auth = status;
  recovery_key = "";
}

paired : (status : String) → IsPaired (signs status) (parameters "HS256")
unfolding ◌==◌
paired status = record { ecdsa_pair = refl; rsa_pair = refl }

abbrev off_list : Blacklist
off_list = record {
  is_jwt = true;
  is_redis = false;
  invalidate_jwt = false;
  exists_key = λ key. err "no redis";
}

login-Guarded_example :
    (why : String) × (auth_middleware
        (signs "on")
        (parameters "HS256")
        1100
        off_list
        true
        "on"
        "off"
        "verified"
        (request (some "first") none)
        fresh
      ≡ abort 401 why)
unfolding ◌>>=◌ ◌>>◌ ◌==◌ issue get_jwt with_id sign claims_at family login_steps get_user_by_email
    trim_right trim_left keep eq_ℤ check_password check_two_fa login_status get_hash access_text
login-Guarded_example =
    login-Guarded (app "on") (signer-IsJwt _ _) (paired "on") (payload "") (world [] none)
      (pair_of "on") account row 1100 off_list (request (some "first") none) fresh refl
      (λ e. cc (test_of_eq "on" "" e)) (λ e. cc (test_of_eq "on" "off" e)) refl refl refl refl refl
      (omega arith) (omega arith)

abbrev remembered : Secret2Fa
remembered = record { pass_sha = "secret"; secret = ""; image = "" }

validate_steps-tokens_example :
    (d : Secret2Fa) × (t : TwoFa) × (message : String) × (bytes : String) × IsChecked
      (app "verified")
      (claims "on")
      (remove_all_space "123 456")
      (world [] (some remembered))
      d
      t
    × (message_of (app "verified") d t ≡ ok message)
    × IsValidOtp (app "verified") message (remove_all_space "123 456") bytes
    × IsIssued (app "verified") (with_two_fa "verified" (claims "on")) (pair_of "verified")
    × ((served (
            validate_steps
              (app "verified")
              (claims "on")
              (payload "123 456")
              (world [] (some remembered)))).1.memory
          7
        ≡ none)
unfolding ◌>>=◌ ◌>>◌ ◌==◌ issue get_jwt with_id sign claims_at family validate_steps validate_checks
    validate_auth_id without message_of validate2fa sorted validate_totp totp_bytes right_otp
    transaction sealed
validate_steps-tokens_example =
    validate_steps-tokens (app "verified") (claims "on") (payload "123 456")
      (world [] (some remembered)) (pair_of "verified") refl

one_backup : Unique (backup ∷ [])
unfolding Among
one_backup b c (inl e) (inl f) h = ap (λ (x : TwoFaBackup). x.id) (sym e ∙ f)
one_backup b c (inl e) (inr f) h = absurd f
one_backup b c (inr e) among h = absurd e

validate_backup-once_example :
    (served (
      validate_backup_steps
        (app "verified")
        (claims "on")
        (payload " code ")
        (served (
          validate_backup_steps
            (app "verified")
            (claims "on")
            (payload "code")
            (world (backup ∷ []) none))).1)).0.message
    ≢ tokens (pair_of "verified")
unfolding ◌>>=◌ ◌>>◌ ◌==◌ issue get_jwt with_id sign claims_at family trim_left trim_right keep
    validate_backup_steps backup_checks validate_auth_id no_backups use_backup backup_with
    transaction
validate_backup-once_example =
    validate_backup-once (app "verified") db-IsBackupDb (claims "on") (claims "on") (payload "code")
      (payload " code ") (world (backup ∷ []) none) (pair_of "verified") (pair_of "verified")
      one_backup (λ id. refl) refl refl

abbrev zeros : Random
zeros k = ok 0

create_backup2fa-ends_example :
    (r : HttpResponse × World) × (create_backup2fa
        (app "verified")
        zeros
        1
        0
        (claims "verified")
        (payload "")
        (world [] none)
      ≡ some r)
create_backup2fa-ends_example =
    create_backup2fa-ends (app "verified") zeros 1 0 (claims "verified") (payload "")
      (world [] none) 0 (λ k h. (0, refl)) (omega arith) (omega arith)

abbrev code : String
code = "AAAAAAAAAAAAAAAA"

abbrev ten : List String
ten = code ∷ code ∷ code ∷ code ∷ code ∷ code ∷ code ∷ code ∷ code ∷ code ∷ []

create_backup2fa-codes_example :
    (length ten ≡ 10)
    × AllOf 16 ten
    × IsStored (app "verified") 7 ten (world (new_backups (app "verified") 7 ten) none)
unfolding create_backup2fa create_backup_checks ◌>>◌ validate_auth_id ◌==◌ ◌>>=◌ check_password
    generate_codes retry generate_code store_codes hash_codes delete_old transaction new_backups
create_backup2fa-codes_example =
    create_backup2fa-codes (app "verified") zeros 1 0 (claims "verified") (payload "")
      (world [] none)
      (
        record { status = 200; message = codes ten },
        world (new_backups (app "verified") 7 ten) none,
      )
      ten refl refl

handlers-Apart_example :
    ((served (setup_steps (app "") (claims "") (payload "") (world [] none))).1.memory 8 ≡ none)
    × ((served (activate_steps (app "") (claims "") (payload "") (world [] none))).1.memory 8
        ≡ none)
    × ((served (validate_steps (app "") (claims "") (payload "") (world [] none))).1.memory 8
        ≡ none)
    × ((served (deactivate_steps (app "") (claims "") (payload "") (world [] none))).1.memory 8
        ≡ none)
    × ((served (validate_backup_steps (app "") (claims "") (payload "") (world [] none))).1.memory 8
        ≡ none)
handlers-Apart_example = handlers-Apart (app "") (claims "") (payload "") (world [] none) 8 refl

setup_steps-rows_example :
    (served (setup_steps (app "") (claims "") (payload "") (world [] none))).1.rows ≡ tables []
setup_steps-rows_example = setup_steps-rows (app "") (claims "") (payload "") (world [] none)
