-- ===== src/TwoFactor.antt =====
-- Two-factor authentication and the login: handler/twoFA.go, handler/login.go, and what they use of
-- service, lib and database/model. This file has the rows, the state and the parameters: GORM's
-- statements on the application's database, and the packages for passwords, hashes, ciphers,
-- one-time passwords and images.
pub mod Actions
pub mod Ran
pub mod Codes
pub mod Setup
pub mod Activate
pub mod Validate
pub mod Deactivate
pub mod Backup
pub mod Validated
pub mod Used
pub mod Guarded
pub mod Stored
pub mod Apart
pub mod Others
pub mod Isolation
mod Tests
pub mod Login
use wifigo.Base.{ℕ, String, Bool, true, false, Option, none, some, List}
use wifigo.Base.Int.{ℤ}
use wifigo.Base.Outcome.{Outcome, ok, err}
use wifigo.Jwt.{MyCustomClaims, JwtParameters, Library}

-- `model.Auth`, without the times.
pub record Auth : Type 0 where
  pub auth_id : ℕ
  pub email : String
  pub email_cipher : String
  pub email_nonce : String
  pub email_hash : String
  pub password : String
  pub verify_email : ℤ

-- `model.TwoFA`; the times of creation and deletion are GORM's own.
pub record TwoFa : Type 0 where
  pub id : ℕ
  pub updated_at : ℕ
  pub key_main : String
  pub key_backup : String
  pub uuid_sha : String
  pub uuid_enc : String
  pub status : String
  pub id_auth : ℕ

-- `model.TwoFABackup`
pub record TwoFaBackup : Type 0 where
  pub id : ℕ
  pub created_at : ℕ
  pub code_hash : String
  pub id_auth : ℕ

-- `model.Secret2FA`, with the bytes as texts.
pub record Secret2Fa : Type 0 where
  pub pass_sha : String
  pub secret : String
  pub image : String

-- The fields of `model.AuthPayload` that the handlers read.
pub record AuthPayload : Type 0 where
  pub email : String
  pub password : String
  pub otp : String

-- `middleware.JWTPayload`
pub record JwtPayload : Type 0 where
  pub access_jwt : String
  pub refresh_jwt : String
  pub two_auth : String
  pub recovery_key : String

-- The `interface{}` of `model.HTTPResponse`.
pub data Message : Type 0 where
  text : String → Message
  tokens : JwtPayload → Message
  codes : List String → Message

pub record HttpResponse : Type 0 where
  pub status : ℕ
  pub message : Message

-- The tables of the application's database.
pub record Rows : Type 0 where
  pub auths : List Auth
  pub two_fas : List TwoFa
  pub backups : List TwoFaBackup

-- The tables, `model.InMemorySecret2FA`, and the images in the folder of the QR codes.
pub record World : Type 0 where
  pub rows : Rows
  pub memory : ℕ → Option Secret2Fa
  pub images : List String

-- The writing statements, each of them alone in its transaction.
pub data Statement : Type 0 where
  save_two_fa create_two_fa : TwoFa → Statement
  delete_backups create_backups : List TwoFaBackup → Statement
  delete_backup : ℕ → Statement

-- GORM on the application's database. A query returns its rows or its error; `write` is the
-- statement inside its transaction, and `commits` tells whether `tx.Commit()` takes.
pub record AuthDb : Type 0 where
  pub first_auth : ℕ → Rows → Outcome Auth
  pub first_auth_by_email : String → Rows → Outcome Auth
  pub first_auth_by_hash : String → Rows → Outcome Auth
  pub first_two_fa : ℕ → Rows → Outcome TwoFa
  pub find_backups : ℕ → Rows → Outcome (List TwoFaBackup)
  pub write : Statement → Rows → Outcome Rows
  pub commits : Statement → Rows → Bool

-- `config.GetConfig().Security`, as far as the handlers read it.
pub record Security : Type 0 where
  pub on : String
  pub off : String
  pub verified : String
  pub invalid : String
  pub issuer : String
  pub digits : ℕ
  pub path_qr : String
  pub double_hash : Bool
  pub must_2fa : Bool
  pub must_verify_email : Bool
  pub is_cipher : Bool
  pub hash_sec : String
  pub blake2b_sec : String
  pub cipher_key : String

-- The packages: argon2, crypt, the codecs and hashes of Go, `lib.ValidateEmail` (which asks the
-- domain name system), `lib.Encrypt` and `lib.Decrypt`, twofactor, the file system and uuid.
-- A one-time password object is of the type `Otp`.
pub record Packages (Otp : Type 0) : Type 0 where
  pub compare_password_and_hash : String → String → String → Outcome Bool
  pub validate_email : String → Bool
  pub hex_encode : String → String
  pub hex_decode : String → Outcome String
  pub base64_encode : String → String
  pub base64_decode : String → Outcome String
  pub sha256 : String → String
  pub blake2b256 : String → String → Outcome String
  pub encrypt : String → String → Outcome String
  pub decrypt : String → String → Outcome String
  pub decrypt_chacha20poly1305 : String → String → String → Outcome String
  pub new_totp : String → String → ℕ → Outcome Otp
  pub totp_from_bytes : String → String → Outcome Otp
  pub totp_to_bytes : Otp → Outcome String
  pub totp_qr : Otp → Outcome String
  -- `otp.Validate(input)`: the object after it, and its error.
  pub totp_validate : String → Otp → Otp × Option String
  pub byte_to_png : String → Outcome String
  pub remove_file : String → Option String
  pub uuid : ℕ → String

-- What every handler is given: the database, the settings, the packages, and those of the tokens.
pub record App (Otp : Type 0) : Type 0 where
  pub db : AuthDb
  pub security : Security
  pub packages : Packages Otp
  pub jwt : Library
  pub jwt_params : JwtParameters
  pub now : ℕ
