-- ===== src/TwoFactor/Actions.antt =====
-- The shape of the handlers: a step goes on, or answers the request. The state that was written
-- before an early return stays written.
use Prim.Native.Char.{code}
use Prim.Native.String
use wifigo.Base.{ℕ, String, Bool, true, false, not, Option, none, some, List, eqb, if◌then◌else◌}
use wifigo.Base.Texts.{◌==◌}
use wifigo.Base.Lists.{filter}
use wifigo.Base.Outcome.{Outcome, ok, err}
use wifigo.Jwt.{MyCustomClaims, get_jwt}
use wifigo.TwoFactor.{
  Auth, Secret2Fa, Statement, Rows, World, text, tokens, HttpResponse, AuthDb, App,
}

pub data Flow {ℓ} (A : Type ℓ) : Type ℓ where
  go : A → World → Flow A
  stop : ℕ → String → World → Flow A

abbrev pub Act {ℓ} : Type ℓ → Type ℓ
Act A = World → Flow A

abbrev pub pure {ℓ} : {A : Type ℓ} → A → Act A
pure a w = go a w

infixl 5 ◌>>=◌ ◌>>◌
unfoldable pub ◌>>=◌ {ℓ κ} : {A : Type ℓ} {B : Type κ} → Act A → (A → Act B) → Act B
◌>>=◌ m f w = elim (m w) [ go a u ↦ f a u | stop status why u ↦ stop status why u ]

unfoldable pub ◌>>◌ {κ} : {B : Type κ} → Act (Unit {0}) → Act B → Act B
◌>>◌ m k w = elim (m w) [ go _ u ↦ k u | stop status why u ↦ stop status why u ]

abbrev pub refuse {ℓ} : {A : Type ℓ} → ℕ → String → Act A
refuse status why w = stop status why w

abbrev pub stop_if : Bool → ℕ → String → Act (Unit {0})
stop_if true status why w = stop status why w
stop_if false status why w = go tt w

-- A value, or the answer 500.
abbrev pub attempt {ℓ} : {A : Type ℓ} → Outcome A → Act A
attempt (ok a) w = go a w
attempt (err why) w = stop 500 "internal server error" w

-- `err.Error() != database.RecordNotFound`
abbrev pub is_not_found : String → Bool
is_not_found why = why == "record not found"

-- A row, or the answer for a row that is not there, or the answer 500.
abbrev pub row_or {ℓ} : {A : Type ℓ} → Outcome A → ℕ → String → Act A
row_or (ok a) status why w = go a w
row_or (err e) status why w =
    if is_not_found e then stop status why w else stop 500 "internal server error" w

-- A value that is there, or an answer.
abbrev pub some_or {ℓ} : {A : Type ℓ} → Option A → ℕ → String → Act A
some_or (some a) status why w = go a w
some_or none status why w = stop status why w

-- A row where there is one, or the answer 500.
abbrev pub row_if_any {ℓ} : {A : Type ℓ} → Outcome A → Act (Option A)
row_if_any (ok a) w = go (some a) w
row_if_any (err e) w = if is_not_found e then go none w else stop 500 "internal server error" w

-- The answer of a handler, and the state that it leaves.
abbrev pub served : Flow HttpResponse → HttpResponse × World
served (go r w) = (r, w)
served (stop status why w) = (record { status = status; message = text why }, w)

abbrev pub with_rows : Rows → World → World
with_rows rows w = record { rows = rows; memory = w.memory; images = w.images }

abbrev pub with_memory : (ℕ → Option Secret2Fa) → World → World
with_memory memory w = record { rows = w.rows; memory = memory; images = w.images }

abbrev pub with_images : List String → World → World
with_images images w = record { rows = w.rows; memory = w.memory; images = images }

-- `model.InMemorySecret2FA[id] = data`
abbrev pub put_memory : ℕ → Secret2Fa → Act (Unit {0})
put_memory id data2fa w =
    go tt (with_memory (λ asked. if eqb asked id then some data2fa else w.memory asked) w)

-- `service.DelMem2FA(id)`
abbrev pub del_mem2fa : ℕ → Act (Unit {0})
del_mem2fa id w = go tt (with_memory (λ asked. if eqb asked id then none else w.memory asked) w)

-- A transaction of one statement. The error of `tx.Commit()` is not looked at.
unfoldable pub transaction : AuthDb → Statement → Act Bool
transaction db st w = elim (db.write st w.rows) [
  | ok rows ↦ go true (if db.commits st w.rows then with_rows rows w else w)
  | err why ↦ go false w
]

-- `service.ValidateAuthID`, and `IsAuthIDValid`.
unfoldable pub validate_auth_id : AuthDb → ℕ → Rows → Bool
validate_auth_id db id rows =
    if eqb id 0 then false else elim (db.first_auth id rows) [ ok a ↦ true | err why ↦ false ]

abbrev pub with_two_fa : String → MyCustomClaims → MyCustomClaims
with_two_fa status c = record {
  auth_id = c.auth_id;
  email = c.email;
  role = c.role;
  scope = c.scope;
  two_fa = status;
  site_lan = c.site_lan;
  custom1 = c.custom1;
  custom2 = c.custom2;
}

module _ {Otp : Type 0} (app : App Otp) where
  -- `GetJWT` twice, and the payload.
  unfoldable pub issue : MyCustomClaims → String → Act HttpResponse
  issue claims recovery_key = do
    access ← attempt (get_jwt app.jwt app.jwt_params app.now (app.packages.uuid 2) claims "access")
    refresh ←
        attempt (get_jwt app.jwt app.jwt_params app.now (app.packages.uuid 3) claims "refresh")
    pure (record {
      status = 200;
      message = tokens (record {
        access_jwt = access.0;
        refresh_jwt = refresh.0;
        two_auth = claims.two_fa;
        recovery_key = recovery_key;
      });
    })

  -- `service.CalcHash`
  abbrev pub calc_hash : String → Outcome String
  calc_hash plaintext = app.packages.blake2b256 app.security.blake2b_sec plaintext

  -- `service.GetHash`
  unfoldable pub get_hash : String → Outcome String
  get_hash data_in =
      if app.security.double_hash
      then calc_hash (app.packages.sha256 data_in)
      else ok (app.packages.sha256 data_in)

  -- `argon2.ComparePasswordAndHash`, and the answers to its error and to a wrong password.
  unfoldable pub check_password : ℕ → String → Auth → Act (Unit {0})
  check_password status password v = do
    verify_pass ←
        attempt (app.packages.compare_password_and_hash password app.security.hash_sec v.password)
    stop_if (not verify_pass) status "wrong credentials"

  abbrev image_path : String → String
  image_path image = String.◌++◌ app.security.path_qr (String.◌++◌ "/" image)

  -- `lib.FileExist` and `os.Remove` of an image: an error is only logged.
  unfoldable pub remove_image : String → Act (Unit {0})
  remove_image image w = elim (app.packages.remove_file (image_path image)) [
    | none ↦ go tt (with_images (filter (λ name. not (name == image)) w.images) w)
    | some why ↦ go tt w
  ]

-- `lib.RemoveAllSpace`, and `strings.ReplaceAll(s, "-", "")`: a text without a character.
unfoldable pub without : ℕ → String → String
without n String.[] = ""
without n (String.◌∷◌ c s) =
    let rest = without n s in if eqb (code c) n then rest else String.◌∷◌ c rest

abbrev pub remove_all_space : String → String
remove_all_space s = without 32 s
