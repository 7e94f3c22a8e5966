-- ===== src/Jwt.antt =====
-- lib/middleware/jwt.go: the issue of tokens and the choice of the key that validates one.
-- The package golang-jwt is a parameter: its signing and parsing, and the type of a signing method.
pub mod Filters
pub mod Keys
pub mod Issued
pub mod Routes
pub mod Logout
pub mod LoggedOut
pub mod Tests
use wifigo.Base.{
  ℕ, String, Bool, true, false, ◌≡◌, ◌≢◌, ◌||◌, ◌&&◌, ◌+◌, ◌*◌, Option, none, some, List, [], ◌∷◌,
  ltb, leb, if◌then◌else◌,
}
use wifigo.Base.Texts.{◌==◌, concat}
use wifigo.Base.Outcome.{Outcome, ok, err}

-- `MyCustomClaims`
pub record MyCustomClaims : Type 0 where
  pub auth_id : ℕ
  pub email : String
  pub role : String
  pub scope : String
  pub two_fa : String
  pub site_lan : String
  pub custom1 : String
  pub custom2 : String

-- `JWTClaims`, with the registered claims: times are Unix seconds, a nil pointer is `none`.
pub record JwtClaims : Type 0 where
  pub custom : MyCustomClaims
  pub expires_at : Option ℕ
  pub id : String
  pub issued_at : Option ℕ
  pub issuer : String
  pub subject : String
  pub audience : List String
  pub not_before : Option ℕ

-- The `interface{}` of a key: the bytes of an HMAC secret, a key of a pair, or nil.
pub data Key : Type 0 where
  secret private_ecdsa public_ecdsa private_rsa public_rsa : String → Key
  no_key : Key

-- `JWTParameters`; the lifetimes are in minutes, the delays in seconds.
pub record JwtParameters : Type 0 where
  pub algorithm : String
  pub access_key : String
  pub access_key_ttl : ℕ
  pub refresh_key : String
  pub refresh_key_ttl : ℕ
  pub priv_key_ecdsa : String
  pub pub_key_ecdsa : String
  pub priv_key_rsa : String
  pub pub_key_rsa : String
  pub audience : String
  pub issuer : String
  pub acc_nbf : ℕ
  pub ref_nbf : ℕ
  pub subject : String

-- The Go type of `token.Method`.
pub data Kind : Type 0 where
  hmac ecdsa rsa other : Kind

-- `*jwt.Token`: `Header["alg"]` and the claims.
pub record Token : Type 0 where
  pub alg : String
  pub claims : JwtClaims

-- The package golang-jwt.
pub record Library : Type 0 where
  pub method : String → Kind
  pub signed_string : String → JwtClaims → Key → Outcome String
  -- `jwt.ParseWithClaims(text, &JWTClaims{}, keyFunc)` at a time.
  pub parse_with_claims : String → (Token → Outcome Key) → ℕ → Outcome Token
  -- The private key and the public key of one pair.
  pub is_pair : String → String → Bool

-- The three cases of the switches on the algorithm.
unfoldable pub family : String → Kind
family alg =
    if alg == "HS256" || (alg == "HS384" || alg == "HS512")
    then hmac
    else if alg == "ES256" || (alg == "ES384" || alg == "ES512")
    then ecdsa
    else if alg == "RS256" || (alg == "RS384" || alg == "RS512")
    then rsa
    else other

abbrev pub unexpected : Token → Outcome Key
unexpected tok = err (concat "unexpected signing method: " tok.alg)

module _ (lib : Library) (p : JwtParameters) where
  unfoldable pub validate_hmac_access : Token → Outcome Key
  validate_hmac_access tok = elim (lib.method tok.alg) [
    | hmac ↦ ok (secret p.access_key)
    | _ ↦ unexpected tok
  ]

  unfoldable pub validate_hmac_refresh : Token → Outcome Key
  validate_hmac_refresh tok = elim (lib.method tok.alg) [
    | hmac ↦ ok (secret p.refresh_key)
    | _ ↦ unexpected tok
  ]

  unfoldable pub validate_ecdsa : Token → Outcome Key
  validate_ecdsa tok = elim (lib.method tok.alg) [
    | ecdsa ↦ ok (public_ecdsa p.pub_key_ecdsa)
    | _ ↦ unexpected tok
  ]

  unfoldable pub validate_rsa : Token → Outcome Key
  validate_rsa tok = elim (lib.method tok.alg) [
    | rsa ↦ ok (public_rsa p.pub_key_rsa)
    | _ ↦ unexpected tok
  ]

  unfoldable pub validate_access_jwt : Token → Outcome Key
  validate_access_jwt tok = elim (family p.algorithm) [
    | hmac ↦ validate_hmac_access tok
    | ecdsa ↦ validate_ecdsa tok
    | rsa ↦ validate_rsa tok
    | other ↦ unexpected tok
  ]

  unfoldable pub validate_refresh_jwt : Token → Outcome Key
  validate_refresh_jwt tok = elim (family p.algorithm) [
    | hmac ↦ validate_hmac_refresh tok
    | ecdsa ↦ validate_ecdsa tok
    | rsa ↦ validate_rsa tok
    | other ↦ unexpected tok
  ]

  -- The claims of a token that is made at the time `now` with the identifier `id`.
  unfoldable pub claims_at : ℕ → String → MyCustomClaims → ℕ → ℕ → JwtClaims
  claims_at now id custom ttl nbf = record {
    custom = custom;
    expires_at = some (now + 60 * ttl);
    id = id;
    issued_at = some now;
    issuer = p.issuer;
    subject = p.subject;
    audience = if p.audience == "" then [] else p.audience ∷ [];
    not_before = if ltb 0 nbf then some (now + nbf) else none;
  }

  -- The second switch on the algorithm, and the signature.
  unfoldable pub sign : String → JwtClaims → Outcome String
  sign key claims = elim (family p.algorithm) [
    | hmac ↦ lib.signed_string p.algorithm claims (secret key)
    | ecdsa ↦ lib.signed_string p.algorithm claims (private_ecdsa p.priv_key_ecdsa)
    | rsa ↦ lib.signed_string p.algorithm claims (private_rsa p.priv_key_rsa)
    | other ↦ lib.signed_string "HS256" claims no_key
  ]

  unfoldable pub with_id : String → Outcome String → Outcome (String × String)
  with_id id (ok text) = ok (text, id)
  with_id id (err why) = err why

  -- `GetJWT`, at the time `now`, with `id` from `uuid.NewString()`.
  unfoldable pub get_jwt : ℕ → String → MyCustomClaims → String → Outcome (String × String)
  get_jwt now id custom token_type =
      if token_type == "access"
      then with_id id (sign p.access_key (claims_at now id custom p.access_key_ttl p.acc_nbf))
      else if token_type == "refresh"
      then with_id id (sign p.refresh_key (claims_at now id custom p.refresh_key_ttl p.ref_nbf))
      else err "invalid token type"

-- A token is current from its `nbf`, when it has one, until its `exp`, when it has one.
unfoldable pub current : JwtClaims → ℕ → Bool
current c now =
    elim c.expires_at [ none ↦ true | some e ↦ ltb now e ]
    && elim c.not_before [ none ↦ true | some n ↦ leb n now ]

-- A signature by the first key is verified by the second, for the pairs given.
unfoldable pub verifies : (String → String → Bool) → Key → Key → Bool
verifies is_pair (secret a) (secret b) = a == b
verifies is_pair (private_ecdsa a) (public_ecdsa b) = is_pair a b
verifies is_pair (private_rsa a) (public_rsa b) = is_pair a b
verifies is_pair _ _ = false

-- What the documentation of golang-jwt says.
pub record IsJwt (lib : Library) : Type 0 where
  pub methods : (alg : String) → family alg ≢ other → lib.method alg ≡ family alg
  -- A token that is signed is accepted while it is current, by the key that `keyFunc` returns.
  pub accepts :
      (alg text : String) (claims : JwtClaims) (key k : Key) (f : Token → Outcome Key) (now : ℕ)
      → lib.signed_string alg claims key ≡ ok text
      → f (record { alg = alg; claims = claims }) ≡ ok k
      → verifies lib.is_pair key k ≡ true
      → current claims now ≡ true
      → lib.parse_with_claims text f now ≡ ok (record { alg = alg; claims = claims })
  -- A token that is signed is refused when the key does not verify the signature.
  pub refuses :
      (alg text : String) (claims : JwtClaims) (key k : Key) (f : Token → Outcome Key) (now : ℕ)
      → lib.signed_string alg claims key ≡ ok text
      → f (record { alg = alg; claims = claims }) ≡ ok k
      → verifies lib.is_pair key k ≡ false
      → (why : String) × (lib.parse_with_claims text f now ≡ err why)
  -- Nil signs nothing.
  pub nil_key :
      (alg : String) (claims : JwtClaims)
      → (why : String) × (lib.signed_string alg claims no_key ≡ err why)
