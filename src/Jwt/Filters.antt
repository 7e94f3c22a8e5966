-- ===== src/Jwt/Filters.antt =====
-- The filters of a request: `JWT`, `RefreshJWT` and `TwoFA` of lib/middleware, and
-- `JWTBlacklistChecker` and `GetClaims` of service. The request's cookies, headers and bound body
-- are a record; the keys that a filter sets in the context of gin are another.
use wifigo.Base.{
  ℕ, String, Bool, true, false, not, ◌&&◌, Option, none, some, List, [], ◌∷◌, eqb, if◌then◌else◌,
}
use wifigo.Base.Texts.{◌==◌, concat}
use wifigo.Base.Outcome.{Outcome, ok, err}
use wifigo.Jwt.{
  MyCustomClaims, JwtClaims, JwtParameters, Library, validate_access_jwt, validate_refresh_jwt,
}
use wifigo.Base.Words.{contains, split_blank, trim_space}

-- `body` is the field `refreshJWT` of the body, or the error of `ShouldBindJSON`.
pub record Request : Type 0 where
  pub access_cookie : Option String
  pub refresh_cookie : Option String
  pub authorization : String
  pub body : Outcome String

-- The keys of the context; a key that is not set reads as the empty text or as 0.
pub record Context : Type 0 where
  pub custom : MyCustomClaims
  pub exp_access : ℕ
  pub iat_access : ℕ
  pub jti_access : String
  pub exp_refresh : ℕ
  pub iat_refresh : ℕ
  pub jti_refresh : String
  pub iss : String
  pub sub : String
  pub aud : List String

-- What a filter does: it goes on, answers and aborts, or panics on a nil pointer.
pub data Passage : Type 0 where
  next : Context → Passage
  abort : ℕ → String → Passage
  panicked : Passage

unfoldable pub then_filter : Passage → (Context → Passage) → Passage
then_filter (next x) f = f x
then_filter (abort status message) f = abort status message
then_filter panicked f = panicked

-- The second of the words of the Authorization header.
unfoldable pub second : List String → Option String
second (_ ∷ w ∷ _) = some w
second _ = none

-- The second of the words, or the third where there are exactly three.
unfoldable pub last_token : List String → Option String
last_token (_ ∷ _ ∷ w ∷ []) = some w
last_token words = second words

abbrev pub is_bearer : String → Bool
is_bearer header = not (header == "") && contains header "Bearer"

unfoldable pub access_text : Request → Option String
access_text r = elim r.access_cookie [
  | some t ↦ some t
  | none ↦ if is_bearer r.authorization then second (split_blank r.authorization) else none
]

unfoldable pub refresh_text : Request → Outcome String
refresh_text r = elim r.refresh_cookie [
  | some t ↦ ok t
  | none ↦
      if is_bearer r.authorization
      then elim (last_token (split_blank r.authorization)) [
        | some t ↦ ok t
        | none ↦ err "token missing"
      ]
      else elim r.body [ ok t ↦ ok (trim_space t) | err why ↦ err why ]
]

-- The calls of `c.Set`, on the pointers `ExpiresAt` and `IssuedAt`.
unfoldable pub set_access : Option ℕ → Option ℕ → JwtClaims → Context → Passage
set_access (some exp) (some iat) c x = next (record {
  custom = c.custom;
  exp_access = exp;
  iat_access = iat;
  jti_access = c.id;
  exp_refresh = x.exp_refresh;
  iat_refresh = x.iat_refresh;
  jti_refresh = x.jti_refresh;
  iss = c.issuer;
  sub = c.subject;
  aud = c.audience;
})
set_access _ _ c x = panicked

unfoldable pub set_refresh : Option ℕ → Option ℕ → JwtClaims → Context → Passage
set_refresh (some exp) (some iat) c x = next (record {
  custom = c.custom;
  exp_access = x.exp_access;
  iat_access = x.iat_access;
  jti_access = x.jti_access;
  exp_refresh = exp;
  iat_refresh = iat;
  jti_refresh = c.id;
  iss = c.issuer;
  sub = c.subject;
  aud = c.audience;
})
set_refresh _ _ c x = panicked

module _ (lib : Library) (p : JwtParameters) (now : ℕ) (r : Request) where
  -- `JWT`
  unfoldable pub jwt : Context → Passage
  jwt x = elim (access_text r) [
    | none ↦ abort 401 "token missing"
    | some text ↦ elim (lib.parse_with_claims text (validate_access_jwt lib p) now) [
      | err why ↦ abort 401 why
      | ok tok ↦ set_access tok.claims.expires_at tok.claims.issued_at tok.claims x
    ]
  ]

  -- `RefreshJWT`
  unfoldable pub refresh_jwt : Context → Passage
  refresh_jwt x = elim (refresh_text r) [
    | err why ↦ abort 401 why
    | ok text ↦ elim (lib.parse_with_claims text (validate_refresh_jwt lib p) now) [
      | err why ↦ abort 401 why
      | ok tok ↦ set_refresh tok.claims.expires_at tok.claims.issued_at tok.claims x
    ]
  ]

-- The settings that the blacklist reads, and Redis' answer to EXISTS.
pub record Blacklist : Type 0 where
  pub is_jwt : Bool
  pub is_redis : Bool
  pub invalidate_jwt : Bool
  pub exists_key : String → Outcome ℕ

unfoldable pub is_token_allowed : Blacklist → String → Bool
is_token_allowed b jti =
    if not b.is_jwt
    then true
    else if not b.is_redis
    then true
    else if not b.invalidate_jwt
    then true
    else elim (b.exists_key (concat "gorest-blacklist-jti:" jti)) [ ok n ↦ eqb n 0 | err _ ↦ false ]

-- The identifier that `JWTBlacklistChecker` asks for.
unfoldable pub asked_jti : Context → String
asked_jti x =
    if not (trim_space x.jti_access == "")
    then trim_space x.jti_access
    else trim_space x.jti_refresh

unfoldable pub jwt_blacklist_checker : Blacklist → Context → Passage
jwt_blacklist_checker b x =
    if is_token_allowed b (asked_jti x) then next x else abort 401 "invalid token"

-- `TwoFA(keywordOn, keywordOff, keywordVerified)`
unfoldable pub two_fa : String → String → String → Context → Passage
two_fa on off verified x =
    let status = x.custom.two_fa in
    if status == ""
    then next x
    else if status == off
    then next x
    else if status == on
    then abort 401 "2-fa: required valid OTP"
    else if status == verified
    then next x
    else abort 401 "2-fa: status unknown"
