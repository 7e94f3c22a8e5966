-- ===== src/Jwt/Routes.antt =====
-- The chains of filters that server/router/router.go puts before the handlers.
use wifigo.Base.{
  ℕ, String, Bool, true, false, ◌≡◌, ◌≢◌, refl, sym, ap, subst, ◌∙◌, ◌↔◌, ◌⊎◌, inl, inr, Option,
  none, some, List, ◌∷◌, if◌then◌else◌, Bool-cases, Option-cases,
}
use wifigo.Base.Texts.{◌==◌, concat, eq_of_test, test_ne, text-cases}
use wifigo.Base.Outcome.{ok, Outcome-cases}
use wifigo.Jwt.{JwtClaims, JwtParameters, Token, Library, validate_access_jwt, validate_refresh_jwt}
use wifigo.Base.Words.{
  contains, split_blank, trim_space, has_blank, has_prefix, contains_bearer, split_one, split_two,
}
use wifigo.Jwt.Filters.{
  Request, Context, Passage, next, abort, panicked, then_filter, is_bearer, access_text,
  refresh_text, last_token, second, set_access, set_refresh, jwt, refresh_jwt, Blacklist,
  is_token_allowed, asked_jti, jwt_blacklist_checker, two_fa,
}

-- `createAuthMiddleware`, with 2-FA on or not.
unfoldable pub auth_middleware :
    Library
    → JwtParameters
    → ℕ
    → Blacklist
    → Bool
    → String
    → String
    → String
    → Request
    → Context
    → Passage
auth_middleware lib p now b is_2fa on off verified r x =
    then_filter (then_filter (jwt lib p now r x) (jwt_blacklist_checker b))
      (λ y. if is_2fa then two_fa on off verified y else next y)

-- The filters of the groups "logout" and "refresh".
unfoldable pub refresh_middleware :
    Library → JwtParameters → ℕ → Blacklist → Request → Context → Passage
refresh_middleware lib p now b r x =
    then_filter (then_filter (jwt lib p now r x) (refresh_jwt lib p now r))
      (jwt_blacklist_checker b)

then_filter-next :
    (m : Passage) (f : Context → Passage) {y : Context}
    → then_filter m f ≡ next y
    → (x : Context) × (m ≡ next x) × (f x ≡ next y)
unfolding then_filter
then_filter-next (next x) f h = (x, refl, h)
then_filter-next (abort s m) f h = absurd (cc h)
then_filter-next panicked f h = absurd (cc h)

two_fa-next :
    (on off verified : String) (x : Context) {y : Context}
    → two_fa on off verified x ≡ next y
    → (x ≡ y) × ((x.custom.two_fa ≡ "") ⊎ (x.custom.two_fa ≡ off) ⊎ (x.custom.two_fa ≡ verified))
unfolding two_fa
two_fa-next on off verified x h = elim (Bool-cases (x.custom.two_fa == "")) [
  | inl e ↦ (cc (rw (two_fa, e) at h), inl (eq_of_test x.custom.two_fa "" e))
  | inr e ↦ elim (Bool-cases (x.custom.two_fa == off)) [
    | inl o ↦ (cc (rw (two_fa, e, o) at h), inr (inl (eq_of_test x.custom.two_fa off o)))
    | inr o ↦ elim (Bool-cases (x.custom.two_fa == on)) [
      | inl n ↦ absurd (cc (rw (two_fa, e, o, n) at h))
      | inr n ↦ elim (Bool-cases (x.custom.two_fa == verified)) [
        | inl v ↦
            (cc (rw (two_fa, e, o, n, v) at h), inr (inr (eq_of_test x.custom.two_fa verified v)))
        | inr v ↦ absurd (cc (rw (two_fa, e, o, n, v) at h))
      ]
    ]
  ]
]

checker-next :
    (b : Blacklist) (x : Context) {y : Context}
    → jwt_blacklist_checker b x ≡ next y
    → (x ≡ y) × (is_token_allowed b (asked_jti x) ≡ true)
unfolding jwt_blacklist_checker
checker-next b x h = elim (Bool-cases (is_token_allowed b (asked_jti x))) [
  | inl e ↦ (cc (rw (jwt_blacklist_checker, e) at h), e)
  | inr e ↦ absurd (cc (rw (jwt_blacklist_checker, e) at h))
]

-- The context of a passage, or the one given.
abbrev passed : Context → Passage → Context
passed x (next y) = y
passed x _ = x

set_access-next :
    (exp iat : Option ℕ) (c : JwtClaims) (x : Context) {y : Context}
    → set_access exp iat c x ≡ next y
    → (y.custom ≡ c.custom) × (y.jti_access ≡ c.id)
unfolding set_access
set_access-next none iat c x h = absurd (cc h)
set_access-next (some exp) none c x h = absurd (cc h)
set_access-next (some exp) (some iat) c x {y} h =
    (sym (ap (λ m. (passed y m).custom) h), sym (ap (λ m. (passed y m).jti_access) h))

jwt-next :
    (lib : Library) (p : JwtParameters) (now : ℕ) (r : Request) (x : Context) {y : Context}
    → jwt lib p now r x ≡ next y
    → (text : String) × (tok : Token) × (access_text r ≡ some text)
      × (lib.parse_with_claims text (validate_access_jwt lib p) now ≡ ok tok)
      × (y.custom ≡ tok.claims.custom)
      × (y.jti_access ≡ tok.claims.id)
unfolding jwt
jwt-next lib p now r x h = elim (Option-cases (access_text r)) [
  | inl e ↦ absurd (cc (rw (jwt, e) at h))
  | inr (text, e) ↦
      elim (Outcome-cases (lib.parse_with_claims text (validate_access_jwt lib p) now)) [
        | inr (why, o) ↦ absurd (cc (rw (jwt, e, o) at h))
        | inl (tok, o) ↦
            let (same, jti) =
              set_access-next tok.claims.expires_at tok.claims.issued_at tok.claims x
                (rw (jwt, e, o) at h) in
            (text, tok, e, o, same, jti)
      ]
]

-- A request that gets past the filters of a protected route, where 2-FA is in use, has an access
-- token that parses under the access key and whose identifier the blacklist allows, and the 2-FA
-- status of that token is empty, the one for "off" or the one for "verified". The claims that the
-- handler sees are those of the token.
pub auth_middleware-next :
    (lib : Library) (p : JwtParameters) (now : ℕ) (b : Blacklist) (on off verified : String)
    (r : Request) (x y : Context)
    → auth_middleware lib p now b true on off verified r x ≡ next y
    → (text : String) × (tok : Token) × (access_text r ≡ some text)
      × (lib.parse_with_claims text (validate_access_jwt lib p) now ≡ ok tok)
      × (y.custom ≡ tok.claims.custom)
      × (y.jti_access ≡ tok.claims.id)
      × (is_token_allowed b (asked_jti y) ≡ true)
      × ((y.custom.two_fa ≡ "") ⊎ (y.custom.two_fa ≡ off) ⊎ (y.custom.two_fa ≡ verified))
unfolding auth_middleware
auth_middleware-next lib p now b on off verified r x y h =
    let (u, checked, two) =
      then_filter-next (then_filter (jwt lib p now r x) (jwt_blacklist_checker b))
        (two_fa on off verified) h in
    let (same_u, status) = two_fa-next on off verified u two in
    let (v, passed_v, check) =
      then_filter-next (jwt lib p now r x) (jwt_blacklist_checker b) checked in
    let (same_v, allowed) = checker-next b v check in
    let (text, tok, e, o, same, jti) = jwt-next lib p now r x passed_v in
    let all = same_v ∙ same_u in
    (
      text,
      tok,
      e,
      o,
      subst (λ (w : Context). w.custom ≡ tok.claims.custom) all same,
      subst (λ (w : Context). w.jti_access ≡ tok.claims.id) all jti,
      subst (λ (w : Context). is_token_allowed b (asked_jti w) ≡ true) all allowed,
      subst
          (λ (w : Context).
            (w.custom.two_fa ≡ "") ⊎ (w.custom.two_fa ≡ off) ⊎ (w.custom.two_fa ≡ verified))
          same_u status,
    )

set_refresh-next :
    (exp iat : Option ℕ) (c : JwtClaims) (x : Context) {y : Context}
    → set_refresh exp iat c x ≡ next y
    → y.jti_access ≡ x.jti_access
unfolding set_refresh
set_refresh-next none iat c x h = absurd (cc h)
set_refresh-next (some exp) none c x h = absurd (cc h)
set_refresh-next (some exp) (some iat) c x {y} h = sym (ap (λ m. (passed y m).jti_access) h)

pub refresh_jwt-next :
    (lib : Library) (p : JwtParameters) (now : ℕ) (r : Request) (x : Context) {y : Context}
    → refresh_jwt lib p now r x ≡ next y
    → y.jti_access ≡ x.jti_access
unfolding refresh_jwt
refresh_jwt-next lib p now r x h = elim (Outcome-cases (refresh_text r)) [
  | inr (why, e) ↦ absurd (cc (rw (refresh_jwt, e) at h))
  | inl (text, e) ↦
      elim (Outcome-cases (lib.parse_with_claims text (validate_refresh_jwt lib p) now)) [
        | inr (why, o) ↦ absurd (cc (rw (refresh_jwt, e, o) at h))
        | inl (tok, o) ↦
            set_refresh-next tok.claims.expires_at tok.claims.issued_at tok.claims x
              (rw (refresh_jwt, e, o) at h)
      ]
]

pub refresh_middleware-checks :
    (lib : Library) (p : JwtParameters) (now : ℕ) (b : Blacklist) (r : Request) (x y z : Context)
    → jwt lib p now r x ≡ next y
    → refresh_jwt lib p now r y ≡ next z
    → refresh_middleware lib p now b r x ≡ jwt_blacklist_checker b z
unfolding refresh_middleware then_filter
refresh_middleware-checks lib p now b r x y z h g = rw (refresh_middleware, h, then_filter, g) refl

-- An access token's identifier that is not blank is the one that is asked for.
pub asked_access :
    (y z : Context)
    → z.jti_access ≡ y.jti_access
    → trim_space y.jti_access ≢ ""
    → asked_jti z ≡ trim_space y.jti_access
unfolding asked_jti
asked_access y z same n = rw (asked_jti, same, test_ne (trim_space y.jti_access) "" n) refl

allowed-next :
    (b : Blacklist) (z : Context)
    → is_token_allowed b (asked_jti z) ≡ true
    → jwt_blacklist_checker b z ≡ next z
unfolding jwt_blacklist_checker
allowed-next b z e = rw (jwt_blacklist_checker, e) refl

bearer_header : (s : String) → contains s "Bearer" ≡ true → is_bearer s ≡ true
unfolding contains has_prefix ◌==◌
bearer_header s h = elim (text-cases s "") [
  | inl (e, same) ↦ absurd (cc (rw same at h))
  | inr (e, differ) ↦ rw (e, h) refl
]

-- On the routes that take both tokens, the blacklist is asked for the identifier of the access
-- token only: a request whose two tokens are accepted passes if and only if that identifier is
-- allowed, whatever the blacklist says of the refresh token.
pub refresh_middleware-next :
    (lib : Library) (p : JwtParameters) (now : ℕ) (b : Blacklist) (r : Request) (x y z : Context)
    → jwt lib p now r x ≡ next y
    → refresh_jwt lib p now r y ≡ next z
    → trim_space y.jti_access ≢ ""
    → (refresh_middleware lib p now b r x ≡ next z)
      ↔ (is_token_allowed b (trim_space y.jti_access) ≡ true)
refresh_middleware-next lib p now b r x y z h g n =
    let checks = refresh_middleware-checks lib p now b r x y z h g in
    let asked = asked_access y z (refresh_jwt-next lib p now r y g) n in
    (
      λ passes. ap (is_token_allowed b) (sym asked) ∙ (checker-next b z (sym checks ∙ passes)).1,
      λ allowed. checks ∙ allowed-next b z (ap (is_token_allowed b) asked ∙ allowed),
    )

-- An Authorization header with "Bearer" and two tokens without blanks, in a request without
-- cookies, gives the filter of access tokens the first and the filter of refresh tokens the second.
pub bearer-tokens :
    (access refresh : String) (r : Request)
    → r.access_cookie ≡ none
    → r.refresh_cookie ≡ none
    → r.authorization ≡ concat "Bearer" (concat " " (concat access (concat " " refresh)))
    → has_blank access ≡ false
    → has_blank refresh ≡ false
    → (access_text r ≡ some access) × (refresh_text r ≡ ok refresh)
unfolding access_text refresh_text second last_token has_blank
bearer-tokens access refresh r no_access no_refresh header a b =
    let bearer = bearer_header r.authorization (
      ap (λ s. contains s "Bearer") header
      ∙ contains_bearer (concat " " (concat access (concat " " refresh)))) in
    let words =
      ap split_blank header
      ∙ split_two "Bearer" (concat access (concat " " refresh)) refl
      ∙ ap (λ (ws : List String). "Bearer" ∷ ws) (split_two access refresh a)
      ∙ ap (λ (ws : List String). "Bearer" ∷ access ∷ ws) (split_one refresh b) in
    (
      rw (access_text, no_access, bearer, words) refl,
      rw (refresh_text, no_refresh, bearer, words) refl,
    )
