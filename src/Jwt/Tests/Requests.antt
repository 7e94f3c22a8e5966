-- ===== src/Jwt/Tests/Requests.antt =====
-- Witnesses for the chains of filters and for the logout.
use wifigo.Base.{String, true, false, ◌≡◌, ◌≢◌, ◌↔◌, refl, ◌⊎◌, none, some, [], ◌∷◌, if◌then◌else◌}
use wifigo.Base.Texts.{◌==◌, test_of_eq}
use wifigo.Base.Outcome.{ok, err}
use wifigo.Jwt.{
  Token, validate_access_jwt, validate_refresh_jwt, validate_hmac_access, validate_hmac_refresh,
  family, verifies, current,
}
use wifigo.Base.Words.{trim_space, has_blank, trim_left, trim_right, keep}
use wifigo.Jwt.Filters.{
  Request, Context, next, access_text, refresh_text, set_access, set_refresh, jwt, refresh_jwt,
  Blacklist, is_token_allowed, asked_jti, jwt_blacklist_checker, two_fa, then_filter,
}
use wifigo.Jwt.Routes.{
  auth_middleware, refresh_middleware, auth_middleware-next, refresh_middleware-next, bearer-tokens,
}
use wifigo.Jwt.Logout.{logout}
use wifigo.Jwt.Tests.{user, parameters, shared, request, fresh}
use wifigo.Jwt.Tests.Store.{Store, redis}

abbrev no_blacklist : Blacklist
no_blacklist = record {
  is_jwt = true;
  is_redis = false;
  invalidate_jwt = false;
  exists_key = λ key. err "no redis";
}

abbrev after_access : Context
after_access = record {
  custom = user;
  exp_access = 1900;
  iat_access = 1000;
  jti_access = "id-1";
  exp_refresh = 0;
  iat_refresh = 0;
  jti_refresh = "";
  iss = "portal";
  sub = "login";
  aud = "wifi" ∷ [];
}

abbrev after_both : Context
after_both = record {
  custom = user;
  exp_access = 1900;
  iat_access = 1000;
  jti_access = "id-1";
  exp_refresh = 4600;
  iat_refresh = 1000;
  jti_refresh = "id-2";
  iss = "portal";
  sub = "login";
  aud = "wifi" ∷ [];
}

abbrev both : Request
both = request (some "first") (some "second")

-- Here the status "on" of the token is the word that is configured for "verified".
auth_middleware-next_example :
    (text : String) × (tok : Token) × (access_text both ≡ some text)
    × (shared.parse_with_claims text (validate_access_jwt shared (parameters "HS256")) 1100
        ≡ ok tok)
    × (after_access.custom ≡ tok.claims.custom)
    × (after_access.jti_access ≡ tok.claims.id)
    × (is_token_allowed no_blacklist (asked_jti after_access) ≡ true)
    × ((after_access.custom.two_fa ≡ "")
        ⊎ (after_access.custom.two_fa ≡ "off")
        ⊎ (after_access.custom.two_fa ≡ "on"))
unfolding auth_middleware then_filter jwt access_text ◌==◌ validate_access_jwt family
    validate_hmac_access verifies current set_access jwt_blacklist_checker is_token_allowed two_fa
auth_middleware-next_example =
    auth_middleware-next shared (parameters "HS256") 1100 no_blacklist "pending" "off" "on" both
      fresh after_access refl

abbrev refused_refresh : Blacklist
refused_refresh = record {
  is_jwt = true;
  is_redis = true;
  invalidate_jwt = true;
  exists_key = λ key. ok (if key == "gorest-blacklist-jti:id-2" then 1 else 0);
}

not_blank : trim_space "id-1" ≢ ""
unfolding ◌==◌ trim_left trim_right keep
not_blank e = cc (test_of_eq (trim_space "id-1") "" e)

refresh_middleware-next_example :
    (refresh_middleware shared (parameters "HS256") 1100 refused_refresh both fresh
      ≡ next after_both)
    ↔ (is_token_allowed refused_refresh (trim_space "id-1") ≡ true)
unfolding jwt access_text ◌==◌ validate_access_jwt family validate_hmac_access verifies current
    set_access refresh_jwt refresh_text validate_refresh_jwt validate_hmac_refresh set_refresh
refresh_middleware-next_example =
    refresh_middleware-next shared (parameters "HS256") 1100 refused_refresh both fresh after_access
      after_both refl refl not_blank

abbrev header : Request
header = record {
  access_cookie = none;
  refresh_cookie = none;
  authorization = "Bearer first second";
  body = err "no body";
}

bearer-tokens_example : (access_text header ≡ some "first") × (refresh_text header ≡ ok "second")
unfolding has_blank
bearer-tokens_example = bearer-tokens "first" "second" header refl refl refl refl refl

abbrev logged_out : Store
logged_out = (logout redis true "id-1" "id-2" 1900 4600 []).1
