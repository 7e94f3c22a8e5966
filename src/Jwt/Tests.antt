-- ===== src/Jwt/Tests.antt =====
-- Witnesses for the tokens and the filters.
pub mod Signer
mod Store
mod Requests
use wifigo.Base.{
  ℕ, String, Bool, true, false, ◌≡◌, ◌≢◌, refl, sym, ap, ◌+◌, ◌*◌, Option, none, some, List, [],
  ◌∷◌, arith, if◌then◌else◌,
}
use wifigo.Base.Texts.{◌==◌, concat, test_of_eq}
use wifigo.Base.Outcome.{Outcome, ok, err}
use wifigo.Jwt.{
  MyCustomClaims, JwtClaims, JwtParameters, Key, secret, private_ecdsa, Token, Library, family,
  hmac, ecdsa, get_jwt, claims_at, sign, with_id,
}
use wifigo.Jwt.Keys.{IsPaired}
use wifigo.Jwt.Issued.{jwt-get_jwt, tokens-apart, access-Refreshes, IsAccess, IsRefresh}
use wifigo.Jwt.Filters.{Request, Context, next, abort, access_text, refresh_text, jwt, refresh_jwt}
use wifigo.Jwt.Tests.Signer.{signer, signer-IsJwt}

abbrev pub user : MyCustomClaims
user = record {
  auth_id = 7;
  email = "";
  role = "";
  scope = "";
  two_fa = "on";
  site_lan = "";
  custom1 = "";
  custom2 = "";
}

abbrev pub parameters : String → JwtParameters
parameters alg = record {
  algorithm = alg;
  access_key = "access secret";
  access_key_ttl = 15;
  refresh_key = "refresh secret";
  refresh_key_ttl = 60;
  priv_key_ecdsa = "private";
  pub_key_ecdsa = "public";
  priv_key_rsa = "private";
  pub_key_rsa = "public";
  audience = "wifi";
  issuer = "portal";
  acc_nbf = 0;
  ref_nbf = 30;
  subject = "login";
}

abbrev pub access_claims : JwtClaims
access_claims = record {
  custom = user;
  expires_at = some 1900;
  id = "id-1";
  issued_at = some 1000;
  issuer = "portal";
  subject = "login";
  audience = "wifi" ∷ [];
  not_before = none;
}

abbrev refresh_claims : JwtClaims
refresh_claims = record {
  custom = user;
  expires_at = some 4600;
  id = "id-2";
  issued_at = some 1000;
  issuer = "portal";
  subject = "login";
  audience = "wifi" ∷ [];
  not_before = some 1030;
}

abbrev tokens : String → Key → Key → Library
tokens alg access refresh =
    signer (record { alg = alg; claims = access_claims }, access)
      (record { alg = alg; claims = refresh_claims }, refresh)

abbrev pub shared : Library
shared = tokens "HS256" (secret "access secret") (secret "refresh secret")

abbrev curves : Library
curves = tokens "ES256" (private_ecdsa "private") (private_ecdsa "private")

abbrev pub request : Option String → Option String → Request
request access refresh = record {
  access_cookie = access;
  refresh_cookie = refresh;
  authorization = "";
  body = err "no body";
}

abbrev pub fresh : Context
fresh = record {
  custom = user;
  exp_access = 0;
  iat_access = 0;
  jti_access = "";
  exp_refresh = 0;
  iat_refresh = 0;
  jti_refresh = "";
  iss = "";
  sub = "";
  aud = [];
}

shared_access : get_jwt shared (parameters "HS256") 1000 "id-1" user "access" ≡ ok ("first", "id-1")
unfolding get_jwt ◌==◌ with_id sign family claims_at
shared_access = refl

shared_refresh :
    get_jwt shared (parameters "HS256") 1000 "id-2" user "refresh" ≡ ok ("second", "id-2")
unfolding get_jwt ◌==◌ with_id sign family claims_at
shared_refresh = refl

curves_access : get_jwt curves (parameters "ES256") 1000 "id-1" user "access" ≡ ok ("first", "id-1")
unfolding get_jwt ◌==◌ with_id sign family claims_at
curves_access = refl

paired :
    (lib : Library) (alg : String)
    → lib.is_pair "private" "public" ≡ true
    → IsPaired lib (parameters alg)
paired lib alg h = record { ecdsa_pair = h; rsa_pair = h }

jwt-get_jwt_example :
    (y : Context) × (jwt shared (parameters "HS256") 1899 (request (some "first") none) fresh
      ≡ next y)
    × IsAccess user "id-1" 1900 fresh y
unfolding ◌==◌ access_text
jwt-get_jwt_example =
    jwt-get_jwt shared (parameters "HS256") (signer-IsJwt _ _) (paired shared "HS256" refl) 1000
      1899 "id-1" "first" "id-1" user (request (some "first") none) fresh shared_access refl
      (omega arith) (omega arith)

keys_differ : ◌≢◌ {A = String} "access secret" "refresh secret"
unfolding ◌==◌
keys_differ e = cc (test_of_eq "access secret" "refresh secret" e)

tokens-apart_example :
    ((why : String) × (jwt shared
          (parameters "HS256")
          1100
          (request (some "second") (some "first"))
          fresh
        ≡ abort 401 why))
    × ((why : String) × (refresh_jwt shared
            (parameters "HS256")
            1100
            (request (some "second") (some "first"))
            fresh
          ≡ abort 401 why))
unfolding family ◌==◌ access_text refresh_text
tokens-apart_example =
    tokens-apart shared (parameters "HS256") (signer-IsJwt _ _) 1000 1000 1100 "id-1" "id-2" "first"
      "id-1" "second" "id-2" user user (request (some "second") (some "first"))
      (request (some "second") (some "first")) fresh refl keys_differ shared_access shared_refresh
      refl refl

access-Refreshes_example :
    (y : Context) × (refresh_jwt curves
        (parameters "ES256")
        1100
        (request none (some "first"))
        fresh
      ≡ next y)
    × IsRefresh user "id-1" 1900 fresh y
unfolding family ◌==◌ refresh_text
access-Refreshes_example =
    access-Refreshes curves (parameters "ES256") (signer-IsJwt _ _) (paired curves "ES256" refl)
      1000 1100 "id-1" "first" "id-1" user (request none (some "first")) fresh (λ e. cc e)
      curves_access refl (omega arith) (omega arith)
