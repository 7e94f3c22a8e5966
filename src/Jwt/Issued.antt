-- ===== src/Jwt/Issued.antt =====
-- The tokens that `GetJWT` issues, before the filters that read them.
use wifigo.Base.{ℕ, String, ◌≡◌, ◌≢◌, refl, sym, ◌+◌, ◌*◌, ◌<◌, ◌≤◌, some}
use wifigo.Base.Texts.{test_ne}
use wifigo.Base.Outcome.{ok, err}
use wifigo.Jwt.{
  MyCustomClaims, JwtClaims, JwtParameters, hmac, Library, family, validate_access_jwt,
  validate_refresh_jwt, claims_at, get_jwt, IsJwt,
}
use wifigo.Jwt.Keys.{
  IsPaired, issued, agree_self, agree_pair, claims_at-current, access_parsed, refresh_parsed,
  access_refused, refresh_refused, access_get, refresh_get,
}
use wifigo.Jwt.Filters.{
  Request, Context, next, abort, access_text, refresh_text, set_access, set_refresh, jwt,
  refresh_jwt,
}

module _ (lib : Library) (p : JwtParameters) (now : ℕ) (r : Request) (x : Context) where
  jwt_parsed :
      {text : String} {claims : JwtClaims}
      → access_text r ≡ some text
      → lib.parse_with_claims text (validate_access_jwt lib p) now ≡ ok (issued lib p claims)
      → jwt lib p now r x ≡ set_access claims.expires_at claims.issued_at claims x
  unfolding jwt
  jwt_parsed t h = rw (jwt, t, h) refl

  jwt_refused :
      {text why : String}
      → access_text r ≡ some text
      → lib.parse_with_claims text (validate_access_jwt lib p) now ≡ err why
      → jwt lib p now r x ≡ abort 401 why
  unfolding jwt
  jwt_refused t h = rw (jwt, t, h) refl

  refresh_jwt_parsed :
      {text : String} {claims : JwtClaims}
      → refresh_text r ≡ ok text
      → lib.parse_with_claims text (validate_refresh_jwt lib p) now ≡ ok (issued lib p claims)
      → refresh_jwt lib p now r x ≡ set_refresh claims.expires_at claims.issued_at claims x
  unfolding refresh_jwt
  refresh_jwt_parsed t h = rw (refresh_jwt, t, h) refl

  refresh_jwt_refused :
      {text why : String}
      → refresh_text r ≡ ok text
      → lib.parse_with_claims text (validate_refresh_jwt lib p) now ≡ err why
      → refresh_jwt lib p now r x ≡ abort 401 why
  unfolding refresh_jwt
  refresh_jwt_refused t h = rw (refresh_jwt, t, h) refl

-- A context after the filter of access tokens.
pub record IsAccess (custom : MyCustomClaims) (jti : String) (exp : ℕ) (x y : Context)
    : Type 0 where
  pub custom_same : y.custom ≡ custom
  pub jti_same : y.jti_access ≡ jti
  pub exp_same : y.exp_access ≡ exp
  pub jti_refresh_same : y.jti_refresh ≡ x.jti_refresh

-- A context after the filter of refresh tokens.
pub record IsRefresh (custom : MyCustomClaims) (jti : String) (exp : ℕ) (x y : Context)
    : Type 0 where
  pub custom_same : y.custom ≡ custom
  pub jti_same : y.jti_refresh ≡ jti
  pub exp_same : y.exp_refresh ≡ exp
  pub jti_access_same : y.jti_access ≡ x.jti_access

module _ (lib : Library) (p : JwtParameters) (j : IsJwt lib) where
  -- An access token that is issued passes the filter of access tokens, where the keys of
  -- a pair belong together, from its delay on and until its lifetime is over: the context then has
  -- exactly the claims that were signed, the identifier that was returned with the token, and the
  -- time of its end.
  pub jwt-get_jwt :
      (paired : IsPaired lib p) (now later : ℕ) (id text jti : String) (custom : MyCustomClaims)
      (r : Request) (x : Context)
      → get_jwt lib p now id custom "access" ≡ ok (text, jti)
      → access_text r ≡ some text
      → now + p.acc_nbf ≤ later
      → later < now + 60 * p.access_key_ttl
      → (y : Context) × (jwt lib p later r x ≡ next y)
        × IsAccess custom jti (now + 60 * p.access_key_ttl) x y
  unfolding set_access claims_at
  jwt-get_jwt paired now later id text jti custom r x h t from until =
      let (same, signed) = access_get lib p j now id custom h in
      (
        _,
        jwt_parsed lib p later r x t (
            access_parsed lib p j paired _ later p.access_key signed
              (agree_self (family p.algorithm) p.access_key)
              (claims_at-current lib p now id custom p.access_key_ttl p.acc_nbf later from until)),
        record {
          custom_same = refl;
          jti_same = sym same;
          exp_same = refl;
          jti_refresh_same = refl;
        },
      )

  -- Under an HMAC algorithm with two different keys the two kinds of token are not
  -- interchangeable, at any time: the filter of access tokens answers 401 to an issued refresh
  -- token, and the filter of refresh tokens answers 401 to an issued access token.
  pub tokens-apart :
      (now then_now later : ℕ) (id id_r access jti refresh jti_r : String)
      (custom custom_r : MyCustomClaims) (r r_r : Request) (x : Context)
      → family p.algorithm ≡ hmac
      → p.access_key ≢ p.refresh_key
      → get_jwt lib p now id custom "access" ≡ ok (access, jti)
      → get_jwt lib p then_now id_r custom_r "refresh" ≡ ok (refresh, jti_r)
      → access_text r ≡ some refresh
      → refresh_text r_r ≡ ok access
      → ((why : String) × (jwt lib p later r x ≡ abort 401 why))
        × ((why : String) × (refresh_jwt lib p later r_r x ≡ abort 401 why))
  tokens-apart now then_now later id id_r access jti refresh jti_r custom custom_r r r_r x e differ
        h h_r t t_r =
      let (why, refused) =
        access_refused lib p j _ later p.refresh_key
          (refresh_get lib p j then_now id_r custom_r h_r).1 e
          (test_ne p.refresh_key p.access_key (λ same. differ (sym same))) in
      let (why_r, refused_r) =
        refresh_refused lib p j _ later p.access_key (access_get lib p j now id custom h).1 e
          (test_ne p.access_key p.refresh_key differ) in
      (
        (why, jwt_refused lib p later r x t refused),
        (why_r, refresh_jwt_refused lib p later r_r x t_r refused_r),
      )

  -- Under an ECDSA or RSA algorithm an issued access token passes the filter of refresh tokens
  -- as well, from its delay on and until its own lifetime is over: one pair of keys signs both.
  pub access-Refreshes :
      (paired : IsPaired lib p) (now later : ℕ) (id text jti : String) (custom : MyCustomClaims)
      (r : Request) (x : Context)
      → family p.algorithm ≢ hmac
      → get_jwt lib p now id custom "access" ≡ ok (text, jti)
      → refresh_text r ≡ ok text
      → now + p.acc_nbf ≤ later
      → later < now + 60 * p.access_key_ttl
      → (y : Context) × (refresh_jwt lib p later r x ≡ next y)
        × IsRefresh custom jti (now + 60 * p.access_key_ttl) x y
  unfolding set_refresh claims_at
  access-Refreshes paired now later id text jti custom r x asymmetric h t from until =
      let (same, signed) = access_get lib p j now id custom h in
      (
        _,
        refresh_jwt_parsed lib p later r x t (
            refresh_parsed lib p j paired _ later p.access_key signed
              (agree_pair (family p.algorithm) p.access_key p.refresh_key asymmetric)
              (claims_at-current lib p now id custom p.access_key_ttl p.acc_nbf later from until)),
        record { custom_same = refl; jti_same = sym same; exp_same = refl; jti_access_same = refl },
      )

  -- An issued refresh token passes the filter of refresh tokens, with the same bounds.
  refresh_jwt-get_jwt :
      (paired : IsPaired lib p) (now later : ℕ) (id text jti : String) (custom : MyCustomClaims)
      (r : Request) (x : Context)
      → get_jwt lib p now id custom "refresh" ≡ ok (text, jti)
      → refresh_text r ≡ ok text
      → now + p.ref_nbf ≤ later
      → later < now + 60 * p.refresh_key_ttl
      → (y : Context) × (refresh_jwt lib p later r x ≡ next y)
        × IsRefresh custom jti (now + 60 * p.refresh_key_ttl) x y
  unfolding set_refresh claims_at
  refresh_jwt-get_jwt paired now later id text jti custom r x h t from until =
      let (same, signed) = refresh_get lib p j now id custom h in
      (
        _,
        refresh_jwt_parsed lib p later r x t (
            refresh_parsed lib p j paired _ later p.refresh_key signed
              (agree_self (family p.algorithm) p.refresh_key)
              (claims_at-current lib p now id custom p.refresh_key_ttl p.ref_nbf later from until)),
        record { custom_same = refl; jti_same = sym same; exp_same = refl; jti_access_same = refl },
      )
