-- ===== src/Jwt/Keys.antt =====
-- The keys by which `GetJWT` signs and by which the filters verify.
use wifigo.Base.{ℕ, String, Bool, true, false, ◌≡◌, ◌≢◌, refl, sym, ◌∙◌, ◌+◌, ◌*◌, ◌<◌, ◌≤◌, arith}
use wifigo.Base.Texts.{◌==◌, test_self}
use wifigo.Base.Outcome.{Outcome, ok, err}
use wifigo.Jwt.{
  MyCustomClaims, JwtClaims, Key, secret, private_ecdsa, public_ecdsa, private_rsa, public_rsa,
  no_key, JwtParameters, Kind, hmac, ecdsa, rsa, other, Token, Library, family,
  validate_hmac_access, validate_hmac_refresh, validate_ecdsa, validate_rsa, validate_access_jwt,
  validate_refresh_jwt, claims_at, sign, with_id, get_jwt, current, verifies, IsJwt,
}

-- The keys that sign and verify, by the family of the algorithm.
abbrev pub signing_key : JwtParameters → Kind → String → Key
signing_key p hmac key = secret key
signing_key p ecdsa key = private_ecdsa p.priv_key_ecdsa
signing_key p rsa key = private_rsa p.priv_key_rsa
signing_key p other key = no_key

abbrev pub verifying_key : JwtParameters → Kind → String → Key
verifying_key p hmac key = secret key
verifying_key p ecdsa key = public_ecdsa p.pub_key_ecdsa
verifying_key p rsa key = public_rsa p.pub_key_rsa
verifying_key p other key = no_key

-- The configured keys are pairs.
pub record IsPaired (lib : Library) (p : JwtParameters) : Type 0 where
  pub ecdsa_pair : lib.is_pair p.priv_key_ecdsa p.pub_key_ecdsa ≡ true
  pub rsa_pair : lib.is_pair p.priv_key_rsa p.pub_key_rsa ≡ true

module _ (lib : Library) (p : JwtParameters) where
  abbrev pub issued : JwtClaims → Token
  issued claims = record { alg = p.algorithm; claims = claims }

  sign_known :
      (key : String) (claims : JwtClaims) (k : Kind)
      → family p.algorithm ≡ k
      → k ≢ other
      → sign lib p key claims ≡ lib.signed_string p.algorithm claims (signing_key p k key)
  unfolding sign
  sign_known key claims hmac e n = rw (sign, e) refl
  sign_known key claims ecdsa e n = rw (sign, e) refl
  sign_known key claims rsa e n = rw (sign, e) refl
  sign_known key claims other e n = absurd (n refl)

  access_key_known :
      (claims : JwtClaims) (k : Kind)
      → family p.algorithm ≡ k
      → lib.method p.algorithm ≡ k
      → k ≢ other
      → validate_access_jwt lib p (issued claims) ≡ ok (verifying_key p k p.access_key)
  unfolding validate_access_jwt validate_hmac_access validate_ecdsa validate_rsa
  access_key_known claims hmac e m n = rw (validate_access_jwt, e, validate_hmac_access, m) refl
  access_key_known claims ecdsa e m n = rw (validate_access_jwt, e, validate_ecdsa, m) refl
  access_key_known claims rsa e m n = rw (validate_access_jwt, e, validate_rsa, m) refl
  access_key_known claims other e m n = absurd (n refl)

  refresh_key_known :
      (claims : JwtClaims) (k : Kind)
      → family p.algorithm ≡ k
      → lib.method p.algorithm ≡ k
      → k ≢ other
      → validate_refresh_jwt lib p (issued claims) ≡ ok (verifying_key p k p.refresh_key)
  unfolding validate_refresh_jwt validate_hmac_refresh validate_ecdsa validate_rsa
  refresh_key_known claims hmac e m n = rw (validate_refresh_jwt, e, validate_hmac_refresh, m) refl
  refresh_key_known claims ecdsa e m n = rw (validate_refresh_jwt, e, validate_ecdsa, m) refl
  refresh_key_known claims rsa e m n = rw (validate_refresh_jwt, e, validate_rsa, m) refl
  refresh_key_known claims other e m n = absurd (n refl)

-- The test that the keys of a family make: only the secrets of HMAC are compared.
abbrev pub agree : Kind → String → String → Bool
agree hmac a b = a == b
agree _ a b = true

pub agree_self : (k : Kind) (a : String) → agree k a a ≡ true
agree_self hmac a = test_self a
agree_self ecdsa a = refl
agree_self rsa a = refl
agree_self other a = refl

pub agree_pair : (k : Kind) (a b : String) → k ≢ hmac → agree k a b ≡ true
agree_pair hmac a b n = absurd (n refl)
agree_pair ecdsa a b n = refl
agree_pair rsa a b n = refl
agree_pair other a b n = refl

verifies_known :
    {lib : Library} {p : JwtParameters}
    → IsPaired lib p
    → (a b : String) (k : Kind) → k ≢ other
    → verifies lib.is_pair (signing_key p k a) (verifying_key p k b) ≡ agree k a b
unfolding verifies
verifies_known paired a b hmac n = refl
verifies_known paired a b ecdsa n = paired.ecdsa_pair
verifies_known paired a b rsa n = paired.rsa_pair
verifies_known paired a b other n = absurd (n refl)

with_id-ok :
    (lib : Library) (p : JwtParameters) (id : String) (o : Outcome String) {text jti : String}
    → with_id lib p id o ≡ ok (text, jti)
    → (jti ≡ id) × (o ≡ ok text)
unfolding with_id
with_id-ok lib p id (ok a) h = (cc h, cc h)
with_id-ok lib p id (err why) h = absurd (cc h)

pub claims_at-current :
    (lib : Library) (p : JwtParameters) (now : ℕ) (id : String) (custom : MyCustomClaims)
    (ttl nbf later : ℕ)
    → now + nbf ≤ later
    → later < now + 60 * ttl
    → current (claims_at lib p now id custom ttl nbf) later ≡ true
unfolding current claims_at
claims_at-current lib p now id custom ttl nbf later from until = ground arith

module _ (lib : Library) (p : JwtParameters) (j : IsJwt lib) where
  -- An algorithm without a key signs nothing.
  pub sign-known :
      (key : String) (claims : JwtClaims) {text : String}
      → sign lib p key claims ≡ ok text
      → family p.algorithm ≢ other
  unfolding sign
  sign-known key claims h e = let (why, r) = j.nil_key "HS256" claims in cc (r, rw (sign, e) at h)

  -- What parsing makes of a signed token, with the key `b` where `a` has signed.
  parse_signed :
      (paired : IsPaired lib p) (f : Token → Outcome Key) (a b : String) (claims : JwtClaims)
      (k : Kind) (n : k ≢ other) (now : ℕ) {text : String}
      → lib.signed_string p.algorithm claims (signing_key p k a) ≡ ok text
      → f (issued lib p claims) ≡ ok (verifying_key p k b)
      → agree k a b ≡ true
      → current claims now ≡ true
      → lib.parse_with_claims text f now ≡ ok (issued lib p claims)
  parse_signed paired f a b claims k n now h v same c =
      j.accepts p.algorithm _ claims (signing_key p k a) (verifying_key p k b) f now h v
        (verifies_known paired a b k n ∙ same) c

  parse_refused :
      (f : Token → Outcome Key) (a b : String) (claims : JwtClaims) (now : ℕ) {text : String}
      → lib.signed_string p.algorithm claims (secret a) ≡ ok text
      → f (issued lib p claims) ≡ ok (secret b)
      → (a == b) ≡ false
      → (why : String) × (lib.parse_with_claims text f now ≡ err why)
  unfolding verifies
  parse_refused f a b claims now h v differ =
      j.refuses p.algorithm _ claims (secret a) (secret b) f now h v differ

  module _ (paired : IsPaired lib p) (claims : JwtClaims) (now : ℕ) {text : String} where
    pub access_parsed :
        (a : String)
        → sign lib p a claims ≡ ok text
        → agree (family p.algorithm) a p.access_key ≡ true
        → current claims now ≡ true
        → lib.parse_with_claims text (validate_access_jwt lib p) now ≡ ok (issued lib p claims)
    access_parsed a h same c =
        let n = sign-known a claims h in
        parse_signed paired (validate_access_jwt lib p) a p.access_key claims (family p.algorithm) n
          now (sym (sign_known lib p a claims (family p.algorithm) refl n) ∙ h)
          (access_key_known lib p claims (family p.algorithm) refl (j.methods p.algorithm n) n) same
          c

    pub refresh_parsed :
        (a : String)
        → sign lib p a claims ≡ ok text
        → agree (family p.algorithm) a p.refresh_key ≡ true
        → current claims now ≡ true
        → lib.parse_with_claims text (validate_refresh_jwt lib p) now ≡ ok (issued lib p claims)
    refresh_parsed a h same c =
        let n = sign-known a claims h in
        parse_signed paired (validate_refresh_jwt lib p) a p.refresh_key claims (family p.algorithm)
          n now (sym (sign_known lib p a claims (family p.algorithm) refl n) ∙ h)
          (refresh_key_known lib p claims (family p.algorithm) refl (j.methods p.algorithm n) n)
          same c

  module _ (claims : JwtClaims) (now : ℕ) {text : String} where
    pub access_refused :
        (a : String)
        → sign lib p a claims ≡ ok text
        → family p.algorithm ≡ hmac
        → (a == p.access_key) ≡ false
        → (why : String) × (lib.parse_with_claims text (validate_access_jwt lib p) now ≡ err why)
    access_refused a h e differ =
        let n = sign-known a claims h in
        parse_refused (validate_access_jwt lib p) a p.access_key claims now
          (sym (sign_known lib p a claims hmac e (rw e at n)) ∙ h)
          (access_key_known lib p claims hmac e (j.methods p.algorithm n ∙ e) (rw e at n)) differ

    pub refresh_refused :
        (a : String)
        → sign lib p a claims ≡ ok text
        → family p.algorithm ≡ hmac
        → (a == p.refresh_key) ≡ false
        → (why : String) × (lib.parse_with_claims text (validate_refresh_jwt lib p) now ≡ err why)
    refresh_refused a h e differ =
        let n = sign-known a claims h in
        parse_refused (validate_refresh_jwt lib p) a p.refresh_key claims now
          (sym (sign_known lib p a claims hmac e (rw e at n)) ∙ h)
          (refresh_key_known lib p claims hmac e (j.methods p.algorithm n ∙ e) (rw e at n)) differ

  pub access_get :
      (now : ℕ) (id : String) (custom : MyCustomClaims) {text jti : String}
      → get_jwt lib p now id custom "access" ≡ ok (text, jti)
      → (jti ≡ id)
        × (sign lib p p.access_key (claims_at lib p now id custom p.access_key_ttl p.acc_nbf)
            ≡ ok text)
  unfolding get_jwt ◌==◌
  access_get now id custom h = with_id-ok lib p id _ h

  pub refresh_get :
      (now : ℕ) (id : String) (custom : MyCustomClaims) {text jti : String}
      → get_jwt lib p now id custom "refresh" ≡ ok (text, jti)
      → (jti ≡ id)
        × (sign lib p p.refresh_key (claims_at lib p now id custom p.refresh_key_ttl p.ref_nbf)
            ≡ ok text)
  unfolding get_jwt ◌==◌
  refresh_get now id custom h = with_id-ok lib p id _ h
