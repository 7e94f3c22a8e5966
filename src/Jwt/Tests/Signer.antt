-- ===== src/Jwt/Tests/Signer.antt =====
-- A small library of tokens: it signs two given tokens, each with its key, and parses their texts.
use wifigo.Base.{
  ℕ, zero, suc, String, Bool, true, false, ◌≡◌, refl, sym, ap, ◌∙◌, inl, inr, ◌&&◌, Option, none,
  some, List, [], ◌∷◌, eqb, if◌then◌else◌, Bool-cases, eqb_iff,
}
use wifigo.Base.Texts.{◌==◌, eq_of_test}
use wifigo.Base.Outcome.{Outcome, ok, err}
use wifigo.Jwt.{
  MyCustomClaims, JwtClaims, Key, secret, private_ecdsa, public_ecdsa, private_rsa, public_rsa,
  no_key, Token, Library, family, current, verifies, IsJwt,
}

and-true : (a b : Bool) → (a && b) ≡ true → (a ≡ true) × (b ≡ true)
and-true true b h = (refl, h)
and-true false b h = absurd (cc h)

abbrev same_time : Option ℕ → Option ℕ → Bool
same_time none none = true
same_time (some a) (some b) = eqb a b
same_time _ _ = false

same_time-true : (a b : Option ℕ) → same_time a b ≡ true → a ≡ b
same_time-true none none h = refl
same_time-true none (some b) h = absurd (cc h)
same_time-true (some a) none h = absurd (cc h)
same_time-true (some a) (some b) h = ap some ((eqb_iff a b).0 h)

abbrev same_texts : List String → List String → Bool
same_texts [] [] = true
same_texts (a ∷ xs) (b ∷ ys) = (a == b) && same_texts xs ys
same_texts _ _ = false

same_texts-true : (a b : List String) → same_texts a b ≡ true → a ≡ b
same_texts-true [] [] h = refl
same_texts-true [] (b ∷ ys) h = absurd (cc h)
same_texts-true (a ∷ xs) [] h = absurd (cc h)
same_texts-true (a ∷ xs) (b ∷ ys) h =
    let (e, f) = and-true (a == b) (same_texts xs ys) h in
    λ i. eq_of_test a b e i ∷ same_texts-true xs ys f i

-- The texts of the custom claims, and of the registered ones.
abbrev texts : MyCustomClaims → List String
texts c = c.email ∷ c.role ∷ c.scope ∷ c.two_fa ∷ c.site_lan ∷ c.custom1 ∷ c.custom2 ∷ []

abbrev same_claims : JwtClaims → JwtClaims → Bool
same_claims c d =
    eqb c.custom.auth_id d.custom.auth_id
    && (same_texts (texts c.custom) (texts d.custom)
        && (same_time c.expires_at d.expires_at
            && (same_time c.issued_at d.issued_at
                && (same_time c.not_before d.not_before
                    && (same_texts (c.id ∷ c.issuer ∷ c.subject ∷ c.audience)
                        (d.id ∷ d.issuer ∷ d.subject ∷ d.audience))))))

-- The text at a place of a list.
abbrev nth : ℕ → List String → String
nth n [] = ""
nth zero (a ∷ xs) = a
nth (suc n) (a ∷ xs) = nth n xs

abbrev drop3 : List String → List String
drop3 (a ∷ b ∷ c ∷ zs) = zs
drop3 _ = []

same_claims-true : (c d : JwtClaims) → same_claims c d ≡ true → c ≡ d
same_claims-true c d h =
    let (e1, h1) = and-true _ _ h in
    let (e2, h2) = and-true _ _ h1 in
    let (e3, h3) = and-true _ _ h2 in
    let (e4, h4) = and-true _ _ h3 in
    let (e5, e6) = and-true _ _ h4 in
    let t = same_texts-true (texts c.custom) (texts d.custom) e2 in
    let u =
      same_texts-true (c.id ∷ c.issuer ∷ c.subject ∷ c.audience)
        (d.id ∷ d.issuer ∷ d.subject ∷ d.audience) e6 in
    λ i. record {
      custom = record {
        auth_id = (eqb_iff c.custom.auth_id d.custom.auth_id).0 e1 i;
        email = nth 0 (t i);
        role = nth 1 (t i);
        scope = nth 2 (t i);
        two_fa = nth 3 (t i);
        site_lan = nth 4 (t i);
        custom1 = nth 5 (t i);
        custom2 = nth 6 (t i);
      };
      expires_at = same_time-true c.expires_at d.expires_at e3 i;
      id = nth 0 (u i);
      issued_at = same_time-true c.issued_at d.issued_at e4 i;
      issuer = nth 1 (u i);
      subject = nth 2 (u i);
      audience = drop3 (u i);
      not_before = same_time-true c.not_before d.not_before e5 i;
    }

abbrev key_tag : Key → ℕ
key_tag (secret a) = 0
key_tag (private_ecdsa a) = 1
key_tag (public_ecdsa a) = 2
key_tag (private_rsa a) = 3
key_tag (public_rsa a) = 4
key_tag no_key = 5

abbrev key_text : Key → String
key_text (secret a) = a
key_text (private_ecdsa a) = a
key_text (public_ecdsa a) = a
key_text (private_rsa a) = a
key_text (public_rsa a) = a
key_text no_key = ""

abbrev key_of : ℕ → String → Key
key_of zero a = secret a
key_of (suc zero) a = private_ecdsa a
key_of (suc (suc zero)) a = public_ecdsa a
key_of (suc (suc (suc zero))) a = private_rsa a
key_of (suc (suc (suc (suc zero)))) a = public_rsa a
key_of _ a = no_key

key_of-tag : (k : Key) → key_of (key_tag k) (key_text k) ≡ k
key_of-tag (secret a) = refl
key_of-tag (private_ecdsa a) = refl
key_of-tag (public_ecdsa a) = refl
key_of-tag (private_rsa a) = refl
key_of-tag (public_rsa a) = refl
key_of-tag no_key = refl

-- What is signed: the algorithm, the claims and the key.
abbrev Signed : Type 0
Signed = Token × Key

abbrev same_signed : Signed → Signed → Bool
same_signed (t, k) (u, l) =
    (t.alg == u.alg)
    && (same_claims t.claims u.claims
        && (eqb (key_tag k) (key_tag l) && (key_text k == key_text l)))

same_signed-true : (a b : Signed) → same_signed a b ≡ true → a ≡ b
same_signed-true (t, k) (u, l) h =
    let (e1, h1) = and-true _ _ h in
    let (e2, h2) = and-true _ _ h1 in
    let (e3, e4) = and-true _ _ h2 in
    let keys =
      sym (key_of-tag k)
      ∙ (λ i.
          key_of ((eqb_iff (key_tag k) (key_tag l)).0 e3 i)
            (eq_of_test (key_text k) (key_text l) e4 i))
      ∙ key_of-tag l in
    λ i. (
      record {
        alg = eq_of_test t.alg u.alg e1 i;
        claims = same_claims-true t.claims u.claims e2 i;
      },
      keys i,
    )

text_of : (a b : String) → ok a ≡ ok b → a ≡ b
text_of a b h = cc h

-- The one pair of keys of the tests.
abbrev pair : String → String → Bool
pair a b = (a == "private") && (b == "public")

module _ (first second : Signed) where
  abbrev signed : Signed → Outcome String
  signed s =
      if eqb (key_tag s.1) 5
      then err "no key"
      else if same_signed s first
      then ok "first"
      else if same_signed s second
      then ok "second"
      else err "not signed here"

  abbrev read : String → Option Signed
  read text = if text == "first" then some first else if text == "second" then some second else none

  abbrev check : Signed → Outcome Key → ℕ → Outcome Token
  check s (err why) now = err why
  check s (ok k) now =
      if verifies pair s.1 k
      then if current s.0.claims now then ok s.0 else err "token is expired"
      else err "signature is invalid"

  abbrev parse : Option Signed → (Token → Outcome Key) → ℕ → Outcome Token
  parse none f now = err "token is malformed"
  parse (some s) f now = check s (f s.0) now

  abbrev pub signer : Library
  signer = record {
    method = family;
    signed_string = λ alg claims key. signed (record { alg = alg; claims = claims }, key);
    parse_with_claims = λ text. parse (read text);
    is_pair = pair;
  }

  read-signed : (s : Signed) {text : String} → signed s ≡ ok text → read text ≡ some s
  unfolding ◌==◌
  read-signed s {text} h = elim (Bool-cases (eqb (key_tag s.1) 5)) [
    | inl k ↦ absurd (cc (rw k at h))
    | inr k ↦ elim (Bool-cases (same_signed s first)) [
      | inl e ↦
          ap read (text_of text "first" (sym (rw (k, e) at h)))
          ∙ ap some (sym (same_signed-true s first e))
      | inr e ↦ elim (Bool-cases (same_signed s second)) [
        | inl f ↦
            ap read (text_of text "second" (sym (rw (k, e, f) at h)))
            ∙ ap some (sym (same_signed-true s second f))
        | inr f ↦ absurd (cc (rw (k, e, f) at h))
      ]
    ]
  ]

  check-accepts :
      (s : Signed) (o : Outcome Key) {k : Key} (now : ℕ)
      → o ≡ ok k
      → verifies pair s.1 k ≡ true
      → current s.0.claims now ≡ true
      → check s o now ≡ ok s.0
  check-accepts s o now e v c = rw (e, v, c) refl

  check-refuses :
      (s : Signed) (o : Outcome Key) {k : Key} (now : ℕ)
      → o ≡ ok k
      → verifies pair s.1 k ≡ false
      → check s o now ≡ err "signature is invalid"
  check-refuses s o now e v = rw (e, v) refl

  pub signer-IsJwt : IsJwt signer
  signer-IsJwt = record {
    methods = λ alg n. refl;
    accepts = λ alg text claims key k f now h e v c.
        ap (λ (s : Option Signed). parse s f now) (read-signed _ h)
        ∙ check-accepts (record { alg = alg; claims = claims }, key) _ now e v c;
    refuses = λ alg text claims key k f now h e v. (
      "signature is invalid",
      ap (λ (s : Option Signed). parse s f now) (read-signed _ h)
          ∙ check-refuses (record { alg = alg; claims = claims }, key) _ now e v,
    );
    nil_key = λ alg claims. ("no key", refl);
  }
