-- ===== src/TwoFactor/Stored.antt =====
-- The backup codes that `CreateBackup2FA` returns and stores.
use wifigo.Base.{
  ℕ, String, true, false, ◌≡◌, refl, sym, ap, subst, ◌∙◌, ◌+◌, ◌<◌, inl, inr, Option, none, some,
  List, Option-cases,
}
use wifigo.Base.Lists.{length}
use wifigo.Base.Outcome.{ok}
use wifigo.Jwt.{MyCustomClaims}
use wifigo.TwoFactor.{AuthPayload, codes, HttpResponse, Rows, World, create_backups, App}
use wifigo.TwoFactor.Actions.{Flow, go, stop, served}
use wifigo.TwoFactor.Codes.{Random, SteadyFrom, generate_codes, codes-end, codes-count, AllOf}
use wifigo.TwoFactor.Backup.{
  hash_codes, new_backups, store_codes, create_backup_checks, create_backup2fa,
}
use wifigo.TwoFactor.Ran.{>>-go, pure-go, stop_if-go, attempt-go, transaction-go, after_commit}

codes_of : {a b : List String} → codes a ≡ codes b → a ≡ b
codes_of h = cc h

result_of : {a b : HttpResponse × World} → some a ≡ some b → a ≡ b
result_of h = cc h

served-codes :
    (x : Flow HttpResponse) {cs : List String}
    → (served x).0.message ≡ codes cs
    → (r : HttpResponse) × (x ≡ go r (served x).1) × (r.message ≡ codes cs)
served-codes (go r w) h = (r, refl, h)
served-codes (stop status why w) h = absurd (cc h)

module _ {Otp : Type 0} (app : App Otp) where
  -- What was stored of the codes: a row with the hash of each, in one statement.
  pub record IsStored (id : ℕ) (cs : List String) (u : World) : Type 0 where
    pub hashes : List String
    pub before : World
    pub rows : Rows
    pub hashed : hash_codes app cs ≡ ok hashes
    pub written : app.db.write (create_backups (new_backups app id hashes)) before.rows ≡ ok rows
    pub left : u ≡ after_commit app.db (create_backups (new_backups app id hashes)) before rows

  store_codes-go :
      (id : ℕ) (drawn : List String) (w : World) {r : HttpResponse} {u : World} {cs : List String}
      → store_codes app id drawn w ≡ go r u
      → r.message ≡ codes cs
      → (drawn ≡ cs) × IsStored id drawn u
  unfolding store_codes
  store_codes-go id drawn w h m =
      let (hashes, hashed, h1) = attempt-go _ _ w h in
      let (v, _, h2) = >>-go _ _ w h1 in
      elim (transaction-go app.db _ _ v h2) [
        | inr h3 ↦
            let (refused, _) = stop_if-go true 500 "internal server error" _ v h3 in
            absurd (cc refused)
        | inl (rows, written, h3) ↦
            let (_, h4) = stop_if-go false 500 "internal server error" _ _ h3 in
            let (same_r, same_u) = pure-go h4 in
            (
              codes_of (ap (λ (x : HttpResponse). x.message) same_r ∙ m),
              record {
                hashes = hashes;
                before = v;
                rows = rows;
                hashed = hashed;
                written = written;
                left = sym same_u;
              },
            )
      ]

  module _ (random : Random) (fuel k : ℕ) (claims : MyCustomClaims) (payload : AuthPayload)
      (w : World) where
    -- The loops of `CreateBackup2FA` come to an end: where the source of randomness does not
    -- fail from the position `m` on, fuel for the attempts up to `m` and one more gives an
    -- answer, whatever failed before.
    pub create_backup2fa-ends :
        (m : ℕ)
        → SteadyFrom random m
        → m < fuel + k
        → 0 < fuel
        → (r : HttpResponse × World) × (create_backup2fa app random fuel k claims payload w
            ≡ some r)
    unfolding create_backup2fa
    create_backup2fa-ends m steady enough some_fuel =
        split (create_backup_checks app claims payload w)
      where
        split :
            (x : Flow (Unit {0}))
            → (r : HttpResponse × World) × (elim x as (λ _. Option (HttpResponse × World)) [
              | stop status why u ↦ some (served (stop status why u))
              | go _ u ↦ elim (generate_codes random fuel 10 k) [
                | none ↦ none
                | some (drawn, _) ↦ some (served (store_codes app claims.auth_id drawn u))
              ]
            ]
                ≡ some r)
        split (stop status why u) = (_, refl)
        split (go _ u) =
            let (cs, next, g) = codes-end random m steady fuel 10 k enough some_fuel in
            (served (store_codes app claims.auth_id cs u), rw g refl)

    -- An answer with backup codes has exactly ten, of 16 characters each; the hash of each of them
    -- has been written, with the account of the request, in one statement that stands if its
    -- commit takes.
    pub create_backup2fa-codes :
        (r : HttpResponse × World) (cs : List String)
        → create_backup2fa app random fuel k claims payload w ≡ some r
        → r.0.message ≡ codes cs
        → (length cs ≡ 10) × AllOf 16 cs × IsStored claims.auth_id cs r.1
    unfolding create_backup2fa
    create_backup2fa-codes r cs h m = split (create_backup_checks app claims payload w) h
      where
        Result : Type 0
        Result = (length cs ≡ 10) × AllOf 16 cs × IsStored claims.auth_id cs r.1

        stored :
            (drawn : List String) (next : ℕ) (u : World)
            → generate_codes random fuel 10 k ≡ some (drawn, next)
            → served (store_codes app claims.auth_id drawn u) ≡ r
            → Result
        stored drawn next u g e =
            let run = store_codes app claims.auth_id drawn u in
            let (answer, ended, message) =
              served-codes run (ap (λ (q : HttpResponse × World). q.0.message) e ∙ m) in
            let (same, kept) = store_codes-go claims.auth_id drawn u ended message in
            let (len, all) = codes-count random fuel 10 k g in
            (
              subst (λ (x : List String). length x ≡ 10) same len,
              subst (AllOf 16) same all,
              subst (λ (x : List String). IsStored claims.auth_id x r.1) same
                  (subst (λ (q : HttpResponse × World). IsStored claims.auth_id drawn q.1) e kept),
            )

        split :
            (x : Flow (Unit {0}))
            → ◌≡◌ {A = Option (HttpResponse × World)}
                (elim x as (λ _. Option (HttpResponse × World)) [
                  | stop status why u ↦ some (served (stop status why u))
                  | go _ u ↦ elim (generate_codes random fuel 10 k) [
                    | none ↦ none
                    | some (drawn, _) ↦ some (served (store_codes app claims.auth_id drawn u))
                  ]
                ])
                (some r)
            → Result
        split (stop status why u) e =
            absurd (cc (ap (λ (q : HttpResponse × World). q.0.message) (result_of e), m))
        split (go _ u) e = elim (Option-cases (generate_codes random fuel 10 k)) [
          | inl g ↦ absurd (cc (rw g at e))
          | inr ((drawn, next), g) ↦ stored drawn next u g (result_of (rw g at e))
        ]
