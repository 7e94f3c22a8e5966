-- ===== src/TwoFactor/Used.antt =====
-- Backup codes: the code by which `ValidateBackup2FA` issues tokens, and a second use of it.
use wifigo.Base.{
  ℕ, String, Bool, true, false, not, ◌≡◌, ◌≢◌, refl, sym, ap, subst, ◌∙◌, ◌⊎◌, inl, inr, some, List,
  [], ◌∷◌, eqb, eqb_iff, if◌then◌else◌, Bool-cases, Option-cases,
}
use wifigo.Base.Texts.{◌==◌, eq_of_test}
use wifigo.Base.Lists.{filter}
use wifigo.Base.Outcome.{ok}
use wifigo.Jwt.{MyCustomClaims}
use wifigo.Base.Words.{trim_space}
use wifigo.TwoFactor.{
  TwoFaBackup, AuthPayload, JwtPayload, tokens, HttpResponse, Rows, World, delete_backup, AuthDb,
  App,
}
use wifigo.TwoFactor.Actions.{go, Act, ◌>>=◌, served, with_rows, with_two_fa, calc_hash}
use wifigo.TwoFactor.Backup.{backup_with, backup_checks, use_backup, validate_backup_steps}
use wifigo.TwoFactor.Ran.{
  >>=-go, stop_if-go, attempt-go, attempt-ended, transaction-go, after_commit, IsIssued, issue-go,
  served-tokens, was_true,
}

-- What the queries and statements on backup codes say of the table.
pub record IsBackupDb (db : AuthDb) : Type 0 where
  pub finds :
      (id : ℕ) (rows : Rows) {bs : List TwoFaBackup}
      → db.find_backups id rows ≡ ok bs
      → bs ≡ filter (λ b. eqb b.id_auth id) rows.backups
  pub deletes :
      (id : ℕ) (rows : Rows) {new : Rows}
      → db.write (delete_backup id) rows ≡ ok new
      → new.backups ≡ filter (λ b. not (eqb b.id id)) rows.backups

module _ {Otp : Type 0} (app : App Otp) where
  -- The code that was used, and what became of it.
  pub record IsUsed (claims : MyCustomClaims) (otp : String) (w : World) (u : World) : Type 0 where
    pub found : List TwoFaBackup
    pub code : TwoFaBackup
    pub hash : String
    pub rows : Rows
    pub claims_on : claims.two_fa ≡ app.security.on
    pub finds : app.db.find_backups claims.auth_id w.rows ≡ ok found
    pub hashed : calc_hash app otp ≡ ok hash
    pub matches : backup_with (app.packages.hex_encode hash) found ≡ some code
    pub deleted : app.db.write (delete_backup code.id) w.rows ≡ ok rows
    pub left : u.rows ≡ (after_commit app.db (delete_backup code.id) w rows).rows

  backup_checks-go :
      (claims : MyCustomClaims) (otp : String) (w : World) {B : Type 0}
      (f : List TwoFaBackup → Act B) {r : B} {u : World}
      → (backup_checks app claims otp >>= f) w ≡ go r u
      → (claims.two_fa ≡ app.security.on)
        × (bs : List TwoFaBackup) × (app.db.find_backups claims.auth_id w.rows ≡ ok bs)
        × (f bs w ≡ go r u)
  unfolding backup_checks
  backup_checks-go claims otp w f h =
      let (found, v, e, rest) = >>=-go _ _ w h in
      let (_, h1) = stop_if-go _ _ _ _ w e in
      let (_, h2) = stop_if-go _ _ _ _ w h1 in
      let (on, h3) = stop_if-go _ _ _ _ w h2 in
      let (_, h4) = stop_if-go _ _ _ _ w h3 in
      let (finds, same) = attempt-ended _ w h4 in
      (
        eq_of_test claims.two_fa app.security.on (was_true _ on),
        found,
        finds,
        ap (f found) same ∙ rest,
      )

  use_backup-go :
      (claims : MyCustomClaims) (bs : List TwoFaBackup) (hash : String) (w : World)
      {r : HttpResponse} {u : World} {p : JwtPayload}
      → use_backup app claims bs hash w ≡ go r u
      → r.message ≡ tokens p
      → (b : TwoFaBackup) × (rows : Rows) × (backup_with hash bs ≡ some b)
        × (app.db.write (delete_backup b.id) w.rows ≡ ok rows)
        × (u ≡ after_commit app.db (delete_backup b.id) w rows)
        × IsIssued app (with_two_fa app.security.verified claims) p
  unfolding use_backup
  use_backup-go claims bs hash w h m = elim (Option-cases (backup_with hash bs)) [
    | inl e ↦ absurd (cc (rw (use_backup, e) at h))
    | inr (b, e) ↦ elim (transaction-go app.db _ _ w (rw (use_backup, e) at h)) [
      | inr h1 ↦
          let (refused, _) = stop_if-go true 500 "internal server error" _ w h1 in
          absurd (cc refused)
      | inl (rows, written, h1) ↦
          let (_, h2) = stop_if-go false 500 "internal server error" _ _ h1 in
          let (issued, same) = issue-go app _ _ _ h2 m in (b, rows, e, written, sym same, issued)
    ]
  ]

  -- `ValidateBackup2FA` answers with tokens only to a request whose token says that two-factor
  -- authentication is on, and whose code, trimmed and hashed, is that of a backup code of the
  -- account. The first such code is deleted, as far as the commit takes, and the tokens are those
  -- of `GetJWT` for the claims with the status "verified".
  validate_backup-tokens :
      (claims : MyCustomClaims) (payload : AuthPayload) (w : World) (p : JwtPayload)
      → (served (validate_backup_steps app claims payload w)).0.message ≡ tokens p
      → IsUsed claims
          (trim_space payload.otp)
          w
          (served (validate_backup_steps app claims payload w)).1
        × IsIssued app (with_two_fa app.security.verified claims) p
  unfolding validate_backup_steps
  validate_backup-tokens claims payload w p h =
      let (r, e, m) = served-tokens (validate_backup_steps app claims payload w) h in
      let (on, bs, finds, h1) = backup_checks-go claims (trim_space payload.otp) w _ e in
      let (_, h2) = stop_if-go _ _ _ _ w h1 in
      let (hash, hashed, h3) = attempt-go _ _ w h2 in
      let (b, rows, matches, deleted, left, issued) = use_backup-go claims bs _ w h3 m in
      (
        record {
          found = bs;
          code = b;
          hash = hash;
          rows = rows;
          claims_on = on;
          finds = finds;
          hashed = hashed;
          matches = matches;
          deleted = deleted;
          left = ap (λ (x : World). x.rows) left;
        },
        issued,
      )

some_of : {a b : TwoFaBackup} → some a ≡ some b → a ≡ b
some_of h = cc h

-- A code is on a list of backup codes.
unfoldable pub Among : TwoFaBackup → List TwoFaBackup → Type 0
Among b [] = ⊥
Among b (c ∷ bs) = (c ≡ b) ⊎ Among b bs

backup_with-Among :
    (hash : String) (bs : List TwoFaBackup) {b : TwoFaBackup}
    → backup_with hash bs ≡ some b
    → Among b bs × (b.code_hash ≡ hash)
unfolding backup_with Among
backup_with-Among hash [] h = absurd (cc h)
backup_with-Among hash (c ∷ bs) {b} h = elim (Bool-cases (c.code_hash == hash)) [
  | inl e ↦
      let same = some_of (rw (backup_with, e) at h) in
      (inl same, ap (λ (x : TwoFaBackup). x.code_hash) (sym same) ∙ eq_of_test c.code_hash hash e)
  | inr e ↦
      let (among, same) = backup_with-Among hash bs (rw (backup_with, e) at h) in (inr among, same)
]

filter-Among :
    (p : TwoFaBackup → Bool) (bs : List TwoFaBackup) {b : TwoFaBackup}
    → Among b (filter p bs)
    → Among b bs × (p b ≡ true)
unfolding Among
filter-Among p [] h = absurd h
filter-Among p (c ∷ bs) {b = b} h = split (p c) refl (filter-Among p bs) h
  where
    split :
        (x : Bool)
        → p c ≡ x
        → (Among b (filter p bs) → Among b bs × (p b ≡ true))
        → Among b (if x then c ∷ filter p bs else filter p bs)
        → ((c ≡ b) ⊎ Among b bs) × (p b ≡ true)
    split true e rest (inl same) = (inl same, ap p (sym same) ∙ e)
    split true e rest (inr among) = (inr (rest among).0, (rest among).1)
    split false e rest among = (inr (rest among).0, (rest among).1)

-- No two codes have one hash.
abbrev pub Unique : List TwoFaBackup → Type 0
Unique bs = (b c : TwoFaBackup) → Among b bs → Among c bs → b.code_hash ≡ c.code_hash → b.id ≡ c.id

hash_of : {a b : String} → ok a ≡ ok b → a ≡ b
hash_of h = cc h

not_same : {b : Bool} → b ≡ true → not b ≡ true → ⊥
not_same e h = cc (rw e at h)

module _ {Otp : Type 0} (app : App Otp) (laws : IsBackupDb app.db) where
  -- The code that was used is one of the table, with the hash of what was entered.
  used-Among :
      (claims : MyCustomClaims) (otp : String) (w u : World) (used : IsUsed app claims otp w u)
      → Among used.code w.rows.backups × (used.code.code_hash ≡ app.packages.hex_encode used.hash)
  used-Among claims otp w u used =
      let (among, same) = backup_with-Among _ used.found used.matches in
      let found = subst (Among used.code) (laws.finds claims.auth_id w.rows used.finds) among in
      ((filter-Among _ w.rows.backups found).0, same)

  left-backups :
      (claims : MyCustomClaims) (otp : String) (w u : World) (used : IsUsed app claims otp w u)
      → app.db.commits (delete_backup used.code.id) w.rows ≡ true
      → u.rows.backups ≡ filter (λ b. not (eqb b.id used.code.id)) w.rows.backups
  left-backups claims otp w u used committed =
      ap (λ (r : Rows). r.backups) used.left
      ∙ ap (λ (c : Bool). (if c then with_rows used.rows w else w).rows.backups) committed
      ∙ laws.deletes used.code.id w.rows used.deleted

  -- The code of a second use would be one that the first has left, with the same hash.
  used-once :
      (claims claims₂ : MyCustomClaims) (otp otp₂ : String) (w u v : World)
      → Unique w.rows.backups
      → otp₂ ≡ otp
      → (used : IsUsed app claims otp w u)
      → app.db.commits (delete_backup used.code.id) w.rows ≡ true
      → IsUsed app claims₂ otp₂ u v
      → ⊥
  used-once claims claims₂ otp otp₂ w u v unique same_otp used committed again =
      let (among, hash) = used-Among claims otp w u used in
      let (among₂, hash₂) = used-Among claims₂ otp₂ u v again in
      let (kept, differs) =
        filter-Among (λ b. not (eqb b.id used.code.id)) w.rows.backups
          (subst (Among again.code) (left-backups claims otp w u used committed) among₂) in
      let hashes = hash_of (sym again.hashed ∙ ap (calc_hash app) same_otp ∙ used.hashed) in
      let ids =
        unique again.code used.code kept among
          (hash₂ ∙ ap app.packages.hex_encode hashes ∙ sym hash) in
      not_same ((eqb_iff again.code.id used.code.id).1 ids) differs

  -- A backup code serves once: after an answer with tokens whose deletion was committed, where no
  -- two codes of the table have one hash, no request with the same code, of any account, is
  -- answered with tokens.
  pub validate_backup-once :
      (claims claims₂ : MyCustomClaims) (payload payload₂ : AuthPayload) (w : World)
      (p q : JwtPayload)
      → Unique w.rows.backups
      → ((id : ℕ) → app.db.commits (delete_backup id) w.rows ≡ true)
      → trim_space payload₂.otp ≡ trim_space payload.otp
      → (served (validate_backup_steps app claims payload w)).0.message ≡ tokens p
      → (served (
          validate_backup_steps app claims₂ payload₂
            (served (validate_backup_steps app claims payload w)).1)).0.message
        ≢ tokens q
  validate_backup-once claims claims₂ payload payload₂ w p q unique commits same_otp h g =
      let (used, _) = validate_backup-tokens app claims payload w p h in
      let (again, _) = validate_backup-tokens app claims₂ payload₂ _ q g in
      used-once claims claims₂ (trim_space payload.otp) (trim_space payload₂.otp) w _ _ unique
        same_otp used (commits used.code.id) again
