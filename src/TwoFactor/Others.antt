-- ===== src/TwoFactor/Others.antt =====
-- Statements, backup codes and the deactivation, seen from the memory of another account.
use wifigo.Base.{
  ℕ, String, Bool, true, false, not, ◌≡◌, refl, ap, inl, inr, Option, none, some, List, [], ◌∷◌,
  eqb, if◌then◌else◌, Bool-cases, Option-cases, ◌||◌,
}
use wifigo.Base.Texts.{◌==◌}
use wifigo.Base.Outcome.{Outcome, ok, err, Outcome-cases}
use wifigo.Jwt.{MyCustomClaims}
use wifigo.TwoFactor.{
  TwoFa, TwoFaBackup, Secret2Fa, AuthPayload, Statement, World, AuthDb, save_two_fa, delete_backups,
  App,
}
use wifigo.TwoFactor.Actions.{go, pure, ◌>>=◌, ◌>>◌, stop_if, del_mem2fa, transaction, issue}
use wifigo.TwoFactor.Validate.{wrong_otp}
use wifigo.TwoFactor.Deactivate.{switched_off, switch_off, drop_backups, deactivate_steps}
use wifigo.TwoFactor.Backup.{backup_with, backup_checks, use_backup, validate_backup_steps}
use wifigo.TwoFactor.Apart.{
  world_of, Keeps, >>=-Keeps, >>-Keeps, stop_if-Keeps, attempt-Keeps, row_or-Keeps,
  row_if_any-Keeps, check_password-Keeps, issue-Keeps, IsBlind,
}

transaction-memory :
    (db : AuthDb) (st : Statement) (w : World)
    → Keeps (λ (v : World). v.memory) (transaction db st) w
unfolding transaction
transaction-memory db st w = elim (Outcome-cases (db.write st w.rows)) [
  | inr (why, e) ↦ rw (transaction, e) refl
  | inl (rows, e) ↦ elim (Bool-cases (db.commits st w.rows)) [
    | inl c ↦ rw (transaction, e, c) refl
    | inr c ↦ rw (transaction, e, c) refl
  ]
]

module _ (id other : ℕ) (n : eqb other id ≡ false) {Otp : Type 0} (app : App Otp) where
  -- What is in memory for the other account.
  abbrev pub theirs : World → Option Secret2Fa
  theirs w = w.memory other

  pub theirs-IsBlind : IsBlind theirs id
  theirs-IsBlind = record {
    puts = λ d w. rw n refl;
    deletes = λ w. rw n refl;
    images = λ names w. refl;
  }

  pub writes : (st : Statement) (w : World) → Keeps theirs (transaction app.db st) w
  writes st w = ap (λ (m : ℕ → Option Secret2Fa). m other) (transaction-memory app.db st w)

  pub forget-Keeps :
      (claims : MyCustomClaims) (key : String) (w : World)
      → Keeps theirs (del_mem2fa id >> issue app claims key) w
  forget-Keeps claims key w =
      >>-Keeps theirs _ _ w (theirs-IsBlind.deletes w) (λ v. issue-Keeps theirs app claims key v)

  pub wrong_otp-Keeps :
      (d : Secret2Fa) (t : TwoFa) (bytes : String) (w : World)
      → Keeps theirs (wrong_otp app id d t bytes) w
  unfolding wrong_otp
  wrong_otp-Keeps d t bytes w =
      >>-Keeps theirs _ _ w (theirs-IsBlind.puts _ w)
        (λ v. >>=-Keeps theirs _ _ v (writes _ v) (λ done u. refl))

  use_backup-Keeps :
      (claims : MyCustomClaims) (bs : List TwoFaBackup) (hash : String) (w : World)
      → Keeps theirs (use_backup app claims bs hash) w
  unfolding use_backup
  use_backup-Keeps claims bs hash w = elim (Option-cases (backup_with hash bs)) [
    | inl e ↦ rw (use_backup, e) refl
    | inr (b, e) ↦
        rw (use_backup, e)
          (>>=-Keeps theirs _ _ w (writes _ w) (λ done v.
            >>-Keeps theirs _ _ v (stop_if-Keeps theirs _ _ _ v)
              (λ u. issue-Keeps theirs app _ _ u)))
  ]

  pub validate_backup-Keeps :
      (claims : MyCustomClaims) (payload : AuthPayload) (w : World)
      → Keeps theirs (validate_backup_steps app claims payload) w
  unfolding validate_backup_steps backup_checks
  validate_backup-Keeps claims payload w =
      >>=-Keeps theirs _ _ w
        (>>-Keeps theirs _ _ w (stop_if-Keeps theirs _ _ _ w) (λ v1.
          >>-Keeps theirs _ _ v1 (stop_if-Keeps theirs _ _ _ v1) (λ v2.
            >>-Keeps theirs _ _ v2 (stop_if-Keeps theirs _ _ _ v2) (λ v3.
              >>-Keeps theirs _ _ v3 (stop_if-Keeps theirs _ _ _ v3)
                (λ v4. attempt-Keeps theirs _ v4)))))
        (λ bs v. >>-Keeps theirs _ _ v (stop_if-Keeps theirs _ _ _ v) (λ v5.
          >>=-Keeps theirs _ _ v5 (attempt-Keeps theirs _ v5)
            (λ hash v6. use_backup-Keeps claims bs _ v6)))

  switch_off-Keeps :
      (status : String) (t : Option TwoFa) (w : World) → Keeps theirs (switch_off app status t) w
  unfolding switch_off
  switch_off-Keeps status none w = refl
  switch_off-Keeps status (some t) w = on (t.status == app.security.on)
    where
      rest : (b : Bool) → Keeps theirs (if b then pure t.status else pure status) w
      rest true = refl
      rest false = refl

      on :
          (b : Bool)
          → Keeps theirs
              (if b
                then (do
                  written ← transaction app.db (save_two_fa (switched_off app t))
                  stop_if (not written) 500 "internal server error"
                  pure app.security.off)
                else if (t.status == "") || (t.status == app.security.off)
                then pure t.status
                else pure status)
              w
      on true =
          >>=-Keeps theirs _ _ w (writes _ w)
            (λ written v. >>-Keeps theirs _ _ v (stop_if-Keeps theirs _ _ _ v) (λ u. refl))
      on false = rest ((t.status == "") || (t.status == app.security.off))

  drop_backups-Keeps : (account : ℕ) (w : World) → Keeps theirs (drop_backups app account) w
  unfolding drop_backups
  drop_backups-Keeps account w = split (app.db.find_backups account w.rows)
    where
      split :
          (o : Outcome (List TwoFaBackup))
          → theirs (
              world_of {A = Unit {0}} (elim o [
                | err why ↦ go tt w
                | ok [] ↦ go tt w
                | ok (b ∷ bs) ↦
                    (do written ← transaction app.db (delete_backups (b ∷ bs)); pure tt) w
              ]))
            ≡ theirs w
      split (err why) = refl
      split (ok []) = refl
      split (ok (b ∷ bs)) = >>=-Keeps theirs _ _ w (writes _ w) (λ done v. refl)

  pub deactivate-Keeps :
      (claims : MyCustomClaims) (payload : AuthPayload) (w : World)
      → Keeps theirs (deactivate_steps app claims payload) w
  unfolding deactivate_steps
  deactivate-Keeps claims payload w = >>-Keeps theirs _ _ w (stop_if-Keeps theirs _ _ _ w) (λ v1.
      >>=-Keeps theirs _ _ v1 (row_or-Keeps theirs _ _ _ v1) (λ a v2.
        >>-Keeps theirs _ _ v2 (check_password-Keeps theirs app _ _ _ v2) (λ v3.
          >>=-Keeps theirs _ _ v3 (row_if_any-Keeps theirs _ v3) (λ t v4.
            >>=-Keeps theirs _ _ v4 (switch_off-Keeps claims.two_fa t v4) (λ status v5.
              >>-Keeps theirs _ _ v5 (drop_backups-Keeps _ v5)
                (λ v6. issue-Keeps theirs app _ _ v6))))))
