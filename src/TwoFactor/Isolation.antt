-- ===== src/TwoFactor/Isolation.antt =====
-- The five handlers, seen from the memory of another account, and the setup, seen from the tables.
use wifigo.Base.{
  ℕ, String, Bool, true, false, ◌≡◌, refl, ap, ◌∙◌, Option, none, some, eqb, if◌then◌else◌,
}
use wifigo.Base.Texts.{◌==◌, concat}
use wifigo.Jwt.{MyCustomClaims}
use wifigo.TwoFactor.{TwoFa, Secret2Fa, AuthPayload, HttpResponse, World, App}
use wifigo.TwoFactor.Actions.{
  Flow, go, stop, Act, pure, remove_all_space, ◌>>◌, refuse, served, put_memory, del_mem2fa,
  remove_image,
}
use wifigo.TwoFactor.Setup.{setup_steps}
use wifigo.TwoFactor.Activate.{
  make_keys, switch_on, stop_if_on, activate, activate_checks, activate_steps,
}
use wifigo.TwoFactor.Validate.{
  Checked, validated, failed, validate_checks, wrong_otp, right_otp, validate_steps, validate2fa,
}
use wifigo.TwoFactor.Deactivate.{deactivate_steps}
use wifigo.TwoFactor.Backup.{validate_backup_steps}
use wifigo.TwoFactor.Apart.{
  world_of, Keeps, >>=-Keeps, >>-Keeps, stop_if-Keeps, attempt-Keeps, some_or-Keeps, row_or-Keeps,
  row_if_any-Keeps, remove_image-Keeps, setup_steps-Keeps,
}
use wifigo.TwoFactor.Others.{
  theirs-IsBlind, writes, forget-Keeps, wrong_otp-Keeps, validate_backup-Keeps, deactivate-Keeps,
}

module _ (claims : MyCustomClaims) (other : ℕ) (n : eqb other claims.auth_id ≡ false) {Otp : Type 0}
    (app : App Otp) where
  abbrev other_memory : World → Option Secret2Fa
  other_memory w = w.memory other

  checked-Keeps :
      (d : Secret2Fa) (t : TwoFa) (x : Checked) (w : World)
      → Keeps other_memory
          (elim x as (λ _. Act HttpResponse) [
            | validated otp_byte ↦ right_otp app claims d t otp_byte
            | failed status otp_byte ↦
                if status == app.security.invalid
                then wrong_otp app claims.auth_id d t otp_byte
                else refuse 500 "internal server error"
          ])
          w
  unfolding right_otp
  checked-Keeps d t (validated bytes) w =
      >>=-Keeps other_memory _ _ w (attempt-Keeps other_memory _ w) (λ key v1.
        >>=-Keeps other_memory _ _ v1 (writes claims.auth_id other n app _ v1)
          (λ done v2. forget-Keeps claims.auth_id other n app _ _ v2))
  checked-Keeps d t (failed status bytes) w = test (status == app.security.invalid)
    where
      test :
          (b : Bool)
          → Keeps other_memory
              (if b
                then wrong_otp app claims.auth_id d t bytes
                else refuse 500 "internal server error")
              w
      test true = wrong_otp-Keeps claims.auth_id other n app d t bytes w
      test false = refl

  validate-Keeps :
      (payload : AuthPayload) (w : World) → Keeps other_memory (validate_steps app claims payload) w
  unfolding validate_steps validate_checks
  validate-Keeps payload w =
      >>=-Keeps other_memory _ _ w
        (>>-Keeps other_memory _ _ w (stop_if-Keeps other_memory _ _ _ w) (λ v1.
          >>-Keeps other_memory _ _ v1 (stop_if-Keeps other_memory _ _ _ v1) (λ v2.
            >>-Keeps other_memory _ _ v2 (stop_if-Keeps other_memory _ _ _ v2) (λ v3.
              >>=-Keeps other_memory _ _ v3 (some_or-Keeps other_memory _ _ _ v3) (λ d v4.
                >>-Keeps other_memory _ _ v4 (stop_if-Keeps other_memory _ _ _ v4) (λ v5.
                  >>=-Keeps other_memory _ _ v5 (row_or-Keeps other_memory _ _ _ v5) (λ t v6.
                    >>-Keeps other_memory _ _ v6 (stop_if-Keeps other_memory _ _ _ v6)
                      (λ v7. refl))))))))
        (λ found v. >>=-Keeps other_memory _ _ v (attempt-Keeps other_memory _ v) (λ message v8.
          checked-Keeps found.0 found.1 (validate2fa app message (remove_all_space payload.otp))
            v8))

  stop_if_on-Keeps :
      (d : Secret2Fa) (t : Option TwoFa) (w : World)
      → Keeps other_memory (stop_if_on app claims.auth_id d t) w
  unfolding stop_if_on
  stop_if_on-Keeps d none w = refl
  stop_if_on-Keeps d (some t) w = test (t.status == app.security.on)
    where
      test :
          (b : Bool)
          → Keeps {A = Unit {0}} other_memory
              (if b
                then (do
                  remove_image app d.image
                  del_mem2fa claims.auth_id
                  refuse 400 (concat "twoFA: " app.security.on))
                else pure tt)
              w
      test true =
          >>-Keeps other_memory _ _ w
            (remove_image-Keeps other_memory claims.auth_id
              (theirs-IsBlind claims.auth_id other n app) app d.image w)
            (λ v1.
              >>-Keeps other_memory _ _ v1 ((theirs-IsBlind claims.auth_id other n app).deletes v1)
                (λ v2. refl))
      test false = refl

  make_keys-Keeps :
      (otp_byte : String) (d : Secret2Fa) (w : World)
      → Keeps other_memory (make_keys app otp_byte d) w
  unfolding make_keys
  make_keys-Keeps otp_byte d w =
      >>=-Keeps other_memory _ _ w (attempt-Keeps other_memory _ w) (λ a v1.
        >>=-Keeps other_memory _ _ v1 (attempt-Keeps other_memory _ v1) (λ b v2.
          >>=-Keeps other_memory _ _ v2 (attempt-Keeps other_memory _ v2) (λ c v3.
            >>=-Keeps other_memory _ _ v3 (attempt-Keeps other_memory _ v3) (λ e v4.
              >>=-Keeps other_memory _ _ v4 (attempt-Keeps other_memory _ v4) (λ f v5. refl)))))

  activate-Keeps :
      (d : Secret2Fa) (otp_byte : String) (w : World)
      → Keeps other_memory (activate app claims d otp_byte) w
  unfolding activate switch_on
  activate-Keeps d otp_byte w =
      >>=-Keeps other_memory _ _ w (row_if_any-Keeps other_memory _ w) (λ t v1.
        >>-Keeps other_memory _ _ v1 (stop_if_on-Keeps d t v1) (λ v2.
          >>=-Keeps other_memory _ _ v2 (make_keys-Keeps otp_byte d v2) (λ keys v3.
            >>=-Keeps other_memory _ _ v3 (writes claims.auth_id other n app _ v3) (λ done v4.
              >>-Keeps other_memory _ _ v4 (stop_if-Keeps other_memory _ _ _ v4) (λ v5.
                >>-Keeps other_memory _ _ v5
                  (remove_image-Keeps other_memory claims.auth_id
                    (theirs-IsBlind claims.auth_id other n app) app d.image v5)
                  (λ v6. forget-Keeps claims.auth_id other n app _ _ v6))))))

  activate_steps-Keeps :
      (payload : AuthPayload) (w : World) → Keeps other_memory (activate_steps app claims payload) w
  unfolding activate_steps activate_checks
  activate_steps-Keeps payload w =
      >>=-Keeps other_memory _ _ w
        (>>-Keeps other_memory _ _ w (stop_if-Keeps other_memory _ _ _ w) (λ v1.
          >>-Keeps other_memory _ _ v1 (stop_if-Keeps other_memory _ _ _ v1) (λ v2.
            >>-Keeps other_memory _ _ v2 (stop_if-Keeps other_memory _ _ _ v2) (λ v3.
              >>=-Keeps other_memory _ _ v3 (some_or-Keeps other_memory _ _ _ v3) (λ d v4.
                >>-Keeps other_memory _ _ v4 (stop_if-Keeps other_memory _ _ _ v4) (λ v5. refl))))))
        (λ d v. checks d (validate2fa app d.secret (remove_all_space payload.otp)) v)
    where
      fails :
          (d : Secret2Fa) (bytes : String) (b : Bool) (v : World)
          → Keeps {A = HttpResponse} other_memory
              (if b
                then (do
                  put_memory claims.auth_id
                      (record { pass_sha = d.pass_sha; secret = bytes; image = d.image })
                  refuse 400 "wrong one-time password")
                else refuse 500 "internal server error")
              v
      fails d bytes true v =
          >>-Keeps other_memory _ _ v ((theirs-IsBlind claims.auth_id other n app).puts _ v)
            (λ u. refl)
      fails d bytes false v = refl

      checks :
          (d : Secret2Fa) (x : Checked) (v : World)
          → Keeps other_memory
              (elim x as (λ _. Act HttpResponse) [
                | validated otp_byte ↦ activate app claims d otp_byte
                | failed status otp_byte ↦
                    if status == app.security.invalid
                    then (do
                      put_memory claims.auth_id
                          (record { pass_sha = d.pass_sha; secret = otp_byte; image = d.image })
                      refuse 400 "wrong one-time password")
                    else refuse 500 "internal server error"
              ])
              v
      checks d (validated bytes) v = activate-Keeps d bytes v
      checks d (failed status bytes) v = fails d bytes (status == app.security.invalid) v

-- What a handler leaves of the state is what its run leaves.
served_world : (x : Flow HttpResponse) → (served x).1 ≡ world_of x
served_world (go r w) = refl
served_world (stop status why w) = refl

-- The handlers of one account leave what is in memory for every other account as it is: the setup,
-- the activation, the validation, the deactivation and the use of a backup code, on every path,
-- errors included.
pub handlers-Apart :
    {Otp : Type 0} (app : App Otp) (claims : MyCustomClaims) (payload : AuthPayload) (w : World)
    (other : ℕ)
    → eqb other claims.auth_id ≡ false
    → ((served (setup_steps app claims payload w)).1.memory other ≡ w.memory other)
      × ((served (activate_steps app claims payload w)).1.memory other ≡ w.memory other)
      × ((served (validate_steps app claims payload w)).1.memory other ≡ w.memory other)
      × ((served (deactivate_steps app claims payload w)).1.memory other ≡ w.memory other)
      × ((served (validate_backup_steps app claims payload w)).1.memory other ≡ w.memory other)
handlers-Apart app claims payload w other n =
    let theirs_at : World → Option Secret2Fa = λ v. v.memory other in
    (
      ap theirs_at (served_world (setup_steps app claims payload w))
          ∙ setup_steps-Keeps theirs_at claims (theirs-IsBlind claims.auth_id other n app) app
              payload w,
      ap theirs_at (served_world (activate_steps app claims payload w))
          ∙ activate_steps-Keeps claims other n app payload w,
      ap theirs_at (served_world (validate_steps app claims payload w))
          ∙ validate-Keeps claims other n app payload w,
      ap theirs_at (served_world (deactivate_steps app claims payload w))
          ∙ deactivate-Keeps claims.auth_id other n app claims payload w,
      ap theirs_at (served_world (validate_backup_steps app claims payload w))
          ∙ validate_backup-Keeps claims.auth_id other n app claims payload w,
    )

-- The setup writes no row, whatever it answers: what it makes is kept in memory only.
pub setup_steps-rows :
    {Otp : Type 0} (app : App Otp) (claims : MyCustomClaims) (payload : AuthPayload) (w : World)
    → (served (setup_steps app claims payload w)).1.rows ≡ w.rows
setup_steps-rows app claims payload w =
    ap (λ (v : World). v.rows) (served_world (setup_steps app claims payload w))
    ∙ setup_steps-Keeps (λ (v : World). v.rows) claims
        (record { puts = λ d v. refl; deletes = λ v. refl; images = λ names v. refl }) app payload w
