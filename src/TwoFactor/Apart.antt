-- ===== src/TwoFactor/Apart.antt =====
-- What the handlers of one account leave of the state of the others.
use wifigo.Base.{
  ℕ, String, Bool, true, false, not, ◌≡◌, refl, ◌∙◌, inl, inr, Option, none, some, List, Bool-cases,
}
use wifigo.Base.Outcome.{Outcome, ok, err}
use wifigo.Jwt.{MyCustomClaims}
use wifigo.TwoFactor.{Auth, Secret2Fa, AuthPayload, World, App}
use wifigo.TwoFactor.Actions.{
  Flow, go, stop, Act, pure, ◌>>=◌, ◌>>◌, stop_if, attempt, is_not_found, row_or, row_if_any,
  some_or, put_memory, del_mem2fa, issue, check_password, remove_image, with_images,
}
use wifigo.TwoFactor.Setup.{setup_checks, keep_secret, setup_steps}

-- The state at the end of a run.
abbrev pub world_of {ℓ} : {A : Type ℓ} → Flow A → World
world_of (go a w) = w
world_of (stop status why w) = w

-- A part of the state that a step leaves as it is, from a state on.
abbrev pub Keeps {ℓ κ} : {X : Type ℓ} {A : Type κ} → (World → X) → Act A → World → Type ℓ
Keeps part m w = part (world_of (m w)) ≡ part w

module _ {ℓ} {X : Type ℓ} (part : World → X) where
  bound-Keeps {κ λ₁} :
      {A : Type κ} {B : Type λ₁} (f : A → Act B) (x : Flow A) (w : World)
      → part (world_of x) ≡ part w
      → ((a : A) (v : World) → Keeps part (f a) v)
      → part (
          world_of
            (elim x as (λ _. Flow B) [ go a v ↦ f a v | stop status why v ↦ stop status why v ]))
        ≡ part w
  bound-Keeps f (go a v) w first rest = rest a v ∙ first
  bound-Keeps f (stop status why v) w first rest = first

  pub >>=-Keeps {κ λ₁} :
      {A : Type κ} {B : Type λ₁} (m : Act A) (f : A → Act B) (w : World)
      → Keeps part m w
      → ((a : A) (v : World) → Keeps part (f a) v)
      → Keeps part (m >>= f) w
  unfolding ◌>>=◌
  >>=-Keeps m f w first rest = bound-Keeps f (m w) w first rest

  pub >>-Keeps {λ₁} :
      {B : Type λ₁} (m : Act (Unit {0})) (k : Act B) (w : World)
      → Keeps part m w
      → ((v : World) → Keeps part k v)
      → Keeps part (m >> k) w
  unfolding ◌>>◌
  >>-Keeps m k w first rest = bound-Keeps (λ _. k) (m w) w first (λ _ v. rest v)

  pub stop_if-Keeps :
      (b : Bool) (status : ℕ) (why : String) (w : World) → Keeps part (stop_if b status why) w
  stop_if-Keeps true status why w = refl
  stop_if-Keeps false status why w = refl

  pub attempt-Keeps {κ} : {A : Type κ} (o : Outcome A) (w : World) → Keeps part (attempt o) w
  attempt-Keeps (ok a) w = refl
  attempt-Keeps (err why) w = refl

  pub some_or-Keeps {κ} :
      {A : Type κ} (o : Option A) (status : ℕ) (why : String) (w : World)
      → Keeps part (some_or o status why) w
  some_or-Keeps (some a) status why w = refl
  some_or-Keeps none status why w = refl

  pub row_or-Keeps {κ} :
      {A : Type κ} (o : Outcome A) (status : ℕ) (why : String) (w : World)
      → Keeps part (row_or o status why) w
  row_or-Keeps (ok a) status why w = refl
  row_or-Keeps (err e) status why w = elim (Bool-cases (is_not_found e)) [
    | inl b ↦ rw b refl
    | inr b ↦ rw b refl
  ]

  pub row_if_any-Keeps {κ} : {A : Type κ} (o : Outcome A) (w : World) → Keeps part (row_if_any o) w
  row_if_any-Keeps (ok a) w = refl
  row_if_any-Keeps (err e) w = elim (Bool-cases (is_not_found e)) [
    | inl b ↦ rw b refl
    | inr b ↦ rw b refl
  ]

  module _ {Otp : Type 0} (app : App Otp) where
    pub check_password-Keeps :
        (status : ℕ) (password : String) (v : Auth) (w : World)
        → Keeps part (check_password app status password v) w
    unfolding check_password
    check_password-Keeps status password v w =
        >>=-Keeps _ _ w (attempt-Keeps _ w) (λ verified x. stop_if-Keeps (not verified) _ _ x)

    pub issue-Keeps :
        (claims : MyCustomClaims) (key : String) (w : World) → Keeps part (issue app claims key) w
    unfolding issue
    issue-Keeps claims key w =
        >>=-Keeps _ _ w (attempt-Keeps _ w)
          (λ a x. >>=-Keeps _ _ x (attempt-Keeps _ x) (λ b y. refl))

    setup_checks-Keeps :
        (claims : MyCustomClaims) (w : World) → Keeps part (setup_checks app claims) w
    unfolding setup_checks
    setup_checks-Keeps claims w = >>-Keeps _ _ w (stop_if-Keeps _ _ _ w) (λ v1.
        >>-Keeps _ _ v1 (stop_if-Keeps _ _ _ v1) (λ v2.
          >>-Keeps _ _ v2 (stop_if-Keeps _ _ _ v2) (λ v3.
            >>=-Keeps _ _ v3 (row_if_any-Keeps _ v3)
              (λ t v4. >>-Keeps _ _ v4 (stop_if-Keeps _ _ _ v4) (λ v5. row_or-Keeps _ _ _ v5)))))

-- A part of the state that neither the images nor the memory of one account concern.
pub record IsBlind {ℓ} {X : Type ℓ} (part : World → X) (id : ℕ) : Type ℓ where
  pub puts : (d : Secret2Fa) (w : World) → Keeps part (put_memory id d) w
  pub deletes : (w : World) → Keeps part (del_mem2fa id) w
  pub images : (names : List String) (w : World) → part (with_images names w) ≡ part w

module _ {ℓ} {X : Type ℓ} (part : World → X) (id : ℕ) (blind : IsBlind part id) {Otp : Type 0}
    (app : App Otp) where
  pub remove_image-Keeps : (image : String) (w : World) → Keeps part (remove_image app image) w
  unfolding remove_image
  remove_image-Keeps image w = split (app.packages.remove_file _) _
    where
      split :
          (o : Option String) (names : List String)
          → part (
              world_of {A = Unit {0}}
                (elim o [ none ↦ go tt (with_images names w) | some why ↦ go tt w ]))
            ≡ part w
      split none names = blind.images names w
      split (some why) names = refl

  keep_secret-Keeps :
      (secret image hash_pass : String) (w : World)
      → Keeps part (keep_secret app id secret image hash_pass) w
  unfolding keep_secret
  keep_secret-Keeps secret image hash_pass w =
      >>-Keeps part _ _ w (old (w.memory id))
        (λ v. >>-Keeps part _ _ v (blind.puts _ v) (λ u. refl))
    where
      old :
          (o : Option Secret2Fa)
          → Keeps part
              (elim o as (λ _. Act (Unit {0})) [
                | none ↦ pure tt
                | some d ↦ remove_image app d.image
              ])
              w
      old none = refl
      old (some d) = remove_image-Keeps d.image w

pub setup_steps-Keeps {ℓ} :
    {X : Type ℓ} (part : World → X) (claims : MyCustomClaims) (blind : IsBlind part claims.auth_id)
    {Otp : Type 0} (app : App Otp) (payload : AuthPayload) (w : World)
    → Keeps part (setup_steps app claims payload) w
unfolding setup_steps
setup_steps-Keeps part claims blind app payload w =
    >>=-Keeps part _ _ w (setup_checks-Keeps part app claims w) (λ a v1.
      >>-Keeps part _ _ v1 (check_password-Keeps part app _ _ _ v1) (λ v2.
        >>=-Keeps part _ _ v2 (attempt-Keeps part _ v2) (λ email v3.
          >>=-Keeps part _ _ v3 (attempt-Keeps part _ v3) (λ otp v4.
            >>=-Keeps part _ _ v4 (attempt-Keeps part _ v4) (λ qr v5.
              >>=-Keeps part _ _ v5 (attempt-Keeps part _ v5) (λ image v6.
                >>-Keeps part _ _ v6 (blind.images _ v6) (λ v7.
                  >>=-Keeps part _ _ v7 (attempt-Keeps part _ v7) (λ hash v8.
                    keep_secret-Keeps part claims.auth_id blind app otp image hash v8))))))))
