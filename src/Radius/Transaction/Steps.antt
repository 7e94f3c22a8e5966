-- ===== src/Radius/Transaction/Steps.antt =====
-- How a transaction ends, and what its steps have done where they all went on.
use wifigo.Base.{
  ℕ, ◌≢◌, sym, String, Bool, true, false, ◌≡◌, refl, ◌⊎◌, inl, inr, Option, none, some, List, [],
  ◌∷◌, arith,
}
use wifigo.Base.Outcome.{Outcome, ok, err}
use wifigo.Radius.Rows.{Tables}
use wifigo.Radius.Engine.{Session, tx, Engine}
use wifigo.Radius.Transaction.{
  Response, Flow, go, stop, Tx, ◌>>=◌, ◌>>◌, write, query, stop_if, for_each, Result,
  in_transaction, finish, failed,
}
use wifigo.Radius.Transaction.Stops.{Stops, StopsAt}

-- What holds after steps that went on.
abbrev pub After {ℓ κ} : {A : Type ℓ} → Tx A → Tables → (A → Tables → Type κ) → Type (ℓ ⊔ κ)
After {A} m t P = (a : A) (t' : Tables) → m t ≡ go a t' → P a t'

-- One step after another.
pub >>=-After {ℓ κ λ₁} :
    {A : Type ℓ} {B : Type κ} {P : B → Tables → Type λ₁} (m : Tx A) (f : A → Tx B) (t : Tables)
    → After m t (λ a u. After (f a) u P)
    → After (m >>= f) t P
>>=-After {A} {P} m f t rest b t' h = split (m t) refl
  where
    split : (r : Flow A) → m t ≡ r → P b t'
    split (go a u) e = rest a u e b t' (rw (e, ◌>>=◌) at h)
    split (stop r) e = absurd (cc (rw (e, ◌>>=◌) at h))

pub write-go :
    (run : Tables → Outcome Tables) (answer : String → Response) (t : Tables) {x : Unit {0}}
    {t' : Tables}
    → write run answer t ≡ go x t'
    → run t ≡ ok t'
write-go run answer t h = ground arith

pub query-go {ℓ} :
    {A : Type ℓ} (run : Tables → Outcome A) (answer : String → Response) (t : Tables) {a : A}
    {t' : Tables}
    → query run answer t ≡ go a t'
    → (run t ≡ ok a) × (t' ≡ t)
query-go run answer t h = ground arith

-- A list of changes, made from left to right.
unfoldable pub apply_all {ℓ} : {A : Type ℓ} → (A → Tables → Tables) → List A → Tables → Tables
apply_all g [] t = t
apply_all g (x ∷ xs) t = apply_all g xs (g x t)

-- A loop that went through has made all its changes.
pub for_each-After {ℓ} :
    {A : Type ℓ} (f : A → Tx (Unit {0})) (g : A → Tables → Tables)
    → ((x : A) (t : Tables) → After (f x) t (λ _ t'. t' ≡ g x t))
    → (xs : List A) (t : Tables) → After (for_each f xs) t (λ _ t'. t' ≡ apply_all g xs t)
unfolding for_each apply_all
for_each-After f g step [] t _ t' h = ground arith
for_each-After f g step (x ∷ xs) t _ t' h =
    >>=-After {P = λ _ w. w ≡ apply_all g xs (g x t)} (f x) (λ _. for_each f xs) t
      (λ _ u first _ v rest. rw (← step x t tt u first) (for_each-After f g step xs u tt v rest)) tt
      t' h

module _ {ℓ κ} {B : Type ℓ} {P : B → Tables → Type κ} where
  pub query-After {λ₁} :
      {A : Type λ₁} (run : Tables → Outcome A) (answer : String → Response) (f : A → Tx B)
      (t : Tables)
      → ((a : A) → run t ≡ ok a → After (f a) t P)
      → After (query run answer >>= f) t P
  query-After {A} run answer f t rest b t' h = split (run t) refl
    where
      split : (o : Outcome A) → run t ≡ o → P b t'
      split (ok a) e = rest a e b t' (rw (e, ◌>>=◌) at h)
      split (err why) e = absurd (cc (rw (e, ◌>>=◌) at h))

  pub write-After :
      (run : Tables → Outcome Tables) (answer : String → Response) (k : Tx B) (t : Tables)
      → ((u : Tables) → run t ≡ ok u → After k u P)
      → After (write run answer >> k) t P
  write-After run answer k t rest b t' h = split (run t) refl
    where
      split : (o : Outcome Tables) → run t ≡ o → P b t'
      split (ok u) e = rest u e b t' (rw (e, ◌>>=◌) at h)
      split (err why) e = absurd (cc (rw (e, ◌>>=◌) at h))

  pub stop_if-After :
      (c : Bool) (r : Response) (k : Tx B) (t : Tables)
      → (c ≡ false → After k t P)
      → After (stop_if c r >> k) t P
  stop_if-After true r k t rest b t' h = cc
  stop_if-After false r k t rest b t' h = rest refl b t' h

-- How a transaction ends whose steps answer with the status `good` where they go on, and with
-- another one where they stop: it is committed and answers `good`, or it changes nothing.
abbrev pub Ended : ℕ → Tx Response → Tables → Result → Type 0
Ended good m t (r, t') = ((r.status ≡ good) × (m t ≡ go r t')) ⊎ ((r.status ≢ good) × (t' ≡ t))

module _ (e : Engine) (good : ℕ) (other : good ≢ 500) (m : Tx Response)
    (stops : Stops (λ n. n ≢ good) m)
    (goes : (t : Tables) → After m t (λ r _. r.status ≡ good)) where
  pub finish-Ended : (t : Tables) → Ended good m t (finish e t (m t))
  unfolding finish
  finish-Ended t = split (m t) refl (stops t)
    where
      committed :
          (c : Option String) (r : Response) (t' : Tables)
          → m t ≡ go r t'
          → Ended good m t (elim c [
            | none ↦ (r, t')
            | some why ↦ (failed "Failed to commit transaction: " why, t)
          ])
      committed none r t' h = inl (goes t r t' h, h)
      committed (some why) r t' h = inr ((λ h. other (sym h)), refl)

      split :
          (f : Flow Response) → m t ≡ f → StopsAt (λ n. n ≢ good) f → Ended good m t (finish e t f)
      split (stop r) h s = inr (s, refl)
      split (go r t') h s = committed (e.commit t t') r t' h

pub in_transaction-Ended :
    (e : Engine) (good : ℕ)
    → good ≢ 500
    → (steps : Session → Tx Response) → Stops (λ n. n ≢ good) (steps (tx none))
    → ((t : Tables) → After (steps (tx none)) t (λ r _. r.status ≡ good))
    → (t : Tables) → Ended good (steps (tx none)) t (in_transaction e steps t)
unfolding in_transaction
in_transaction-Ended e good other steps stops goes t = begun (e.begin t)
  where
    begun :
        (b : Option String)
        → Ended good (steps (tx none)) t (elim b [
          | none ↦ finish e t (steps (tx none) t)
          | some why ↦ (failed "Failed to start transaction: " why, t)
        ])
    begun none = finish-Ended e good other (steps (tx none)) stops goes t
    begun (some why) = inr ((λ h. other (sym h)), refl)

abbrev pub StatusIs : (ℕ → Type 0) → Result → Type 0
StatusIs Q (r, _) = Q r.status

-- What holds of every status that the steps answer with, and of 500, holds of the answer.
pub in_transaction-status :
    (Q : ℕ → Type 0)
    → Q 500
    → (e : Engine) (steps : Session → Tx Response) (t : Tables) → StopsAt Q (steps (tx none) t)
    → After (steps (tx none)) t (λ r _. Q r.status)
    → StatusIs Q (in_transaction e steps t)
unfolding in_transaction finish
in_transaction-status Q q e steps t stops goes = begun (e.begin t)
  where
    committed :
        (c : Option String) (r : Response) (t' : Tables)
        → Q r.status
        → StatusIs Q (elim c [
          | none ↦ (r, t')
          | some why ↦ (failed "Failed to commit transaction: " why, t)
        ])
    committed none r t' k = k
    committed (some why) r t' k = q

    ended : (f : Flow Response) → steps (tx none) t ≡ f → StopsAt Q f → StatusIs Q (finish e t f)
    ended (stop r) h s = s
    ended (go r t') h s = committed (e.commit t t') r t' (goes r t' h)

    begun :
        (b : Option String)
        → StatusIs Q (elim b [
          | none ↦ finish e t (steps (tx none) t)
          | some why ↦ (failed "Failed to start transaction: " why, t)
        ])
    begun none = ended (steps (tx none) t) refl stops
    begun (some why) = q
