-- ===== src/Radius/Attributes/Guard.antt =====
-- What the single-row handlers share: how they end, and the test that opens them.
use wifigo.Base.{ℕ, String, Bool, true, false, ◌≡◌, ◌≢◌, refl, inl, inr, if◌then◌else◌, arith}
use wifigo.Radius.Rows.{Tables}
use wifigo.Radius.Engine.{direct, Engine}
use wifigo.Radius.Queries.{user_exists}
use wifigo.Radius.Transaction.{Response, Flow, Tx, go, stop, query, failed, refuse, stop_if}
use wifigo.Radius.Transaction.Steps.{After, query-After, Ended}
use wifigo.Radius.Transaction.Stops.{Stops, StopsAt, >>=-Stops, query-Stops, stop_if-Stops}
use wifigo.Radius.Attributes.{unguarded, require_user}

-- A handler without a transaction answers `good`, or leaves the tables as they were.
pub unguarded-Ended :
    (good : ℕ) (m : Tx Response)
    → Stops (λ n. n ≢ good) m
    → ((t : Tables) → After m t (λ r _. r.status ≡ good))
    → (t : Tables) → Ended good m t (unguarded m t)
unfolding unguarded
unguarded-Ended good m stops goes t = split (m t) refl (stops t)
  where
    split :
        (f : Flow Response)
        → m t ≡ f
        → StopsAt (λ n. n ≢ good) f
        → Ended good m t (elim f [ go r t' ↦ (r, t') | stop r ↦ (r, t) ])
    split (go r t') h s = inl (goes t r t' h, h)
    split (stop r) h s = inr (s, refl)

stop_if-go : (c : Bool) (r : Response) (t t' : Tables) → stop_if c r t ≡ go tt t' → t' ≡ t
stop_if-go true r t t' h = cc
stop_if-go false r t t' h = ground arith

pub require_user-go :
    (e : Engine) (u : String) (t t' : Tables) → require_user e u t ≡ go tt t' → t' ≡ t
unfolding require_user
require_user-go e u t t' h =
    query-After {P = λ _ v. v ≡ t} (user_exists e direct u)
      (failed "Failed to check if user exists: ") _ t
      (λ exists _ _ v.
        stop_if-go (if exists then false else true) (refuse 404 "User not found") t v)
      tt t' h

pub require_user-Stops :
    (Q : ℕ → Type 0) → Q 500 → Q 404 → (e : Engine) (u : String) → Stops Q (require_user e u)
unfolding require_user
require_user-Stops Q q n e u =
    >>=-Stops Q (query (user_exists e direct u) (failed "Failed to check if user exists: ")) _
      (query-Stops Q _ _ (λ _. q))
      (λ exists. stop_if-Stops Q (if exists then false else true) (refuse 404 "User not found") n)
