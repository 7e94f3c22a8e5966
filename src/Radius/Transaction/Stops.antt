-- ===== src/Radius/Transaction/Stops.antt =====
-- Which status codes the steps of a transaction answer with where they stop.
use wifigo.Base.{ℕ, String, Bool, true, false, List, [], ◌∷◌}
use wifigo.Base.Outcome.{Outcome, ok, err}
use wifigo.Radius.Rows.{Tables}
use wifigo.Radius.Transaction.{
  Response, Flow, go, stop, Tx, pure, ◌>>=◌, ◌>>◌, write, query, stop_if, for_each,
}

-- If this stops, the status of the answer satisfies `Q`.
abbrev pub StopsAt {ℓ} : {A : Type ℓ} → (ℕ → Type 0) → Flow A → Type 0
StopsAt Q (go a t) = Unit
StopsAt Q (stop r) = Q r.status

abbrev pub Stops {ℓ} : {A : Type ℓ} → (ℕ → Type 0) → Tx A → Type 0
Stops Q m = (t : Tables) → StopsAt Q (m t)

module _ (Q : ℕ → Type 0) where
  pub pure-Stops {ℓ} : {B : Type ℓ} (b : B) → Stops Q (pure b)
  pure-Stops b t = tt

  pub >>=-Stops {ℓ κ} :
      {A : Type ℓ} {B : Type κ} (m : Tx A) (f : A → Tx B)
      → Stops Q m
      → ((a : A) → Stops Q (f a))
      → Stops Q (m >>= f)
  >>=-Stops {A} m f first rest t = split (m t) (first t)
    where
      split : (x : Flow A) → StopsAt Q x → StopsAt Q (elim x [ go a u ↦ f a u | stop r ↦ stop r ])
      split (go a u) q = rest a u
      split (stop r) q = q

  pub query-Stops {ℓ} :
      {A : Type ℓ} (run : Tables → Outcome A) (answer : String → Response)
      → ((why : String) → Q (answer why).status)
      → Stops Q (query run answer)
  query-Stops {A} run answer bad t = split (run t)
    where
      split : (o : Outcome A) → StopsAt Q (elim o [ ok a ↦ go a t | err why ↦ stop (answer why) ])
      split (ok a) = tt
      split (err why) = bad why

  pub write-Stops :
      (run : Tables → Outcome Tables) (answer : String → Response)
      → ((why : String) → Q (answer why).status)
      → Stops Q (write run answer)
  write-Stops run answer bad t = split (run t)
    where
      split :
          (o : Outcome Tables)
          → StopsAt {0} Q (elim o [ ok u ↦ go tt u | err why ↦ stop (answer why) ])
      split (ok u) = tt
      split (err why) = bad why

  pub >>-Stops {κ} :
      {B : Type κ} (m : Tx (Unit {0})) (k : Tx B) → Stops Q m → Stops Q k → Stops Q (m >> k)
  >>-Stops m k first rest = >>=-Stops m (λ _. k) first (λ _. rest)

  pub stop_if-Stops : (c : Bool) (x : Response) → Q x.status → Stops Q (stop_if c x)
  stop_if-Stops true x q t = q
  stop_if-Stops false x q t = tt

  pub for_each-Stops {ℓ} :
      {A : Type ℓ} (f : A → Tx (Unit {0})) (xs : List A)
      → ((x : A) → Stops Q (f x))
      → Stops Q (for_each f xs)
  unfolding for_each
  for_each-Stops f [] h = pure-Stops {0} tt
  for_each-Stops f (x ∷ xs) h = >>-Stops (f x) (for_each f xs) (h x) (for_each-Stops f xs h)
