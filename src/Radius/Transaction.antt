-- ===== src/Radius/Transaction.antt =====
-- Responses, and the shape that the transactional handlers share: a step either goes on with the
-- working tables, or rolls back and answers the request.
pub mod Steps
pub mod Stops
use wifigo.Base.{
  ℕ, String, Bool, true, false, ◌≡◌, Option, none, some, List, [], ◌∷◌, if◌then◌else◌,
}
use wifigo.Base.Int.{ℤ}
use wifigo.Base.Texts.{concat}
use wifigo.Base.Outcome.{Outcome, ok, err}
use wifigo.Radius.Rows.{Tables, HotspotUser}
use wifigo.Radius.Engine.{Session, tx, Engine}

-- A value of the `gin.H` that a handler returns: `nil` is `null`, and a `*string` is a `pointer`.
pub data Field : Type 0 where
  text : String → Field
  number : ℤ → Field
  details : HotspotUser → Field
  pointer : Option String → Field
  null : Field

pub record Response : Type 0 where
  pub body : List (String × Field)
  pub status : ℕ

-- `gin.H{"error": …}`
abbrev pub refuse : ℕ → String → Response
refuse code why = record { body = ("error", text why) ∷ []; status = code }

-- `gin.H{"error": "…: " + err.Error()}, http.StatusInternalServerError`
abbrev pub failed : String → String → Response
failed what why = refuse 500 (concat what why)

pub data Flow {ℓ} (A : Type ℓ) : Type ℓ where
  go : A → Tables → Flow A
  stop : Response → Flow A

abbrev pub Tx {ℓ} : Type ℓ → Type ℓ
Tx A = Tables → Flow A

abbrev pub pure {ℓ} : {A : Type ℓ} → A → Tx A
pure a t = go a t

infixl 5 ◌>>=◌ ◌>>◌
abbrev pub ◌>>=◌ {ℓ κ} : {A : Type ℓ} {B : Type κ} → Tx A → (A → Tx B) → Tx B
◌>>=◌ m f t = elim (m t) [ go a t' ↦ f a t' | stop r ↦ stop r ]

abbrev pub ◌>>◌ {κ} : {B : Type κ} → Tx (Unit {0}) → Tx B → Tx B
m >> k = m >>= λ _. k

-- A statement that writes, with the answer to its failure.
abbrev pub write : (Tables → Outcome Tables) → (String → Response) → Tx (Unit {0})
write run answer t = elim (run t) [ ok t' ↦ go tt t' | err why ↦ stop (answer why) ]

-- A query, with the answer to its failure.
abbrev pub query {ℓ} : {A : Type ℓ} → (Tables → Outcome A) → (String → Response) → Tx A
query run answer t = elim (run t) [ ok a ↦ go a t | err why ↦ stop (answer why) ]

abbrev pub stop_if : Bool → Response → Tx (Unit {0})
stop_if true r t = stop r
stop_if false r t = go tt t

-- `for _, x := range xs { … }`
unfoldable pub for_each {ℓ} : {A : Type ℓ} → (A → Tx (Unit {0})) → List A → Tx (Unit {0})
for_each f [] = pure tt
for_each f (x ∷ xs) = f x >> for_each f xs

-- What a handler leaves behind: its answer and the tables.
abbrev pub Result : Type 0
Result = Response × Tables

-- The end of a transaction that began at `t₀`: a rollback, or `tx.Commit()`, and a rollback if the
-- commit fails.
unfoldable pub finish : Engine → Tables → Flow Response → Result
finish e t₀ (stop r) = (r, t₀)
finish e t₀ (go r t) = elim (e.commit t₀ t) [
  | none ↦ (r, t)
  | some why ↦ (failed "Failed to commit transaction: " why, t₀)
]

-- `tx := db.Begin()`, and the check of `tx.Error`.
unfoldable pub in_transaction : Engine → (Session → Tx Response) → Tables → Result
unfolding finish
in_transaction e steps t = elim (e.begin t) [
  | none ↦ finish e t (steps (tx none) t)
  | some why ↦ (failed "Failed to start transaction: " why, t)
]
