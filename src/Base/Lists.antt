-- ===== src/Base/Lists.antt =====
-- Lists over the native numbers, Boolean filters, and maps from texts as association lists.
use Prim.Native.Nat.{ℕ, suc, ◌+◌, ◌≤◌}
use Prim.Native.String.{String}
use mathlib.Core.Path.{◌≡◌, refl, ap}
use mathlib.Core.Bool.{Bool, true, false}
use mathlib.Core.Option.{Option, none, some}
use mathlib.Core.List.{List, [], ◌∷◌, ◌++◌, map}
use native.Mathlib.Omega.{arith}
use wifigo.Base.Tests.{if◌then◌else◌}
use wifigo.Base.Texts.{◌==◌, test_agree, test_exclude}

module _ {ℓ} {A : Type ℓ} where
  abbrev pub length : List A → ℕ
  length [] = 0
  length (x ∷ xs) = suc (length xs)

  pub length-append : (xs ys : List A) → length (xs ++ ys) ≡ length xs + length ys
  length-append [] ys = omega arith
  length-append (x ∷ xs) ys = omega (arith, length-append xs ys)

  pub nil_of_length : (xs : List A) → suc (length xs) ≤ 1 → xs ≡ []
  nil_of_length [] h = refl
  nil_of_length (x ∷ xs) h = absurd (omega arith)

  -- The items that pass a Boolean test, in order.
  abbrev pub filter : (A → Bool) → List A → List A
  filter p [] = []
  filter p (x ∷ xs) = if p x then x ∷ filter p xs else filter p xs

  pub filter-append :
      (p : A → Bool) (xs ys : List A) → filter p (xs ++ ys) ≡ filter p xs ++ filter p ys
  filter-append p [] ys = refl
  filter-append p (x ∷ xs) ys = ground (arith, filter-append p xs ys)

  -- Filtering by two tests, where nothing that the second keeps is wanted by the first.
  pub filter-filter_none :
      (p q : A → Bool) (xs : List A)
      → ((x : A) → q x ≡ true → p x ≡ false)
      → filter p (filter q xs) ≡ []
  filter-filter_none p q [] h = refl
  filter-filter_none p q (x ∷ xs) h = ground (arith, h x, filter-filter_none p q xs h)

  -- Where the second test keeps all that the first wants.
  pub filter-filter_all :
      (p q : A → Bool) (xs : List A)
      → ((x : A) → p x ≡ true → q x ≡ true)
      → filter p (filter q xs) ≡ filter p xs
  filter-filter_all p q [] h = refl
  filter-filter_all p q (x ∷ xs) h = ground (arith, h x, filter-filter_all p q xs h)

pub length-map {ℓ κ} :
    {A : Type ℓ} {B : Type κ} (f : A → B) (xs : List A) → length (map f xs) ≡ length xs
length-map f [] = refl
length-map f (x ∷ xs) = ap suc (length-map f xs)

-- A Go map with text keys, `map[string]V`, as the list of its entries.
module _ {ℓ} {V : Type ℓ} where
  -- `delete(m, key)`
  unfoldable pub erase : String → List (String × V) → List (String × V)
  erase key [] = []
  erase key ((name, x) ∷ entries) =
      if name == key then erase key entries else (name, x) ∷ erase key entries

  -- `m[key] = new`, at the place of the old entry or at the end.
  unfoldable pub insert : String → V → List (String × V) → List (String × V)
  insert key new [] = (key, new) ∷ []
  insert key new ((name, x) ∷ entries) =
      if name == key then (key, new) ∷ entries else (name, x) ∷ insert key new entries

  -- `x, exists := m[key]`
  unfoldable pub lookup : String → List (String × V) → Option V
  lookup key [] = none
  lookup key ((name, x) ∷ entries) = if name == key then some x else lookup key entries

module _ {ℓ} {V : Type ℓ} (key asked : String) where
  pub lookup-erase :
      (entries : List (String × V))
      → lookup asked (erase key entries) ≡ (if key == asked then none else lookup asked entries)
  unfolding lookup erase
  lookup-erase [] = ground arith
  lookup-erase ((name, x) ∷ entries) =
      ground (arith, lookup-erase entries, test_agree name key asked, test_exclude name key asked)

  pub lookup-insert :
      (new : V) (entries : List (String × V))
      → lookup asked (insert key new entries)
        ≡ (if key == asked then some new else lookup asked entries)
  unfolding lookup insert
  lookup-insert new [] = refl
  lookup-insert new ((name, x) ∷ entries) =
      ground
        (arith, lookup-insert new entries, test_agree name key asked, test_exclude name key asked)
