-- ===== src/Base/Texts.antt =====
-- Texts: equality tests and concatenation.
use Prim.Native.String
use Prim.Native.String.{String}
use mathlib.Core.Path.{◌≡◌, refl, sym}
use mathlib.Core.Logic.{◌≢◌, ◌⊎◌, inl, inr}
use mathlib.Core.Bool.{Bool, true, false}
use text.Mathlib.Text.{◌==◌ as str_eq}
use text.Mathlib.TextEquality.{eq_iff as str_eq_iff}

infix 50 ◌==◌
unfoldable pub ◌==◌ : String → String → Bool
a == b = str_eq a b

-- `a + b` on two texts.
abbrev pub concat : String → String → String
concat a b = String.◌++◌ a b

pub eq_of_test : (a b : String) → (a == b) ≡ true → a ≡ b
unfolding ◌==◌
eq_of_test a b h = (str_eq_iff a b).0 h

pub test_of_eq : (a b : String) → a ≡ b → (a == b) ≡ true
unfolding ◌==◌
test_of_eq a b h = (str_eq_iff a b).1 h

pub test_self : (a : String) → (a == a) ≡ true
test_self a = test_of_eq a a refl

pub test_ne : (a b : String) → a ≢ b → (a == b) ≡ false
test_ne a b h = go (a == b) refl
  where
    go : (c : Bool) → (a == b) ≡ c → c ≡ false
    go true e = absurd (h (eq_of_test a b e))
    go false e = refl

pub text-cases : (a b : String) → ((a == b) ≡ true) × (a ≡ b) ⊎ ((a == b) ≡ false) × (a ≢ b)
text-cases a b = go (a == b) refl
  where
    ne : (a == b) ≡ false → a ≢ b
    ne e h = cc (test_of_eq a b h)

    go : (c : Bool) → (a == b) ≡ c → ((a == b) ≡ true) × (a ≡ b) ⊎ ((a == b) ≡ false) × (a ≢ b)
    go true e = inl (e, eq_of_test a b e)
    go false e = inr (e, ne e)

-- Tests against one text and another: equal texts give equal tests, different ones exclude.
pub test_agree : (a k j : String) → (k == j) ≡ true → (a == k) ≡ (a == j)
test_agree a k j h = rw (eq_of_test k j h)

pub test_exclude : (a k j : String) → (k == j) ≡ false → (a == k) ≡ true → (a == j) ≡ false
test_exclude a k j h e = rw (eq_of_test a k e) h

pub test_comm : (a b : String) → (a == b) ≡ false → (b == a) ≡ false
test_comm a b h = test_ne b a (λ e. cc (test_of_eq a b (sym e)))
