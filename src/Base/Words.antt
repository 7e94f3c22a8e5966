-- ===== src/Base/Words.antt =====
-- Go's functions on strings that the code uses: `strings.Contains`, `strings.Split` on a blank,
-- `strings.TrimSpace` and prefixes.
use Prim.Native.Nat.{ℕ}
use Prim.Native.Char.{Char, char, code, IsScalar}
use Prim.Native.String
use Prim.Native.String.{String}
use mathlib.Core.Path.{◌≡◌, refl}
use mathlib.Core.Bool.{Bool, true, false, ◌&&◌, ◌||◌}
use mathlib.Core.List.{List, [], ◌∷◌}
use native.Mathlib.Omega.{arith}
use wifigo.Base.Tests.{eqb, leb, if◌then◌else◌}
use wifigo.Base.Texts.{◌==◌, concat}

unfoldable pub has_prefix : String → String → Bool
has_prefix s String.[] = true
has_prefix String.[] (String.◌∷◌ c p) = false
has_prefix (String.◌∷◌ d s) (String.◌∷◌ c p) = eqb (code d) (code c) && has_prefix s p

-- `strings.Contains(s, part)`
unfoldable pub contains : String → String → Bool
contains String.[] part = has_prefix "" part
contains (String.◌∷◌ c s) part = has_prefix (String.◌∷◌ c s) part || contains s part

-- A character before the first of the words.
unfoldable pub push : Char → List String → List String
push c [] = String.◌∷◌ c "" ∷ []
push c (w ∷ words) = String.◌∷◌ c w ∷ words

-- `strings.Split(s, " ")`
unfoldable pub split_blank : String → List String
split_blank String.[] = "" ∷ []
split_blank (String.◌∷◌ c s) =
    let words = split_blank s in if eqb (code c) 32 then "" ∷ words else push c words

-- White space of ASCII.
abbrev pub is_white : ℕ → Bool
is_white n = eqb n 32 || (leb 9 n && leb n 13)

unfoldable pub trim_left : String → String
trim_left String.[] = ""
trim_left (String.◌∷◌ c s) =
    let rest = trim_left s in if is_white (code c) then rest else String.◌∷◌ c s

-- A character before a text whose end is trimmed.
unfoldable pub keep : Char → String → String
keep c s = if (s == "") && is_white (code c) then "" else String.◌∷◌ c s

unfoldable pub trim_right : String → String
trim_right String.[] = ""
trim_right (String.◌∷◌ c s) = keep c (trim_right s)

-- `strings.TrimSpace(s)`, on texts whose white space is of ASCII.
abbrev pub trim_space : String → String
trim_space s = trim_right (trim_left s)

unfoldable pub has_blank : String → Bool
has_blank String.[] = false
has_blank (String.◌∷◌ c s) = eqb (code c) 32 || has_blank s

pub split_one : (s : String) → has_blank s ≡ false → split_blank s ≡ s ∷ []
unfolding split_blank has_blank push
split_one String.[] h = refl
split_one (String.◌∷◌ c s) h = ground (arith, split_one s)

concat_cons : (c : Char) (s t : String) → concat (String.◌∷◌ c s) t ≡ String.◌∷◌ c (concat s t)
concat_cons c s t = λ i. String.append.cons c s t i

pub concat_nil : (t : String) → concat "" t ≡ t
concat_nil t = λ i. String.append.nil t i

abbrev pub letter : (n : ℕ) → IsScalar n → String → String
letter n h s = String.◌∷◌ (char n h) s

pub concat-letter :
    (n : ℕ) (h : IsScalar n) (s t : String) → concat (letter n h s) t ≡ letter n h (concat s t)
concat-letter n h s t = concat_cons (char n h) s t

concat_blank : (t : String) → concat " " t ≡ letter 32 tt t
concat_blank t = rw (concat-letter 32 tt "" t, concat_nil t) refl

pub split_two :
    (s t : String) → has_blank s ≡ false → split_blank (concat s (concat " " t)) ≡ s ∷ split_blank t
unfolding split_blank has_blank push
split_two String.[] t h = rw (concat_nil (concat " " t), concat_blank t) refl
split_two (String.◌∷◌ c s) t h = rw (concat_cons c s (concat " " t)) (ground (arith, split_two s t))

-- `"Bearer" + t` contains "Bearer", and is not empty.
concat_bearer :
    (t : String)
    → concat "Bearer" t
      ≡ letter 66 tt
          (letter 101 tt (letter 97 tt (letter 114 tt (letter 101 tt (letter 114 tt t)))))
concat_bearer t =
    rw
      (
        concat-letter 66 tt "earer" t,
        concat-letter 101 tt "arer" t,
        concat-letter 97 tt "rer" t,
        concat-letter 114 tt "er" t,
        concat-letter 101 tt "r" t,
        concat-letter 114 tt "" t,
        concat_nil t,
      )
      refl

pub contains_bearer : (t : String) → contains (concat "Bearer" t) "Bearer" ≡ true
unfolding contains has_prefix
contains_bearer t = rw (concat_bearer t) refl
