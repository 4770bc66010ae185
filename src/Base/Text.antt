-- ===== src/Base/Text.antt =====
-- Bytes, and C strings: a string stands for the bytes before its NUL.
use Prim.Native.Nat.{ℕ, ◌<◌}
use mathlib.Core.Path.{◌≡◌, refl}
use mathlib.Core.Logic.{◌↔◌, ◌≢◌, inl, inr}
use mathlib.Core.Bool.{Bool, true, false, ◌&&◌}
use mathlib.Core.List.{List, [], ◌∷◌, ◌++◌}
use mathlib.Core.Option.{Option, none, some}
use mathlib.Core.Option
use native.Mathlib.Omega.{arith}
use c_chat_rooms_app.Base.Tests.{◌==◌, if◌then◌else◌, Option-cases}
use Prim.Native.Char.{code}
use Prim.Native.String.{String}

abbrev pub Bytes : Type 0
Bytes = List ℕ

-- The bytes of an ASCII literal.
abbrev pub codes : String → Bytes
codes String.[] = []
codes (String.◌∷◌ c s) = code c ∷ codes s

-- `strcmp(a, b) == 0`
unfoldable pub str_eq : Bytes → Bytes → Bool
str_eq [] [] = true
str_eq [] (y ∷ ys) = false
str_eq (x ∷ xs) [] = false
str_eq (x ∷ xs) (y ∷ ys) = x == y && str_eq xs ys

str_eq_sound : (a b : Bytes) → str_eq a b ≡ true → a ≡ b
unfolding str_eq
str_eq_sound [] [] h = refl
str_eq_sound [] (y ∷ ys) h = cc
str_eq_sound (x ∷ xs) [] h = cc
str_eq_sound (x ∷ xs) (y ∷ ys) h = ground (arith, str_eq_sound xs ys)

pub str_eq_refl : (a : Bytes) → str_eq a a ≡ true
unfolding str_eq
str_eq_refl [] = refl
str_eq_refl (x ∷ xs) = ground (arith, str_eq_refl xs)

pub str_eq_iff : (a b : Bytes) → (str_eq a b ≡ true) ↔ (a ≡ b)
str_eq_iff a b = (str_eq_sound a b, λ e. rw e (str_eq_refl b))

-- The string that starts an array, as `strlen` finds its end; `none` if no byte of it is NUL,
-- where the C code reads past the array.
unfoldable pub c_str : Bytes → Option Bytes
c_str [] = none
c_str (x ∷ xs) = if x == 0 then some [] else Option.map (◌∷◌ x) (c_str xs)

-- No byte is NUL.
abbrev pub IsText : Bytes → Type 0
IsText [] = Unit {0}
IsText (x ∷ xs) = (x ≢ 0) × IsText xs

-- An array that holds a string and its NUL reads back as the string.
pub c_str-append : (s rest : Bytes) → IsText s → c_str (s ++ 0 ∷ rest) ≡ some s
unfolding c_str
c_str-append [] rest t = refl
c_str-append (x ∷ xs) rest t = ground (arith, c_str-append xs rest t.1)

pub c_str-IsText : (a s : Bytes) → c_str a ≡ some s → IsText s
unfolding c_str
c_str-IsText [] s e = cc
c_str-IsText (x ∷ xs) s e = elim (Option-cases (c_str xs)) [
  | inl p ↦ ground arith
  | inr (t, p) ↦ ground (arith, c_str-IsText xs t p)
]

-- Every element is a byte.
abbrev pub IsBytes : Bytes → Type 0
IsBytes [] = Unit {0}
IsBytes (x ∷ xs) = (x < 256) × IsBytes xs
