-- ===== src/Common/Strings.antt =====
-- Bytes, text literals and string comparison of the C library.
use Prim.Native.Nat.{ℕ, ◌<◌}
use Prim.Native.Char.{code}
use Prim.Native.String.{String}
use mathlib.Core.Bool.{Bool, true, false, ◌&&◌, false≢true}
use mathlib.Core.Path.{◌≡◌, refl, sym, ap, ◌∙◌}
use mathlib.Core.Logic.{◌≢◌, ◌⊎◌, inl, inr}
use mathlib.Core.List.{List, [], ◌∷◌}
use native.Mathlib.Omega.{arith}
use g7ctrl.Common.Tests.{ltb, ◌==◌, if◌then◌else◌, Bool-cases}

abbrev pub Bytes : Type 0
Bytes = List ℕ

-- A byte of a C string: not the NUL.
abbrev pub IsChar : ℕ → Type 0
IsChar c = (0 < c) × (c < 256)

-- The bytes of an ASCII literal.
abbrev pub codes : String → Bytes
codes String.[] = []
codes (String.◌∷◌ c s) = code c ∷ codes s

-- The return codes of functions that answer 0 or -1.
pub data Rc : Type 0 where
  success failure : Rc

pub Rc-cases : (r : Rc) → (r ≡ success) ⊎ (r ≡ failure)
Rc-cases success = inl refl
Rc-cases failure = inr refl

-- `! *s`
abbrev pub at_end : Bytes → Bool
at_end [] = true
at_end (c ∷ s) = false

-- `strcmp(a, b) == 0`
unfoldable pub str_eq : Bytes → Bytes → Bool
str_eq [] [] = true
str_eq [] (d ∷ b) = false
str_eq (c ∷ a) [] = false
str_eq (c ∷ a) (d ∷ b) = c == d && str_eq a b

pub str_eq_refl : (a : Bytes) → str_eq a a ≡ true
unfolding str_eq
str_eq_refl [] = refl
str_eq_refl (c ∷ a) = ground (arith, str_eq_refl a)

pub str_eq→eq : (a b : Bytes) → str_eq a b ≡ true → a ≡ b
unfolding str_eq
str_eq→eq [] [] h = refl
str_eq→eq [] (d ∷ b) h = cc
str_eq→eq (c ∷ a) [] h = cc
str_eq→eq (c ∷ a) (d ∷ b) h = ground (arith, str_eq→eq a b)

pub str_eq_ne : (a b : Bytes) → a ≢ b → str_eq a b ≡ false
str_eq_ne a b h = ground (arith, str_eq→eq a b)

pub str_eq-ne : (a b : Bytes) → str_eq a b ≡ false → a ≢ b
str_eq-ne a b h e = false≢true (sym h ∙ ap (str_eq a) (sym e) ∙ str_eq_refl a)

pub str_eq_comm : (a b : Bytes) → str_eq a b ≡ str_eq b a
unfolding str_eq
str_eq_comm [] [] = refl
str_eq_comm [] (d ∷ b) = refl
str_eq_comm (c ∷ a) [] = refl
str_eq_comm (c ∷ a) (d ∷ b) = ground (arith, str_eq_comm a b)

-- A comparison, with what its result says of the strings.
pub str_eq_cases :
    (a b : Bytes) → ((str_eq a b ≡ true) × (a ≡ b)) ⊎ ((str_eq a b ≡ false) × (a ≢ b))
str_eq_cases a b = elim (Bool-cases (str_eq a b)) [
  | inl e ↦ inl (e, str_eq→eq a b e)
  | inr e ↦ inr (e, λ q. false≢true (sym e ∙ ap (str_eq a) (sym q) ∙ str_eq_refl a))
]

-- `strcmp(a, b) < 0`: the first byte that differs decides.
unfoldable pub str_lt : Bytes → Bytes → Bool
str_lt a [] = false
str_lt [] (d ∷ b) = true
str_lt (c ∷ a) (d ∷ b) = if c == d then str_lt a b else ltb c d

-- The C string at a pointer into memory.
unfoldable pub cstr : Bytes → Bytes
cstr [] = []
cstr (c ∷ p) = if c == 0 then [] else c ∷ cstr p
