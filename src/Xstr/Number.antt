-- ===== src/Xstr/Number.antt =====
-- `xatoi` of src/libxstr/xstr.c, with what it uses of `strtol`. A value of `int` is an integer.
-- The second part of a result is whether `errno` is ERANGE afterwards.
use g7ctrl.Common.Int.{ℤ, pos, negsuc}
use g7ctrl.Common.{
  All, Bool, Bytes, [], arith, false, if◌then◌else◌, leb, ltb, not, refl, true, ℕ, ◌%◌, ◌&&◌, ◌*◌,
  ◌+◌, ◌-◌, ◌==◌, ◌^◌, ◌||◌, ◌∷◌, ◌≡◌,
}

abbrev long_max : ℕ
long_max = 2 ^ 63 - 1

abbrev pub is_digit : ℕ → Bool
is_digit c = leb b'0' c && leb c b'9'

-- The number that decimal digits spell behind `n`.
abbrev pub value : ℕ → Bytes → ℕ
value n [] = n
value n (c ∷ s) = value (n * 10 + (c - b'0')) s

-- The loop of `xatoi` over `isDigit`.
all_digits : Bytes → Bool
all_digits [] = true
all_digits (c ∷ s) = is_digit c && all_digits s

-- `strtol(str, &endptr, 10)` on a string of digits: it clamps to LONG_MAX and sets ERANGE.
strtol_digits : Bytes → ℕ × Bool
strtol_digits s = if ltb long_max (value 0 s) then (long_max, true) else (value 0 s, false)

-- `(int) val` for a `long` that is not negative.
abbrev pub to_int : ℕ → ℤ
to_int v = let w = v % 2 ^ 32 in if ltb w (2 ^ 31) then pos w else negsuc (2 ^ 32 - w - 1)

unfoldable pub xatoi : Bytes → ℤ × Bool
unfolding all_digits strtol_digits
xatoi str =
    if not (all_digits str)
    then (pos 0, true)
    else let (val, erange) = strtol_digits str in
      (to_int (if erange && val == long_max then 0 else val), erange)

abbrev pub AllDigits : Bytes → Type 0
AllDigits = All (λ c. is_digit c ≡ true)

all_digits_of : (s : Bytes) → AllDigits s → all_digits s ≡ true
unfolding all_digits
all_digits_of [] h = refl
all_digits_of (c ∷ s) h = ground (arith, all_digits_of s h.1)

all_digits_sound : (s : Bytes) → all_digits s ≡ true → AllDigits s
unfolding all_digits
all_digits_sound [] h = tt
all_digits_sound (c ∷ s) h = ground (arith, all_digits_sound s)

-- A string of digits is read as the number that it spells, modulo 2 ^ 32 as a signed `int`; from
-- 2 ^ 63 on the result is 0 and `errno` is ERANGE, and below it `errno` is 0.
pub xatoi_digits :
    (s : Bytes)
    → AllDigits s
    → xatoi s ≡ (if ltb (value 0 s) (2 ^ 63) then (to_int (value 0 s), false) else (pos 0, true))
unfolding xatoi
xatoi_digits s h = ground (arith, all_digits_of s h)

-- A string with a byte that is no digit, a sign or a space among them, gives 0 and ERANGE.
pub xatoi_refuses : (s : Bytes) → ¬ AllDigits s → xatoi s ≡ (pos 0, true)
unfolding xatoi
xatoi_refuses s h = ground (arith, all_digits_sound s)

-- What `strtol` skips: the bytes of `isspace` in the C locale.
pub skip_space : Bytes → Bytes
skip_space [] = []
skip_space (c ∷ s) = if c == b' ' || (leb 9 c && leb c 13) then skip_space s else c ∷ s

pub digits_of : Bytes → Bytes
digits_of [] = []
digits_of (c ∷ s) = if is_digit c then c ∷ digits_of s else []

-- `n` and the sign, as `strtol` clamps them, and whether it sets ERANGE.
abbrev pub clamp : Bool → ℕ → ℤ × Bool
clamp false n = if ltb long_max n then (pos long_max, true) else (pos n, false)
clamp true n =
    if ltb (2 ^ 63) n
    then (negsuc long_max, true)
    else if n == 0
    then (pos 0, false)
    else (negsuc (n - 1), false)

pub strtol_signed : Bytes → ℤ × Bool
unfolding digits_of
strtol_signed [] = (pos 0, false)
strtol_signed (c ∷ s) =
    if c == b'-'
    then clamp true (value 0 (digits_of s))
    else if c == b'+'
    then clamp false (value 0 (digits_of s))
    else clamp false (value 0 (digits_of (c ∷ s)))

-- Out of range the value is 0. Where no number is read `strtol` has given 0 already.
unfoldable pub xatol : Bytes → ℤ × Bool
unfolding skip_space strtol_signed
xatol str =
    let (val, erange) = strtol_signed (skip_space str) in (if erange then pos 0 else val, erange)

-- `(unsigned) val`
abbrev pub to_unsigned : ℤ → ℕ
to_unsigned (pos n) = n % 2 ^ 32
to_unsigned (negsuc n) = (2 ^ 32 - 1 - n % 2 ^ 32) % 2 ^ 32
