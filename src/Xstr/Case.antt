-- ===== src/Xstr/Case.antt =====
-- `xstrtolower` and `xstricmp` of src/libxstr/xstr.c: lower case, and comparison without regard to case.
-- `tolower` is that of the C locale.
use g7ctrl.Common.{
  Bool, Bytes, Rc, [], ap, arith, failure, false, if◌then◌else◌, leb, length, ltb, map, refl,
  str_eq, suc, success, zero, ℕ, ◌&&◌, ◌+◌, ◌-◌, ◌<◌, ◌==◌, ◌||◌, ◌∷◌, ◌≡◌, ◌≤◌,
}
use g7ctrl.Common.Int.{ℤ, pos, negsuc}

abbrev pub tolower : ℕ → ℕ
tolower c = if leb b'A' c && leb c b'Z' then c + 32 else c

abbrev pub safetylimit : ℕ
safetylimit = 4096

-- `while (--safetylimit > 0 && (*s = tolower(*s)))`, with the limit after the decrement.
pub lower_loop : ℕ → Bytes → Rc × Bytes
lower_loop zero s = (failure, s)
lower_loop (suc n) [] = (success, [])
lower_loop (suc n) (c ∷ s) = let r = lower_loop n s in (r.0, tolower c ∷ r.1)

unfoldable pub xstrtolower : Bytes → Rc × Bytes
unfolding lower_loop
xstrtolower s = lower_loop (safetylimit - 1) s

-- The sign of `strncmp`; the limit is longer than both strings.
pub strcmp_sign : Bytes → Bytes → ℤ
strcmp_sign [] [] = pos 0
strcmp_sign [] (d ∷ b) = negsuc 0
strcmp_sign (c ∷ a) [] = pos 1
strcmp_sign (c ∷ a) (d ∷ b) =
    if c == d then strcmp_sign a b else if ltb c d then negsuc 0 else pos 1

-- The sign of the result.
unfoldable pub xstricmp : Bytes → Bytes → ℤ
unfolding xstrtolower strcmp_sign
xstricmp s1 s2 =
    if leb safetylimit (length s1) || leb safetylimit (length s2)
    then negsuc 0
    else strcmp_sign (xstrtolower s1).1 (xstrtolower s2).1

lower_loop-map : (n : ℕ) (s : Bytes) → length s ≤ n → (lower_loop n s).1 ≡ map tolower s
unfolding lower_loop
lower_loop-map zero [] h = refl
lower_loop-map zero (c ∷ s) h = absurd (omega arith)
lower_loop-map (suc n) [] h = refl
lower_loop-map (suc n) (c ∷ s) h = ap (λ l. tolower c ∷ l) (lower_loop-map n s (omega arith))

abbrev pub is_zero : ℤ → Bool
is_zero (pos n) = n == 0
is_zero (negsuc n) = false

strcmp_zero : (a b : Bytes) → is_zero (strcmp_sign a b) ≡ str_eq a b
unfolding strcmp_sign str_eq
strcmp_zero [] [] = refl
strcmp_zero [] (d ∷ b) = refl
strcmp_zero (c ∷ a) [] = refl
strcmp_zero (c ∷ a) (d ∷ b) = ground (arith, strcmp_zero a b)

-- Below 4096 bytes the comparison answers 0 exactly for texts that are equal in lower case.
pub xstricmp_equal :
    (s1 s2 : Bytes)
    → length s1 < 4096
    → length s2 < 4096
    → is_zero (xstricmp s1 s2) ≡ str_eq (map tolower s1) (map tolower s2)
unfolding xstricmp xstrtolower
xstricmp_equal s1 s2 h k =
    let a : leb safetylimit (length s1) ≡ false = ground arith in
    let b : leb safetylimit (length s2) ≡ false = ground arith in
    rw (a, b, lower_loop-map 4095 s1 (omega arith), lower_loop-map 4095 s2 (omega arith))
      (strcmp_zero (map tolower s1) (map tolower s2))
