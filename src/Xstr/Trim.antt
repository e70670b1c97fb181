-- ===== src/Xstr/Trim.antt =====
-- `xstrtrim` and `xstrtrim_crnl` of src/libxstr/xstr.c. The two pointers `startptr` and `endptr`
-- are the index of the first byte to keep and the index just past the last one.
use g7ctrl.Common.{
  All, All-get_or, Bool, Bool-cases, Bytes, [], ap, arith, drop, false, get_or, get_or-drop,
  get_or-nil, get_or-take, if◌then◌else◌, inl, inr, length, length-drop, length-take, refl, suc,
  sym, take, take-append-drop, true, zero, ℕ, ◌++◌, ◌+◌, ◌-◌, ◌<◌, ◌==◌, ◌||◌, ◌∙◌, ◌∷◌, ◌≡◌, ◌≢◌,
  ◌≤◌, ◌⊎◌,
}

abbrev pub is_space : ℕ → Bool
is_space c = c == b' '

abbrev pub is_blank_crnl : ℕ → Bool
is_blank_crnl c = c == b' ' || c == b'\n' || c == b'\r'

-- `while (*startptr == ' ') startptr++`; the NUL ends it.
skip_front : Bytes → ℕ
skip_front [] = 0
skip_front (c ∷ s) = if is_space c then suc (skip_front s) else 0

-- `while (n > 0 && *endptr is trimmed) { --n; --endptr; }`
skip_back : (ℕ → Bool) → Bytes → ℕ → ℕ
skip_back p s zero = zero
skip_back p s (suc n) = elim (p (get_or s n 0)) [ true ↦ skip_back p s n | false ↦ suc n ]

trim_with : (ℕ → Bool) → Bytes → Bytes
trim_with p s =
    let start = skip_front s in
    let stop = skip_back p s (length s) in take (stop - start) (drop start s)

unfoldable pub xstrtrim : Bytes → Bytes
unfolding trim_with skip_front skip_back
xstrtrim s = trim_with is_space s

unfoldable pub xstrtrim_crnl : Bytes → Bytes
unfolding trim_with skip_front skip_back
xstrtrim_crnl s = trim_with is_blank_crnl s

-- The bytes that are cut off in front, and those that are kept or cut off behind.
skip_front_spaces : (s : Bytes) → All (λ c. c ≡ b' ') (take (skip_front s) s)
unfolding skip_front
skip_front_spaces [] = tt
skip_front_spaces (c ∷ s) = ground (arith, skip_front_spaces s)

skip_front_le : (s : Bytes) → skip_front s ≤ length s
unfolding skip_front
skip_front_le [] = omega arith
skip_front_le (c ∷ s) = ground (arith, skip_front_le s)

skip_front_stop : (s : Bytes) → get_or s (skip_front s) 0 ≢ b' '
unfolding skip_front
skip_front_stop [] = omega arith
skip_front_stop (c ∷ s) = ground (arith, skip_front_stop s)

skip_back_le : (p : ℕ → Bool) (s : Bytes) (n : ℕ) → skip_back p s n ≤ n
unfolding skip_back
skip_back_le p s zero = omega arith
skip_back_le p s (suc n) = ground (arith, skip_back_le p s n)

-- The scan stops at the start, or just behind a byte that it keeps.
skip_back_stop :
    (p : ℕ → Bool) (s : Bytes) (n : ℕ)
    → 0 < skip_back p s n
    → p (get_or s (skip_back p s n - 1) 0) ≡ false
unfolding skip_back
skip_back_stop p s zero h = absurd (omega arith)
skip_back_stop p s (suc n) h = ground (arith, skip_back_stop p s n)

skip_back_all :
    (p : ℕ → Bool) (s : Bytes) (n i : ℕ) → skip_back p s n ≤ i → i < n → p (get_or s i 0) ≡ true
unfolding skip_back
skip_back_all p s zero i h lt = absurd (omega arith)
skip_back_all p s (suc n) i h lt = elim (Bool-cases (i == n)) [
  | inl e ↦ ground arith
  | inr e ↦ ground (arith, skip_back_all p s n i)
]

-- `s` is `t` between a run of spaces and a run of trimmed bytes, and `t` neither starts with a
-- space nor ends with a trimmed byte.
pub record IsTrimmed (p : ℕ → Bool) (s t : Bytes) : Type 0 where
  pub front : Bytes
  pub back : Bytes
  pub parts : s ≡ front ++ (t ++ back)
  pub front_spaces : All (λ c. c ≡ b' ') front
  pub back_trimmed : All (λ c. p c ≡ true) back
  pub starts : get_or t 0 0 ≢ b' '
  pub ends : (t ≡ []) ⊎ (p (get_or t (length t - 1) 0) ≡ false)

nonempty_or {ℓ} : {P : Type ℓ} (t : Bytes) → (0 < length t → P) → (t ≡ []) ⊎ P
nonempty_or [] h = inl refl
nonempty_or (c ∷ t) h = inr (h (omega arith))

module _ (p : ℕ → Bool) (s : Bytes) where
  abbrev start : ℕ
  start = skip_front s

  abbrev stop : ℕ
  stop = skip_back p s (length s)

  trim_back : All (λ c. p c ≡ true) (drop (stop - start) (drop start s))
  trim_back =
      All-get_or (λ c. p c ≡ true) (drop (stop - start) (drop start s)) 0
        λ i lt.
          rw (get_or-drop, get_or-drop)
            (skip_back_all p s (length s) (start + (stop - start + i)) (omega arith)
              (omega (arith, length-drop (stop - start) (drop start s), length-drop start s)))

  trim_get : (i : ℕ) → i < stop - start → get_or (trim_with p s) i 0 ≡ get_or s (start + i) 0
  unfolding trim_with
  trim_get i h = get_or-take (stop - start) i (drop start s) 0 h ∙ get_or-drop start i s 0

  length-trim : length (trim_with p s) ≡ stop - start
  unfolding trim_with
  length-trim = omega (
    arith,
    length-take (stop - start) (drop start s),
    length-drop start s,
    skip_back_le p s (length s),
  )

  trim_first : 0 < stop - start → get_or (trim_with p s) 0 0 ≡ get_or s start 0
  trim_first h = trim_get 0 h ∙ ap (λ k. get_or s k 0) {x = start + 0} {y = start} (omega arith)

  trim_starts : get_or (trim_with p s) 0 0 ≢ b' '
  trim_starts =
      ground (arith, trim_first, length-trim, skip_front_stop s, get_or-nil (trim_with p s) 0 0)

  trim_ends :
      0 < length (trim_with p s) → p (get_or (trim_with p s) (length (trim_with p s) - 1) 0) ≡ false
  trim_ends h =
      let pos : 0 < stop - start = omega (arith, length-trim) in
      rw (length-trim, trim_get (stop - start - 1) (omega arith))
        (rw (index pos) (skip_back_stop p s (length s) (omega arith)))
    where
      index : 0 < stop - start → start + (stop - start - 1) ≡ stop - 1
      index h = omega arith

  trim_with_lem : IsTrimmed p s (trim_with p s)
  unfolding trim_with
  trim_with_lem = record {
    front = take start s;
    back = drop (stop - start) (drop start s);
    parts = sym (
        ap (λ l. take start s ++ l) (take-append-drop (stop - start) (drop start s))
        ∙ take-append-drop start s);
    front_spaces = skip_front_spaces s;
    back_trimmed = trim_back;
    starts = trim_starts;
    ends = nonempty_or (trim_with p s) trim_ends;
  }

-- `xstrtrim` takes off exactly a run of spaces in front and a run of spaces behind: what it leaves
-- neither starts nor ends with a space.
pub xstrtrim_lem : (s : Bytes) → IsTrimmed is_space s (xstrtrim s)
unfolding xstrtrim
xstrtrim_lem s = trim_with_lem is_space s

-- `xstrtrim_crnl` takes off a run of spaces in front, and a run of spaces, line feeds and carriage
-- returns behind; what it leaves neither starts with a space nor ends with one of the three.
pub xstrtrim_crnl_lem : (s : Bytes) → IsTrimmed is_blank_crnl s (xstrtrim_crnl s)
unfolding xstrtrim_crnl
xstrtrim_crnl_lem s = trim_with_lem is_blank_crnl s
