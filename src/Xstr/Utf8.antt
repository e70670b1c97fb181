-- ===== src/Xstr/Utf8.antt =====
-- The functions of src/libxstr/xstr.c on UTF-8 strings that count characters: `xmb_offset`,
-- `xmb_charnum`, `xmb_inc`, `xmb_dec`, `xmb_strncpy` and `xmb_strncat`. A byte at or past the end is the NUL.
pub mod Whole
use g7ctrl.Common.{
  Bool, Bool-cases, Bytes, ap, arith, false, get_or, if◌then◌else◌, inl, inr, leb, length,
  length-append, length-take, ltb, ltb→lt, lt→ltb, not, refl, suc, take, true, zero, ℕ, ◌&&◌, ◌++◌,
  ◌+◌, ◌-◌, ◌/◌, ◌<◌, ◌==◌, ◌||◌, ◌∙◌, ◌≡◌, ◌≤◌, ◌⊎◌,
}

-- `isutf(c)`, that is `((c) & 0xc0) != 0x80`: not a continuation byte.
abbrev isutf : ℕ → Bool
isutf c = not (c / 64 == 2)

abbrev pub isutf_at : Bytes → ℕ → Bool
isutf_at s i = isutf (get_or s i 0)

-- `isutf(s[++i]) || isutf(s[++i]) || isutf(s[++i]) || ++i`
unfoldable pub xmb_inc : Bytes → ℕ → ℕ
xmb_inc s i =
    if isutf_at s (i + 1)
    then i + 1
    else if isutf_at s (i + 2)
    then i + 2
    else if isutf_at s (i + 3)
    then i + 3
    else i + 4

-- `isutf(s[--i]) || isutf(s[--i]) || isutf(s[--i]) || --i`. The source reads before the string when no
-- byte below `i` begins a character; here the index stops at 0.
unfoldable pub xmb_dec : Bytes → ℕ → ℕ
xmb_dec s i =
    if isutf_at s (i - 1)
    then i - 1
    else if isutf_at s (i - 2)
    then i - 2
    else if isutf_at s (i - 3)
    then i - 3
    else i - 4

-- `while (charnum > 0 && s[offs])`
pub offset_from : Bytes → ℕ → ℕ → ℕ
offset_from s zero offs = offs
offset_from s (suc charnum) offs =
    let rest = offset_from s charnum (xmb_inc s offs) in if get_or s offs 0 == 0 then offs else rest

unfoldable pub xmb_offset : Bytes → ℕ → ℕ
unfolding offset_from
xmb_offset s charnum = offset_from s charnum 0

-- `while (offs < offset && s[offs])`. Each round moves `offs`, so `offset` rounds are enough.
pub charnum_from : ℕ → Bytes → ℕ → ℕ → ℕ
charnum_from zero s offset offs = 0
charnum_from (suc fuel) s offset offs =
    let rest = charnum_from fuel s offset (xmb_inc s offs) in
    if ltb offs offset && not (get_or s offs 0 == 0) then suc rest else 0

unfoldable pub xmb_charnum : Bytes → ℕ → ℕ
unfolding charnum_from
xmb_charnum s offset = charnum_from offset s offset 0

-- What `s1` holds: the bytes of `s2` up to the index.
unfoldable pub xmb_strncpy : Bytes → ℕ → Bytes
unfolding xmb_charnum xmb_offset xmb_dec
xmb_strncpy s2 maxbuff =
    let byteidx = xmb_offset s2 (xmb_charnum s2 maxbuff) in
    take (if leb maxbuff byteidx then xmb_dec s2 byteidx else byteidx) s2

-- What `dest` holds; `strlen(dest)` is its length.
unfoldable pub xmb_strncat : Bytes → Bytes → ℕ → Bytes
xmb_strncat dest src maxlen =
    if maxlen == 0 || leb (maxlen - 1) (length dest)
    then dest
    else dest ++ xmb_strncpy src (maxlen - length dest - 1)

pub xmb_inc_gt : (s : Bytes) (i : ℕ) → i < xmb_inc s i
unfolding xmb_inc
xmb_inc_gt s i = ground arith

charnum_end :
    (fuel : ℕ) (s : Bytes) (lim offs : ℕ) → ltb offs lim ≡ false → charnum_from fuel s lim offs ≡ 0
unfolding charnum_from
charnum_end zero s lim offs h = refl
charnum_end (suc fuel) s lim offs h = rw h

-- The two loops one after the other stop where the first one does.
walk_cases :
    (fuel : ℕ) (s : Bytes) (lim offs : ℕ)
    → offs < lim
    → lim ≤ fuel + offs
    → (offset_from s (charnum_from fuel s lim offs) offs < lim)
      ⊎ ((i : ℕ) × (i < lim) × (offset_from s (charnum_from fuel s lim offs) offs ≡ xmb_inc s i))
unfolding charnum_from offset_from
walk_cases zero s lim offs lt le = inl lt
walk_cases (suc fuel) s lim offs lt le = elim (Bool-cases (get_or s offs 0 == 0)) [
  | inl e ↦ rw (lt→ltb offs lim lt, e) (inl lt)
  | inr e ↦
      rw (lt→ltb offs lim lt, e, e)
        (elim (Bool-cases (ltb (xmb_inc s offs) lim)) [
          | inl t ↦
              walk_cases fuel s lim (xmb_inc s offs) (ltb→lt (xmb_inc s offs) lim t)
                (omega (arith, xmb_inc_gt s offs))
          | inr t ↦ inr (
            offs,
            lt,
            ap (λ k. offset_from s k (xmb_inc s offs)) (charnum_end fuel s lim (xmb_inc s offs) t),
          )
        ])
]

dec_le :
    (s : Bytes) (j : ℕ)
    → (xmb_dec s j ≤ j - 1)
      × (isutf_at s (j - 1) ≡ false → xmb_dec s j ≤ j - 2)
      × (isutf_at s (j - 1) ≡ false → isutf_at s (j - 2) ≡ false → xmb_dec s j ≤ j - 3)
      × (isutf_at s (j - 1) ≡ false
          → isutf_at s (j - 2) ≡ false
          → isutf_at s (j - 3) ≡ false
          → xmb_dec s j ≤ j - 4)
unfolding xmb_dec
dec_le s j = (ground arith, λ a. ground arith, λ a b. ground arith, λ a b c. ground arith)

-- One character forward and one back ends no later than where it began.
pub dec-inc : (s : Bytes) (i : ℕ) → xmb_dec s (xmb_inc s i) ≤ i
unfolding xmb_inc
dec-inc s i = elim (Bool-cases (isutf_at s (i + 1))) [
  | inl a ↦ rw a (omega (arith, (dec_le s (i + 1)).0))
  | inr a ↦ rw a (elim (Bool-cases (isutf_at s (i + 2))) [
    | inl b ↦ rw b (omega (arith, (dec_le s (i + 2)).1 (at (i + 2 - 1) (i + 1) (omega arith) a)))
    | inr b ↦ rw b (elim (Bool-cases (isutf_at s (i + 3))) [
      | inl c ↦ rw c (
          omega (
            arith,
            (dec_le s (i + 3)).2 (at (i + 3 - 1) (i + 2) (omega arith) b)
                (at (i + 3 - 2) (i + 1) (omega arith) a),
          ))
      | inr c ↦ rw c (
          omega (
            arith,
            (dec_le s (i + 4)).3 (at (i + 4 - 1) (i + 3) (omega arith) c)
                (at (i + 4 - 2) (i + 2) (omega arith) b) (at (i + 4 - 3) (i + 1) (omega arith) a),
          ))
    ])
  ])
]
  where
    at : (j k : ℕ) → j ≡ k → isutf_at s k ≡ false → isutf_at s j ≡ false
    at j k e h = ap (isutf_at s) e ∙ h

-- The copy with its NUL fits the buffer, whatever the bytes of the source are.
pub xmb_strncpy_bounded : (s : Bytes) (n : ℕ) → 0 < n → length (xmb_strncpy s n) < n
unfolding xmb_strncpy xmb_charnum xmb_offset
xmb_strncpy_bounded s n h =
    bound (offset_from s (charnum_from n s n 0) 0) (walk_cases n s n 0 h (omega arith))
  where
    under : (j : ℕ) → j < n → (if leb n j then xmb_dec s j else j) < n
    under j lt = ground arith

    past : (j i : ℕ) → j ≡ xmb_inc s i → i < n → (if leb n j then xmb_dec s j else j) < n
    past j i e lt = elim (Bool-cases (leb n j)) [
      | inl t ↦ rw (t, e) (omega (arith, dec-inc s i))
      | inr t ↦ rw t (ground arith)
    ]

    bound :
        (j : ℕ)
        → (j < n) ⊎ ((i : ℕ) × (i < n) × (j ≡ xmb_inc s i))
        → length (take (if leb n j then xmb_dec s j else j) s) < n
    bound j (inl lt) = omega (arith, length-take (if leb n j then xmb_dec s j else j) s, under j lt)
    bound j (inr (i, lt, e)) =
        omega (arith, length-take (if leb n j then xmb_dec s j else j) s, past j i e lt)

room_left :
    (m d : ℕ)
    → ((m == 0 || leb (m - 1) d) ≡ true) ⊎ (((m == 0 || leb (m - 1) d) ≡ false) × (d + 1 < m))
room_left m d = elim (Bool-cases (m == 0 || leb (m - 1) d)) [
  | inl t ↦ inl t
  | inr t ↦ inr (t, ground arith)
]

-- A text that fits the buffer with its NUL still does after an append.
pub xmb_strncat_bounded :
    (dest src : Bytes) (maxlen : ℕ)
    → length dest < maxlen
    → length (xmb_strncat dest src maxlen) < maxlen
unfolding xmb_strncat
xmb_strncat_bounded dest src maxlen h = elim (room_left maxlen (length dest)) [
  | inl t ↦ rw t h
  | inr (t, lt) ↦
      let n = maxlen - length dest - 1 in
      rw (t, length-append dest (xmb_strncpy src n))
        (omega (arith, xmb_strncpy_bounded src n (omega arith)))
]
