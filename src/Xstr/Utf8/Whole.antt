-- ===== src/Xstr/Utf8/Whole.antt =====
-- `xmb_strncpy` of a text that fits.
use g7ctrl.Common.{
  All, Bool-cases, Bytes, [], arith, false, false≢true, get_or, get_or-nil, inl, inr, leb, length,
  ltb, ltb-false→le, ltb→lt, lt→ltb, refl, suc, sym, take-length, true, zero, ℕ, ◌+◌, ◌<◌, ◌==◌,
  ◌∙◌, ◌∷◌, ◌≡◌, ◌≤◌,
}
use g7ctrl.Xstr.Utf8.{
  isutf_at, xmb_inc, xmb_inc_gt, offset_from, xmb_offset, charnum_from, xmb_charnum, xmb_strncpy,
}

abbrev pub NoNul : Bytes → Type 0
NoNul = All (λ c. 0 < c)

end_isutf : (s : Bytes) (k : ℕ) → length s ≤ k → isutf_at s k ≡ true
end_isutf s k h = rw (get_or-nil s k 0 h) refl

inc_le : (s : Bytes) (i : ℕ) → i < length s → xmb_inc s i ≤ length s
unfolding xmb_inc
inc_le s i h = elim (Bool-cases (isutf_at s (i + 1))) [
  | inl a ↦ rw a (omega arith)
  | inr a ↦ rw a (elim (Bool-cases (isutf_at s (i + 2))) [
    | inl b ↦ rw b (omega (arith, inner (i + 1) a))
    | inr b ↦ rw b (elim (Bool-cases (isutf_at s (i + 3))) [
      | inl c ↦ rw c (omega (arith, inner (i + 2) b))
      | inr c ↦ rw c (omega (arith, inner (i + 3) c))
    ])
  ])
]
  where
    inner : (k : ℕ) → isutf_at s k ≡ false → k < length s
    inner k e = elim (Bool-cases (ltb k (length s))) [
      | inl t ↦ ltb→lt k (length s) t
      | inr t ↦ absurd (false≢true (sym e ∙ end_isutf s k (ltb-false→le k (length s) t)))
    ]

nonzero : (s : Bytes) (i : ℕ) → NoNul s → i < length s → get_or s i 0 == 0 ≡ false
nonzero [] i h lt = absurd (omega arith)
nonzero (c ∷ s) zero h lt = ground arith
nonzero (c ∷ s) (suc i) h lt = nonzero s i h.1 (omega arith)

walk_whole :
    (fuel : ℕ) (s : Bytes) (lim offs : ℕ)
    → NoNul s
    → offs ≤ length s
    → length s < lim
    → lim ≤ fuel + offs
    → offset_from s (charnum_from fuel s lim offs) offs ≡ length s
unfolding charnum_from offset_from
walk_whole zero s lim offs h le lt f = absurd (omega arith)
walk_whole (suc fuel) s lim offs h le lt f = elim (Bool-cases (ltb offs (length s))) [
  | inl t ↦
      let inside = ltb→lt offs (length s) t in
      let more = nonzero s offs h inside in
      rw (lt→ltb offs lim (omega arith), more, more)
        (walk_whole fuel s lim (xmb_inc s offs) h (inc_le s offs inside) lt
          (omega (arith, xmb_inc_gt s offs)))
  | inr t ↦
      let past = ltb-false→le offs (length s) t in
      rw (lt→ltb offs lim (omega arith), get_or-nil s offs 0 past) (omega arith)
]

-- A text without NUL that fits the buffer with its NUL is copied whole.
pub xmb_strncpy_whole : (s : Bytes) (n : ℕ) → NoNul s → length s < n → xmb_strncpy s n ≡ s
unfolding xmb_strncpy xmb_charnum xmb_offset
xmb_strncpy_whole s n h lt =
    let w = walk_whole n s n 0 h (omega arith) lt (omega arith) in
    rw (w, room n (length s) lt) (take-length (length s) s (omega arith))
  where
    room : (n l : ℕ) → l < n → leb n l ≡ false
    room n l h = ground arith
