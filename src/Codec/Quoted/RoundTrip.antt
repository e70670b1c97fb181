-- ===== src/Codec/Quoted/RoundTrip.antt =====
-- The quoted-printable encoding of src/libsmtpmail/quotprinted.c, decoded again.
use g7ctrl.Common.{
  All, Bool, Bool-cases, Bytes, Option, [], ap, arith, false, false≢true, get_or, if◌then◌else◌,
  inl, inr, length, ltb, none, refl, some, sym, true, ℕ, ◌%◌, ◌&&◌, ◌*◌, ◌++◌, ◌+◌, ◌/◌, ◌<◌, ◌==◌,
  ◌^◌, ◌∙◌, ◌∷◌, ◌≡◌, ◌≢◌, ◌≤◌,
}
use mathlib.Core.Option
use g7ctrl.Codec.Quoted.{chk_softlinebreak, is_plain, hex_upper, qprint_loop, qprint_encode, finish}
use g7ctrl.Codec.Quoted.Breaks.{
  unbroken, unquoted, shown, unbroken-shown, unbroken-escape, room_left, chk_head, digit_back,
  digit_plain,
}

unquoted-shown : (c w : ℕ) (t : Bytes) → c ≢ b'=' → unquoted 0 (shown c w ++ t) ≡ c ∷ unquoted 0 t
unquoted-shown c w t h = elim (Bool-cases (w == 75 && c == b' ')) [
  | inr e ↦ rw e (ground arith)
  | inl e ↦ let space : b' ' ≡ c = ground arith in rw e (ap (λ b. b ∷ unquoted 0 t) space)
]

unquoted_escape :
    (c : ℕ) (t : Bytes)
    → c < 256
    → unquoted 0 (b'=' ∷ hex_upper (c / 16) ∷ hex_upper (c % 16) ∷ t) ≡ c ∷ unquoted 0 t
unquoted_escape c t h =
    rw (digit_back (c / 16) (omega arith), digit_back (c % 16) (omega arith))
      (ap (λ b. b ∷ unquoted 0 t) {x = c / 16 * 16 + c % 16} {y = c} (omega arith))

shown_bare : (c w : ℕ) → c ≢ b' ' → shown c w ≡ c ∷ []
shown_bare c w h = elim (Bool-cases (w == 75)) [ inr e ↦ rw e refl | inl e ↦ rw e (ground arith) ]

-- A byte that is escaped, with the breaks in it.
escaped :
    (c w n : ℕ) (t : Bytes)
    → c < 256
    → 18 ≤ n
    → n < 2 ^ 64
    → let e = chk_softlinebreak b'=' w n in
      let h = chk_softlinebreak (hex_upper (c / 16)) e.1 e.2 in
      let l = chk_softlinebreak (hex_upper (c % 16)) h.1 h.2 in
      (unquoted 0 (unbroken 0 (e.0 ++ (h.0 ++ (l.0 ++ t)))) ≡ c ∷ unquoted 0 (unbroken 0 t))
      × (n ≤ l.2 + 18)
      × (l.2 ≤ n)
escaped c w n t b room small =
    let hi = hex_upper (c / 16) in
    let lo = hex_upper (c % 16) in
    let e = chk_softlinebreak b'=' w n in
    let re = room_left b'=' w n (omega arith) small in
    let h = chk_softlinebreak hi e.1 e.2 in
    let rh = room_left hi e.1 e.2 (omega (arith, re)) (omega (arith, re)) in
    let l = chk_softlinebreak lo h.1 h.2 in
    let rl = room_left lo h.1 h.2 (omega (arith, re, rh)) (omega (arith, re, rh)) in
    let ph = digit_plain (c / 16) (omega arith) in
    let pl = digit_plain (c % 16) (omega arith) in
    let first = chk_head hi e.1 e.2 (l.0 ++ t) ph.1 (omega (arith, re)) in
    let no_break : get_or (h.0 ++ (l.0 ++ t)) 0 0 ≢ b'\r' = λ q. ph.2 (sym first ∙ q) in
    let lines =
      unbroken-escape w n (h.0 ++ (l.0 ++ t)) no_break (omega arith)
      ∙ ap (λ u. b'=' ∷ u) (unbroken-shown hi e.1 e.2 (l.0 ++ t) ph.0 (omega (arith, re)))
      ∙ ap (λ u. b'=' ∷ (shown hi e.1 ++ u))
          (unbroken-shown lo h.1 h.2 t pl.0 (omega (arith, re, rh))) in
    let bare_h = shown_bare hi e.1 ph.1 in
    let bare_l = shown_bare lo h.1 pl.1 in
    (
      ap (unquoted 0) lines
          ∙ ap (λ u. unquoted 0 (b'=' ∷ (u ++ (shown lo h.1 ++ unbroken 0 t)))) bare_h
          ∙ ap (λ u. unquoted 0 (b'=' ∷ hi ∷ (u ++ unbroken 0 t))) bare_l
          ∙ unquoted_escape c (unbroken 0 t) b,
      omega (arith, re, rh, rl),
      omega (arith, re, rh, rl),
    )

last_case :
    {A : Type 0} (a b d : Bool) (x y u v : A)
    → a ≡ false
    → b ≡ false
    → d ≡ false
    → (if a then x else if b then y else if d then u else v) ≡ v
last_case false false false x y u v p q r = refl
last_case false false true x y u v p q r = absurd (false≢true (sym r))
last_case false true d x y u v p q r = absurd (false≢true (sym q))
last_case true b d x y u v p q r = absurd (false≢true (sym p))

-- A round for a byte that is escaped.
loop_escaped :
    (c : ℕ) (s : Bytes) (w n : ℕ) (out : Bytes) (m : ℕ)
    → (n == 0) ≡ false
    → is_plain c ≡ false
    → ltb n 3 ≡ false
    → let e = chk_softlinebreak b'=' w n in
      let h = chk_softlinebreak (hex_upper (c / 16)) e.1 e.2 in
      let l = chk_softlinebreak (hex_upper (c % 16)) h.1 h.2 in
      qprint_loop s l.1 l.2 ≡ some (out, false, m)
      → qprint_loop (c ∷ s) w n ≡ some (e.0 ++ (h.0 ++ (l.0 ++ out)), false, m)
unfolding qprint_loop
loop_escaped c s w n out m some_room other wide q =
    let p = chk_softlinebreak c w n in
    let e = chk_softlinebreak b'=' w n in
    let h = chk_softlinebreak (hex_upper (c / 16)) e.1 e.2 in
    let l = chk_softlinebreak (hex_upper (c % 16)) h.1 h.2 in
    let plain : Option (Bytes × Bool × ℕ) =
      Option.map (λ (r : Bytes × Bool × ℕ). (p.0 ++ r.0, r.1, r.2)) (qprint_loop s p.1 p.2) in
    let glue : Bytes × Bool × ℕ → Bytes × Bool × ℕ =
      λ r. (e.0 ++ (h.0 ++ (l.0 ++ r.0)), r.1, r.2) in
    last_case (n == 0) (is_plain c) (ltb n 3) (some ([], true, n)) plain none
      (Option.map glue (qprint_loop s l.1 l.2)) some_room other wide
    ∙ ap (Option.map glue) q

loop_decodes :
    (s : Bytes) (w n : ℕ)
    → All (λ c. c < 256) s
    → 18 * length s < n
    → n < 2 ^ 64
    → (out : Bytes) × (m : ℕ) × (qprint_loop s w n ≡ some (out, false, m))
      × (0 < m)
      × (unquoted 0 (unbroken 0 out) ≡ s)
unfolding qprint_loop
loop_decodes [] w n chars room small = ([], n, refl, room, refl)
loop_decodes (c ∷ s) w n chars room small =
    let some_room : (n == 0) ≡ false = ground arith in
    elim (Bool-cases (is_plain c)) [
      | inl plain ↦
          let ne : c ≢ b'=' = ground arith in
          let p = chk_softlinebreak c w n in
          let r = room_left c w n (omega arith) small in
          let (out, m, e, pos, back) =
            loop_decodes s p.1 p.2 chars.1 (omega (arith, r)) (omega (arith, r)) in
          (
            p.0 ++ out,
            m,
            rw (some_room, plain, e, qprint_loop) refl,
            pos,
            ap (unquoted 0) (unbroken-shown c w n out ne (omega arith))
                ∙ unquoted-shown c w (unbroken 0 out) ne
                ∙ ap (λ t. c ∷ t) back,
          )
      | inr other ↦
          let e = chk_softlinebreak b'=' w n in
          let h = chk_softlinebreak (hex_upper (c / 16)) e.1 e.2 in
          let l = chk_softlinebreak (hex_upper (c % 16)) h.1 h.2 in
          let r = escaped c w n [] chars.0 (omega arith) small in
          let wide : ltb n 3 ≡ false = ground arith in
          let (out, m, q, pos, back) =
            loop_decodes s l.1 l.2 chars.1 (omega (arith, r.1)) (omega (arith, r.2)) in
          (
            e.0 ++ (h.0 ++ (l.0 ++ out)),
            m,
            loop_escaped c s w n out m some_room other wide q,
            pos,
            (escaped c w n out chars.0 (omega arith) small).0 ∙ ap (λ t. c ∷ t) back,
          )
    ]

-- With a buffer of more than 18 bytes for each byte of the text, the text is encoded, and the
-- output without its soft line breaks, and with each `=` and its two digits read as a byte, is the
-- text again, also where a break divides an escape.
pub qprint_encode_decodes :
    (s : Bytes) (maxlen : ℕ)
    → All (λ c. c < 256) s
    → 18 * length s < maxlen
    → maxlen < 2 ^ 64
    → (out : Bytes) × (qprint_encode s maxlen ≡ some out) × (unquoted 0 (unbroken 0 out) ≡ s)
unfolding qprint_encode finish
qprint_encode_decodes s maxlen chars room small =
    let (out, m, e, pos, back) = loop_decodes s 0 maxlen chars room small in
    let wide : ltb maxlen (length s + 1) ≡ false = ground arith in
    let open_end : (m == 0) ≡ false = ground arith in
    (out, rw (wide, e, open_end, qprint_encode) refl, back)
