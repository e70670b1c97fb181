-- ===== src/Codec/Quoted.antt =====
-- The quoted-printable encoding of src/libsmtpmail/quotprinted.c, `qprint_encode`.
pub mod Breaks
pub mod RoundTrip
use g7ctrl.Common.{
  Bool, Bytes, Option, [], codes, false, if◌then◌else◌, leb, length, ltb, none, not, some, true, ℕ,
  ◌%◌, ◌&&◌, ◌++◌, ◌+◌, ◌-◌, ◌/◌, ◌==◌, ◌^◌, ◌∷◌,
}
use mathlib.Core.Option

abbrev line_width : ℕ
line_width = 76

-- What a call of `_chk_softlinebreak` adds to the output for the byte at `*pout`, with the width of the line
-- and the room that is left. When the room is too small the byte is written over by the next one.
pub chk_softlinebreak : ℕ → ℕ → ℕ → Bytes × ℕ × ℕ
chk_softlinebreak c w n =
    if w == line_width - 1
    then (if c == b' '
        then (if ltb n 6 then ([], w, n) else (codes "==\r\n20", 2, n - 6))
        else if ltb n 3
        then ([], w, n)
        else (c ∷ codes "=\r\n", 0, n - 3))
    else (c ∷ [], w + 1, (n + 2 ^ 64 - 1) % 2 ^ 64)

abbrev pub is_plain : ℕ → Bool
is_plain c = leb 32 c && leb c b'z' && not (c == b'=')

-- A digit of `"%02X"`.
abbrev pub hex_upper : ℕ → ℕ
hex_upper d = if ltb d 10 then b'0' + d else b'A' + d - 10

-- The loop: the output, whether input is left, and the room that is left; `none` for -1.
pub qprint_loop : Bytes → ℕ → ℕ → Option (Bytes × Bool × ℕ)
unfolding chk_softlinebreak
qprint_loop [] w n = some ([], false, n)
qprint_loop (c ∷ s) w n =
    let p = chk_softlinebreak c w n in
    let plain = qprint_loop s p.1 p.2 in
    let e = chk_softlinebreak b'=' w n in
    let h = chk_softlinebreak (hex_upper (c / 16)) e.1 e.2 in
    let l = chk_softlinebreak (hex_upper (c % 16)) h.1 h.2 in
    let escaped = qprint_loop s l.1 l.2 in
    if n == 0
    then some ([], true, n)
    else if is_plain c
    then Option.map (λ (r : Bytes × Bool × ℕ). (p.0 ++ r.0, r.1, r.2)) plain
    else if ltb n 3
    then none
    else Option.map (λ (r : Bytes × Bool × ℕ). (e.0 ++ (h.0 ++ (l.0 ++ r.0)), r.1, r.2)) escaped

pub finish : Option (Bytes × Bool × ℕ) → Option Bytes
finish none = none
finish (some (out, left, n)) = if n == 0 && left then none else some out

-- The output, or `none` for -1.
unfoldable pub qprint_encode : Bytes → ℕ → Option Bytes
unfolding qprint_loop finish
qprint_encode s maxlen = if ltb maxlen (length s + 1) then none else finish (qprint_loop s 0 maxlen)
