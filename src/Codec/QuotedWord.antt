-- ===== src/Codec/QuotedWord.antt =====
-- The encoding of a subject line, `qprint_encode_word` of src/libsmtpmail/quotprinted.c.
use g7ctrl.Common.{
  Bool, Bytes, Option, [], ap, arith, codes, false, if◌then◌else◌, leb, length, length-append,
  length-replicate, ltb, none, refl, replicate, some, suc, true, zero, ℕ, ◌%◌, ◌&&◌, ◌++◌, ◌+◌, ◌-◌,
  ◌/◌, ◌<◌, ◌==◌, ◌||◌, ◌∙◌, ◌∷◌, ◌≡◌, ◌≤◌,
}
use mathlib.Core.Option
use g7ctrl.Codec.Quoted.{hex_upper}

abbrev pub quoted : ℕ → Bytes
quoted c = b'=' ∷ hex_upper (c / 16) ∷ hex_upper (c % 16) ∷ []

-- What stands between the two ends, whether something was encoded, and the room that is left.
pub record Word : Type 0 where
  pub text : Bytes
  pub encoded : Bool
  pub room : ℕ

abbrev behind : Bytes → Bool → Word → Word
behind t encoded w = record w { text = t ++ w.text; encoded = encoded || w.encoded }

abbrev is_special : ℕ → Bool
is_special c = c == b'_' || c == b'=' || c == b'?' || ltb c 32

-- The loop; `none` for -1. A byte above 127 takes the next one with it: the first argument is whether that
-- one is due.
pub word_loop : Bool → Bytes → ℕ → Option Word
word_loop true [] n = none
word_loop true (d ∷ s) n = Option.map (behind (quoted d) true) (word_loop false s (n - 6))
word_loop false [] n = some (record { text = []; encoded = false; room = n })
word_loop false (c ∷ s) n =
    let same = word_loop false s n in
    let one = word_loop false s (n - 1) in
    let three = word_loop false s (n - 3) in
    let pair = word_loop true s n in
    if n == 0
    then some (record { text = []; encoded = false; room = n })
    else if c == b'\n' || c == b'\r'
    then same
    else if c == 32
    then Option.map (behind (codes "_") true) one
    else if is_special c
    then (if ltb n 3 then none else Option.map (behind (quoted c) true) three)
    else if ltb 32 c && leb c b'z'
    then Option.map (behind (c ∷ []) false) one
    else if ltb 127 c
    then (if ltb n 6 then none else Option.map (behind (quoted c) true) pair)
    else none

abbrev close_word : Bytes → Option Word → Option Bytes
close_word s none = none
close_word s (some w) =
    if ltb w.room 3
    then none
    else if w.encoded
    then some (codes "=?utf8?Q?" ++ w.text ++ codes "?=")
    else some s

-- The text in `out`, or `none` for -1. The start is not counted in `n`.
unfoldable pub qprint_encode_word : Bytes → ℕ → Option Bytes
unfolding word_loop
qprint_encode_word s maxlen =
    if ltb maxlen 11 then none else close_word s (word_loop false s maxlen)

-- A text of spaces.
abbrev pub blank : ℕ → Bytes
blank k = replicate k b' '

blank_loop :
    (k n : ℕ)
    → k < n
    → word_loop false (blank (suc k)) n
      ≡ some (record { text = replicate (suc k) b'_'; encoded = true; room = n - suc k })
unfolding word_loop
blank_loop zero n h = let room : (n == 0) ≡ false = ground arith in rw room refl
blank_loop (suc k) n h =
    let room : (n == 0) ≡ false = ground arith in
    let left : ℕ → Option Word =
      λ r. some (record { text = replicate (suc (suc k)) b'_'; encoded = true; room = r }) in
    rw room (
      ap (Option.map (behind (codes "_") true)) (blank_loop k (n - 1) (omega (arith, h)))
      ∙ ap left {x = n - 1 - suc k} {y = n - suc (suc k)} (omega arith))

-- A text of spaces that leaves three bytes of the room is encoded, and its output takes, with the NUL,
-- twelve bytes more than the text has, so a text of more than `maxlen` - 12 spaces is written past the
-- end of the buffer.
pub qprint_encode_word_overrun :
    (k maxlen : ℕ)
    → 11 ≤ maxlen
    → suc k + 3 ≤ maxlen
    → (out : Bytes) × (qprint_encode_word (blank (suc k)) maxlen ≡ some out)
      × (length out + 1 ≡ suc k + 12)
unfolding qprint_encode_word
qprint_encode_word_overrun k maxlen h room =
    let wide : ltb maxlen 11 ≡ false = ground arith in
    let ends : ltb (maxlen - suc k) 3 ≡ false = ground arith in
    let text = replicate (suc k) b'_' in
    let tail = length-append text (codes "?=") in
    let whole = length-append (codes "=?utf8?Q?") (text ++ codes "?=") in
    (
      codes "=?utf8?Q?" ++ text ++ codes "?=",
      rw wide (
          ap (close_word (blank (suc k))) (blank_loop k maxlen (omega (arith, room)))
          ∙ rw ends refl),
      omega (arith, tail, whole, length-replicate {A = ℕ} (suc k) b'_'),
    )
