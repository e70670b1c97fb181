-- ===== src/Codec/Base64/RoundTrip.antt =====
-- Decoding against encoding, and how much `base64encode` writes.
use g7ctrl.Common.{
  ==→eq, All, Bool-cases, Bytes, Option, [], ap, ap₂, arith, false, if◌then◌else◌, inl, inr, length,
  ltb, ltb-false→le, none, not, refl, some, sym, table_holds, table_holds_lem, take, take-length,
  true, ℕ, ◌%◌, ◌*◌, ◌+◌, ◌/◌, ◌<◌, ◌==◌, ◌^◌, ◌||◌, ◌∙◌, ◌∷◌, ◌≡◌, ◌≢◌, ◌≤◌,
}
use Prim.Native.Nat.{bit_and, bit_or}
use g7ctrl.Codec.Base64.{
  b64table, base64_decodechar, byte2, encode_loop, byte3, byte1, decode_last, decode_loop,
  encode_three, base64encode, base64decode, decoded, decoded_of, encoded_len,
}

-- Bits that do not meet add up.
or_table :
    (k : ℕ)
    → table_holds 256 (λ n. bit_or (n / k * k) (n % k) == n) ≡ true
    → (n : ℕ) → n < 256
    → bit_or (n / k * k) (n % k) ≡ n
or_table k h n lt = ==→eq _ n (table_holds_lem 256 (λ n. bit_or (n / k * k) (n % k) == n) n h lt)

or_four : (n : ℕ) → n < 256 → bit_or (n / 4 * 4) (n % 4) ≡ n
unfolding table_holds
or_four = or_table 4 refl

or_sixteen : (n : ℕ) → n < 256 → bit_or (n / 16 * 16) (n % 16) ≡ n
unfolding table_holds
or_sixteen = or_table 16 refl

or_sixty_four : (n : ℕ) → n < 256 → bit_or (n / 64 * 64) (n % 64) ≡ n
unfolding table_holds
or_sixty_four = or_table 64 refl

mask_table :
    (m k : ℕ)
    → table_holds 256 (λ n. bit_and n m == n % k) ≡ true
    → (n : ℕ) → n < 256
    → bit_and n m ≡ n % k
mask_table m k h n lt = ==→eq _ (n % k) (table_holds_lem 256 (λ n. bit_and n m == n % k) n h lt)

mask_two : (n : ℕ) → n < 256 → bit_and n 0x03 ≡ n % 4
unfolding table_holds
mask_two = mask_table 0x03 4 refl

mask_four : (n : ℕ) → n < 256 → bit_and n 0x0f ≡ n % 16
unfolding table_holds
mask_four = mask_table 0x0f 16 refl

mask_six : (n : ℕ) → n < 256 → bit_and n 0x3f ≡ n % 64
unfolding table_holds
mask_six = mask_table 0x3f 64 refl

-- The table and its inverse, and that no digit is the padding.
decodechar-b64table : (i : ℕ) → i < 64 → base64_decodechar (b64table i) ≡ i
unfolding base64_decodechar b64table
decodechar-b64table i h = ground arith

b64table-ne-pad : (i : ℕ) → i < 64 → b64table i ≢ b'='
unfolding b64table
b64table-ne-pad i h = ground arith

-- `u | v` for the high and the low part of a byte.
or_parts :
    (k n u v : ℕ) → bit_or (n / k * k) (n % k) ≡ n → u ≡ n / k * k → v ≡ n % k → bit_or u v ≡ n
or_parts k n u v h p q = ap₂ bit_or p q ∙ h

-- The groups of six bits, and the bytes that they spell.
module _ (a1 a2 a3 : ℕ) (h1 : a1 < 256) (h2 : a2 < 256) (h3 : a3 < 256) where
  abbrev group2 : ℕ
  group2 = a1 % 4 * 16 + a2 / 16

  abbrev group3 : ℕ
  group3 = a2 % 16 * 4 + a3 / 64

  second_group : bit_or (bit_and a1 0x03 * 16) (a2 / 16) ≡ group2
  second_group =
      or_parts 16 group2 _ _ (or_sixteen group2 (omega arith)) (omega (arith, mask_two a1 h1))
        (omega arith)

  third_group : bit_or (bit_and a2 0x0f * 4) (a3 / 64) ≡ group3
  third_group =
      or_parts 4 group3 _ _ (or_four group3 (omega arith)) (omega (arith, mask_four a2 h2))
        (omega arith)

  first_byte : byte1 (a1 / 4) group2 ≡ a1
  unfolding byte1
  first_byte = or_parts 4 a1 _ _ (or_four a1 h1) (omega arith) (omega arith)

  second_byte : byte2 group2 group3 ≡ a2
  unfolding byte2
  second_byte = or_parts 16 a2 _ _ (or_sixteen a2 h2) (omega arith) (omega arith)

  third_byte : byte3 group3 (a3 % 64) ≡ a3
  unfolding byte3
  third_byte = or_parts 64 a3 _ _ (or_sixty_four a3 h3) (omega arith) (omega arith)

  three_digits :
      encode_three a1 a2 a3
      ≡ b64table (a1 / 4) ∷ b64table group2 ∷ b64table group3 ∷ b64table (a3 % 64) ∷ []
  unfolding encode_three
  three_digits = rw (second_group, third_group, mask_six a3 h3)

  decode_last_three :
      decode_last (b64table (a1 / 4)) (b64table group2) (b64table group3) (b64table (a3 % 64))
      ≡ a1 ∷ a2 ∷ a3 ∷ []
  unfolding decode_last
  decode_last_three = ground (
    arith,
    decodechar-b64table (a1 / 4),
    decodechar-b64table group2,
    decodechar-b64table group3,
    decodechar-b64table (a3 % 64),
    b64table-ne-pad group3,
    b64table-ne-pad (a3 % 64),
    first_byte,
    second_byte,
    third_byte,
  )

  decode_three :
      (x : Bytes) {out : Bytes}
      → x ≢ []
      → decode_loop x ≡ some out
      → decode_loop (b64table (a1 / 4) ∷ b64table group2 ∷ b64table group3 ∷ b64table (a3 % 64) ∷ x)
        ≡ some (a1 ∷ a2 ∷ a3 ∷ out)
  unfolding decode_loop
  decode_three [] ne e = absurd (ne refl)
  decode_three (c ∷ x) ne e = rw (
    e,
    decodechar-b64table (a1 / 4) (omega arith),
    decodechar-b64table group2 (omega arith),
    decodechar-b64table group3 (omega arith),
    decodechar-b64table (a3 % 64) (omega arith),
    first_byte,
    second_byte,
    third_byte,
  )

encode_loop-ne-nil : (c : ℕ) (s : Bytes) → encode_loop (c ∷ s) ≢ []
unfolding encode_loop encode_three
encode_loop-ne-nil c [] e = cc
encode_loop-ne-nil c (d ∷ []) e = cc
encode_loop-ne-nil c (d ∷ f ∷ s) e = cc

one_byte : (a1 : ℕ) → a1 < 256 → decode_loop (encode_loop (a1 ∷ [])) ≡ some (a1 ∷ [])
unfolding decode_loop encode_loop decode_last
one_byte a1 h1 = ground (
  arith,
  mask_two a1 h1,
  decodechar-b64table (a1 / 4),
  decodechar-b64table (a1 % 4 * 16),
  ap (byte1 (a1 / 4)) {x = a1 % 4 * 16 + 0 / 16} {y = a1 % 4 * 16} (omega arith),
  first_byte a1 0 0 h1 (omega arith) (omega arith),
)

two_bytes :
    (a1 a2 : ℕ)
    → a1 < 256
    → a2 < 256
    → decode_loop (encode_loop (a1 ∷ a2 ∷ [])) ≡ some (a1 ∷ a2 ∷ [])
unfolding decode_loop encode_loop decode_last
two_bytes a1 a2 h1 h2 = ground (
  arith,
  mask_four a2 h2,
  second_group a1 a2 0 h1 h2 (omega arith),
  decodechar-b64table (a1 / 4),
  decodechar-b64table (group2 a1 a2 0 h1 h2 (omega arith)),
  decodechar-b64table (a2 % 16 * 4),
  b64table-ne-pad (a2 % 16 * 4),
  ap (byte2 (a1 % 4 * 16 + a2 / 16)) {x = a2 % 16 * 4 + 0 / 64} {y = a2 % 16 * 4} (omega arith),
  first_byte a1 a2 0 h1 h2 (omega arith),
  second_byte a1 a2 0 h1 h2 (omega arith),
)

decode_loop-encode_loop :
    (c : ℕ) (s : Bytes)
    → All (λ a. a < 256) (c ∷ s)
    → decode_loop (encode_loop (c ∷ s)) ≡ some (c ∷ s)
unfolding encode_loop
decode_loop-encode_loop a1 [] h = one_byte a1 h.0
decode_loop-encode_loop a1 (a2 ∷ []) h = two_bytes a1 a2 h.0 h.1.0
decode_loop-encode_loop a1 (a2 ∷ a3 ∷ []) h =
    rw (three_digits a1 a2 a3 h.0 h.1.0 h.1.1.0)
      (unfold decode_loop in ap some (decode_last_three a1 a2 a3 h.0 h.1.0 h.1.1.0))
decode_loop-encode_loop a1 (a2 ∷ a3 ∷ a4 ∷ s) h = rw (three_digits a1 a2 a3 h.0 h.1.0 h.1.1.0) (
    decode_three a1 a2 a3 h.0 h.1.0 h.1.1.0 (encode_loop (a4 ∷ s)) (encode_loop-ne-nil a4 s)
      (decode_loop-encode_loop a4 s h.1.1.1))

length_loop : (s : Bytes) → length (encode_loop s) ≡ (length s + 2) / 3 * 4
unfolding encode_loop encode_three
length_loop [] = refl
length_loop (a1 ∷ []) = refl
length_loop (a1 ∷ a2 ∷ []) = refl
length_loop (a1 ∷ a2 ∷ a3 ∷ s) = omega (arith, length_loop s)

passes :
    (n maxlen : ℕ)
    → n % 4 ≡ 0
    → n / 4 * 3 + 1 ≤ maxlen
    → (ltb maxlen (n / 4 * 3 + 1) || not (n % 4 == 0)) ≡ false
passes n maxlen h fits = ground arith

decode_fits :
    (x : Bytes) (maxlen : ℕ)
    → length x < 2 ^ 32
    → length x % 4 ≡ 0
    → length x / 4 * 3 + 1 ≤ maxlen
    → base64decode x maxlen ≡ decoded_of (decode_loop x)
unfolding base64decode
decode_fits x maxlen small h fits =
    let whole : length x % 2 ^ 32 ≡ length x = omega arith in
    rw (whole, passes (length x) maxlen h fits)
      (ap (λ t. decoded_of (decode_loop t)) (take-length (length x) x (omega arith)))

encoded_whole : (s : Bytes) → length s < 2 ^ 31 → take (encoded_len (length s)) s ≡ s
unfolding encoded_len
encoded_whole s h = take-length (encoded_len (length s)) s (ground arith)

written_out :
    (s : Bytes) (maxlen : ℕ) (out : Bytes)
    → length s < 2 ^ 31
    → base64encode s maxlen ≡ some out
    → encode_loop s ≡ out
unfolding base64encode
written_out s maxlen out small e = ground (arith, encoded_whole s small)

-- Decoding an encoded input of at least one byte and of less than 2 ^ 31 gives it back, where both
-- buffers pass the guards.
pub base64decode-base64encode :
    (c : ℕ) (s : Bytes) (maxlen maxlen' : ℕ) (out : Bytes)
    → All (λ a. a < 256) (c ∷ s)
    → length (c ∷ s) < 2 ^ 31
    → base64encode (c ∷ s) maxlen ≡ some out
    → length out / 4 * 3 + 1 ≤ maxlen'
    → base64decode out maxlen' ≡ decoded (c ∷ s)
unfolding decoded_of
base64decode-base64encode c s maxlen maxlen' out h small e fits =
    let enc : encode_loop (c ∷ s) ≡ out = written_out (c ∷ s) maxlen out small e in
    let len : length out ≡ (length (c ∷ s) + 2) / 3 * 4 =
      ap length (sym enc) ∙ length_loop (c ∷ s) in
    decode_fits out maxlen' (omega arith) (omega arith) fits
    ∙ ap decoded_of (ap decode_loop (sym enc) ∙ decode_loop-encode_loop c s h)

accepted_le :
    (s : Bytes) (maxlen : ℕ) {out : Bytes}
    → base64encode s maxlen ≡ some out
    → (length s / 3 + 1) * 4 ≤ maxlen
unfolding base64encode
accepted_le s maxlen e = elim (Bool-cases (ltb maxlen ((length s / 3 + 1) * 4))) [
  | inl h ↦ let z : ◌≡◌ {A = Option Bytes} none (some _) = rw h at e in cc
  | inr h ↦ ltb-false→le maxlen ((length s / 3 + 1) * 4) h
]

written_le :
    (n m k : ℕ)
    → k ≡ (n + 2) / 3 * 4
    → (n / 3 + 1) * 4 ≤ m
    → k + 1 ≤ (if n % 3 == 0 then m else m + 1)
written_le n m k h le = elim (Bool-cases (n % 3 == 0)) [
  | inl e ↦ rw e (omega (arith, ==→eq (n % 3) 0 e))
  | inr e ↦ rw e (omega arith)
]

-- Below 2 ^ 31 bytes each group of up to three gives four characters, so with the NUL the output is within the
-- given `maxlen` bytes if the length of the input is a multiple of 3, and else within one more.
pub length-base64encode :
    (s : Bytes) (maxlen : ℕ) (out : Bytes)
    → length s < 2 ^ 31
    → base64encode s maxlen ≡ some out
    → (length out ≡ (length s + 2) / 3 * 4)
      × (length out + 1 ≤ (if length s % 3 == 0 then maxlen else maxlen + 1))
length-base64encode s maxlen out small e =
    let enc : encode_loop s ≡ out = written_out s maxlen out small e in
    let len : length out ≡ (length s + 2) / 3 * 4 = ap length (sym enc) ∙ length_loop s in
    (len, written_le (length s) maxlen (length out) len (accepted_le s maxlen e))

-- If the length of the input is below 2 ^ 31 and no multiple of 3, the smallest buffer that the guard lets pass is
-- filled by the characters, so that there is no room for the NUL.
pub base64encode_overrun :
    (s : Bytes)
    → length s < 2 ^ 31
    → length s % 3 ≢ 0
    → let maxlen = (length s / 3 + 1) * 4 in
      (out : Bytes) × (base64encode s maxlen ≡ some out) × (length out ≡ maxlen)
unfolding base64encode
base64encode_overrun s small h =
    (encode_loop s, ground (arith, encoded_whole s small), omega (arith, length_loop s))
