-- ===== src/Codec/Base64.antt =====
-- `base64encode` and `base64decode` of src/libsmtpmail/base64ed.c.
pub mod RoundTrip
use g7ctrl.Common.{
  Bytes, Option, [], if◌then◌else◌, leb, length, ltb, none, not, some, take, ℕ, ◌%◌, ◌&&◌, ◌*◌,
  ◌++◌, ◌+◌, ◌-◌, ◌/◌, ◌==◌, ◌^◌, ◌||◌, ◌∷◌,
}
use Prim.Native.Nat.{bit_and, bit_or}
use mathlib.Core.Option

-- `b64table[i]`
pub b64table : ℕ → ℕ
b64table i =
    if ltb i 26
    then b'A' + i
    else if ltb i 52
    then b'a' + (i - 26)
    else if ltb i 62
    then b'0' + (i - 52)
    else if i == 62
    then b'+'
    else b'/'

-- `strchr(b64table, c)` as an index; a byte that is not in the table gives 0. The NUL, which
-- `strchr` finds at the end of the table, gives 64.
pub base64_decodechar : ℕ → ℕ
base64_decodechar c =
    if leb b'A' c && leb c b'Z'
    then c - b'A'
    else if leb b'a' c && leb c b'z'
    then c - b'a' + 26
    else if leb b'0' c && leb c b'9'
    then c - b'0' + 52
    else if c == b'+'
    then 62
    else if c == b'/'
    then 63
    else if c == 0
    then 64
    else 0

-- One round of the loop `while (n >= 3)`. `(a & m) << k | b >> l` joins bits that do not meet.
pub encode_three : ℕ → ℕ → ℕ → Bytes
encode_three a1 a2 a3 =
    b64table (a1 / 4)
    ∷ b64table (bit_or (bit_and a1 0x03 * 16) (a2 / 16))
    ∷ b64table (bit_or (bit_and a2 0x0f * 4) (a3 / 64))
    ∷ b64table (bit_and a3 0x3f)
    ∷ []

pub encode_loop : Bytes → Bytes
encode_loop [] = []
encode_loop (a1 ∷ []) = b64table (a1 / 4) ∷ b64table (bit_and a1 0x03 * 16) ∷ b'=' ∷ b'=' ∷ []
encode_loop (a1 ∷ a2 ∷ []) =
    b64table (a1 / 4)
    ∷ b64table (bit_or (bit_and a1 0x03 * 16) (a2 / 16))
    ∷ b64table (bit_and a2 0x0f * 4)
    ∷ b'='
    ∷ []
encode_loop (a1 ∷ a2 ∷ a3 ∷ s) = encode_three a1 a2 a3 ++ encode_loop s

-- `int n = inbuff_len`: the low 32 bits, as a signed number. With a negative `n` none of the
-- branches encodes anything, as with 0.
pub encoded_len : ℕ → ℕ
encoded_len inbuff_len = let n = inbuff_len % 2 ^ 32 in if ltb n (2 ^ 31) then n else 0

-- The bytes before the NUL that ends the output.
unfoldable pub base64encode : Bytes → ℕ → Option Bytes
unfolding encode_loop encode_three b64table encoded_len
base64encode inbuff outbuff_maxlen =
    if ltb outbuff_maxlen ((length inbuff / 3 + 1) * 4)
    then none
    else some (encode_loop (take (encoded_len (length inbuff)) inbuff))

-- The three bytes of a quartet, each stored in a `char`.
pub byte1 : ℕ → ℕ → ℕ
byte1 a1 a2 = bit_or (a1 * 4 % 256) (a2 / 16)

pub byte2 : ℕ → ℕ → ℕ
byte2 a2 a3 = bit_or (a2 * 16 % 256) (a3 / 4)

pub byte3 : ℕ → ℕ → ℕ
byte3 a3 a4 = bit_or (a3 * 64 % 256) a4

-- The last quartet: an `=` in third or fourth place ends the output.
pub decode_last : ℕ → ℕ → ℕ → ℕ → Bytes
decode_last c1 c2 c3 c4 =
    let a1 = base64_decodechar c1 in
    let a2 = base64_decodechar c2 in
    let a3 = base64_decodechar c3 in
    let a4 = base64_decodechar c4 in
    byte1 a1 a2
    ∷ (if c3 == b'=' then [] else byte2 a2 a3 ∷ (if c4 == b'=' then [] else byte3 a3 a4 ∷ []))

-- The loop `while (n > 4)`, and the last quartet. The length is a multiple of 4; with none the
-- source reads a quartet past the input, which is `none`.
pub decode_loop : Bytes → Option Bytes
decode_loop (c1 ∷ c2 ∷ c3 ∷ c4 ∷ []) = some (decode_last c1 c2 c3 c4)
decode_loop (c1 ∷ c2 ∷ c3 ∷ c4 ∷ c5 ∷ s) =
    let a1 = base64_decodechar c1 in
    let a2 = base64_decodechar c2 in
    let a3 = base64_decodechar c3 in
    let a4 = base64_decodechar c4 in
    Option.map (λ out. byte1 a1 a2 ∷ byte2 a2 a3 ∷ byte3 a3 a4 ∷ out) (decode_loop (c5 ∷ s))
decode_loop short = none

-- The two guards refuse; `reads_past` is a read behind the end of the input.
pub data Decoded : Type 0 where
  refused reads_past : Decoded
  decoded : Bytes → Decoded

pub decoded_of : Option Bytes → Decoded
decoded_of none = reads_past
decoded_of (some out) = decoded out

-- `inbuff_len` is an `unsigned`: a caller's length is cut to 32 bits.
unfoldable pub base64decode : Bytes → ℕ → Decoded
unfolding decode_loop decode_last byte1 byte2 byte3 base64_decodechar decoded_of
base64decode inbuff outbuff_maxlen =
    let inbuff_len = length inbuff % 2 ^ 32 in
    if ltb outbuff_maxlen (inbuff_len / 4 * 3 + 1) || not (inbuff_len % 4 == 0)
    then refused
    else decoded_of (decode_loop (take inbuff_len inbuff))
