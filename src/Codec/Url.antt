-- ===== src/Codec/Url.antt =====
-- `to_hex`, `from_hex`, `url_encode`, `url_decode` and `url_decode_buff` of src/utils.c. A `char` is
-- the byte that it holds; the null argument, which is handed back, is not modelled.
use g7ctrl.Common.{
  Bool, Bytes, Rc, [], failure, false, if◌then◌else◌, leb, ltb, suc, success, true, zero, ℕ, ◌%◌,
  ◌&&◌, ◌*◌, ◌++◌, ◌+◌, ◌-◌, ◌/◌, ◌==◌, ◌||◌, ◌∷◌,
}
pub mod RoundTrip
use Prim.Native.Nat.{bit_or}

-- `hex[code & 0x0f]`. For `code = *pstr >> 4` of a negative `char` the mask takes the same four bits.
pub to_hex : ℕ → ℕ
to_hex code = let d = code % 16 in if ltb d 10 then b'0' + d else b'A' + (d - 10)

pub is_digit : ℕ → Bool
is_digit c = leb b'0' c && leb c b'9'

unfoldable pub is_upper : ℕ → Bool
is_upper c = leb b'A' c && leb c b'Z'

pub is_lower : ℕ → Bool
is_lower c = leb b'a' c && leb c b'z'

-- `isalnum`: for a byte from 128 on, which is no character of its own in UTF-8, it is false.
pub is_alnum : ℕ → Bool
is_alnum c = is_digit c || is_upper c || is_lower c

unfoldable pub to_lower : ℕ → ℕ
to_lower c = if is_upper c then c + 32 else c

-- The result is a `char`: what is below 0 wraps.
pub from_hex : ℕ → ℕ
from_hex ch = if is_digit ch then ch - b'0' else (to_lower ch + 256 - b'a' + 10) % 256

pub is_unreserved : ℕ → Bool
is_unreserved c = is_alnum c || c == b'-' || c == b'_' || c == b'.' || c == b'~'

-- One round of `url_encode`.
pub escape : ℕ → Bytes
escape c =
    if is_unreserved c
    then c ∷ []
    else if c == b' '
    then b'+' ∷ []
    else b'%' ∷ to_hex (c / 16) ∷ to_hex c ∷ []

unfoldable pub url_encode : Bytes → Bytes
unfolding escape
url_encode [] = []
url_encode (c ∷ s) = escape c ++ url_encode s

-- `from_hex(a) << 4 | from_hex(b)`, stored in a `char`
pub hex_byte : ℕ → ℕ → ℕ
hex_byte a b = bit_or (from_hex a * 16 % 256) (from_hex b)

pub plain : ℕ → ℕ
plain c = if c == b'+' then b' ' else c

-- A `%` with fewer than two bytes behind it is dropped.
unfoldable pub url_decode : Bytes → Bytes
unfolding hex_byte plain
url_decode [] = []
url_decode (c ∷ []) = if c == b'%' then [] else plain c ∷ []
url_decode (c ∷ a ∷ []) =
    let rest = url_decode (a ∷ []) in if c == b'%' then rest else plain c ∷ rest
url_decode (c ∷ a ∷ b ∷ s) = elim (c == b'%') [
  | true ↦ hex_byte a b ∷ url_decode s
  | false ↦ plain c ∷ url_decode (a ∷ b ∷ s)
]

pub push : Bytes → Rc × Bytes → Rc × Bytes
push t (rc, out) = (rc, t ++ out)

-- The loop counts `ml` down once a round, also in the round that drops a `%`. With `ml` at 1 the
-- loop ends, and it is a failure if there is input left; at 0 it ends at once, with success.
unfoldable pub url_decode_buff : ℕ → Bytes → Rc × Bytes
unfolding hex_byte plain push
url_decode_buff zero s = (success, [])
url_decode_buff (suc ml) [] = (success, [])
url_decode_buff (suc zero) (c ∷ s) = (failure, [])
url_decode_buff (suc (suc ml)) (c ∷ []) =
    let rest = url_decode_buff (suc ml) [] in if c == b'%' then rest else push (plain c ∷ []) rest
url_decode_buff (suc (suc ml)) (c ∷ a ∷ []) =
    let rest = url_decode_buff (suc ml) (a ∷ []) in
    if c == b'%' then rest else push (plain c ∷ []) rest
url_decode_buff (suc (suc ml)) (c ∷ a ∷ b ∷ s) = elim (c == b'%') [
  | true ↦ push (hex_byte a b ∷ []) (url_decode_buff (suc ml) s)
  | false ↦ push (plain c ∷ []) (url_decode_buff (suc ml) (a ∷ b ∷ s))
]
