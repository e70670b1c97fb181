-- ===== src/Codec/Url/RoundTrip.antt =====
-- URL decoding against encoding, and what an encoded text may hold.
use g7ctrl.Common.{
  ==→eq, All, All-append, Bytes, [], ap, arith, length, length-append, refl, suc, success, sym,
  table_holds, table_holds_lem, true, zero, ℕ, ◌*◌, ◌++◌, ◌+◌, ◌/◌, ◌<◌, ◌==◌, ◌∙◌, ◌∷◌, ◌≡◌, ◌≢◌,
  ◌≤◌, ◌⊎◌,
}
use g7ctrl.Codec.Url.{
  to_hex, from_hex, hex_byte, is_digit, is_upper, is_lower, is_alnum, to_lower, is_unreserved,
  escape, plain, url_encode, url_decode, url_decode_buff,
}

hex_table : table_holds 256 (λ c. hex_byte (to_hex (c / 16)) (to_hex c) == c) ≡ true
unfolding table_holds hex_byte from_hex to_hex is_digit is_upper to_lower
hex_table = refl

-- The two digits of a byte are read back.
hex_byte-to_hex : (c : ℕ) → c < 256 → hex_byte (to_hex (c / 16)) (to_hex c) ≡ c
hex_byte-to_hex c h =
    ==→eq _ c (table_holds_lem 256 (λ c. hex_byte (to_hex (c / 16)) (to_hex c) == c) c hex_table h)

decode-percent : (a b : ℕ) (s : Bytes) → url_decode (b'%' ∷ a ∷ b ∷ s) ≡ hex_byte a b ∷ url_decode s
unfolding url_decode
decode-percent a b s = refl

decode-plain : (c : ℕ) (s : Bytes) → c ≢ b'%' → url_decode (c ∷ s) ≡ plain c ∷ url_decode s
unfolding url_decode
decode-plain c [] h = ground arith
decode-plain c (a ∷ []) h = ground arith
decode-plain c (a ∷ b ∷ s) h = ground arith

unreserved_plain : (c : ℕ) → is_unreserved c ≡ true → (c ≢ b'%') × (plain c ≡ c)
unfolding is_unreserved is_alnum is_digit is_upper is_lower plain
unreserved_plain c h = ground arith

decode-plus : (s : Bytes) → url_decode (b'+' ∷ s) ≡ b' ' ∷ url_decode s
unfolding plain
decode-plus s = decode-plain b'+' s (omega arith)

decode-escape : (c : ℕ) (s : Bytes) → c < 256 → url_decode (escape c ++ s) ≡ c ∷ url_decode s
unfolding escape
decode-escape c s h = ground (
  arith,
  unreserved_plain c,
  decode-plain c s,
  decode-plus s,
  decode-percent (to_hex (c / 16)) (to_hex c) s,
  hex_byte-to_hex c h,
)

-- Decoding an encoded text of bytes below 256 gives the text back.
pub url_decode-url_encode : (s : Bytes) → All (λ c. c < 256) s → url_decode (url_encode s) ≡ s
unfolding url_encode
url_decode-url_encode [] h = empty
  where
    empty : url_decode [] ≡ []
    empty = unfold url_decode in refl
url_decode-url_encode (c ∷ s) h =
    decode-escape c (url_encode s) h.0 ∙ ap (λ t. c ∷ t) (url_decode-url_encode s h.1)

-- The bytes that a query string may hold as they are, with `+` for a space and `%` for an escape.
abbrev pub IsUrlSafe : ℕ → Type 0
IsUrlSafe c = (is_unreserved c ≡ true) ⊎ (c ≡ b'+') ⊎ (c ≡ b'%')

to_hex_unreserved : (d : ℕ) → is_unreserved (to_hex d) ≡ true
unfolding to_hex is_unreserved is_alnum is_digit is_upper is_lower
to_hex_unreserved d = ground arith

escape-IsUrlSafe : (c : ℕ) → All IsUrlSafe (escape c) × (length (escape c) ≤ 3)
unfolding escape
escape-IsUrlSafe c = ground (arith, to_hex_unreserved c, to_hex_unreserved (c / 16))

-- What `url_encode` writes fits its buffer of `3 * strlen(str) + 1` bytes with the NUL, and holds
-- only letters, digits, `-`, `_`, `.`, `~`, `+` and `%`.
pub url_encode_safe :
    (s : Bytes) → All IsUrlSafe (url_encode s) × (length (url_encode s) + 1 ≤ length s * 3 + 1)
unfolding url_encode
url_encode_safe [] = (tt, omega arith)
url_encode_safe (c ∷ s) = (
  All-append IsUrlSafe (escape c) (url_encode s) (escape-IsUrlSafe c).0 (url_encode_safe s).0,
  omega (
    arith,
    (url_encode_safe s).1,
    (escape-IsUrlSafe c).1,
    length-append (escape c) (url_encode s),
  ),
)

decode_buff_lem :
    (ml : ℕ) (s : Bytes)
    → let (rc, out) = url_decode_buff (suc ml) s in
      (length out ≤ ml) × (rc ≡ success → out ≡ url_decode s)
unfolding url_decode_buff url_decode
decode_buff_lem ml [] = (omega arith, λ _. refl)
decode_buff_lem zero (c ∷ s) = (omega arith, λ e. cc)
decode_buff_lem (suc ml) (c ∷ []) = ground arith
decode_buff_lem (suc ml) (c ∷ a ∷ []) = ground (arith, decode_buff_lem ml (a ∷ []))
decode_buff_lem (suc ml) (c ∷ a ∷ b ∷ s) =
    ground (arith, decode_buff_lem ml s, decode_buff_lem ml (a ∷ b ∷ s))

-- On success and on failure the decoded bytes and the NUL fit in the `maxlen` bytes of the buffer.
pub url_decode_buff_fits :
    (maxlen : ℕ) (s : Bytes) → 0 < maxlen → length (url_decode_buff maxlen s).1 < maxlen
url_decode_buff_fits zero s h = absurd (omega arith)
url_decode_buff_fits (suc ml) s h = omega (arith, (decode_buff_lem ml s).0)

-- A success of `url_decode_buff` has decoded the whole string as `url_decode` does.
pub url_decode_buff_exact :
    (maxlen : ℕ) (s out : Bytes)
    → 0 < maxlen
    → url_decode_buff maxlen s ≡ (success, out)
    → out ≡ url_decode s
url_decode_buff_exact zero s out h e = absurd (omega arith)
url_decode_buff_exact (suc ml) s out h e =
    sym (ap (λ r. r.1) e) ∙ (decode_buff_lem ml s).1 (ap (λ r. r.0) e)
