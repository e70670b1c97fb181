-- ===== src/Codec/Html.antt =====
-- `html_encode` and `esc_percentsign` of src/utils.c. A null argument, which both hand back, is
-- not modelled; the result buffer is the list of what is written before the NUL.
use g7ctrl.Common.{
  ==→eq, All, All-append, Bool-cases, Bytes, Option, [], ap₂, arith, codes, false, if◌then◌else◌,
  inl, inr, length, length-append, none, refl, some, sym, true, ℕ, ◌*◌, ◌++◌, ◌+◌, ◌==◌, ◌∷◌, ◌≡◌,
  ◌≢◌, ◌≤◌,
}
use mathlib.Core.Option

-- One round of `html_encode`.
entity : ℕ → Bytes
entity c =
    if c == b'<'
    then codes "&lt;"
    else if c == b'>'
    then codes "&gt;"
    else if c == b'&'
    then codes "&amp;"
    else if c == b'"'
    then codes "&quot;"
    else c ∷ []

unfoldable pub html_encode : Bytes → Bytes
unfolding entity
html_encode [] = []
html_encode (c ∷ s) = entity c ++ html_encode s

unfoldable pub esc_percentsign : Bytes → Bytes
esc_percentsign [] = []
esc_percentsign (c ∷ s) =
    if c == b'%' then b'%' ∷ b'%' ∷ esc_percentsign s else c ∷ esc_percentsign s

-- The characters that end text in HTML.
abbrev pub IsPlain : ℕ → Type 0
IsPlain c = (c ≢ b'<') × (c ≢ b'>') × (c ≢ b'"')

entity-length : (c : ℕ) → length (entity c) ≤ 6
unfolding entity
entity-length c = ground arith

entity-IsPlain : (c : ℕ) → All IsPlain (entity c)
unfolding entity
entity-IsPlain c = ground arith

-- What `html_encode` writes fits its buffer of `6 * strlen(str) + 1` bytes with the NUL, and holds
-- no `<`, `>` or `"`.
pub html_encode_safe :
    (s : Bytes) → (length (html_encode s) + 1 ≤ length s * 6 + 1) × All IsPlain (html_encode s)
unfolding html_encode
html_encode_safe [] = omega arith
html_encode_safe (c ∷ s) = (
  omega (arith, (html_encode_safe s).0, entity-length c, length-append (entity c) (html_encode s)),
  All-append IsPlain (entity c) (html_encode s) (entity-IsPlain c) (html_encode_safe s).1,
)

-- The encoding is a prefix code.
entity_split : (c d : ℕ) (x y : Bytes) → entity c ++ x ≡ entity d ++ y → (c ≡ d) × (x ≡ y)
unfolding entity
entity_split c d x y e = ground arith

entity_ne_nil : (c : ℕ) (x : Bytes) → entity c ++ x ≢ []
unfolding entity
entity_ne_nil c x e = ground arith

-- No two texts are encoded alike.
pub html_encode_injective : (s t : Bytes) → html_encode s ≡ html_encode t → s ≡ t
unfolding html_encode
html_encode_injective [] [] e = refl
html_encode_injective [] (d ∷ t) e = absurd (entity_ne_nil d (html_encode t) (sym e))
html_encode_injective (c ∷ s) [] e = absurd (entity_ne_nil c (html_encode s) e)
html_encode_injective (c ∷ s) (d ∷ t) e =
    let (p, q) = entity_split c d (html_encode s) (html_encode t) e in
    ap₂ ◌∷◌ p (html_encode_injective s t q)

-- What `printf` of the C library prints for a format with no argument: `%%` is a percent sign, and
-- any other conversion asks for an argument.
unfoldable pub printf_text : Bytes → Option Bytes
printf_text [] = some []
printf_text (c ∷ []) = if c == b'%' then none else some (c ∷ [])
printf_text (c ∷ d ∷ s) = elim (c == b'%') [
  | true ↦ if d == b'%' then Option.map (λ t. b'%' ∷ t) (printf_text s) else none
  | false ↦ Option.map (λ t. c ∷ t) (printf_text (d ∷ s))
]

printf_text-cons :
    (c : ℕ) (s : Bytes) {t : Bytes}
    → c ≢ b'%'
    → printf_text s ≡ some t
    → printf_text (c ∷ s) ≡ some (c ∷ t)
unfolding printf_text
printf_text-cons c [] ne e = ground arith
printf_text-cons c (d ∷ s) ne e = ground arith

printf_text-percent :
    (s : Bytes) {t : Bytes}
    → printf_text s ≡ some t
    → printf_text (b'%' ∷ b'%' ∷ s) ≡ some (b'%' ∷ t)
unfolding printf_text
printf_text-percent s e = rw e

-- Printed as a format with no arguments, an escaped text comes out as it was.
pub printf-esc_percentsign : (s : Bytes) → printf_text (esc_percentsign s) ≡ some s
unfolding esc_percentsign
printf-esc_percentsign [] = unfold printf_text in refl
printf-esc_percentsign (c ∷ s) = elim (Bool-cases (c == b'%')) [
  | inl e ↦
      rw (e, ==→eq c b'%' e) (printf_text-percent (esc_percentsign s) (printf-esc_percentsign s))
  | inr e ↦ rw e (printf_text-cons c (esc_percentsign s) (ground arith) (printf-esc_percentsign s))
]
