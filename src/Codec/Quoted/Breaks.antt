-- ===== src/Codec/Quoted/Breaks.antt =====
-- The soft line breaks of `qprint_encode` of src/libsmtpmail/quotprinted.c, taken out again.
use g7ctrl.Common.{
  Bool-cases, Bytes, [], arith, codes, get_or, if◌then◌else◌, inl, inr, leb, refl, suc, zero, ℕ,
  ◌&&◌, ◌*◌, ◌++◌, ◌+◌, ◌-◌, ◌<◌, ◌==◌, ◌^◌, ◌∷◌, ◌≡◌, ◌≢◌, ◌≤◌,
}
use g7ctrl.Codec.Quoted.{chk_softlinebreak, hex_upper}

-- The text without its soft line breaks; the number of bytes to skip comes first.
abbrev pub unbroken : ℕ → Bytes → Bytes
unbroken k [] = []
unbroken (suc k) (c ∷ s) = unbroken k s
unbroken zero (c ∷ s) =
    let skipped = unbroken 2 s in
    let kept = unbroken zero s in
    if c == b'=' && get_or s 0 0 == b'\r' && get_or s 1 0 == b'\n' then skipped else c ∷ kept

abbrev unhex : ℕ → ℕ
unhex c = if leb c b'9' then c - b'0' else c - b'A' + 10

-- Each `=` with two digits as the byte that they stand for.
abbrev pub unquoted : ℕ → Bytes → Bytes
unquoted k [] = []
unquoted (suc k) (c ∷ s) = unquoted k s
unquoted zero (c ∷ s) =
    let skipped = unquoted 2 s in
    let kept = unquoted zero s in
    if c == b'=' then (unhex (get_or s 0 0) * 16 + unhex (get_or s 1 0)) ∷ skipped else c ∷ kept

-- What is left of the byte when the line breaks are gone: a space at the end of a line is escaped.
abbrev pub shown : ℕ → ℕ → Bytes
shown c w = if w == 75 && c == b' ' then codes "=20" else c ∷ []

pub unbroken-shown :
    (c w n : ℕ) (t : Bytes)
    → c ≢ b'='
    → 6 ≤ n
    → unbroken 0 ((chk_softlinebreak c w n).0 ++ t) ≡ shown c w ++ unbroken 0 t
unfolding chk_softlinebreak
unbroken-shown c w n t h room = elim (Bool-cases (w == 75)) [
  | inr e ↦ rw e (ground arith)
  | inl e ↦
      rw e (elim (Bool-cases (c == b' ')) [
        | inl s ↦ rw s (ground arith)
        | inr s ↦ rw s (ground arith)
      ])
]

pub unbroken-escape :
    (w n : ℕ) (t : Bytes)
    → get_or t 0 0 ≢ b'\r'
    → 6 ≤ n
    → unbroken 0 ((chk_softlinebreak b'=' w n).0 ++ t) ≡ b'=' ∷ unbroken 0 t
unfolding chk_softlinebreak
unbroken-escape w n t h room = elim (Bool-cases (w == 75)) [
  | inr e ↦ rw e (ground arith)
  | inl e ↦ rw e (ground arith)
]

pub room_left :
    (c w n : ℕ)
    → 6 ≤ n
    → n < 2 ^ 64
    → (n ≤ (chk_softlinebreak c w n).2 + 6) × ((chk_softlinebreak c w n).2 ≤ n)
unfolding chk_softlinebreak
room_left c w n room small = elim (Bool-cases (w == 75)) [
  | inr e ↦ rw e (omega arith)
  | inl e ↦
      rw e (elim (Bool-cases (c == b' ')) [
        | inl s ↦ rw s (ground arith)
        | inr s ↦ rw s (ground arith)
      ])
]

pub chk_head :
    (c w n : ℕ) (t : Bytes) → c ≢ b' ' → 6 ≤ n → get_or ((chk_softlinebreak c w n).0 ++ t) 0 0 ≡ c
unfolding chk_softlinebreak
chk_head c w n t h room = elim (Bool-cases (w == 75)) [
  | inr e ↦ rw e refl
  | inl e ↦ rw e (ground arith)
]

pub digit_back : (d : ℕ) → d < 16 → unhex (hex_upper d) ≡ d
digit_back d h = ground arith

pub digit_plain :
    (d : ℕ) → d < 16 → (hex_upper d ≢ b'=') × (hex_upper d ≢ b' ') × (hex_upper d ≢ b'\r')
digit_plain d h = (ground arith, ground arith, ground arith)
