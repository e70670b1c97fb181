-- ===== src/DeviceTag.antt =====
-- The running tag of the commands sent, and the PIN, of src/g7sendcmd.c: `get_device_tag` and
-- `get_device_pin`.
use g7ctrl.Common.{
  Bytes, Rc, [], arith, codes, failure, false, if◌then◌else◌, length, ltb, refl, success, true, ℕ,
  ◌%◌, ◌+◌, ◌/◌, ◌<◌, ◌^◌, ◌∷◌, ◌≡◌, ◌≤◌,
}
use g7ctrl.Xstr.Utf8.{xmb_strncpy}
use g7ctrl.Xstr.Number.{AllDigits, is_digit, value}

-- `"%04hu"` of a number below 10000.
abbrev four_digits : ℕ → Bytes
four_digits n =
    (b'0' + n / 1000 % 10) ∷ (b'0' + n / 100 % 10) ∷ (b'0' + n / 10 % 10) ∷ (b'0' + n % 10) ∷ []

-- `tagnbr++; if (tagnbr > 9999) tagnbr = 0;`
abbrev next_tag : ℕ → ℕ
next_tag tagnbr = if ltb 9999 ((tagnbr + 1) % 2 ^ 16) then 0 else (tagnbr + 1) % 2 ^ 16

-- The answer, the tag, and `tagnbr` afterwards.
unfoldable pub get_device_tag : ℕ → ℕ → Rc × Bytes × ℕ
get_device_tag tagnbr maxlen =
    if ltb maxlen 6
    then (failure, [], tagnbr)
    else (success, four_digits (next_tag tagnbr), next_tag tagnbr)

unfoldable pub get_device_pin : ℕ → Rc × Bytes
get_device_pin maxlen =
    if ltb maxlen 5 then (failure, []) else (success, xmb_strncpy (codes "0000") maxlen)

value_four : (n : ℕ) → n < 10000 → value 0 (four_digits n) ≡ n
value_four n h = omega arith

digit : (n : ℕ) → is_digit (b'0' + n % 10) ≡ true
digit n = ground arith

-- With room for 6 bytes and a running number below 10000 the tag is the four decimal digits of
-- the next number, modulo 10000, which is the new running number.
pub get_device_tag_lem :
    (tagnbr maxlen : ℕ)
    → tagnbr < 10000
    → 6 ≤ maxlen
    → (tag : Bytes) × (get_device_tag tagnbr maxlen ≡ (success, tag, (tagnbr + 1) % 10000))
      × (value 0 tag ≡ (tagnbr + 1) % 10000)
      × AllDigits tag
      × (length tag ≡ 4)
unfolding get_device_tag
get_device_tag_lem tagnbr maxlen h m =
    let n = (tagnbr + 1) % 10000 in
    (
      four_digits n,
      rw (room maxlen m, next tagnbr h) refl,
      value_four n (omega arith),
      (digit (n / 1000), (digit (n / 100), (digit (n / 10), (digit n, tt)))),
      omega arith,
    )
  where
    room : (maxlen : ℕ) → 6 ≤ maxlen → ltb maxlen 6 ≡ false
    room maxlen m = ground arith

    next : (tagnbr : ℕ) → tagnbr < 10000 → next_tag tagnbr ≡ (tagnbr + 1) % 10000
    next tagnbr h = ground arith
