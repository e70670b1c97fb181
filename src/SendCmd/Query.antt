-- ===== src/SendCmd/Query.antt =====
-- Questions of the daemon itself to a device, of src/g7sendcmd.c: `send_cmdquery_reply`, `get_numrec` and
-- `get_devid`. `send` is `send_rawcmd_reply` for a text, its tag and the size of the reply buffer.
use g7ctrl.Common.{
  All, Bool, Bool-cases, Bytes, Option, Rc, [], ap, arith, codes, cstr, drop, failure, false,
  get_or, if◌then◌else◌, inl, inr, length, le→ltb-false, ltb, lt→ltb, none, not, refl, some, str_eq,
  str_eq_refl, suc, success, take, true, zero, ℕ, ◌++◌, ◌-◌, ◌<◌, ◌==◌, ◌^◌, ◌||◌, ◌∙◌, ◌∷◌, ◌≡◌,
  ◌≢◌, ◌≤◌,
}
use mathlib.Core.Option
use g7ctrl.Common.Int.{ℤ, pos, negsuc}
use g7ctrl.DeviceTag.{get_device_tag, get_device_pin}
use g7ctrl.DeviceReply.{extract_devcmd_reply_first_field}
use g7ctrl.DevCmd.Table.{get_devcmd_from_srvcmd}
use g7ctrl.DevCmd.Prepare.{prefix}
use g7ctrl.Xstr.Number.{xatoi, xatol, to_unsigned, value, AllDigits, is_digit, xatoi_digits}

-- The text for a device command; for SETEVT the reply buffer holds the number of the event.
unfoldable pub query_text : Bytes → Bytes → Bytes → Bytes → Bytes
query_text rawcmd tag pin reply =
    if str_eq (codes "SETEVT") rawcmd
    then take 127 (prefix rawcmd tag pin ++ b',' ∷ (reply ++ codes ",?"))
    else take 127 (prefix rawcmd tag pin ++ codes ",?")

abbrev is_failure : ℤ → Bool
is_failure (pos n) = false
is_failure (negsuc n) = n == 0

-- What a question leaves: the answer, the reply buffer, the running number of the tags and the world.
pub record Queried (S : Type 0) : Type 0 where
  pub result : Rc
  pub reply : Bytes
  pub tagnbr : ℕ
  pub world : S

abbrev or_empty : Option Bytes → Bytes
or_empty none = []
or_empty (some r) = r

-- The loop that copies digits, with room for `n` more; `none` when there is no bracket among the first six
-- bytes.
pub count_digits : ℕ → Bytes → Option Bytes
count_digits zero m = none
count_digits (suc n) [] = none
count_digits (suc n) (c ∷ m) =
    let more = count_digits n m in if c == b'(' then some [] else Option.map (λ ds. c ∷ ds) more

-- `while (*dlptr && *dlptr != '=') dlptr++;`: the memory at `dlptr`.
pub skip_to_equals : Bytes → Bytes
skip_to_equals [] = []
skip_to_equals (c ∷ m) = if c == 0 || c == b'=' then c ∷ m else skip_to_equals m

-- The part of `get_numrec` behind the question; `m` is the memory of the reply, and `none` is -1.
unfoldable pub numrec_of : Bytes → Option ℤ
unfolding count_digits skip_to_equals
numrec_of m =
    let p = skip_to_equals m in
    if not (str_eq (take 4 m) (codes "$OK:"))
    then none
    else if get_or p 0 0 == 0
    then none
    else Option.map (λ ds. (xatoi (cstr ds)).0) (count_digits 6 (drop 1 p))

module _ {S : Type 0} (send : Bytes → Bytes → ℕ → S → (ℤ × Option Bytes) × S) where
  unfoldable pub send_cmdquery_reply : Bytes → Bytes → ℕ → ℕ → S → Queried S
  unfolding query_text
  send_cmdquery_reply cmd reply maxreply tagnbr s =
      let t = get_device_tag tagnbr 16 in
      let pin = (get_device_pin 16).1 in
      elim (get_devcmd_from_srvcmd cmd 16) [
        | none ↦ record { result = failure; reply = reply; tagnbr = t.2; world = s }
        | some rawcmd ↦
            let r = send (query_text rawcmd t.1 pin reply) t.1 maxreply s in
            record {
              result = if is_failure r.0.0 then failure else success;
              reply = or_empty r.0.1;
              tagnbr = t.2;
              world = r.1;
            }
      ]

  -- `stale` is what lies behind the reply in its buffer. The number of locations, or `none` for -1.
  unfoldable pub get_numrec : Bytes → ℕ → S → Option ℤ × Queried S
  unfolding send_cmdquery_reply numrec_of
  get_numrec stale tagnbr s =
      let q = send_cmdquery_reply (codes "DLREC") [] 128 tagnbr s in
      elim q.result [ failure ↦ (none, q) | success ↦ (numrec_of (q.reply ++ 0 ∷ stale), q) ]

  -- The id of the device, or `none` for -1.
  unfoldable pub get_devid : Bytes → ℕ → S → Option ℕ × Queried S
  unfolding send_cmdquery_reply
  get_devid stale tagnbr s =
      let q = send_cmdquery_reply (codes "CONFIG") [] 48 tagnbr s in
      elim q.result [
        | failure ↦ (none, q)
        | success ↦ (
          Option.map (λ id. to_unsigned (xatol id).0)
              (extract_devcmd_reply_first_field (q.reply ++ 0 ∷ stale) 32),
          q,
        )
      ]

-- The text before the number.
abbrev pub Label : Bytes → Type 0
Label = All (λ b. (0 < b) × (b ≢ b'='))

skip_to_equals_lem : (c m : Bytes) → Label c → skip_to_equals (c ++ b'=' ∷ m) ≡ b'=' ∷ m
unfolding skip_to_equals
skip_to_equals_lem [] m h = refl
skip_to_equals_lem (b ∷ c) m h = ground (arith, skip_to_equals_lem c m h.1)

count_digits_lem :
    (n : ℕ) (ds rest : Bytes)
    → AllDigits ds
    → count_digits n (ds ++ b'(' ∷ rest) ≡ (if ltb (length ds) n then some ds else none)
unfolding count_digits
count_digits_lem zero ds rest h = rw (le→ltb-false (length ds) 0 (omega arith)) refl
count_digits_lem (suc n) [] rest h = rw (lt→ltb 0 (suc n) (omega arith)) refl
count_digits_lem (suc n) (d ∷ ds) rest h =
    let ih = count_digits_lem n ds rest h.1 in
    let other : (d == b'(') ≡ false = ground (arith, h.0) in
    let same : ltb (suc (length ds)) (suc n) ≡ ltb (length ds) n = ground arith in
    rw (other, same, ih)
      (elim (Bool-cases (ltb (length ds) n)) [ inl e ↦ rw e refl | inr e ↦ rw e refl ])

digit_small : (c : ℕ) → is_digit c ≡ true → c - b'0' < 10
digit_small c h = ground (arith, h)

small_value : (ds : Bytes) → AllDigits ds → length ds ≤ 5 → value 0 ds < 100000
small_value [] h s = omega arith
small_value (a ∷ []) h s = omega (arith, digit_small a h.0)
small_value (a ∷ b ∷ []) h s = omega (arith, digit_small a h.0, digit_small b h.1.0)
small_value (a ∷ b ∷ c ∷ []) h s =
    omega (arith, digit_small a h.0, digit_small b h.1.0, digit_small c h.1.1.0)
small_value (a ∷ b ∷ c ∷ d ∷ []) h s =
    omega (
      arith,
      digit_small a h.0,
      digit_small b h.1.0,
      digit_small c h.1.1.0,
      digit_small d h.1.1.1.0,
    )
small_value (a ∷ b ∷ c ∷ d ∷ e ∷ []) h s = omega (
  arith,
  digit_small a h.0,
  digit_small b h.1.0,
  digit_small c h.1.1.0,
  digit_small d h.1.1.1.0,
  digit_small e h.1.1.1.1.0,
)
small_value (a ∷ b ∷ c ∷ d ∷ e ∷ f ∷ ds) h s = absurd (omega arith)

cstr-AllDigits : (ds : Bytes) → AllDigits ds → cstr ds ≡ ds
unfolding cstr
cstr-AllDigits [] h = refl
cstr-AllDigits (d ∷ ds) h = ground (arith, cstr-AllDigits ds h.1)

number_of : (ds : Bytes) → AllDigits ds → length ds ≤ 5 → (xatoi (cstr ds)).0 ≡ pos (value 0 ds)
number_of ds h s =
    let small = small_value ds h s in
    let below : ltb (value 0 ds) (2 ^ 63) ≡ true = ground (arith, small) in
    ap (λ t. (xatoi t).0) (cstr-AllDigits ds h)
    ∙ ap (λ (r : ℤ × Bool). r.0) (xatoi_digits ds h)
    ∙ rw below (ground (arith, small))

-- The reply `$OK:<label>=<number>(...` gives its number when that has at most five digits, and an
-- error from six digits on.
pub numrec_of_lem :
    (label ds rest : Bytes)
    → Label label
    → AllDigits ds
    → numrec_of (codes "$OK:" ++ label ++ b'=' ∷ (ds ++ b'(' ∷ rest))
      ≡ (if ltb (length ds) 6 then some (pos (value 0 ds)) else none)
unfolding numrec_of
numrec_of_lem label ds rest l h =
    let m = codes "$OK:" ++ label ++ b'=' ∷ (ds ++ b'(' ∷ rest) in
    let skipped : skip_to_equals m ≡ b'=' ∷ (ds ++ b'(' ∷ rest) =
      skip_to_equals_lem (codes "$OK:" ++ label) (ds ++ b'(' ∷ rest)
        (omega arith, (omega arith, (omega arith, (omega arith, l)))) in
    let digits = count_digits_lem 6 ds rest h in
    rw (skipped, digits, numrec_of)
      (elim (Bool-cases (ltb (length ds) 6)) [
        | inl e ↦
            rw (e, str_eq_refl (codes "$OK:"))
              (ap (λ v. some v) (number_of ds h (ground (arith, e))))
        | inr e ↦ rw (e, str_eq_refl (codes "$OK:")) refl
      ])
