-- ===== src/Xstr/Split.antt =====
-- `xstrsplitfields` of src/libxstr/xstr.c: a string is cut at a delimiter into a `struct
-- splitfields` of at most 64 fields of at most 255 bytes. The fields are those that `nf` counts.
pub mod RoundTrip
pub mod Sound
use g7ctrl.Common.{
  Bytes, List, Rc, [], failure, false, get_or, if◌then◌else◌, leb, length, suc, success, true, zero,
  ℕ, ◌++◌, ◌-◌, ◌==◌, ◌||◌, ◌∷◌,
}

abbrev pub max_split_fields : ℕ
max_split_fields = 64

abbrev pub max_field_size : ℕ
max_field_size = 256

-- What the inner loop leaves: the bytes copied, the unread input and what is left of `flen`.
pub record Copied : Type 0 where
  pub fld : Bytes
  pub rest : Bytes
  pub flen : ℕ

-- `while (*bptr != delim && len > 0 && flen > 0) { *ptr++ = *bptr++; --len; --flen; }`
pub copy_field : ℕ → ℕ → Bytes → Copied
copy_field delim zero s = record { fld = []; rest = s; flen = 0 }
copy_field delim (suc flen) [] = record { fld = []; rest = []; flen = suc flen }
copy_field delim (suc flen) (c ∷ s) = elim (c == delim) [
  | true ↦ record { fld = []; rest = c ∷ s; flen = suc flen }
  | false ↦ let r = copy_field delim flen s in record r { fld = c ∷ r.fld }
]

-- `if (*bptr == delim) { bptr++; --len; }`
pub skip_delim : ℕ → Bytes → Bytes
skip_delim delim [] = []
skip_delim delim (c ∷ s) = if c == delim then s else c ∷ s

-- The outer loop. The first argument is `MAX_SPLIT_FIELDS - nf`; `acc` holds the fields so far.
pub split_loop : ℕ → ℕ → Bytes → List Bytes → Rc × List Bytes
split_loop zero delim s acc = (failure, acc)
split_loop (suc room) delim [] acc = (success, acc)
split_loop (suc room) delim (c ∷ s) acc =
    let r = copy_field delim max_field_size (c ∷ s) in
    let acc' = acc ++ r.fld ∷ [] in
    let more = split_loop room delim (skip_delim delim r.rest) acc' in
    if r.flen == 0 then (failure, acc) else if room == 0 then (failure, acc') else more

abbrev pub last : Bytes → ℕ
last s = get_or s (length s - 1) 0

-- A delimiter at the very end stands for an empty last field.
pub close_fields : ℕ → Bytes → Rc × List Bytes → Rc × List Bytes
close_fields delim buffer (failure, flds) = (failure, flds)
close_fields delim buffer (success, flds) =
    (success, if delim == last buffer then flds ++ [] ∷ [] else flds)

unfoldable pub xstrsplitfields : Bytes → ℕ → Rc × List Bytes
unfolding copy_field skip_delim split_loop close_fields
xstrsplitfields buffer delim =
    if leb 1024 (length buffer) || length buffer == 0
    then (failure, [])
    else close_fields delim buffer (split_loop max_split_fields delim buffer [])
