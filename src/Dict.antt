-- ===== src/Dict.antt =====
-- The dictionary and the text templates of src/dict.c. `tuples` holds the first `idx` entries.
-- Allocations succeed.
pub mod Replace
pub mod Entries
use g7ctrl.Common.{
  Bool, Bytes, List, Option, Rc, [], failure, false, if◌then◌else◌, leb, length, ltb, none, some,
  str_eq, suc, success, take, true, zero, ℕ, ◌&&◌, ◌*◌, ◌++◌, ◌+◌, ◌==◌, ◌∷◌,
}
use g7ctrl.Xstr.Copy.{strnlen}
use g7ctrl.Codec.Url.{to_lower}

-- `struct dict_tuple`
pub record Tuple : Type 0 where
  pub key : Bytes
  pub val : Bytes

pub record Dict : Type 0 where
  pub tuples : List Tuple
  pub maxsize : ℕ

abbrev pub dictionary_initial_size : ℕ
dictionary_initial_size = 100

abbrev pub max_dictionary_val_size : ℕ
max_dictionary_val_size = 1024

abbrev pub max_replace_buffer_size : ℕ
max_replace_buffer_size = 1024 * 1024

unfoldable pub new_dict : Dict
new_dict = record { tuples = []; maxsize = dictionary_initial_size }

unfoldable pub find_tuple : (Bytes → Bool) → List Tuple → Option Bytes
find_tuple test [] = none
find_tuple test (t ∷ ts) = if test t.key then some t.val else find_tuple test ts

unfoldable pub getval_dict : Dict → Bytes → Option Bytes
unfolding find_tuple
getval_dict dict key = find_tuple (str_eq key) dict.tuples

unfoldable pub add_dict : Dict → Bytes → Bytes → Rc × Dict
unfolding getval_dict
add_dict dict key val = elim (getval_dict dict key) [
  | some _ ↦ (failure, dict)
  | none ↦ (
    success,
    record {
      tuples = dict.tuples ++ record { key = key; val = val } ∷ [];
      maxsize = if leb dict.maxsize (length dict.tuples) then 2 * dict.maxsize else dict.maxsize;
    },
  )
]

-- `map_dict` for a function that answers a number: the first answer that is not 0.
unfoldable pub map_dict : (Bytes → Bytes → ℕ) → List Tuple → ℕ
map_dict f [] = 0
map_dict f (t ∷ ts) = if f t.key t.val == 0 then map_dict f ts else f t.key t.val

-- `strcasecmp(a, b) == 0` in the C locale.
unfoldable pub str_case_eq : Bytes → Bytes → Bool
str_case_eq [] [] = true
str_case_eq [] (d ∷ b) = false
str_case_eq (c ∷ a) [] = false
str_case_eq (c ∷ a) (d ∷ b) = to_lower c == to_lower d && str_case_eq a b

-- `while (nn < sizeof (match) - 1 && *ppbuff && *ppbuff != ']') match[nn++] = *ppbuff++`: the key and
-- where the loop stops. The first argument is the room left.
pub read_match : ℕ → Bytes → Bytes × Bytes
read_match zero s = ([], s)
read_match (suc room) [] = ([], [])
read_match (suc room) (c ∷ s) =
    let r = read_match room s in if c == b']' then ([], c ∷ s) else (c ∷ r.0, r.1)

-- `if (*ppbuff == ']')` and the search for the key.
pub replacement_of : List Tuple → Bytes × Bytes → Option (Bytes × Bytes)
unfolding find_tuple str_case_eq
replacement_of ts (match, []) = none
replacement_of ts (match, c ∷ rest) =
    if c == b']'
    then elim (find_tuple (str_case_eq match) ts) [
      | none ↦ none
      | some v ↦ some (take max_dictionary_val_size v, rest)
    ]
    else none

-- The value for `[match]` and the text behind it, if `s`, the text behind `[`, begins with a known key.
pub replacement : List Tuple → Bytes → Option (Bytes × Bytes)
unfolding read_match replacement_of
replacement ts s = replacement_of ts (read_match 255 s)

-- `while (n < N && *pbuff)`: what is written to `wbuff`. A round reads a byte at least, so the length
-- of the text is enough fuel.
pub replace_from : ℕ → List Tuple → ℕ → ℕ → Bytes → Bytes
unfolding replacement
replace_from zero ts size n s = []
replace_from (suc fuel) ts size n [] = []
replace_from (suc fuel) ts size n (c ∷ s) =
    let one = replace_from fuel ts size (n + 1) s in
    let jump : Bytes = elim (replacement ts s) [
      | none ↦ c ∷ one
      | some r ↦ r.0 ++ replace_from fuel ts size n r.1
    ] in
    if leb size n then [] else if c == b'[' then jump else c ∷ one

-- -1 before the replacement, more bytes than the heap buffer has with its NUL, -1 behind the replacement, or
-- 0 with the text left in the buffer.
pub data Replaced : Type 0 where
  refused overrun too_small : Replaced
  replaced : Bytes → Replaced

unfoldable pub replace_dict_in_buf : Dict → Bytes → ℕ → Replaced
unfolding replace_from
replace_dict_in_buf dict buffer maxlen =
    let size =
      strnlen buffer max_replace_buffer_size + max_dictionary_val_size * length dict.tuples in
    let out = replace_from (length buffer) dict.tuples size 0 buffer in
    if leb max_replace_buffer_size size
    then refused
    else if leb size (length out)
    then overrun
    else if ltb (length out) maxlen
    then replaced out
    else too_small
