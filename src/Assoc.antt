-- ===== src/Assoc.antt =====
-- The associative array of src/libxstr/assocarray.c. `pairs` holds the first `num_values` entries of
-- the allocated array `a`; the entries behind them are never read. Allocations succeed, and the
-- pointers that are passed are not null.
pub mod Grow
pub mod Put
pub mod Edits
pub mod Sets
pub mod Sort
use mathlib.Core.Option
use g7ctrl.Common.{
  Bool, Bytes, List, Option, [], false, if◌then◌else◌, length, ltb, none, some, str_eq, str_lt, suc,
  true, zero, ℕ, ◌*◌, ◌++◌, ◌==◌, ◌||◌, ◌∷◌,
}

pub record Pair : Type 0 where
  pub name : Bytes
  pub val : Bytes

pub record AssocArray : Type 0 where
  pub pairs : List Pair
  pub max_values : ℕ

abbrev pub num_values : AssocArray → ℕ
num_values a = length a.pairs

-- 0, -1 and -2, and `stuck`, which is no answer of the code: calls nested deeper than the bound, or
-- an entry that the growth of the array did not copy and that would be read as a null pointer.
pub data Status : Type 0 where
  done invalid conflict stuck : Status

-- `*name == '\0'`
abbrev pub is_empty : Bytes → Bool
is_empty [] = true
is_empty (c ∷ s) = false

unfoldable pub assoc_new : ℕ → Option AssocArray
assoc_new initial_size =
    if ltb initial_size 4 then none else some (record { pairs = []; max_values = initial_size })

-- `while (i < a->num_values && strcmp(name, a->a[i].name)) i++`, and the value found there.
unfoldable pub find : Bytes → List Pair → Option Bytes
find name [] = none
find name (p ∷ ps) = if str_eq name p.name then some p.val else find name ps

unfoldable pub assoc_get : AssocArray → Bytes → Option Bytes
unfolding find
assoc_get a name = if is_empty name || num_values a == 0 then none else find name a.pairs

unfoldable pub assoc_get2 : AssocArray → Bytes → Bytes → Bytes
unfolding assoc_get
assoc_get2 a name notfound = elim (assoc_get a name) [ none ↦ notfound | some v ↦ v ]

unfoldable pub assoc_len : AssocArray → ℕ
assoc_len a = num_values a

unfoldable pub assoc_clear : AssocArray → AssocArray
assoc_clear a = record a { pairs = [] }

-- `if (-1 == assoc_put(...)) return -1`, and else the next round.
abbrev pub unless_invalid :
    Status × AssocArray → (AssocArray → Status × AssocArray) → Status × AssocArray
unless_invalid (invalid, a) next = (invalid, a)
unless_invalid (stuck, a) next = (stuck, a)
unless_invalid (done, a) next = next a
unless_invalid (conflict, a) next = next a

-- The loop of `assoc_add` over the source's entries, for a given `assoc_put`.
unfoldable pub add_pairs :
    (AssocArray → Bytes → Bytes → Status × AssocArray)
    → AssocArray
    → List Pair
    → Status × AssocArray
add_pairs put dest [] = (done, dest)
add_pairs put dest (p ∷ ps) =
    unless_invalid (put dest p.name p.val) (λ dest'. add_pairs put dest' ps)

abbrev pub copy_with :
    (AssocArray → Bytes → Bytes → Status × AssocArray)
    → AssocArray
    → AssocArray
    → Status × AssocArray
copy_with put dest src = add_pairs put (assoc_clear dest) src.pairs

-- `if (a->num_values >= a->max_values)`: the pairs move to an array of twice the size. The status of
-- the copy is not looked at; `num_values` stays, so a pair that was not copied would be null.
unfoldable pub grow :
    (AssocArray → Bytes → Bytes → Status × AssocArray) → AssocArray → Status × AssocArray
unfolding assoc_new assoc_clear
grow put a =
    if ltb (num_values a) a.max_values then (done, a) else elim (assoc_new (a.max_values * 2)) [
      | none ↦ (invalid, a)
      | some tmp ↦
          let (st, tmp') = copy_with put tmp a in
          if num_values tmp' == num_values a then (done, tmp') else (stuck, a)
    ]

pub append_pair : Bytes → Bytes → Status × AssocArray → Status × AssocArray
append_pair name val (done, a) =
    (done, record a { pairs = a.pairs ++ record { name = name; val = val } ∷ [] })
append_pair name val (st, a) = (st, a)

-- `assoc_put` calls itself through the copy of a full array. The first argument bounds the nesting.
unfoldable pub put_within : ℕ → AssocArray → Bytes → Bytes → Status × AssocArray
unfolding append_pair grow
put_within zero a name val = (stuck, a)
put_within (suc depth) a name val =
    let grown = append_pair name val (grow (put_within depth) a) in
    if is_empty name
    then (invalid, a)
    else elim (assoc_get a name) [ some _ ↦ (conflict, a) | none ↦ grown ]

-- The copy has room for all its pairs, so two levels are enough.
unfoldable pub assoc_put : AssocArray → Bytes → Bytes → Status × AssocArray
unfolding put_within
assoc_put = put_within 2

unfoldable pub assoc_add : AssocArray → AssocArray → Status × AssocArray
unfolding add_pairs
assoc_add dest src = add_pairs assoc_put dest src.pairs

unfoldable pub assoc_copy : AssocArray → AssocArray → Status × AssocArray
unfolding assoc_clear
assoc_copy dest src = assoc_add (assoc_clear dest) src

-- The entries of the shorter array that the other one has too.
pub in_both : AssocArray → List Pair → List Pair
in_both other [] = []
in_both other (p ∷ ps) = elim (assoc_get other p.name) [
  | none ↦ in_both other ps
  | some _ ↦ p ∷ in_both other ps
]

-- The loop puts each such entry as it is met and stops at the first -1.
unfoldable pub assoc_intersection : AssocArray → AssocArray → AssocArray → Status × AssocArray
unfolding in_both assoc_clear
assoc_intersection dest a1 a2 =
    let shorter = if ltb (num_values a1) (num_values a2) then a1 else a2 in
    let longer = if ltb (num_values a1) (num_values a2) then a2 else a1 in
    add_pairs assoc_put (assoc_clear dest) (in_both longer shorter.pairs)

-- The search loop, and the new value at the place found.
pub set_val : Bytes → Bytes → List Pair → Option (List Pair)
set_val name val [] = none
set_val name val (p ∷ ps) =
    if str_eq p.name name
    then some (record p { val = val } ∷ ps)
    else Option.map (λ qs. p ∷ qs) (set_val name val ps)

unfoldable pub assoc_update : AssocArray → Bytes → Bytes → Status × AssocArray
unfolding set_val
assoc_update a name val = elim (set_val name val a.pairs) [
  | none ↦ (invalid, a)
  | some ps ↦ (done, record a { pairs = ps })
]

-- The search loop; the entries behind the place found move down by one.
pub remove : Bytes → List Pair → Option (List Pair)
remove name [] = none
remove name (p ∷ ps) =
    if str_eq p.name name then some ps else Option.map (λ qs. p ∷ qs) (remove name ps)

unfoldable pub assoc_del : AssocArray → Bytes → Status × AssocArray
unfolding remove
assoc_del a name =
    if is_empty name
    then (invalid, a)
    else if num_values a == 0
    then (conflict, a)
    else elim (remove name a.pairs) [
      | none ↦ (conflict, a)
      | some ps ↦ (done, record a { pairs = ps })
    ]

-- `qsort` by name. On names that differ its result is the one sorted order, as insertion gives it.
pub insert : Pair → List Pair → List Pair
insert p [] = p ∷ []
insert p (q ∷ qs) = if str_lt q.name p.name then q ∷ insert p qs else p ∷ q ∷ qs

pub qsort : List Pair → List Pair
unfolding insert
qsort [] = []
qsort (p ∷ ps) = insert p (qsort ps)

unfoldable pub assoc_sort : AssocArray → Status × AssocArray
unfolding qsort
assoc_sort a =
    if num_values a == 0 then (invalid, a) else (done, record a { pairs = qsort a.pairs })
