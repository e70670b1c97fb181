-- ===== src/Dict/Entries.antt =====
-- What the dictionary holds after `add_dict`.
use g7ctrl.Common.{
  Bool, Bytes, List, Option-cases, [], arith, failure, if◌then◌else◌, inl, inr, leb, length, none,
  refl, some, str_eq, str_eq_cases, success, ℕ, ◌*◌, ◌++◌, ◌∷◌, ◌≡◌, ◌⊎◌,
}
use g7ctrl.Dict.{Tuple, Dict, find_tuple, getval_dict, add_dict}

find_tuple-append :
    (test : Bytes → Bool) (ts us : List Tuple)
    → find_tuple test (ts ++ us)
      ≡ (elim (find_tuple test ts) [ none ↦ find_tuple test us | some v ↦ some v ])
unfolding find_tuple
find_tuple-append test [] us = refl
find_tuple-append test (t ∷ ts) us = ground (arith, find_tuple-append test ts us)

found :
    (dict : Dict) (key val m : Bytes)
    → getval_dict dict key ≡ none
    → (max : ℕ)
    → getval_dict
        (record { tuples = dict.tuples ++ record { key = key; val = val } ∷ []; maxsize = max })
        m
      ≡ (if str_eq m key then some val else getval_dict dict m)
unfolding getval_dict find_tuple
found dict key val m e max = ground (
  arith,
  find_tuple-append (str_eq m) dict.tuples (record { key = key; val = val } ∷ []),
  str_eq_cases m key,
)

-- Adding a key that is known is refused and changes nothing. Any other key is added, and is found
-- afterwards with its value, and all others as before.
pub getval_dict-add_dict :
    (dict : Dict) (key val m : Bytes)
    → ((v : Bytes) × (getval_dict dict key ≡ some v) × (add_dict dict key val ≡ (failure, dict)))
      ⊎ ((dict' : Dict) × (getval_dict dict key ≡ none)
          × (add_dict dict key val ≡ (success, dict'))
          × (getval_dict dict' m ≡ (if str_eq m key then some val else getval_dict dict m)))
unfolding add_dict
getval_dict-add_dict dict key val m = elim (Option-cases (getval_dict dict key)) [
  | inr (v, e) ↦ inl (v, e, rw (e, add_dict) refl)
  | inl e ↦ inr (
    (add_dict dict key val).1,
    e,
    rw (e, add_dict) refl,
    rw (e, add_dict)
        (found dict key val m e
          (if leb dict.maxsize (length dict.tuples) then 2 * dict.maxsize else dict.maxsize)),
  )
]
