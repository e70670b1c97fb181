-- ===== src/Tests/Store.antt =====
-- Runs of the associative array.
use g7ctrl.Common.{[], arith, codes, none, refl, some, str_eq, str_eq-ne, ◌++◌, ◌+◌, ◌∷◌, ◌≡◌}
use mathlib.Core.List.{Perm}
use g7ctrl.Assoc.{
  AssocArray, num_values, done, find, assoc_get, assoc_put, add_pairs, assoc_del, assoc_sort,
}
use g7ctrl.Assoc.Grow.{IsValid, entry}
use g7ctrl.Assoc.Put.{put_result, assoc_put_lem}
use g7ctrl.Assoc.Edits.{assoc_del_found}
use g7ctrl.Assoc.Sort.{IsSorted, assoc_sort_lem}

-- A full array of four pairs.
abbrev full : AssocArray
full = record {
  pairs =
      entry (codes "c") (codes "3")
      ∷ entry (codes "a") (codes "1")
      ∷ entry (codes "d") (codes "4")
      ∷ entry (codes "b") (codes "2")
      ∷ [];
  max_values = 4;
}

full-IsValid : IsValid full
unfolding str_eq
full-IsValid = record {
  distinct = (
    (
      str_eq-ne (codes "c") (codes "a") refl,
      (str_eq-ne (codes "c") (codes "d") refl, (str_eq-ne (codes "c") (codes "b") refl, tt)),
    ),
    (
      (str_eq-ne (codes "a") (codes "d") refl, (str_eq-ne (codes "a") (codes "b") refl, tt)),
      ((str_eq-ne (codes "d") (codes "b") refl, tt), (tt, tt)),
    ),
  );
  named = (refl, (refl, (refl, (refl, tt))));
  fits = omega arith;
  least = omega arith;
}

abbrev other : AssocArray
other = record {
  pairs = entry (codes "b") (codes "9") ∷ entry (codes "e") (codes "5") ∷ [];
  max_values = 4;
}

other-IsValid : IsValid other
unfolding str_eq
other-IsValid = record {
  distinct = ((str_eq-ne (codes "b") (codes "e") refl, tt), (tt, tt));
  named = (refl, (refl, tt));
  fits = omega arith;
  least = omega arith;
}

assoc_put_lem_example :
    assoc_put full (codes "e") (codes "5") ≡ put_result full (codes "e") (codes "5")
assoc_put_lem_example = assoc_put_lem full (codes "e") (codes "5") full-IsValid

-- The array after a fifth pair.
abbrev five : AssocArray
five = record { pairs = full.pairs ++ entry (codes "e") (codes "5") ∷ []; max_values = 8 }

put_run : assoc_put full (codes "e") (codes "5") ≡ (done, five)
unfolding assoc_put assoc_get str_eq add_pairs
put_run = refl

find_run : find (codes "a") full.pairs ≡ some (codes "1")
unfolding find str_eq
find_run = refl

assoc_del_found_example :
    (a' : AssocArray) × (assoc_del full (codes "a") ≡ (done, a'))
    × IsValid a'
    × (assoc_get a' (codes "a") ≡ none)
    × (num_values a' + 1 ≡ 4)
unfolding str_eq
assoc_del_found_example =
    assoc_del_found full (codes "a") (codes "a") (codes "1") full-IsValid refl refl find_run

get_run : assoc_get full (codes "z") ≡ none
unfolding assoc_get str_eq
get_run = refl

assoc_sort_lem_example :
    (a' : AssocArray) × (assoc_sort full ≡ (done, a'))
    × IsSorted a'.pairs
    × Perm a'.pairs full.pairs
    × (assoc_get a' (codes "b") ≡ assoc_get full (codes "b"))
assoc_sort_lem_example = assoc_sort_lem full (codes "b") full-IsValid.distinct (omega arith)
