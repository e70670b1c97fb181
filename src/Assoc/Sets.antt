-- ===== src/Assoc/Sets.antt =====
-- `assoc_add`, `assoc_copy` and `assoc_intersection`: what is found in the result.
use g7ctrl.Common.{
  Bool-cases, Bytes, List, Option, Option-cases, [], ap, arith, false, false≢true, if◌then◌else◌,
  inl, inr, ltb, none, refl, some, str_eq, str_eq_cases, sym, true, ◌∙◌, ◌∷◌, ◌≡◌,
}
use g7ctrl.Assoc.{
  Pair, AssocArray, num_values, Status, done, is_empty, find, assoc_get, assoc_clear, add_pairs,
  assoc_put, assoc_add, assoc_copy, in_both, assoc_intersection, unless_invalid,
}
use g7ctrl.Assoc.Grow.{
  Fresh, Named, IsValid, with_pair, assoc_get-find, find-Fresh, put_new, Fresh-find, put_known,
}
use g7ctrl.Assoc.Put.{assoc_put-IsValid, assoc_get-assoc_put, get_empty}

-- What is found in the first of two places that has the name.
abbrev pub or_else : Option Bytes → Option Bytes → Option Bytes
or_else none w = w
or_else (some v) w = some v

-- One round of the loop of `assoc_add`: it goes on, with a name that was there left as it was.
put_goes_on :
    (a : AssocArray) (p : Pair) (k : AssocArray → Status × AssocArray)
    → IsValid a
    → is_empty p.name ≡ false
    → unless_invalid (assoc_put a p.name p.val) k ≡ k (assoc_put a p.name p.val).1
put_goes_on a p k v ne = elim (Option-cases (find p.name a.pairs)) [
  | inl e ↦ rw (put_new a p.name p.val v ne (Fresh-find p.name a.pairs e))
  | inr (w, e) ↦ rw (put_known a p.name p.val ne e)
]

put_found :
    (a : AssocArray) (p : Pair) (m : Bytes)
    → IsValid a
    → is_empty p.name ≡ false
    → assoc_get (assoc_put a p.name p.val).1 m
      ≡ or_else (assoc_get a m) (if str_eq m p.name then some p.val else none)
put_found a p m v ne = elim (Option-cases (find p.name a.pairs)) [
  | inl e ↦
      let put = put_new a p.name p.val v ne (Fresh-find p.name a.pairs e) in
      rw put (
        assoc_get-assoc_put a p.name p.val (with_pair a p.name p.val) m v put
        ∙ absent (assoc_get-find a p.name ne ∙ e))
  | inr (w, e) ↦ rw (put_known a p.name p.val ne e) (present (assoc_get-find a p.name ne ∙ e))
]
  where
    absent :
        assoc_get a p.name ≡ none
        → (if str_eq m p.name then some p.val else assoc_get a m)
          ≡ or_else (assoc_get a m) (if str_eq m p.name then some p.val else none)
    absent e = ground (arith, str_eq_cases m p.name)

    present :
        {w : Bytes}
        → assoc_get a p.name ≡ some w
        → assoc_get a m ≡ or_else (assoc_get a m) (if str_eq m p.name then some p.val else none)
    present e = ground (arith, str_eq_cases m p.name)

add_pairs_found :
    (ps : List Pair) (dest : AssocArray) (m : Bytes)
    → IsValid dest
    → Named ps
    → (dest' : AssocArray) × (add_pairs assoc_put dest ps ≡ (done, dest'))
      × IsValid dest'
      × (assoc_get dest' m ≡ or_else (assoc_get dest m) (find m ps))
unfolding add_pairs find
add_pairs_found [] dest m v n = (dest, refl, v, ground arith)
add_pairs_found (p ∷ ps) dest m v n =
    let d = (assoc_put dest p.name p.val).1 in
    let (d', e, v', g) = add_pairs_found ps d m (assoc_put-IsValid dest p.name p.val v) n.1 in
    (
      d',
      put_goes_on dest p (λ x. add_pairs assoc_put x ps) v n.0 ∙ e,
      v',
      g ∙ ap (λ o. or_else o (find m ps)) (put_found dest p m v n.0) ∙ ground arith,
    )

get_valid : (a : AssocArray) (m : Bytes) → IsValid a → assoc_get a m ≡ find m a.pairs
get_valid a m v = elim (Bool-cases (is_empty m)) [
  | inl e ↦ get_empty a m e ∙ sym (find-Fresh m a.pairs (unnamed a.pairs v.named e))
  | inr e ↦ assoc_get-find a m e
]
  where
    unnamed : (ps : List Pair) → Named ps → is_empty m ≡ true → Fresh m ps
    unnamed [] n e = tt
    unnamed (p ∷ ps) n e = (λ q. false≢true (sym n.0 ∙ ap is_empty (sym q) ∙ e), unnamed ps n.1 e)

clear-IsValid : (a : AssocArray) → IsValid a → IsValid (assoc_clear a)
unfolding assoc_clear
clear-IsValid a v = record { distinct = tt; named = tt; fits = omega arith; least = v.least }

get_clear : (a : AssocArray) (m : Bytes) → assoc_get (assoc_clear a) m ≡ none
unfolding assoc_clear assoc_get find
get_clear a m = ground arith

-- For valid arrays `assoc_add` answers 0, and the destination stays valid. A name that it had
-- keeps its value, and any other is found as in the source.
pub assoc_add_found :
    (dest src : AssocArray) (m : Bytes)
    → IsValid dest
    → IsValid src
    → (dest' : AssocArray) × (assoc_add dest src ≡ (done, dest'))
      × IsValid dest'
      × (assoc_get dest' m ≡ or_else (assoc_get dest m) (assoc_get src m))
unfolding assoc_add
assoc_add_found dest src m v w =
    let (d, e, v', g) = add_pairs_found src.pairs dest m v w.named in
    (d, e, v', g ∙ ap (or_else (assoc_get dest m)) (sym (get_valid src m w)))

-- For valid arrays `assoc_copy` answers 0, the destination stays valid, and what is found in it
-- afterwards is what is found in the source.
pub assoc_copy_found :
    (dest src : AssocArray) (m : Bytes)
    → IsValid dest
    → IsValid src
    → (dest' : AssocArray) × (assoc_copy dest src ≡ (done, dest'))
      × IsValid dest'
      × (assoc_get dest' m ≡ assoc_get src m)
unfolding assoc_copy
assoc_copy_found dest src m v w =
    let (d, e, v', g) = assoc_add_found (assoc_clear dest) src m (clear-IsValid dest v) w in
    (d, e, v', g ∙ ap (λ o. or_else o (assoc_get src m)) (get_clear dest m))

-- A pair of the one list is kept if the other array has its name.
find-in_both :
    (other : AssocArray) (m : Bytes) (ps : List Pair)
    → find m (in_both other ps) ≡ (elim (assoc_get other m) [ none ↦ none | some _ ↦ find m ps ])
unfolding find in_both
find-in_both other m [] = ground arith
find-in_both other m (p ∷ ps) = ground (arith, str_eq_cases m p.name, find-in_both other m ps)

in_both-Named : (other : AssocArray) (ps : List Pair) → Named ps → Named (in_both other ps)
unfolding in_both
in_both-Named other [] n = tt
in_both-Named other (p ∷ ps) n = elim (Option-cases (assoc_get other p.name)) [
  | inl e ↦ rw (e, in_both) (in_both-Named other ps n.1)
  | inr (w, e) ↦ rw (e, in_both) (n.0, in_both-Named other ps n.1)
]

-- The value that an intersection takes from two finds: that of the shorter array, the second one if
-- both are as long.
abbrev pub common : Option Bytes → Option Bytes → Option Bytes
common none w = none
common (some v) w = w

-- For valid arrays `assoc_intersection` answers 0, and the result is valid. A name is found in it
-- if both arrays have it, with the value of the shorter array, which is the second if both are as
-- long.
pub assoc_intersection_found :
    (dest a1 a2 : AssocArray) (m : Bytes)
    → IsValid dest
    → IsValid a1
    → IsValid a2
    → (dest' : AssocArray) × (assoc_intersection dest a1 a2 ≡ (done, dest'))
      × IsValid dest'
      × (assoc_get dest' m ≡ (
          if ltb (num_values a1) (num_values a2)
          then common (assoc_get a2 m) (assoc_get a1 m)
          else common (assoc_get a1 m) (assoc_get a2 m)))
unfolding assoc_intersection
assoc_intersection_found dest a1 a2 m v w1 w2 =
    elim (Bool-cases (ltb (num_values a1) (num_values a2))) [
      | inl e ↦ rw e (both a2 a1 w1)
      | inr e ↦ rw e (both a1 a2 w2)
    ]
  where
    both :
        (other small : AssocArray)
        → IsValid small
        → (dest' : AssocArray) × (add_pairs assoc_put (assoc_clear dest) (in_both other small.pairs)
            ≡ (done, dest'))
          × IsValid dest'
          × (assoc_get dest' m ≡ common (assoc_get other m) (assoc_get small m))
    both other small w =
        let (d, e, v', g) =
          add_pairs_found (in_both other small.pairs) (assoc_clear dest) m (clear-IsValid dest v)
            (in_both-Named other small.pairs w.named) in
        (
          d,
          e,
          v',
          g
              ∙ rw (get_clear dest m, find-in_both other m small.pairs, get_valid small m w)
                  (ground arith),
        )
