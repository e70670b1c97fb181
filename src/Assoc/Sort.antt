-- ===== src/Assoc/Sort.antt =====
-- `assoc_sort`: the sorted order, and that nothing but the order changes.
use g7ctrl.Common.{
  Bool-cases, Bytes, List, [], arith, false, inl, inr, refl, str_eq_cases, str_lt, sym, true, ◌<◌,
  ◌∙◌, ◌∷◌, ◌≡◌, ◌≢◌,
}
use mathlib.Core.List.{Perm}
use mathlib.Core.List.Perm
use g7ctrl.Assoc.{
  is_empty, Pair, AssocArray, num_values, done, find, assoc_get, insert, qsort, assoc_sort,
}
use g7ctrl.Assoc.Grow.{Fresh, Distinct, assoc_get-find}
use g7ctrl.Assoc.Put.{get_empty}

-- No name stands behind a greater one next to it.
abbrev pub IsSorted : List Pair → Type 0
IsSorted [] = Unit {0}
IsSorted (p ∷ []) = Unit {0}
IsSorted (p ∷ q ∷ ps) = (str_lt q.name p.name ≡ false) × IsSorted (q ∷ ps)

str_lt_asymm : (a b : Bytes) → str_lt a b ≡ true → str_lt b a ≡ false
unfolding str_lt
str_lt_asymm [] [] h = refl
str_lt_asymm [] (d ∷ b) h = refl
str_lt_asymm (c ∷ a) [] h = cc
str_lt_asymm (c ∷ a) (d ∷ b) h = ground (arith, str_lt_asymm a b)

insert-IsSorted : (p : Pair) (ps : List Pair) → IsSorted ps → IsSorted (insert p ps)
unfolding insert
insert-IsSorted p [] h = tt
insert-IsSorted p (q ∷ []) h = elim (Bool-cases (str_lt q.name p.name)) [
  | inl e ↦ rw e (str_lt_asymm q.name p.name e, tt)
  | inr e ↦ rw e (e, tt)
]
insert-IsSorted p (q ∷ r ∷ ps) h = elim (Bool-cases (str_lt q.name p.name)) [
  | inl e ↦ rw e (head (insert-IsSorted p (r ∷ ps) h.1) e)
  | inr e ↦ rw e (e, h)
]
  where
    head :
        IsSorted (insert p (r ∷ ps))
        → str_lt q.name p.name ≡ true
        → IsSorted (q ∷ insert p (r ∷ ps))
    head s e = elim (Bool-cases (str_lt r.name p.name)) [
      | inl t ↦ rw t (h.0, rw t at s)
      | inr t ↦ rw t (str_lt_asymm q.name p.name e, rw t at s)
    ]

qsort-IsSorted : (ps : List Pair) → IsSorted (qsort ps)
unfolding qsort
qsort-IsSorted [] = tt
qsort-IsSorted (p ∷ ps) = insert-IsSorted p (qsort ps) (qsort-IsSorted ps)

insert-perm : (p : Pair) (ps : List Pair) → Perm (insert p ps) (p ∷ ps)
unfolding insert
insert-perm p [] = Perm.refl (p ∷ [])
insert-perm p (q ∷ ps) = elim (Bool-cases (str_lt q.name p.name)) [
  | inl e ↦ rw e (Perm.trans (Perm.cons q (insert-perm p ps)) (Perm.swap p q ps))
  | inr e ↦ rw e (Perm.refl (p ∷ q ∷ ps))
]

qsort-perm : (ps : List Pair) → Perm (qsort ps) ps
unfolding qsort
qsort-perm [] = Perm.refl []
qsort-perm (p ∷ ps) = Perm.trans (insert-perm p (qsort ps)) (Perm.cons p (qsort-perm ps))

find-insert :
    (m : Bytes) (p : Pair) (ps : List Pair)
    → Fresh p.name ps
    → find m (insert p ps) ≡ find m (p ∷ ps)
unfolding insert find
find-insert m p [] f = refl
find-insert m p (q ∷ ps) f =
    ground (arith, str_eq_cases m p.name, str_eq_cases m q.name, find-insert m p ps f.1)

insert-Fresh :
    (n : Bytes) (p : Pair) (ps : List Pair) → n ≢ p.name → Fresh n ps → Fresh n (insert p ps)
unfolding insert
insert-Fresh n p [] ne f = (ne, tt)
insert-Fresh n p (q ∷ ps) ne f = elim (Bool-cases (str_lt q.name p.name)) [
  | inl e ↦ rw e (f.0, insert-Fresh n p ps ne f.1)
  | inr e ↦ rw e (ne, f)
]

qsort-Fresh : (n : Bytes) (ps : List Pair) → Fresh n ps → Fresh n (qsort ps)
unfolding qsort
qsort-Fresh n [] f = tt
qsort-Fresh n (p ∷ ps) f = insert-Fresh n p (qsort ps) f.0 (qsort-Fresh n ps f.1)

find-qsort : (m : Bytes) (ps : List Pair) → Distinct ps → find m (qsort ps) ≡ find m ps
unfolding qsort
find-qsort m [] d = refl
find-qsort m (p ∷ ps) d =
    find-insert m p (qsort ps) (qsort-Fresh p.name ps d.0) ∙ below (find-qsort m ps d.1)
  where
    below : find m (qsort ps) ≡ find m ps → find m (p ∷ qsort ps) ≡ find m (p ∷ ps)
    below e = unfold find in (ground arith)

-- Sorting an array that is not empty, where no name stands twice, answers 0: the names are in
-- ascending order, the pairs are the same, and every name is found with its value as before.
pub assoc_sort_lem :
    (a : AssocArray) (m : Bytes)
    → Distinct a.pairs
    → 0 < num_values a
    → (a' : AssocArray) × (assoc_sort a ≡ (done, a'))
      × IsSorted a'.pairs
      × Perm a'.pairs a.pairs
      × (assoc_get a' m ≡ assoc_get a m)
unfolding assoc_sort
assoc_sort_lem a m d pos = (
  record a { pairs = qsort a.pairs },
  ground arith,
  qsort-IsSorted a.pairs,
  qsort-perm a.pairs,
  same (record a { pairs = qsort a.pairs }) (find-qsort m a.pairs d),
)
  where
    same : (a' : AssocArray) → find m a'.pairs ≡ find m a.pairs → assoc_get a' m ≡ assoc_get a m
    same a' e = elim (Bool-cases (is_empty m)) [
      | inl t ↦ get_empty a' m t ∙ sym (get_empty a m t)
      | inr t ↦ assoc_get-find a' m t ∙ e ∙ sym (assoc_get-find a m t)
    ]
