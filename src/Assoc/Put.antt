-- ===== src/Assoc/Put.antt =====
-- What `assoc_put` answers, and what is found afterwards.
use g7ctrl.Common.{
  All-append, Bool-cases, Bytes, List, Option-cases, [], ap, arith, false, false≢true,
  if◌then◌else◌, inl, inr, length-append, none, some, str_eq, str_eq_cases, str_eq_ne, sym, true,
  ◌++◌, ◌∙◌, ◌∷◌, ◌≡◌, ◌≢◌, ◌≤◌,
}
use g7ctrl.Assoc.{
  Pair, AssocArray, num_values, Status, done, invalid, conflict, is_empty, find, assoc_get,
  assoc_put,
}
use g7ctrl.Assoc.Grow.{
  Fresh, Distinct, IsValid, Fresh-find, Fresh-append, find-append, assoc_get-find, entry, with_pair,
  put_new, put_guard, put_known,
}

-- What `assoc_put` answers, by the name and what is found under it.
pub put_result : AssocArray → Bytes → Bytes → Status × AssocArray
put_result a name val =
    if is_empty name
    then (invalid, a)
    else elim (assoc_get a name) [ some _ ↦ (conflict, a) | none ↦ (done, with_pair a name val) ]

-- On a valid array `assoc_put` refuses an empty name with -1 and a known one with -2, both without a
-- change, and appends any other pair; a full array is doubled first and keeps its pairs.
pub assoc_put_lem :
    (a : AssocArray) (name val : Bytes) → IsValid a → assoc_put a name val ≡ put_result a name val
unfolding put_result
assoc_put_lem a name val v = elim (Bool-cases (is_empty name)) [
  | inl e ↦ rw e (put_guard a name val e)
  | inr ne ↦
      rw (ne, assoc_get-find a name ne)
        (elim (Option-cases (find name a.pairs)) [
          | inl e ↦ rw e (put_new a name val v ne (Fresh-find name a.pairs e))
          | inr (w, e) ↦ rw e (put_known a name val ne e)
        ])
]

Distinct-append :
    (p : Pair) (ps : List Pair) → Distinct ps → Fresh p.name ps → Distinct (ps ++ p ∷ [])
Distinct-append p [] d f = (tt, tt)
Distinct-append p (q ∷ ps) d f =
    (Fresh-append q.name ps (p ∷ []) d.0 (λ e. f.0 (sym e), tt), Distinct-append p ps d.1 f.1)

with_pair-IsValid :
    (a : AssocArray) (name val : Bytes)
    → IsValid a
    → is_empty name ≡ false
    → Fresh name a.pairs
    → IsValid (with_pair a name val)
with_pair-IsValid a name val v ne f = record {
  distinct = Distinct-append (entry name val) a.pairs v.distinct f;
  named = All-append (λ p. is_empty p.name ≡ false) a.pairs (entry name val ∷ []) v.named (ne, tt);
  fits = (room a name val v).0;
  least = (room a name val v).1;
}
  where
    room :
        (a : AssocArray) (name val : Bytes)
        → IsValid a
        → (num_values (with_pair a name val) ≤ (with_pair a name val).max_values)
          × (4 ≤ (with_pair a name val).max_values)
    room a name val v = ground (arith, v.fits, v.least, length-append a.pairs (entry name val ∷ []))

-- A put to a valid array keeps it valid, whatever it answers.
pub assoc_put-IsValid :
    (a : AssocArray) (name val : Bytes) → IsValid a → IsValid (assoc_put a name val).1
unfolding put_result
assoc_put-IsValid a name val v =
    rw (assoc_put_lem a name val v) (elim (Bool-cases (is_empty name)) [
      | inl e ↦ rw e v
      | inr ne ↦
          rw (ne, assoc_get-find a name ne)
            (elim (Option-cases (find name a.pairs)) [
              | inl e ↦ rw e (with_pair-IsValid a name val v ne (Fresh-find name a.pairs e))
              | inr (w, e) ↦ rw e v
            ])
    ])

put_done :
    (a : AssocArray) (name val : Bytes) (a' : AssocArray)
    → IsValid a
    → assoc_put a name val ≡ (done, a')
    → (is_empty name ≡ false) × (assoc_get a name ≡ none) × (a' ≡ with_pair a name val)
unfolding put_result
put_done a name val a' v e = ground (arith, assoc_put_lem a name val v)

pub get_empty : (a : AssocArray) (name : Bytes) → is_empty name ≡ true → assoc_get a name ≡ none
unfolding assoc_get
get_empty a name h = rw h

-- After a successful put to a valid array the new name is found with its value, and every other
-- name as before.
pub assoc_get-assoc_put :
    (a : AssocArray) (name val : Bytes) (a' : AssocArray) (m : Bytes)
    → IsValid a
    → assoc_put a name val ≡ (done, a')
    → assoc_get a' m ≡ (if str_eq m name then some val else assoc_get a m)
unfolding find
assoc_get-assoc_put a name val a' m v e =
    let (ne, absent, same) = put_done a name val a' v e in
    rw same (elim (Bool-cases (is_empty m)) [
      | inl em ↦
          rw (
            get_empty (with_pair a name val) m em,
            get_empty a m em,
            str_eq_ne m name (differ em ne),
          )
      | inr nm ↦
          rw (assoc_get-find (with_pair a name val) m nm, assoc_get-find a m nm)
            (last_pair m (assoc_get-find a name ne) absent)
    ])
  where
    differ : {n : Bytes} → is_empty m ≡ true → is_empty n ≡ false → m ≢ n
    differ em ne q = false≢true (sym ne ∙ ap is_empty (sym q) ∙ em)

    last_pair :
        (m : Bytes)
        → assoc_get a name ≡ find name a.pairs
        → assoc_get a name ≡ none
        → find m (a.pairs ++ entry name val ∷ [])
          ≡ (if str_eq m name then some val else find m a.pairs)
    last_pair m g absent =
        ground (arith, find-append m a.pairs (entry name val ∷ []), str_eq_cases m name)
