-- ===== src/Assoc/Grow.antt =====
-- The invariant of the associative array, and the growth of a full one.
use g7ctrl.Common.{
  ==_refl, All, All-append, Bool-cases, Bytes, List, [], ap, append-nil, append_assoc, arith, false,
  if◌then◌else◌, inl, inr, length, length-append, le→ltb-false, ltb, ltb-false→le, ltb→lt, lt→ltb,
  none, refl, some, str_eq, str_eq_ne, str_eq_refl, subst, suc, sym, true, ℕ, ◌*◌, ◌++◌, ◌+◌, ◌<◌,
  ◌==◌, ◌||◌, ◌∙◌, ◌∷◌, ◌≡◌, ◌≢◌, ◌≤◌,
}
use g7ctrl.Assoc.{
  Pair, AssocArray, num_values, Status, done, invalid, conflict, is_empty, find, assoc_get,
  assoc_clear, add_pairs, copy_with, grow, append_pair, put_within, assoc_put,
}

abbrev pub Fresh : Bytes → List Pair → Type 0
Fresh name = All (λ p. name ≢ p.name)

-- No name stands twice.
abbrev pub Distinct : List Pair → Type 0
Distinct [] = Unit {0}
Distinct (p ∷ ps) = Fresh p.name ps × Distinct ps

abbrev pub Named : List Pair → Type 0
Named = All (λ p. is_empty p.name ≡ false)

pub record IsValid (a : AssocArray) : Type 0 where
  pub distinct : Distinct a.pairs
  pub named : Named a.pairs
  pub fits : num_values a ≤ a.max_values
  pub least : 4 ≤ a.max_values

pub find-Fresh : (name : Bytes) (ps : List Pair) → Fresh name ps → find name ps ≡ none
unfolding find
find-Fresh name [] h = refl
find-Fresh name (p ∷ ps) h = rw (str_eq_ne name p.name h.0) (find-Fresh name ps h.1)

pub Fresh-find : (name : Bytes) (ps : List Pair) → find name ps ≡ none → Fresh name ps
unfolding find
Fresh-find name [] h = tt
Fresh-find name (p ∷ ps) h = (
  λ q.
      let z : str_eq name p.name ≡ true = subst (λ t. str_eq name t ≡ true) q (str_eq_refl name) in
      ground arith,
  Fresh-find name ps (ground arith),
)

pub Fresh-append :
    (name : Bytes) (ps qs : List Pair) → Fresh name ps → Fresh name qs → Fresh name (ps ++ qs)
Fresh-append name ps qs h k = All-append (λ p. name ≢ p.name) ps qs h k

pub find-append :
    (name : Bytes) (ps qs : List Pair)
    → find name (ps ++ qs) ≡ (elim (find name ps) [ none ↦ find name qs | some v ↦ some v ])
unfolding find
find-append name [] qs = refl
find-append name (p ∷ ps) qs = ground (arith, find-append name ps qs)

pub assoc_get-find :
    (a : AssocArray) (name : Bytes) → is_empty name ≡ false → assoc_get a name ≡ find name a.pairs
unfolding assoc_get find
assoc_get-find a name h = no_pairs a.pairs
  where
    no_pairs :
        (ps : List Pair)
        → (if is_empty name || length ps == 0 then none else find name ps) ≡ find name ps
    no_pairs [] = rw h
    no_pairs (p ∷ ps) = rw h (ground arith)

-- Past the guards the growth decides.
put-Fresh :
    (depth : ℕ) (a : AssocArray) (name val : Bytes)
    → is_empty name ≡ false
    → Fresh name a.pairs
    → put_within (suc depth) a name val ≡ append_pair name val (grow (put_within depth) a)
unfolding put_within
put-Fresh depth a name val ne h = rw (ne, assoc_get-find a name ne, find-Fresh name a.pairs h)

grow_room :
    (put : AssocArray → Bytes → Bytes → Status × AssocArray) (a : AssocArray)
    → num_values a < a.max_values
    → grow put a ≡ (done, a)
unfolding grow
grow_room put a h = rw (lt→ltb (num_values a) a.max_values h)

abbrev pub entry : Bytes → Bytes → Pair
entry n v = record { name = n; val = v }

put_room :
    (depth : ℕ) (a : AssocArray) (name val : Bytes)
    → is_empty name ≡ false
    → Fresh name a.pairs
    → num_values a < a.max_values
    → put_within (suc depth) a name val
      ≡ (done, record a { pairs = a.pairs ++ entry name val ∷ [] })
put_room depth a name val ne h lt =
    put-Fresh depth a name val ne h
    ∙ rw (grow_room (put_within depth) a lt) (unfold append_pair in refl)

Fresh-swap :
    (p : Pair) (ds ps : List Pair)
    → Fresh p.name ps
    → All (λ q. Fresh q.name ds) ps
    → All (λ q. Fresh q.name (ds ++ p ∷ [])) ps
Fresh-swap p ds [] h k = tt
Fresh-swap p ds (q ∷ ps) h k =
    (Fresh-append q.name ds (p ∷ []) k.0 (λ e. h.0 (sym e), tt), Fresh-swap p ds ps h.1 k.1)

-- An array that has room takes the pairs in their order.
add_pairs_room :
    (depth : ℕ) (ps : List Pair) (dest : AssocArray)
    → Distinct ps
    → Named ps
    → All (λ q. Fresh q.name dest.pairs) ps
    → num_values dest + length ps ≤ dest.max_values
    → add_pairs (put_within (suc depth)) dest ps ≡ (done, record dest { pairs = dest.pairs ++ ps })
unfolding add_pairs
add_pairs_room depth [] dest d n f le =
    ap (λ l. (done, record dest { pairs = l })) (sym (append-nil dest.pairs))
add_pairs_room depth (p ∷ ps) dest d n f le =
    rw (put_room depth dest p.name p.val n.0 f.0 (omega arith)) (
      add_pairs_room depth ps (record dest { pairs = dest.pairs ++ p ∷ [] }) d.1 n.1
        (Fresh-swap p dest.pairs ps d.0 f.1) (omega (arith, length-append dest.pairs (p ∷ [])))
      ∙ ap (λ l. (done, record dest { pairs = l })) (append_assoc dest.pairs (p ∷ []) ps))

Fresh-none : (ps : List Pair) → All (λ q. Fresh q.name []) ps
Fresh-none [] = tt
Fresh-none (p ∷ ps) = (tt, Fresh-none ps)

copy_room :
    (depth : ℕ) (a : AssocArray) (m : ℕ)
    → IsValid a
    → num_values a ≤ m
    → copy_with (put_within (suc depth)) (record { pairs = []; max_values = m }) a
      ≡ (done, record { pairs = a.pairs; max_values = m })
unfolding assoc_clear
copy_room depth a m v le =
    add_pairs_room depth a.pairs (record { pairs = []; max_values = m }) v.distinct v.named
      (Fresh-none a.pairs) (omega arith)

grow_full :
    (depth : ℕ) (a : AssocArray)
    → IsValid a
    → a.max_values ≤ num_values a
    → grow (put_within (suc depth)) a
      ≡ (done, record { pairs = a.pairs; max_values = a.max_values * 2 })
unfolding grow
grow_full depth a v le = rw (
  le→ltb-false (num_values a) a.max_values le,
  le→ltb-false (a.max_values * 2) 4 (omega (arith, v.least)),
  copy_room depth a (a.max_values * 2) v (omega (arith, v.fits)),
  ==_refl (num_values a),
)

-- The array after a put of a new name.
abbrev pub with_pair : AssocArray → Bytes → Bytes → AssocArray
with_pair a name val = record {
  pairs = a.pairs ++ entry name val ∷ [];
  max_values = if ltb (num_values a) a.max_values then a.max_values else a.max_values * 2;
}

pub put_new :
    (a : AssocArray) (name val : Bytes)
    → IsValid a
    → is_empty name ≡ false
    → Fresh name a.pairs
    → assoc_put a name val ≡ (done, with_pair a name val)
unfolding assoc_put append_pair
put_new a name val v ne h = elim (Bool-cases (ltb (num_values a) a.max_values)) [
  | inl e ↦ rw e (put_room 1 a name val ne h (ltb→lt (num_values a) a.max_values e))
  | inr e ↦ rw e (
      put-Fresh 1 a name val ne h
      ∙ rw (grow_full 0 a v (ltb-false→le (num_values a) a.max_values e)))
]

pub put_guard :
    (a : AssocArray) (name val : Bytes) → is_empty name ≡ true → assoc_put a name val ≡ (invalid, a)
unfolding assoc_put put_within
put_guard a name val h = rw h

pub put_known :
    (a : AssocArray) (name val : Bytes) {v : Bytes}
    → is_empty name ≡ false
    → find name a.pairs ≡ some v
    → assoc_put a name val ≡ (conflict, a)
unfolding assoc_put put_within
put_known a name val ne e = rw (ne, assoc_get-find a name ne, e)
