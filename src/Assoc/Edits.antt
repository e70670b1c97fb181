-- ===== src/Assoc/Edits.antt =====
-- Updates and deletions: the status that is answered, the names that are found afterwards, and the
-- invariant.
use g7ctrl.Common.{
  Bool-cases, Bytes, List, Option, [], ap, arith, false, if◌then◌else◌, inl, inr, length, none,
  refl, some, str_eq, str_eq_cases, str_eq_comm, suc, sym, ◌+◌, ◌∙◌, ◌∷◌, ◌≡◌, ◌⊎◌,
}
use g7ctrl.Assoc.{
  Pair, AssocArray, num_values, done, invalid, conflict, is_empty, find, assoc_get, set_val,
  assoc_update, remove, assoc_del,
}
use mathlib.Core.Option
use g7ctrl.Assoc.Grow.{Fresh, Distinct, Named, IsValid, find-Fresh, assoc_get-find}

-- What the edits leave of the names.
set_val_fails :
    (name val : Bytes) (ps : List Pair) → find name ps ≡ none → set_val name val ps ≡ none
unfolding set_val find
set_val_fails name val [] h = refl
set_val_fails name val (p ∷ ps) h =
    ground (arith, str_eq_comm p.name name, set_val_fails name val ps)

set_val-find :
    (name val m : Bytes) (ps : List Pair) {v : Bytes}
    → find name ps ≡ some v
    → (qs : List Pair) × (set_val name val ps ≡ some qs)
      × (find m qs ≡ (if str_eq m name then some val else find m ps))
unfolding set_val find
set_val-find name val m [] h = cc
set_val-find name val m (p ∷ ps) h = elim (str_eq_cases name p.name) [
  | inl (e, q) ↦ (
    record p { val = val } ∷ ps,
    rw (str_eq_comm p.name name, e),
    ground (arith, str_eq_cases m p.name),
  )
  | inr (e, q) ↦
      let (qs, s, f) = set_val-find name val m ps (rw e at h) in
      (
        p ∷ qs,
        rw (str_eq_comm p.name name, e, s),
        ground (arith, str_eq_cases m p.name, str_eq_cases m name),
      )
]

map-some :
    (p : Pair) (o : Option (List Pair)) {qs : List Pair}
    → Option.map (λ l. p ∷ l) o ≡ some qs
    → (l : List Pair) × (o ≡ some l) × (qs ≡ p ∷ l)
map-some p none e = cc
map-some p (some l) e = (l, refl, cc)

-- The two ways in which a list comes out of an edit: at its head, or below it.
set_val_step :
    (name val : Bytes) (p : Pair) (ps qs : List Pair)
    → set_val name val (p ∷ ps) ≡ some qs
    → (qs ≡ record p { val = val } ∷ ps)
      ⊎ ((l : List Pair) × (set_val name val ps ≡ some l) × (qs ≡ p ∷ l))
unfolding set_val
set_val_step name val p ps qs e = elim (Bool-cases (str_eq p.name name)) [
  | inl t ↦ inl (let z = rw t at e in cc)
  | inr t ↦ inr (map-some p (set_val name val ps) (rw t at e))
]

remove_step :
    (name : Bytes) (p : Pair) (ps qs : List Pair)
    → remove name (p ∷ ps) ≡ some qs
    → (qs ≡ ps) ⊎ ((l : List Pair) × (remove name ps ≡ some l) × (qs ≡ p ∷ l))
unfolding remove
remove_step name p ps qs e = elim (Bool-cases (str_eq p.name name)) [
  | inl t ↦ inl (let z = rw t at e in cc)
  | inr t ↦ inr (map-some p (remove name ps) (rw t at e))
]

-- The names stay, with their order and their number.
set_val-Fresh :
    (name val n : Bytes) (ps qs : List Pair)
    → set_val name val ps ≡ some qs
    → Fresh n ps
    → Fresh n qs × (length qs ≡ length ps)
set_val-Fresh name val n [] qs e f = unfold set_val in cc
set_val-Fresh name val n (p ∷ ps) qs e f = elim (set_val_step name val p ps qs e) [
  | inl q ↦ rw q (f, refl)
  | inr (l, s, q) ↦
      let (fl, len) = set_val-Fresh name val n ps l s f.1 in rw q ((f.0, fl), ap suc len)
]

set_val-Distinct :
    (name val : Bytes) (ps qs : List Pair)
    → set_val name val ps ≡ some qs
    → Distinct ps
    → Named ps
    → Distinct qs × Named qs × (length qs ≡ length ps)
set_val-Distinct name val [] qs e d n = unfold set_val in cc
set_val-Distinct name val (p ∷ ps) qs e d n = elim (set_val_step name val p ps qs e) [
  | inl q ↦ rw q (d, n, refl)
  | inr (l, s, q) ↦
      let (dl, nl, len) = set_val-Distinct name val ps l s d.1 n.1 in
      rw q (((set_val-Fresh name val p.name ps l s d.0).0, dl), (n.0, nl), ap suc len)
]

remove-Fresh :
    (name n : Bytes) (ps qs : List Pair) → remove name ps ≡ some qs → Fresh n ps → Fresh n qs
remove-Fresh name n [] qs e f = unfold remove in cc
remove-Fresh name n (p ∷ ps) qs e f = elim (remove_step name p ps qs e) [
  | inl q ↦ rw q f.1
  | inr (l, s, q) ↦ rw q (f.0, remove-Fresh name n ps l s f.1)
]

remove-Distinct :
    (name : Bytes) (ps qs : List Pair)
    → remove name ps ≡ some qs
    → Distinct ps
    → Named ps
    → Distinct qs × Named qs × (length qs + 1 ≡ length ps)
remove-Distinct name [] qs e d n = unfold remove in cc
remove-Distinct name (p ∷ ps) qs e d n = elim (remove_step name p ps qs e) [
  | inl q ↦ rw q (d.1, n.1, omega arith)
  | inr (l, s, q) ↦
      let (dl, nl, len) = remove-Distinct name ps l s d.1 n.1 in
      rw q ((remove-Fresh name p.name ps l s d.0, dl), (n.0, nl), omega arith)
]

remove_fails : (name : Bytes) (ps : List Pair) → find name ps ≡ none → remove name ps ≡ none
unfolding remove find
remove_fails name [] h = refl
remove_fails name (p ∷ ps) h = ground (arith, str_eq_comm p.name name, remove_fails name ps)

remove-find :
    (name m : Bytes) (ps : List Pair) {v : Bytes}
    → Distinct ps
    → find name ps ≡ some v
    → (qs : List Pair) × (remove name ps ≡ some qs)
      × (find m qs ≡ (if str_eq m name then none else find m ps))
unfolding remove find
remove-find name m [] d h = cc
remove-find name m (p ∷ ps) d h = elim (str_eq_cases name p.name) [
  | inl (e, q) ↦ (
    ps,
    rw (str_eq_comm p.name name, e),
    ground (arith, str_eq_cases m p.name, find-Fresh p.name ps d.0),
  )
  | inr (e, q) ↦
      let (qs, s, f) = remove-find name m ps d.1 (rw e at h) in
      (
        p ∷ qs,
        rw (str_eq_comm p.name name, e, s),
        ground (arith, str_eq_cases m p.name, str_eq_cases m name),
      )
]

-- Reads of a list of names, as `assoc_get` makes them.
get_pairs :
    (a : AssocArray) (ps : List Pair) (m : Bytes)
    → is_empty m ≡ false
    → assoc_get (record a { pairs = ps }) m ≡ find m ps
get_pairs a ps m h = assoc_get-find (record a { pairs = ps }) m h

-- `assoc_update` of a name that is in a valid array answers 0: the array stays valid, the name is
-- found with the new value from then on, and every other name that is not empty as before.
pub assoc_update_found :
    (a : AssocArray) (name val m v : Bytes)
    → IsValid a
    → is_empty m ≡ false
    → find name a.pairs ≡ some v
    → (a' : AssocArray) × (assoc_update a name val ≡ (done, a'))
      × IsValid a'
      × (assoc_get a' m ≡ (if str_eq m name then some val else assoc_get a m))
unfolding assoc_update
assoc_update_found a name val m v w h e =
    let (qs, s, f) = set_val-find name val m a.pairs e in
    let (d, n, len) = set_val-Distinct name val a.pairs qs s w.distinct w.named in
    (
      record a { pairs = qs },
      rw (s, assoc_update),
      record { distinct = d; named = n; fits = omega (arith, w.fits); least = w.least },
      rw (get_pairs a qs m h, assoc_get-find a m h) f,
    )

-- `assoc_del` of a name that is in a valid array, and not empty, answers 0: the array stays
-- valid, the name is not found from then on, every other name that is not empty is found as
-- before, and the array is one pair shorter.
pub assoc_del_found :
    (a : AssocArray) (name m v : Bytes)
    → IsValid a
    → is_empty name ≡ false
    → is_empty m ≡ false
    → find name a.pairs ≡ some v
    → (a' : AssocArray) × (assoc_del a name ≡ (done, a'))
      × IsValid a'
      × (assoc_get a' m ≡ (if str_eq m name then none else assoc_get a m))
      × (num_values a' + 1 ≡ num_values a)
unfolding assoc_del
assoc_del_found a name m v w hn h e =
    let (qs, s, f) = remove-find name m a.pairs w.distinct e in
    let (d, n, len) = remove-Distinct name a.pairs qs s w.distinct w.named in
    (
      record a { pairs = qs },
      rw (hn, s) (ground arith),
      record { distinct = d; named = n; fits = omega (arith, w.fits); least = w.least },
      rw (get_pairs a qs m h, assoc_get-find a m h) f,
      len,
    )

-- A name that is not empty and not found is not edited: `assoc_update` answers -1 and `assoc_del`
-- -2, and both leave the array as it is.
pub edits_missing :
    (a : AssocArray) (name val : Bytes)
    → is_empty name ≡ false
    → assoc_get a name ≡ none
    → (assoc_update a name val ≡ (invalid, a)) × (assoc_del a name ≡ (conflict, a))
unfolding assoc_update assoc_del
edits_missing a name val h e =
    let absent : find name a.pairs ≡ none = sym (assoc_get-find a name h) ∙ e in
    (
      rw (set_val_fails name val a.pairs absent, assoc_update),
      rw (h, remove_fails name a.pairs absent) (ground arith),
    )
