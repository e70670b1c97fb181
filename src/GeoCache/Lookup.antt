-- ===== src/GeoCache/Lookup.antt =====
-- What `in_address_cache` finds, and what it counts.
use g7ctrl.Common.{
  Bool, Bool-cases, Bytes, List, Option, [], ap, arith, false, get_or, inl, inr, length, none, refl,
  set, some, suc, true, zero, ℕ, ◌+◌, ◌<◌, ◌∙◌, ◌∷◌, ◌≡◌, ◌⊎◌,
}
use g7ctrl.Xstr.Utf8.{xmb_strncpy}
use g7ctrl.GeoCache.{
  Floats, AddressEntry, AddressCache, update_cache_stat, same_place, search, in_address_cache,
}

module _ {A : Type 0} where
  -- The first `n` slots are in use.
  abbrev pub Filled : ℕ → List (Option A) → Type 0
  Filled zero slots = Unit {0}
  Filled (suc n) [] = ⊥
  Filled (suc n) (none ∷ slots) = ⊥
  Filled (suc n) (some e ∷ slots) = Filled n slots

  -- The first `n` slots are in use, and their entries fail the test.
  abbrev pub Misses : (A → Bool) → ℕ → List (Option A) → Type 0
  Misses test zero slots = Unit {0}
  Misses test (suc n) [] = ⊥
  Misses test (suc n) (none ∷ slots) = ⊥
  Misses test (suc n) (some e ∷ slots) = (test e ≡ false) × Misses test n slots

  -- A search ends behind `i` entries that fail, at one that passes, or where no entry is.
  search_cases :
      (test : A → Bool) (slots : List (Option A)) (k : ℕ)
      → ((i : ℕ) × (e : A) × (search test slots k ≡ some (k + i, e))
          × Misses test i slots
          × (get_or slots i none ≡ some e)
          × (test e ≡ true))
        ⊎ ((i : ℕ) × (search test slots k ≡ none)
            × Misses test i slots
            × (get_or slots i none ≡ none))
  unfolding search
  search_cases test [] k = inr (0, refl, tt, refl)
  search_cases test (none ∷ slots) k = inr (0, refl, tt, refl)
  search_cases test (some e ∷ slots) k = elim (Bool-cases (test e)) [
    | inl t ↦
        inl (0, e, rw t (ap (λ j. some (j, e)) {x = k} {y = k + 0} (omega arith)), tt, refl, t)
    | inr t ↦ elim (search_cases test slots (k + 1)) [
      | inl (i, e', s, m, g, h) ↦ inl (
        suc i,
        e',
        rw t (s ∙ ap (λ j. some (j, e')) {x = k + 1 + i} {y = k + suc i} (omega arith)),
        (t, m),
        g,
        h,
      )
      | inr (i, s, m, g) ↦ inr (suc i, rw t s, (t, m), g)
    ]
  ]

  -- A new entry that fails, over an old one, changes no miss.
  pub search-set_miss :
      (test : A → Bool) (slots : List (Option A)) (k i : ℕ) (e : A)
      → search test slots k ≡ none
      → test e ≡ false
      → Filled (length slots) slots
      → search test (set slots i (some e)) k ≡ none
  unfolding search
  search-set_miss test [] k i e s t f = refl
  search-set_miss test (none ∷ slots) k i e s t f = absurd f
  search-set_miss test (some x ∷ slots) k zero e s t f = elim (Bool-cases (test x)) [
    | inl y ↦ let z = rw y at s in cc
    | inr y ↦ rw t (rw y at s)
  ]
  search-set_miss test (some x ∷ slots) k (suc i) e s t f = elim (Bool-cases (test x)) [
    | inl y ↦ let z = rw y at s in cc
    | inr y ↦ rw y (search-set_miss test slots (k + 1) i e (rw y at s) t f)
  ]

  -- A new entry behind entries that fail is found.
  pub search-set_hit :
      (test : A → Bool) (slots : List (Option A)) (k i : ℕ) (e : A)
      → search test slots k ≡ none
      → test e ≡ true
      → Filled i slots
      → i < length slots
      → search test (set slots i (some e)) k ≡ some (k + i, e)
  unfolding search
  search-set_hit test [] k i e s t f lt = absurd (omega arith)
  search-set_hit test (x ∷ slots) k zero e s t f lt =
      rw t (ap (λ j. some (j, e)) {x = k} {y = k + 0} (omega arith))
  search-set_hit test (none ∷ slots) k (suc i) e s t f lt = absurd f
  search-set_hit test (some x ∷ slots) k (suc i) e s t f lt = elim (Bool-cases (test x)) [
    | inl y ↦ let z = rw y at s in cc
    | inr y ↦ rw y (
        search-set_hit test slots (k + 1) i e (rw y at s) t f (omega arith)
        ∙ ap (λ j. some (j, e)) {x = k + 1 + i} {y = k + suc i} (omega arith))
  ]

module _ (F : Floats) where
  -- A lookup goes over the entries in use from the first on. Either it stops at the first one for
  -- the place, answers 1 with that entry's address, passed through `xmb_strncpy`, and counts a
  -- hit at that index; or no entry before the first free slot, or the end, is for the place, and
  -- it answers 0 and counts a miss.
  pub in_address_cache_lem :
      (proximity : ℕ) (c : AddressCache F) (lat lon : Bytes) (maxlen : ℕ)
      → ((i : ℕ) × (e : AddressEntry F) × (in_address_cache F proximity c lat lon maxlen ≡ (
        true,
        some (xmb_strncpy e.addr maxlen),
        record c { stat = update_cache_stat c.stat true i },
      ))
          × Misses (same_place F proximity lat lon) i c.slots
          × (get_or c.slots i none ≡ some e)
          × (same_place F proximity lat lon e ≡ true))
        ⊎ ((i : ℕ) × (in_address_cache F proximity c lat lon maxlen
              ≡ (false, none, record c { stat = update_cache_stat c.stat false 0 }))
            × Misses (same_place F proximity lat lon) i c.slots
            × (get_or c.slots i none ≡ none))
  unfolding in_address_cache
  in_address_cache_lem proximity c lat lon maxlen =
      elim (search_cases (same_place F proximity lat lon) c.slots 0) [
        | inl (i, e, s, m, g, h) ↦
            let found = s ∙ ap (λ j. some (j, e)) {x = 0 + i} {y = i} (omega arith) in
            inl (i, e, rw (found, in_address_cache) refl, m, g, h)
        | inr (i, s, m, g) ↦ inr (i, rw (s, in_address_cache) refl, m, g)
      ]
