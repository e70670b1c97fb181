-- ===== src/GeoCache/Ring.antt =====
-- The invariant of the arrays of slots, and searches after an entry was stored.
use g7ctrl.Common.{
  Bool, Bool-cases, List, Option, [], ap, arith, false, get_or, if◌then◌else◌, inl, inr, leb,
  length, length-set, ltb, none, refl, set, some, subst, suc, sym, true, zero, ℕ, ◌+◌, ◌<◌, ◌∙◌,
  ◌∷◌, ◌≡◌, ◌≢◌, ◌≤◌, ◌⊎◌,
}
use g7ctrl.GeoCache.{Cache, search, advance}
use g7ctrl.GeoCache.Lookup.{Filled, search-set_miss, search-set_hit}

module _ {A : Type 0} where
  -- No slot from `n` on is in use.
  abbrev pub Free : ℕ → List (Option A) → Type 0
  Free n [] = Unit {0}
  Free zero (x ∷ slots) = (x ≡ none) × Free zero slots
  Free (suc n) (x ∷ slots) = Free n slots

  -- The slots before the index are in use, and behind it either all or none.
  pub record IsValid (c : Cache A) : Type 0 where
    pub inside : c.idx < length c.slots
    pub counted : c.num ≤ length c.slots
    pub ring : Filled (length c.slots) c.slots ⊎ (Filled c.idx c.slots × Free c.idx c.slots)

  Filled-set :
      (n i : ℕ) (slots : List (Option A)) (e : A) → Filled n slots → Filled n (set slots i (some e))
  Filled-set zero i slots e h = tt
  Filled-set (suc n) i [] e h = absurd h
  Filled-set (suc n) i (none ∷ slots) e h = absurd h
  Filled-set (suc n) zero (some x ∷ slots) e h = h
  Filled-set (suc n) (suc i) (some x ∷ slots) e h = Filled-set n i slots e h

  Filled-next :
      (i : ℕ) (slots : List (Option A)) (e : A)
      → Filled i slots
      → i < length slots
      → Filled (suc i) (set slots i (some e))
  Filled-next i [] e h lt = absurd (omega arith)
  Filled-next zero (x ∷ slots) e h lt = tt
  Filled-next (suc i) (none ∷ slots) e h lt = absurd h
  Filled-next (suc i) (some x ∷ slots) e h lt = Filled-next i slots e h (omega arith)

  Free-next :
      (i : ℕ) (slots : List (Option A)) (e : A) → Free i slots → Free (suc i) (set slots i (some e))
  Free-next i [] e h = tt
  Free-next zero (x ∷ slots) e h = h.1
  Free-next (suc i) (x ∷ slots) e h = Free-next i slots e h

  Filled-some :
      (n i : ℕ) (slots : List (Option A))
      → Filled n slots
      → i < n
      → (e : A) × (get_or slots i none ≡ some e)
  Filled-some zero i slots h lt = absurd (omega arith)
  Filled-some (suc n) i [] h lt = absurd h
  Filled-some (suc n) i (none ∷ slots) h lt = absurd h
  Filled-some (suc n) zero (some x ∷ slots) h lt = (x, refl)
  Filled-some (suc n) (suc i) (some x ∷ slots) h lt = Filled-some n i slots h (omega arith)

  Free-none : (i : ℕ) (slots : List (Option A)) → Free i slots → get_or slots i none ≡ none
  Free-none i [] h = refl
  Free-none zero (x ∷ slots) h = h.0
  Free-none (suc i) (x ∷ slots) h = Free-none i slots h

  pub stored-IsValid :
      (c : Cache A) (e : A)
      → IsValid c
      → IsValid (advance (record c { slots = set c.slots c.idx (some e) }))
  stored-IsValid c e v = elim (Bool-cases (leb (length (set c.slots c.idx (some e))) (c.idx + 1))) [
    | inl t ↦ rw t (record {
      inside = omega (arith, same, v.inside);
      counted = omega (arith, same, v.counted);
      ring = inl (elim v.ring [
        | inl f ↦
            subst (λ n. Filled n (set c.slots c.idx (some e))) (sym same)
              (Filled-set (length c.slots) c.idx c.slots e f)
        | inr f ↦
            subst (λ n. Filled n (set c.slots c.idx (some e))) (full t)
              (Filled-next c.idx c.slots e f.0 v.inside)
      ]);
    })
    | inr t ↦ rw t (record {
      inside = below t;
      counted = count (v.counted);
      ring = elim v.ring [
        | inl f ↦ inl (
            subst (λ n. Filled n (set c.slots c.idx (some e))) (sym same)
              (Filled-set (length c.slots) c.idx c.slots e f))
        | inr f ↦ inr (
          subst (λ n. Filled n (set c.slots c.idx (some e))) next
              (Filled-next c.idx c.slots e f.0 v.inside),
          subst (λ n. Free n (set c.slots c.idx (some e))) next (Free-next c.idx c.slots e f.1),
        )
      ];
    })
  ]
    where
      same : length (set c.slots c.idx (some e)) ≡ length c.slots
      same = length-set c.slots c.idx (some e)

      next : suc c.idx ≡ c.idx + 1
      next = omega arith

      full :
          leb (length (set c.slots c.idx (some e))) (c.idx + 1) ≡ true
          → suc c.idx ≡ length (set c.slots c.idx (some e))
      full t = ground (arith, same, v.inside)

      below :
          leb (length (set c.slots c.idx (some e))) (c.idx + 1) ≡ false
          → c.idx + 1 < length (set c.slots c.idx (some e))
      below t = ground arith

      count :
          c.num ≤ length c.slots
          → (if ltb c.num (length (set c.slots c.idx (some e))) then c.num + 1 else c.num)
            ≤ length (set c.slots c.idx (some e))
      count h = ground (arith, same)

  clash : (o : Option A) (x : A) → o ≡ some x → o ≢ none
  clash o x p q = let z = sym p ∙ q in cc

  -- An entry that passes, stored in a free slot, is found.
  pub search-stored_hit :
      (test : A → Bool) (c : Cache A) (e : A)
      → IsValid c
      → search test c.slots 0 ≡ none
      → get_or c.slots c.idx none ≡ none
      → test e ≡ true
      → search test (set c.slots c.idx (some e)) 0 ≡ some (c.idx, e)
  search-stored_hit test c e v before free t =
      search-set_hit test c.slots 0 c.idx e before t (prefix v.ring) v.inside
      ∙ ap (λ j. some (j, e)) {x = 0 + c.idx} {y = c.idx} (omega arith)
    where
      prefix :
          Filled (length c.slots) c.slots ⊎ (Filled c.idx c.slots × Free c.idx c.slots)
          → Filled c.idx c.slots
      prefix (inl f) =
          let (x, q) = Filled-some (length c.slots) c.idx c.slots f v.inside in
          absurd (clash (get_or c.slots c.idx none) x q free)
      prefix (inr f) = f.0

  -- An entry that fails, stored over another one, changes no miss.
  pub search-stored_miss :
      (test : A → Bool) (c : Cache A) (e old : A)
      → IsValid c
      → search test c.slots 0 ≡ none
      → get_or c.slots c.idx none ≡ some old
      → test e ≡ false
      → search test (set c.slots c.idx (some e)) 0 ≡ none
  search-stored_miss test c e old v before used t =
      search-set_miss test c.slots 0 c.idx e before t (whole v.ring)
    where
      whole :
          Filled (length c.slots) c.slots ⊎ (Filled c.idx c.slots × Free c.idx c.slots)
          → Filled (length c.slots) c.slots
      whole (inl f) = f
      whole (inr f) =
          absurd (clash (get_or c.slots c.idx none) old used (Free-none c.idx c.slots f.1))

  pub slots-advance : (d : Cache A) → (advance d).slots ≡ d.slots
  slots-advance d = elim (Bool-cases (leb (length d.slots) (d.idx + 1))) [
    | inl t ↦ rw t refl
    | inr t ↦ rw t refl
  ]
