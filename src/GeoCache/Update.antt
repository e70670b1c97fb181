-- ===== src/GeoCache/Update.antt =====
-- What `update_address_cache` stores, and what a lookup finds then.
use g7ctrl.Common.{
  Bool, Bool-cases, Bytes, Option, Option-cases, ap, arith, false, false≢true, get_or, inl, inr,
  length, length-take, none, refl, set, some, str_eq, str_eq_ne, str_eq_refl, sym, take, true, ℕ,
  ◌-◌, ◌<◌, ◌∙◌, ◌≡◌,
}
use g7ctrl.Xstr.Copy.{xstrlcpy_prefix}
use g7ctrl.Xstr.Utf8.{xmb_strncpy}
use g7ctrl.GeoCache.{
  Floats, AddressEntry, AddressCache, same_place, search, in_address_cache, out_of_range, copy_over,
  new_entry, update_address_cache,
}
use g7ctrl.GeoCache.Ring.{
  IsValid, stored-IsValid, search-stored_hit, search-stored_miss, slots-advance,
}

module _ (F : Floats) where
  -- An update of a valid cache, refused or not, keeps the index inside the array, the number of
  -- entries within the size, and the slots in use without a gap.
  pub update_address_cache-IsValid :
      (now : ℕ) (c : AddressCache F) (lat lon addr : Bytes)
      → IsValid c
      → IsValid (update_address_cache F now c lat lon addr).1
  unfolding update_address_cache
  update_address_cache-IsValid now c lat lon addr v = elim (Bool-cases (out_of_range F lat lon)) [
    | inl t ↦ rw t v
    | inr t ↦ rw t (stored-IsValid c (new_entry F now lat lon addr (get_or c.slots c.idx none)) v)
  ]

pub copy_over_ne : (s : Bytes) → 0 < length s → str_eq s (copy_over s) ≡ false
unfolding copy_over
copy_over_ne s h =
    rw (copy_over, xstrlcpy_prefix s (length s) h)
      (str_eq_ne s (take (length s - 1) s)
        (λ e. omega (arith, ap length e, length-take (length s - 1) s)))

module _ (F : Floats) where
  -- The answer of a lookup and what it writes.
  abbrev pub answer : ℕ → AddressCache F → Bytes → Bytes → ℕ → Bool × Option Bytes
  answer proximity c lat lon maxlen =
      let r = in_address_cache F proximity c lat lon maxlen in (r.0, r.1)

  abbrev pub answer_of : Option (ℕ × AddressEntry F) → ℕ → Bool × Option Bytes
  answer_of none maxlen = (false, none)
  answer_of (some f) maxlen = (true, some (xmb_strncpy f.1.addr maxlen))

  answer-search :
      (proximity : ℕ) (c : AddressCache F) (lat lon : Bytes) (maxlen : ℕ)
      → answer proximity c lat lon maxlen
        ≡ answer_of (search (same_place F proximity lat lon) c.slots 0) maxlen
  unfolding in_address_cache
  answer-search proximity c lat lon maxlen =
      elim (Option-cases (search (same_place F proximity lat lon) c.slots 0)) [
        | inl e ↦ rw (e, in_address_cache) refl
        | inr (f, e) ↦ rw (e, in_address_cache) refl
      ]

  not_found :
      (o : Option (ℕ × AddressEntry F)) (maxlen : ℕ) → (answer_of o maxlen).0 ≡ false → o ≡ none
  not_found none maxlen h = refl
  not_found (some f) maxlen h = absurd (false≢true (sym h))

  updated_slots :
      (now : ℕ) (c : AddressCache F) (lat lon addr : Bytes)
      → out_of_range F lat lon ≡ false
      → (update_address_cache F now c lat lon addr).1.slots
        ≡ set c.slots c.idx (some (new_entry F now lat lon addr (get_or c.slots c.idx none)))
  unfolding update_address_cache
  updated_slots now c lat lon addr h = rw h (
      slots-advance (record c {
        slots = set c.slots c.idx (some (new_entry F now lat lon addr (get_or c.slots c.idx none)));
      }))

  -- With lookups by string on a valid cache, a position in range with a latitude that is not
  -- empty, which a lookup misses, is stored. Then a lookup of the same strings finds it with its
  -- address if the slot was free before, and misses again if the slot was in use.
  pub answer-update_address_cache :
      (now : ℕ) (c : AddressCache F) (lat lon addr : Bytes) (maxlen : ℕ)
      → IsValid c
      → 0 < length lat
      → out_of_range F lat lon ≡ false
      → (answer 0 c lat lon maxlen).0 ≡ false
      → answer 0 (update_address_cache F now c lat lon addr).1 lat lon maxlen
        ≡ (elim (get_or c.slots c.idx none) [
          | none ↦ (true, some (xmb_strncpy addr maxlen))
          | some _ ↦ (false, none)
        ])
  unfolding new_entry
  answer-update_address_cache now c lat lon addr maxlen v pos ok absent =
      answer-search 0 (update_address_cache F now c lat lon addr).1 lat lon maxlen
      ∙ ap (λ l. answer_of (search test l 0) maxlen) (updated_slots now c lat lon addr ok)
      ∙ elim (Option-cases (get_or c.slots c.idx none)) [
        | inl e ↦ rw (e, new_entry) (fresh e)
        | inr (old, e) ↦ rw (e, new_entry) (reused old e)
      ]
    where
      test : AddressEntry F → Bool
      test = same_place F 0 lat lon

      before : search test c.slots 0 ≡ none
      before =
          not_found (search test c.slots 0) maxlen
            (ap (λ r. r.0) (sym (answer-search 0 c lat lon maxlen)) ∙ absent)

      fresh :
          get_or c.slots c.idx none ≡ none
          → answer_of
              (search test (set c.slots c.idx (some (new_entry F now lat lon addr none))) 0)
              maxlen
            ≡ (true, some (xmb_strncpy addr maxlen))
      fresh e =
          ap (λ o. answer_of o maxlen)
            (search-stored_hit test c (new_entry F now lat lon addr none) v before e
              (rw (str_eq_refl lat) (str_eq_refl lon)))

      reused :
          (old : AddressEntry F)
          → get_or c.slots c.idx none ≡ some old
          → answer_of
              (search test (set c.slots c.idx (some (new_entry F now lat lon addr (some old)))) 0)
              maxlen
            ≡ (false, none)
      reused old e =
          ap (λ o. answer_of o maxlen)
            (search-stored_miss test c (new_entry F now lat lon addr (some old)) old v before e
              (rw (copy_over_ne lat pos) refl))
