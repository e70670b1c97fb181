-- ===== src/GeoCache/Minimap/Stored.antt =====
-- What the lookup of a minimap answers after the map was stored.
use g7ctrl.Common.{
  ==_refl, Bool-cases, Bytes, Option, Option-cases, ap, arith, false, false≢true, get_or, inl, inr,
  length, ltb, ltb-false→le, none, refl, set, some, str_eq_refl, sym, true, ℕ, ◌<◌, ◌∙◌, ◌≡◌,
}
use g7ctrl.GeoCache.{Floats, search}
use g7ctrl.GeoCache.Ring.{
  IsValid, stored-IsValid, search-stored_hit, search-stored_miss, slots-advance,
}
use g7ctrl.GeoCache.Update.{copy_over_ne}
use g7ctrl.GeoCache.Minimap.{
  MinimapEntry, MinimapCache, Settings, proximity_dist, Spot, same_map, in_minimap_cache,
  get_minimap_cache_filename, bad_spot, new_map, update_minimap_cache,
}

module _ (F : Floats) where
  abbrev image_of : Option (ℕ × MinimapEntry F) → Option (Bytes × ℕ)
  image_of none = none
  image_of (some f) = some (f.1.imgdata, f.1.imgdatasize)

  image-search :
      (s : Settings) (c : MinimapCache F) (p : Spot)
      → (in_minimap_cache F s c p).0 ≡ image_of (search (same_map F s p) c.slots 0)
  unfolding in_minimap_cache
  image-search s c p = elim (Option-cases (search (same_map F s p) c.slots 0)) [
    | inl e ↦ rw (e, in_minimap_cache) refl
    | inr (f, e) ↦ rw (e, in_minimap_cache) refl
  ]

  not_found : (o : Option (ℕ × MinimapEntry F)) → image_of o ≡ none → o ≡ none
  not_found none h = refl
  not_found (some f) h = cc

  no_distance : (n : ℕ) → n ≡ 0 → ltb 0 n ≡ false
  no_distance n h = ground arith

  same_map-new_map :
      (s : Settings) (now : ℕ) (p : Spot) (filename : Bytes) (imgdatasize : ℕ) (imgdata : Bytes)
      → proximity_dist s p.zoom ≡ 0
      → same_map F s p (new_map F now p filename imgdatasize imgdata none) ≡ true
  unfolding new_map
  same_map-new_map s now p filename imgdatasize imgdata h =
      rw (==_refl p.zoom, ==_refl p.width, ==_refl p.height, str_eq_refl p.lat, str_eq_refl p.lon)
        (rw (no_distance (proximity_dist s p.zoom) h) refl)

  same_map-over :
      (s : Settings) (now : ℕ) (p : Spot) (filename : Bytes) (imgdatasize : ℕ) (imgdata : Bytes)
      (old : MinimapEntry F)
      → proximity_dist s p.zoom ≡ 0
      → 0 < length p.lat
      → same_map F s p (new_map F now p filename imgdatasize imgdata (some old)) ≡ false
  unfolding new_map
  same_map-over s now p filename imgdatasize imgdata old h pos =
      rw (==_refl p.zoom, ==_refl p.width, ==_refl p.height, copy_over_ne p.lat pos)
        (rw (no_distance (proximity_dist s p.zoom) h) refl)

  long_lat : (p : Spot) → bad_spot F p ≡ false → 0 < length p.lat
  long_lat p h = elim (Bool-cases (ltb (length p.lat) 6)) [
    | inl e ↦ let z = rw e at h in absurd (false≢true (sym z))
    | inr e ↦ omega (arith, ltb-false→le (length p.lat) 6 e)
  ]

  updated_slots :
      (now : ℕ) (c : MinimapCache F) (p : Spot) (filename : Bytes) (imgdatasize : ℕ)
      (imgdata : Bytes)
      → bad_spot F p ≡ false
      → get_minimap_cache_filename 255 p ≡ some filename
      → (update_minimap_cache F now c p imgdatasize imgdata).1.slots
        ≡ set c.slots c.idx
            (some (new_map F now p filename imgdatasize imgdata (get_or c.slots c.idx none)))
  unfolding update_minimap_cache
  updated_slots now c p filename imgdatasize imgdata ok named = rw ok (
      rw (named, update_minimap_cache)
        (slots-advance (record c {
          slots =
              set c.slots c.idx
                (some (new_map F now p filename imgdatasize imgdata (get_or c.slots c.idx none)));
        })))

  -- An update, refused or not, keeps the index inside the array and the slots in use without a gap.
  pub update_minimap_cache-IsValid :
      (now : ℕ) (c : MinimapCache F) (p : Spot) (imgdatasize : ℕ) (imgdata : Bytes)
      → IsValid c
      → IsValid (update_minimap_cache F now c p imgdatasize imgdata).1
  unfolding update_minimap_cache
  update_minimap_cache-IsValid now c p imgdatasize imgdata v = elim (Bool-cases (bad_spot F p)) [
    | inl t ↦ rw t v
    | inr t ↦ rw t (elim (Option-cases (get_minimap_cache_filename 255 p)) [
      | inl e ↦ rw (e, update_minimap_cache) v
      | inr (filename, e) ↦
          rw (e, update_minimap_cache)
            (stored-IsValid c
              (new_map F now p filename imgdatasize imgdata (get_or c.slots c.idx none)) v)
    ])
  ]

  -- With lookups by string on a valid cache, a map that passes the guards and that a lookup
  -- misses is stored. Then the same lookup finds the image and its size if the slot was free
  -- before, and misses again if the slot was in use.
  pub in_minimap_cache-update :
      (s : Settings) (now : ℕ) (c : MinimapCache F) (p : Spot) (filename : Bytes) (imgdatasize : ℕ)
      (imgdata : Bytes)
      → IsValid c
      → proximity_dist s p.zoom ≡ 0
      → bad_spot F p ≡ false
      → get_minimap_cache_filename 255 p ≡ some filename
      → (in_minimap_cache F s c p).0 ≡ none
      → (in_minimap_cache F s (update_minimap_cache F now c p imgdatasize imgdata).1 p).0
        ≡ (elim (get_or c.slots c.idx none) [ none ↦ some (imgdata, imgdatasize) | some _ ↦ none ])
  unfolding new_map
  in_minimap_cache-update s now c p filename imgdatasize imgdata v strings ok named absent =
      image-search s (update_minimap_cache F now c p imgdatasize imgdata).1 p
      ∙ ap (λ l. image_of (search (same_map F s p) l 0))
          (updated_slots now c p filename imgdatasize imgdata ok named)
      ∙ elim (Option-cases (get_or c.slots c.idx none)) [
        | inl e ↦
            rw (e, new_map)
              (ap image_of (
                search-stored_hit (same_map F s p) c
                  (new_map F now p filename imgdatasize imgdata none) v before e
                  (same_map-new_map s now p filename imgdatasize imgdata strings)))
        | inr (old, e) ↦
            rw (e, new_map)
              (ap image_of (
                search-stored_miss (same_map F s p) c
                  (new_map F now p filename imgdatasize imgdata (some old)) old v before e
                  (same_map-over s now p filename imgdatasize imgdata old strings (long_lat p ok))))
      ]
    where
      before : search (same_map F s p) c.slots 0 ≡ none
      before = not_found (search (same_map F s p) c.slots 0) (sym (image-search s c p) ∙ absent)
