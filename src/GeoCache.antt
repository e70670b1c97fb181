-- ===== src/GeoCache.antt =====
-- The cache of addresses by position, of src/geoloc_cache.c; the one of minimaps is in Minimap. The static variables of the file are the
-- record's fields; the array is a list of slots, `none` where the pointers are null.
pub mod Lookup
pub mod Ring
pub mod Update
pub mod Minimap
use g7ctrl.Common.{
  Bool, Bytes, List, Option, Rc, [], failure, false, get_or, if◌then◌else◌, leb, length, ltb, none,
  replicate, set, some, str_eq, success, true, ℕ, ◌%◌, ◌&&◌, ◌*◌, ◌+◌, ◌^◌, ◌||◌, ◌∷◌,
}
use g7ctrl.Xstr.Copy.{xstrlcpy}
use g7ctrl.Xstr.Utf8.{xmb_strncpy}

-- The C library's floating point, and `gpsdist_m` of src/gpsdist.c, which is built on it.
pub record Floats : Type 1 where
  pub Double : Type 0
  pub of_nat : ℕ → Double
  pub atof : Bytes → Double
  pub fabs : Double → Double
  pub gt : Double → Double → Bool
  pub lt : Double → Double → Bool
  pub le : Double → Double → Bool
  pub gpsdist_m : Double → Double → Double → Double → Double

-- `struct address_cache_t`
pub record AddressEntry (F : Floats) : Type 0 where
  pub lat : Bytes
  pub lon : Bytes
  pub d_lat : F.Double
  pub d_lon : F.Double
  pub addr : Bytes
  pub ts : ℕ

-- `struct geo_cache_stat_t`
pub record CacheStat : Type 0 where
  pub cache_tot_calls : ℕ
  pub cache_hits : ℕ
  pub cache_max_idx : ℕ

-- One of the two caches: the array, the next free position, the number of entries, and `cache_stats`.
pub record Cache (A : Type 0) : Type 0 where
  pub slots : List (Option A)
  pub idx : ℕ
  pub num : ℕ
  pub stat : CacheStat

abbrev pub AddressCache : Floats → Type 0
AddressCache F = Cache (AddressEntry F)

unfoldable pub init_geoloc_cache : (F : Floats) → ℕ → AddressCache F
init_geoloc_cache F geocache_address_size = record {
  slots = replicate geocache_address_size none;
  idx = 0;
  num = 0;
  stat = record { cache_tot_calls = 0; cache_hits = 0; cache_max_idx = 0 };
}

-- The counters are of type `unsigned`.
unfoldable pub update_cache_stat : CacheStat → Bool → ℕ → CacheStat
update_cache_stat s hit idx = record {
  cache_tot_calls = (s.cache_tot_calls + 1) % 2 ^ 32;
  cache_hits = if hit then (s.cache_hits + 1) % 2 ^ 32 else s.cache_hits;
  cache_max_idx = if ltb s.cache_max_idx idx then idx % 2 ^ 32 else s.cache_max_idx;
}

-- The number of entries and the size, for the address cache.
unfoldable pub get_cache_num : (F : Floats) → AddressCache F → ℕ × ℕ
get_cache_num F c = (c.num, length c.slots)

-- The test in the loop of `in_address_cache`: by distance if `address_lookup_proximity` is positive,
-- and else by the strings.
abbrev pub same_place : (F : Floats) → ℕ → Bytes → Bytes → AddressEntry F → Bool
same_place F proximity lat lon e =
    if ltb 0 proximity
    then F.le (F.gpsdist_m (F.atof lat) (F.atof lon) e.d_lat e.d_lon) (F.of_nat proximity)
    else str_eq lat e.lat && str_eq lon e.lon

-- `while (idx < geocache_address_size && address_cache[idx].lat)`, from `idx` on.
pub search : {A : Type 0} → (A → Bool) → List (Option A) → ℕ → Option (ℕ × A)
search test [] idx = none
search test (none ∷ slots) idx = none
search test (some e ∷ slots) idx = if test e then some (idx, e) else search test slots (idx + 1)

-- The answer, what is written to `addr`, if anything, and the cache with its new statistics.
unfoldable pub in_address_cache :
    (F : Floats) → ℕ → AddressCache F → Bytes → Bytes → ℕ → Bool × Option Bytes × AddressCache F
unfolding search update_cache_stat
in_address_cache F proximity c lat lon maxlen =
    elim (search (same_place F proximity lat lon) c.slots 0) [
      | none ↦ (false, none, record c { stat = update_cache_stat c.stat false 0 })
      | some f ↦ (
        true,
        some (xmb_strncpy f.1.addr maxlen),
        record c { stat = update_cache_stat c.stat true f.0 },
      )
    ]

-- `fabs(dLat) > 89 || fabs(dLon) > 89 || fabs(dLon) < 1 || fabs(dLat) < 1`
abbrev pub out_of_range : (F : Floats) → Bytes → Bytes → Bool
out_of_range F lat lon =
    F.gt (F.fabs (F.atof lat)) (F.of_nat 89)
    || F.gt (F.fabs (F.atof lon)) (F.of_nat 89)
    || F.lt (F.fabs (F.atof lon)) (F.of_nat 1)
    || F.lt (F.fabs (F.atof lat)) (F.of_nat 1)

-- `p = realloc(p, strlen(s) + 1); xstrlcpy(p, s, strlen(s))`. Of the old string nothing is left: with
-- an empty `s`, `xstrlcpy` writes the NUL before it looks at the size.
pub copy_over : Bytes → Bytes
copy_over s = (xstrlcpy s (length s)).0

-- What is written to the slot at the index.
pub new_entry : (F : Floats) → ℕ → Bytes → Bytes → Bytes → Option (AddressEntry F) → AddressEntry F
unfolding copy_over
new_entry F now lat lon addr none = record {
  lat = lat;
  lon = lon;
  d_lat = F.atof lat;
  d_lon = F.atof lon;
  addr = addr;
  ts = now;
}
new_entry F now lat lon addr (some old) = record {
  lat = copy_over lat;
  lon = copy_over lon;
  d_lat = F.atof lat;
  d_lon = F.atof lon;
  addr = copy_over addr;
  ts = now;
}

-- `idx++`, and the wrap at the end, where the number of entries is not counted up.
abbrev pub advance : {A : Type 0} → Cache A → Cache A
advance c =
    if leb (length c.slots) (c.idx + 1)
    then record c { idx = 0 }
    else record c { idx = c.idx + 1; num = if ltb c.num (length c.slots) then c.num + 1 else c.num }

-- `now` is `time(NULL)`.
unfoldable pub update_address_cache :
    (F : Floats) → ℕ → AddressCache F → Bytes → Bytes → Bytes → Rc × AddressCache F
unfolding new_entry
update_address_cache F now c lat lon addr = if out_of_range F lat lon then (failure, c) else (
  success,
  advance (record c {
    slots = set c.slots c.idx (some (new_entry F now lat lon addr (get_or c.slots c.idx none)));
  }),
)

-- The bytes of the strings in the slots in use, `strlen` each.
pub address_bytes : (F : Floats) → List (Option (AddressEntry F)) → ℕ
address_bytes F [] = 0
address_bytes F (none ∷ slots) = 0
address_bytes F (some e ∷ slots) =
    length e.addr + length e.lat + length e.lon + address_bytes F slots

-- `sizeof (struct address_cache_t)` is 48 where pointers, doubles and `time_t` have 8 bytes.
unfoldable pub get_addrcache_memusage : (F : Floats) → AddressCache F → ℕ
unfolding address_bytes
get_addrcache_memusage F c = length c.slots * 48 + address_bytes F c.slots
