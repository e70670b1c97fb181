-- ===== src/GeoCache/Minimap.antt =====
-- The cache of minimaps of src/geoloc_cache.c: `in_minimap_cache`, `get_minimap_cache_filename` and
-- `update_minimap_cache`.
pub mod Stored
use g7ctrl.Common.{
  Bool, Bytes, List, Option, Rc, [], codes, cstr, failure, false, get_or, if◌then◌else◌, leb,
  length, ltb, none, not, replicate, set, some, str_eq, suc, success, take, true, zero, ℕ, ◌%◌,
  ◌&&◌, ◌*◌, ◌++◌, ◌+◌, ◌/◌, ◌==◌, ◌||◌, ◌∷◌,
}
use g7ctrl.GeoCache.{
  Floats, CacheStat, Cache, update_cache_stat, search, out_of_range, copy_over, advance,
}

-- `struct minimap_cache_t`. `imgdata` is the image, `imgdatasize` the size that is stored for it.
pub record MinimapEntry (F : Floats) : Type 0 where
  pub lat : Bytes
  pub lon : Bytes
  pub d_lat : F.Double
  pub d_lon : F.Double
  pub zoom : ℕ
  pub width : ℕ
  pub height : ℕ
  pub filename : Bytes
  pub imgdatasize : ℕ
  pub imgdata : Bytes
  pub ts : ℕ

abbrev pub MinimapCache : Floats → Type 0
MinimapCache F = Cache (MinimapEntry F)

-- The settings that the lookup reads.
pub record Settings : Type 0 where
  pub address_lookup_proximity : ℕ
  pub minimap_detailed_zoom : ℕ
  pub minimap_overview_zoom : ℕ

-- `proximity_dist`: the quotient of the two zoom factors is one of unsigned integers.
abbrev pub proximity_dist : Settings → ℕ → ℕ
proximity_dist s zoom =
    if zoom == s.minimap_overview_zoom
    then s.address_lookup_proximity * (s.minimap_detailed_zoom / s.minimap_overview_zoom * 15)
    else s.address_lookup_proximity

-- What is looked up.
pub record Spot : Type 0 where
  pub lat : Bytes
  pub lon : Bytes
  pub zoom : ℕ
  pub width : ℕ
  pub height : ℕ

-- The tests in the loop of `in_minimap_cache`.
abbrev pub same_map : (F : Floats) → Settings → Spot → MinimapEntry F → Bool
same_map F s p e =
    if not (p.zoom == e.zoom) || not (e.width == p.width) || not (e.height == p.height)
    then false
    else if ltb 0 (proximity_dist s p.zoom)
    then F.le (F.gpsdist_m (F.atof p.lat) (F.atof p.lon) e.d_lat e.d_lon)
        (F.of_nat (proximity_dist s p.zoom))
    else str_eq p.lat e.lat && str_eq p.lon e.lon

-- The answer, and the image and its size.
unfoldable pub in_minimap_cache :
    (F : Floats) → Settings → MinimapCache F → Spot → Option (Bytes × ℕ) × MinimapCache F
unfolding search update_cache_stat
in_minimap_cache F s c p = elim (search (same_map F s p) c.slots 0) [
  | none ↦ (none, record c { stat = update_cache_stat c.stat false 0 })
  | some f ↦
      (some (f.1.imgdata, f.1.imgdatasize), record c { stat = update_cache_stat c.stat true f.0 })
]

-- `while (*lat && *lat != '.') *plat++ = *lat++; lat++`, and six bytes more. As in the source the six may
-- lie behind the string's NUL, where they count as 0; the buffer of 16 bytes is taken to be long enough.
pub first_digits : Bytes → Bytes
first_digits [] = replicate 6 0
first_digits (c ∷ s) =
    let rest = first_digits s in
    let six =
      get_or s 0 0
      ∷ get_or s 1 0
      ∷ get_or s 2 0
      ∷ get_or s 3 0
      ∷ get_or s 4 0
      ∷ get_or s 5 0
      ∷ [] in
    if c == b'.' then six else c ∷ rest

-- `%d` of a number below 2 ^ 31. The first argument bounds the digits.
pub decimal_within : ℕ → ℕ → Bytes
decimal_within zero n = []
decimal_within (suc fuel) n =
    let front = decimal_within fuel (n / 10) in
    if ltb n 10 then (b'0' + n) ∷ [] else front ++ (b'0' + n % 10) ∷ []

abbrev pub decimal : ℕ → Bytes
decimal n = decimal_within 10 n

-- `snprintf(fname, sizeof (fname), "map_%s_%s_%d_%dx%d.png", ...)`
pub map_name : Spot → Bytes
unfolding first_digits decimal_within
map_name p = take 255 (
    codes "map_"
    ++ cstr (first_digits p.lat)
    ++ codes "_"
    ++ cstr (first_digits p.lon)
    ++ codes "_"
    ++ decimal p.zoom
    ++ codes "_"
    ++ decimal p.width
    ++ codes "x"
    ++ decimal p.height
    ++ codes ".png")

unfoldable pub get_minimap_cache_filename : ℕ → Spot → Option Bytes
unfolding map_name
get_minimap_cache_filename maxlen p =
    let fname = map_name p in
    if leb maxlen (length fname) then none else if ltb (length fname) 25 then none else some fname

-- The guards of `update_minimap_cache` before the file name.
abbrev pub bad_spot : (F : Floats) → Spot → Bool
bad_spot F p =
    ltb (length p.lat) 6
    || ltb (length p.lon) 6
    || out_of_range F p.lat p.lon
    || ltb p.zoom 1
    || ltb 20 p.zoom
    || ltb 600 p.width
    || ltb 600 p.height

-- What is written to the slot at the index.
pub new_map : (F : Floats) → ℕ → Spot → Bytes → ℕ → Bytes → Option (MinimapEntry F) → MinimapEntry F
unfolding copy_over
new_map F now p filename imgdatasize imgdata none = record {
  lat = p.lat;
  lon = p.lon;
  d_lat = F.atof p.lat;
  d_lon = F.atof p.lon;
  zoom = p.zoom;
  width = p.width;
  height = p.height;
  filename = filename;
  imgdatasize = imgdatasize;
  imgdata = imgdata;
  ts = now;
}
new_map F now p filename imgdatasize imgdata (some old) = record {
  lat = copy_over p.lat;
  lon = copy_over p.lon;
  d_lat = F.atof p.lat;
  d_lon = F.atof p.lon;
  zoom = p.zoom;
  width = p.width;
  height = p.height;
  filename = filename;
  imgdatasize = imgdatasize;
  imgdata = imgdata;
  ts = now;
}

unfoldable pub update_minimap_cache :
    (F : Floats) → ℕ → MinimapCache F → Spot → ℕ → Bytes → Rc × MinimapCache F
unfolding get_minimap_cache_filename new_map
update_minimap_cache F now c p imgdatasize imgdata =
    if bad_spot F p then (failure, c) else elim (get_minimap_cache_filename 255 p) [
      | none ↦ (failure, c)
      | some filename ↦ (
        success,
        advance (record c {
          slots =
              set c.slots c.idx
                (some (new_map F now p filename imgdatasize imgdata (get_or c.slots c.idx none)));
        }),
      )
    ]

-- The bytes of the strings and the images in the slots in use.
pub minimap_bytes : (F : Floats) → List (Option (MinimapEntry F)) → ℕ
minimap_bytes F [] = 0
minimap_bytes F (none ∷ slots) = 0
minimap_bytes F (some e ∷ slots) =
    length e.filename + length e.lat + length e.lon + e.imgdatasize + minimap_bytes F slots

-- `sizeof (struct minimap_cache_t)` is 80 where pointers, doubles and `time_t` have 8 bytes.
unfoldable pub get_minimapcache_memusage : (F : Floats) → MinimapCache F → ℕ
unfolding minimap_bytes
get_minimapcache_memusage F c = length c.slots * 80 + minimap_bytes F c.slots
