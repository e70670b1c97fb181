-- ===== src/Tests/Cache.antt =====
-- Runs of the caches and of the dictionary.
use g7ctrl.Common.{
  Bool, List, [], arith, codes, cstr, false, inl, inr, leb, ltb, none, refl, some, str_eq, take, ℕ,
  ◌∷◌, ◌≡◌,
}
use g7ctrl.GeoCache.{
  Floats, AddressEntry, AddressCache, init_geoloc_cache, same_place, in_address_cache,
  update_address_cache,
}
use g7ctrl.GeoCache.Ring as Ring
use g7ctrl.GeoCache.Update.{answer, update_address_cache-IsValid, answer-update_address_cache}
use g7ctrl.GeoCache.Minimap.{
  MinimapCache, Settings, Spot, in_minimap_cache, get_minimap_cache_filename, update_minimap_cache,
}
use g7ctrl.GeoCache.Minimap.Stored.{in_minimap_cache-update}
use g7ctrl.Codec.Url.{to_lower, is_upper}
use g7ctrl.Xstr.Number.{value}
use g7ctrl.Dict.{find_tuple, str_case_eq, Dict, replaced, replace_dict_in_buf}
use g7ctrl.Dict.Replace.{Piece, lit, ref, replace_dict_in_buf-render}

-- Whole degrees, all of them in one place.
abbrev degrees : Floats
degrees = record {
  Double = ℕ;
  of_nat = λ n. n;
  atof = λ s. value 0 (take 2 s);
  fabs = λ x. x;
  gt = λ x y. ltb y x;
  lt = λ x y. ltb x y;
  le = λ x y. leb x y;
  gpsdist_m = λ lat lon lat' lon'. 0;
}

-- One slot, in use.
abbrev one_slot : AddressCache degrees
one_slot = record (init_geoloc_cache degrees 1) {
  slots =
      some (record {
        lat = codes "57";
        lon = codes "17";
        d_lat = 57;
        d_lon = 17;
        addr = codes "Home";
        ts = 1;
      })
      ∷ [];
}

one_slot-IsValid : Ring.IsValid one_slot
unfolding init_geoloc_cache
one_slot-IsValid = record { inside = omega arith; counted = omega arith; ring = inl tt }

abbrev near : AddressEntry degrees → Bool
near = same_place degrees 20 (codes "58") (codes "18")

update_address_cache-IsValid_example :
    Ring.IsValid
      (update_address_cache degrees 2 one_slot (codes "58") (codes "18") (codes "Work")).1
update_address_cache-IsValid_example =
    update_address_cache-IsValid degrees 2 one_slot (codes "58") (codes "18") (codes "Work")
      one_slot-IsValid

answer-update_address_cache_example :
    answer degrees 0
      (update_address_cache degrees 2 one_slot (codes "58") (codes "18") (codes "Work")).1
      (codes "58")
      (codes "18")
      64
    ≡ (false, none)
unfolding in_address_cache init_geoloc_cache str_eq
answer-update_address_cache_example =
    answer-update_address_cache degrees 2 one_slot (codes "58") (codes "18") (codes "Work") 64
      one_slot-IsValid (omega arith) refl refl

abbrev no_maps : MinimapCache degrees
no_maps = record {
  slots = none ∷ [];
  idx = 0;
  num = 0;
  stat = record { cache_tot_calls = 0; cache_hits = 0; cache_max_idx = 0 };
}

no_maps-IsValid : Ring.IsValid no_maps
no_maps-IsValid = record {
  inside = omega arith;
  counted = omega arith;
  ring = inr (tt, (refl, tt));
}

abbrev spot : Spot
spot = record {
  lat = codes "57.123456";
  lon = codes "17.654321";
  zoom = 15;
  width = 200;
  height = 200;
}

abbrev by_string : Settings
by_string = record {
  address_lookup_proximity = 0;
  minimap_detailed_zoom = 15;
  minimap_overview_zoom = 9;
}

name_run : get_minimap_cache_filename 255 spot ≡ some (codes "map_57123456_17654321_15_200x200.png")
unfolding get_minimap_cache_filename cstr
name_run = refl

in_minimap_cache-update_example :
    (in_minimap_cache degrees by_string
      (update_minimap_cache degrees 5 no_maps spot 3 (1 ∷ 2 ∷ 3 ∷ [])).1
      spot).0
    ≡ some (1 ∷ 2 ∷ 3 ∷ [], 3)
unfolding in_minimap_cache
in_minimap_cache-update_example =
    in_minimap_cache-update degrees by_string 5 no_maps spot
      (codes "map_57123456_17654321_15_200x200.png") 3 (1 ∷ 2 ∷ 3 ∷ []) no_maps-IsValid refl refl
      name_run refl

abbrev template : List Piece
template = ref (codes "k") (codes "v") ∷ lit b'!' ∷ []

abbrev short_key : Dict
short_key = record { tuples = record { key = codes "K"; val = codes "v" } ∷ []; maxsize = 100 }

find_key : find_tuple (str_case_eq (codes "k")) short_key.tuples ≡ some (codes "v")
unfolding find_tuple str_case_eq to_lower is_upper
find_key = refl

replace_dict_in_buf-render_example :
    replace_dict_in_buf short_key (codes "[k]!") 64 ≡ replaced (codes "v!")
replace_dict_in_buf-render_example =
    replace_dict_in_buf-render short_key template 64
      ((((λ e. omega arith), tt), omega arith, find_key), ((λ e. omega arith), tt)) (omega arith)
