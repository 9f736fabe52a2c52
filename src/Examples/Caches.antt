-- ===== src/Examples/Caches.antt =====
-- The cache management at concrete inputs: four ways, of which way 0 is locked and way 1 is in use.
use cy_ph_os.Base.{
  get_elem?, length, some, List, refl, ℕ, ◌+◌, ◌<◌, ◌≡◌, ◌⊎◌, none, true, false, [], ◌∷◌, arith,
  ◌==◌,
}
use cy_ph_os.Cache.{CacheWay, CacheManagement, Osc, get_lru_way, preload_single_osc, evict_osc}
use cy_ph_os.Colouring.{Colors, Move, color_count, prefetch_moves}
use cy_ph_os.Colouring.Pages.{prefetch_moves-apart}
use cy_ph_os.Cache.Ways.{Granted, Denied, get_lru_way-Granted}
use cy_ph_os.Cache.Preload.{Loaded, Stuck}
use cy_ph_os.Cache.Preload.Loop.{preload_single_osc-Loaded}
use cy_ph_os.Cache.Evict.{any_contains, evict_osc-any_contains}

abbrev way_of : ℕ → CacheWay
way_of = λ i. record {
  permanent_locked = i == 0;
  lru_count = i;
  data_start = 4096 + i;
  data_end = 4100 + i;
  osc = 64;
  in_use = i == 1;
}

abbrev cache : CacheManagement
cache = record {
  way_count = 4;
  critical_way_pointer = 1;
  ways = way_of;
  eviction_count = 0;
  last_eviction = λ cpu. 0;
  calls = [];
}

abbrev osc : Osc
osc = record { address = 64; start = 4096; end = 4300; text_end = 4200 }

get_lru_way-Granted_example :
    Granted 8192 cache (get_lru_way 8192 cache).0 (get_lru_way 8192 cache).1
    ⊎ Denied 8192 cache (get_lru_way 8192 cache).0
get_lru_way-Granted_example = get_lru_way-Granted 8192 cache

preload_single_osc-Loaded_example :
    Loaded 128 osc 4096 false cache (preload_single_osc 300 128 osc cache)
    ⊎ ((preload_single_osc 300 128 osc cache ≡ none) × Stuck 128 osc 4096 false cache)
preload_single_osc-Loaded_example =
    preload_single_osc-Loaded 128 osc (omega arith) (omega arith) 300 cache (omega arith)
      (omega arith) (omega arith)

evict_osc-any_contains_example :
    ((any_contains (osc ∷ []) (cache.ways 1) ≡ true)
      × (((evict_osc true 0 (osc ∷ []) cache).ways 1).in_use ≡ false))
    ⊎ ((any_contains (osc ∷ []) (cache.ways 1) ≡ false)
        × ((evict_osc true 0 (osc ∷ []) cache).ways 1 ≡ cache.ways 1))
evict_osc-any_contains_example = evict_osc-any_contains true 0 (osc ∷ []) cache 1 (omega arith)

abbrev colors : Colors
colors = record {
  page_size = 4096;
  pages_per_color = 2;
  hw_way_size = 65536;
  hw_way_count = 16;
  colors_start = 0x40000000;
}

colors_count : color_count colors ≡ 8
unfolding color_count
colors_count = refl

prefetch_moves-apart_example :
    (ms : List Move) × (ms' : List Move) × (prefetch_moves 30001 colors 8200 30000 1 ≡ some ms)
    × (prefetch_moves 30001 colors 8200 20000 2 ≡ some ms')
    × ((i i' : ℕ) (m m' : Move)
        → i < length ms
        → i' < length ms'
        → get_elem? ms i ≡ some m
        → get_elem? ms' i' ≡ some m'
        → m.target ≡ m'.target
        → (◌≡◌ {A = ℕ} 1 2) × (i ≡ i'))
prefetch_moves-apart_example =
    prefetch_moves-apart 30001 colors 8200 30000 1 8200 20000 2 refl (omega arith) (omega arith)
      (omega arith) (rw colors_count (omega arith)) (rw colors_count (omega arith))
