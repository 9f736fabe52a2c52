-- ===== src/Cache.antt =====
-- cachemanagement/GenericCacheManagement.cc and its header: which cache way holds which part of a
-- component. `evictCacheWay` and `prefetchDataToWay` are virtual: their calls are kept in `calls`.
-- Durations are for profiling only and are left out.
pub mod Choice
pub mod Ways
pub mod Preload
pub mod Evict
use cy_ph_os.Base.{
  ℕ, zero, suc, ◌+◌, ◌-◌, ◌%◌, ◌^◌, Bool, true, false, not, ◌&&◌, Option, none, some, List, [], ◌∷◌,
  ◌++◌, ◌==◌, ltb, leb, if◌then◌else◌, update,
}

-- cMaxCacheWays, which also says that no way was found, and LRU_MAX_VALUE.
abbrev pub max_cache_ways : ℕ
max_cache_ways = 128

abbrev pub lru_max_value : ℕ
lru_max_value = 255

pub record CacheWay : Type 0 where
  pub permanent_locked : Bool
  pub lru_count : ℕ
  pub data_start : ℕ
  pub data_end : ℕ
  pub osc : ℕ
  pub in_use : Bool

pub data Call : Type 0 where
  evict_cache_way : (way data_start data_end : ℕ) → Call
  prefetch_data_to_way : (start end text_end way : ℕ) → Call

pub record CacheManagement : Type 0 where
  pub way_count : ℕ
  pub critical_way_pointer : ℕ
  pub ways : ℕ → CacheWay
  pub eviction_count : ℕ
  pub last_eviction : ℕ → ℕ
  pub calls : List Call

-- A component: its address and the bounds of its memory.
pub record Osc : Type 0 where
  pub address : ℕ
  pub start : ℕ
  pub end : ℕ
  pub text_end : ℕ

-- The first loop of `getLRUWay`: the way that has the data, from `way` on.
unfoldable pub seek_data : ℕ → ℕ → (ℕ → CacheWay) → ℕ → Option ℕ
seek_data zero way ways data_start = none
seek_data (suc rest) way ways data_start =
    let further = seek_data rest (suc way) ways data_start in
    if (ways way).data_start == data_start then some way else further

abbrev pub available : CacheWay → Bool
available w = not w.permanent_locked && not w.in_use

-- `if (lruCount != LRU_MAX_VALUE) lruCount++`.
abbrev pub age : CacheWay → CacheWay
age w = if w.lru_count == lru_max_value then w else record w { lru_count = suc w.lru_count }

-- The second loop: `best` is maxCacheWay once validWay is set, and `most` is maxLRUcount.
unfoldable pub seek_lru : ℕ → ℕ → (ℕ → CacheWay) → ℕ → Option ℕ → (ℕ → CacheWay) × Option ℕ
seek_lru zero way ways most best = (ways, best)
seek_lru (suc rest) way ways most best =
    let w = ways way in
    let passed_over = seek_lru rest (suc way) ways most best in
    let aged = update ways way (age w) in
    let taken = seek_lru rest (suc way) aged w.lru_count (some way) in
    let kept = seek_lru rest (suc way) aged most best in
    if available w
    then (if w.data_start == 0
        then (ways, some way)
        else (if leb most w.lru_count then taken else kept))
    else passed_over

abbrev pub set_way : ℕ → CacheWay → CacheManagement → CacheManagement
set_way way w c = record c { ways = update c.ways way w }

-- The way gets free: its data is evicted first, unless it has none.
unfoldable pub claim_way : ℕ → CacheManagement → CacheManagement
claim_way way c =
    let w = c.ways way in
    let taken : CacheWay = record w { lru_count = 0; data_start = 0; in_use = true } in
    if w.data_start == 0 then set_way way taken c else record c {
      calls = c.calls ++ evict_cache_way way w.data_start w.data_end ∷ [];
      eviction_count = (c.eviction_count + 1) % 2 ^ 64;
      ways = update c.ways way taken;
    }

unfoldable pub claim_chosen : (ℕ → CacheWay) × Option ℕ → CacheManagement → ℕ × CacheManagement
claim_chosen (ways, none) c = (max_cache_ways, record c { ways = ways })
claim_chosen (ways, some way) c = (way, claim_way way (record c { ways = ways }))

-- `getLRUWay`; the lock makes it one step.
unfoldable pub get_lru_way : ℕ → CacheManagement → ℕ × CacheManagement
get_lru_way data_start c = elim (seek_data c.way_count 0 c.ways data_start) [
  | some way ↦ (way, set_way way (record (c.ways way) { lru_count = 0; in_use = true }) c)
  | none ↦ claim_chosen (seek_lru c.way_count 0 c.ways 0 none) c
]

-- The end of the part of a component that starts at an address, and where the next one starts; the
-- words are those of a 64-bit machine.
abbrev pub part_end : ℕ → ℕ → ℕ → ℕ
part_end way_size osc_start osc_end =
    let preload_end = (osc_start + (way_size + 2 ^ 64 - 4) % 2 ^ 64) % 2 ^ 64 in
    if ltb osc_end preload_end then osc_end else preload_end

abbrev pub next_part : ℕ → ℕ → ℕ
next_part preload_end osc_end =
    let osc_start = (preload_end + 4) % 2 ^ 64 in
    if ltb osc_end osc_start then osc_end else osc_start

abbrev pub text_part : ℕ → ℕ → ℕ
text_part text_end preload_end = if leb text_end preload_end then text_end else preload_end

-- One round of the loop in `preloadSingleOSC` once it has its way; `skip` is skipPreload.
unfoldable pub load_part : ℕ → Osc → ℕ → ℕ → Bool → CacheManagement → CacheManagement
load_part way_size o osc_start way skip c =
    let preload_end = part_end way_size osc_start o.end in
    let w = c.ways way in
    let filled : CacheWay = record w {
      data_start = osc_start;
      data_end = preload_end;
      osc = o.address;
    } in
    let fetch = prefetch_data_to_way osc_start preload_end (text_part o.text_end preload_end) way in
    record c {
      calls = if skip then c.calls else c.calls ++ fetch ∷ [];
      ways = update c.ways way filled;
    }

-- The loop; `none` is a lack of fuel, or the endless loop when there is no way.
unfoldable pub preload_parts : ℕ → ℕ → Osc → ℕ → Bool → CacheManagement → Option CacheManagement
preload_parts zero way_size o osc_start skip c = none
preload_parts (suc fuel) way_size o osc_start skip c =
    let got = get_lru_way osc_start c in
    let skip' = if (got.1.ways got.0).data_start == osc_start then true else skip in
    let rest =
      preload_parts fuel way_size o (next_part (part_end way_size osc_start o.end) o.end) skip'
        (load_part way_size o osc_start got.0 skip' got.1) in
    if ltb osc_start o.end then (if got.0 == max_cache_ways then none else rest) else some c

unfoldable pub preload_single_osc : ℕ → ℕ → Osc → CacheManagement → Option CacheManagement
preload_single_osc fuel way_size o c = preload_parts fuel way_size o o.start false c

-- `preloadOSC`: the component and then its dependencies.
unfoldable pub preload_osc : ℕ → ℕ → List Osc → CacheManagement → Option CacheManagement
preload_osc fuel way_size [] c = some c
preload_osc fuel way_size (o ∷ os) c = elim (preload_single_osc fuel way_size o c) [
  | none ↦ none
  | some c' ↦ preload_osc fuel way_size os c'
]

-- The way has a part of the component.
abbrev pub contains : Osc → CacheWay → Bool
contains o w = leb o.start w.data_start && (ltb w.data_start o.end && (o.address == w.osc))

-- The first loop of `lookupAndEvictOSC`.
unfoldable pub evict_data : ℕ → ℕ → Osc → CacheManagement → CacheManagement
evict_data zero way o c = c
evict_data (suc rest) way o c =
    let w = c.ways way in
    let evicted : CacheManagement = record c {
      calls = c.calls ++ evict_cache_way way w.data_start w.data_end ∷ [];
    } in
    let c' = if contains o w then evicted else c in evict_data rest (suc way) o c'

-- The second loop; `after_use` is CONFIG_CACHE_CONTROL_EVICT_AFTER_USE.
abbrev pub released : Bool → CacheWay → CacheWay
released after_use w = record w {
  data_start = if after_use then 0 else w.data_start;
  osc = if after_use then 0 else w.osc;
  in_use = false;
  lru_count = 0;
}

unfoldable pub free_way : Bool → ℕ → ℕ → CacheManagement → CacheManagement
free_way after_use cpu way c = record c {
  ways = update c.ways way (released after_use (c.ways way));
  eviction_count = if after_use then (c.eviction_count + 1) % 2 ^ 64 else c.eviction_count;
  last_eviction = update c.last_eviction cpu (c.ways way).data_start;
}

unfoldable pub free_ways : ℕ → ℕ → Bool → ℕ → Osc → CacheManagement → CacheManagement
free_ways zero way after_use cpu o c = c
free_ways (suc rest) way after_use cpu o c =
    let c' = if contains o (c.ways way) then free_way after_use cpu way c else c in
    free_ways rest (suc way) after_use cpu o c'

unfoldable pub lookup_and_evict : Bool → ℕ → Osc → CacheManagement → CacheManagement
lookup_and_evict after_use cpu o c =
    free_ways c.way_count 0 after_use cpu o (evict_data c.way_count 0 o c)

-- `evictOSC`: the component of the task and then its dependencies.
unfoldable pub evict_osc : Bool → ℕ → List Osc → CacheManagement → CacheManagement
evict_osc after_use cpu [] c = c
evict_osc after_use cpu (o ∷ os) c = evict_osc after_use cpu os (lookup_and_evict after_use cpu o c)

-- `preloadCriticalData`; `none` is a lack of fuel, or a way past the end of the array.
unfoldable pub preload_critical : ℕ → ℕ → ℕ → ℕ → ℕ → CacheManagement → Option CacheManagement
preload_critical zero way_size start end text_end c = none
preload_critical (suc fuel) way_size start end text_end c =
    let preload_end = part_end way_size start end in
    let way = c.critical_way_pointer in
    let locked : CacheWay = record (c.ways way) { permanent_locked = true } in
    let c' : CacheManagement = record c {
      calls =
          c.calls
          ++ prefetch_data_to_way start preload_end (text_part text_end preload_end) way ∷ [];
      ways = update c.ways way locked;
      critical_way_pointer = suc way;
    } in
    let rest = preload_critical fuel way_size (next_part preload_end end) end text_end c' in
    if ltb start end then (if ltb way max_cache_ways then rest else none) else some c
