-- ===== src/Cache/Ways.antt =====
-- `getLRUWay` as a whole.
use mathlib.Core.List.{append-nil}
use cy_ph_os.Base.{
  ℕ, ◌<◌, ◌≡◌, ◌≢◌, refl, sym, ap, ◌∙◌, ◌⊎◌, inl, inr, true, Option, none, some, ◌==◌,
  if◌then◌else◌, arith, Bool-cases, update, update_at, update_ne, List, [], ◌∷◌, ◌++◌,
}
use cy_ph_os.Cache.{
  CacheWay, CacheManagement, Call, evict_cache_way, seek_lru, max_cache_ways, claim_way,
  claim_chosen, get_lru_way, set_way,
}
use cy_ph_os.Cache.Choice.{Chosen, SameData, SameData-refl, seek_lru-Chosen_from, seek_data_lem}

-- What a way that is taken for new data costs: an eviction, when it has data.
unfoldable pub evictions : ℕ → CacheWay → List Call
evictions way w = if w.data_start == 0 then [] else evict_cache_way way w.data_start w.data_end ∷ []

-- A way that was granted for the data at `d`: it is in use, and the others keep their data.
pub record Granted (d : ℕ) (c : CacheManagement) (way : ℕ) (c' : CacheManagement) : Type 0 where
  pub bound : way < c.way_count
  pub in_use : (c'.ways way).in_use ≡ true
  pub others : (j : ℕ) → j ≢ way → SameData (c.ways j) (c'.ways j)
  pub count : c'.way_count ≡ c.way_count
  pub why :
      (((c.ways way).data_start ≡ d) × ((c'.ways way).data_start ≡ d) × (c'.calls ≡ c.calls))
      ⊎ (Chosen c.ways c.way_count (some way)
          × ((c'.ways way).data_start ≡ 0)
          × (c'.calls ≡ c.calls ++ evictions way (c.ways way)))

-- No way was granted: none has the data, and none is available.
pub record Denied (d : ℕ) (c : CacheManagement) (way : ℕ) : Type 0 where
  pub no_way : way ≡ max_cache_ways
  pub absent : (j : ℕ) → j < c.way_count → (c.ways j).data_start ≢ d
  pub unavailable : Chosen c.ways c.way_count none

present :
    (d : ℕ) (c : CacheManagement) (way : ℕ)
    → way < c.way_count
    → (c.ways way).data_start ≡ d
    → Granted d c way (set_way way (record (c.ways way) { lru_count = 0; in_use = true }) c)
present d c way lt e =
    let new : CacheWay = record (c.ways way) { lru_count = 0; in_use = true } in
    let at = update_at c.ways way new refl in
    record {
      bound = lt;
      in_use = ap (λ w. w.in_use) at;
      others = λ j ne. rw (update_ne c.ways way new ne) (SameData-refl (c.ways j));
      count = refl;
      why = inl (e, ap (λ w. w.data_start) at ∙ e, refl);
    }

evictions-SameData : (way : ℕ) (w v : CacheWay) → SameData w v → evictions way v ≡ evictions way w
unfolding evictions
evictions-SameData way w v h = rw (h.data_start, h.data_end) refl

-- The calls of `claimed`, and that the way is taken.
claim_way_lem :
    (way : ℕ) (c : CacheManagement)
    → (claim_way way c).calls ≡ c.calls ++ evictions way (c.ways way)
      × ((claim_way way c).ways
          ≡ update c.ways way
              (record (c.ways way) { lru_count = 0; data_start = 0; in_use = true }))
      × ((claim_way way c).way_count ≡ c.way_count)
unfolding claim_way evictions
claim_way_lem way c = elim (Bool-cases ((c.ways way).data_start == 0)) [
  | inl e ↦ rw e (sym (append-nil c.calls), refl, refl)
  | inr e ↦ rw e (refl, refl, refl)
]

claimed :
    (d : ℕ) (c : CacheManagement) (way : ℕ) (ways : ℕ → CacheWay)
    → Chosen c.ways c.way_count (some way)
    → ((j : ℕ) → SameData (c.ways j) (ways j))
    → Granted d c way (claim_way way (record c { ways = ways }))
claimed d c way ways ch same =
    let new : CacheWay = record (ways way) { lru_count = 0; data_start = 0; in_use = true } in
    let (calls, family, count) = claim_way_lem way (record c { ways = ways }) in
    let at = ap (λ f. f way) family ∙ update_at ways way new refl in
    record {
      bound = ch.0;
      in_use = ap (λ w. w.in_use) at;
      others = λ j ne. rw (family, update_ne ways way new ne) (same j);
      count = count;
      why = inr (
        ch,
        ap (λ w. w.data_start) at,
        calls ∙ ap (λ l. c.calls ++ l) (evictions-SameData way (c.ways way) (ways way) (same way)),
      );
    }

chosen :
    (d : ℕ) (c : CacheManagement) (ways : ℕ → CacheWay) (best : Option ℕ)
    → Chosen c.ways c.way_count best
    → ((j : ℕ) → SameData (c.ways j) (ways j))
    → ((j : ℕ) → j < c.way_count → (c.ways j).data_start ≢ d)
    → Granted d c (claim_chosen (ways, best) c).0 (claim_chosen (ways, best) c).1
      ⊎ Denied d c (claim_chosen (ways, best) c).0
unfolding claim_chosen
chosen d c ways none ch same out = inr (record { no_way = refl; absent = out; unavailable = ch })
chosen d c ways (some w) ch same out = inl (claimed d c w ways ch same)

-- `getLRUWay` grants a way below the way count, marks it in use, and keeps lock, use, component and
-- data of every other: either the way has the data already, or it was neither locked nor in use,
-- and was empty, or had the highest count of the available ways when none was empty, and exactly
-- its data is evicted. Otherwise it returns cMaxCacheWays, and then no way has the data and every
-- way is locked or in use.
pub get_lru_way-Granted :
    (d : ℕ) (c : CacheManagement)
    → Granted d c (get_lru_way d c).0 (get_lru_way d c).1 ⊎ Denied d c (get_lru_way d c).0
unfolding get_lru_way
get_lru_way-Granted d c = elim (seek_data_lem c.way_count 0 c.way_count c.ways d (omega arith)) [
  | inl (w, run, lt, at) ↦ rw (get_lru_way, run) (inl (present d c w lt at))
  | inr (run, out) ↦
      let (ch, same) = seek_lru-Chosen_from c.way_count c.ways in
      rw (get_lru_way, run)
        (chosen d c (seek_lru c.way_count 0 c.ways 0 none).0
          (seek_lru c.way_count 0 c.ways 0 none).1 ch same (λ j lt. out j (omega arith) lt))
]
