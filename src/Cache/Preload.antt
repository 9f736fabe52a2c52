-- ===== src/Cache/Preload.antt =====
-- What it is for the parts of a component to be loaded: each has a way, and was prefetched into it.
pub mod Round
pub mod Loop
use cy_ph_os.Base.{
  ℕ, zero, suc, ◌+◌, ◌-◌, ◌*◌, ◌%◌, ◌^◌, ◌≤◌, ◌<◌, ◌≡◌, ◌≢◌, refl, sym, ap, ◌∙◌, ◌⊎◌, inl, inr,
  Bool, true, false, Option, none, some, List, [], ◌∷◌, ◌++◌, ◌==◌, ltb, if◌then◌else◌, arith,
  Bool-cases, update_at, update_ne, ltb→lt, ==_refl, eq_of_test, ne_of_test, test_of_ne,
}
use cy_ph_os.Cache.{
  CacheWay, CacheManagement, Call, prefetch_data_to_way, Osc, get_lru_way, load_part, preload_parts,
  preload_single_osc, part_end, next_part, text_part, max_cache_ways,
}
use cy_ph_os.Cache.Ways.{Granted, Denied}

-- The way `way` is in use for the data from `d` to `e` of the component `a`.
pub record Holds (c : CacheManagement) (way d e a : ℕ) : Type 0 where
  pub bound : way < c.way_count
  pub start : (c.ways way).data_start ≡ d
  pub end : (c.ways way).data_end ≡ e
  pub osc : (c.ways way).osc ≡ a
  pub in_use : (c.ways way).in_use ≡ true

-- The call was made.
abbrev pub Called : Call → CacheManagement → Type 0
Called call c = (earlier later : List Call) × (c.calls ≡ earlier ++ call ∷ later)

-- Where the part that starts at an address ends.
abbrev pub last : ℕ → ℕ → ℕ → ℕ
last way_size end d = if ltb end (d + (way_size - 4)) then end else d + (way_size - 4)

abbrev pub following : ℕ → Osc → ℕ → ℕ
following way_size o s = next_part (part_end way_size s o.end) o.end

abbrev pub now_skips : ℕ → CacheManagement → Bool → Bool
now_skips s c skip =
    if ((get_lru_way s c).1.ways (get_lru_way s c).0).data_start == s then true else skip

-- The loop, at the part `s`, comes to a part for which there is no way.
pub data Stuck (way_size : ℕ) (o : Osc) : ℕ → Bool → CacheManagement → Type 0 where
  denied :
      (s : ℕ) (skip : Bool) (c : CacheManagement)
      → s < o.end
      → Denied s c (get_lru_way s c).0
      → Stuck way_size o s skip c
  after_part :
      (s : ℕ) (skip : Bool) (c : CacheManagement)
      → s < o.end
      → Granted s c (get_lru_way s c).0 (get_lru_way s c).1
      → Stuck way_size o
          (following way_size o s)
          (now_skips s c skip)
          (load_part way_size o s (get_lru_way s c).0 (now_skips s c skip) (get_lru_way s c).1)
      → Stuck way_size o s skip c

module _ (way_size : ℕ) (o : Osc) where
  -- No part was skipped so far, and no way has data of a part from `s` on.
  pub record AllNew (s : ℕ) (skip : Bool) (c : CacheManagement) : Type 0 where
    pub fetching : skip ≡ false
    pub present : 0 < s
    pub fresh :
        (j k : ℕ)
        → j < c.way_count
        → s + way_size * k < o.end
        → (c.ways j).data_start ≢ s + way_size * k

  -- The part that starts at `p` has a way, and it was prefetched into that way if it was new.
  abbrev pub PartLoaded : Type 0 → ℕ → CacheManagement → Type 0
  PartLoaded New p c =
      (way : ℕ) × Holds c way p (last way_size o.end p) o.address
      × (New
          → Called
              (prefetch_data_to_way p (last way_size o.end p)
                (text_part o.text_end (last way_size o.end p)) way)
              c)

  -- The loop returned: every part from `s` on is loaded, the parts start `way_size` bytes apart, and
  -- the ways of data before `s` still have it.
  abbrev pub Loaded : ℕ → Bool → CacheManagement → Option CacheManagement → Type 0
  Loaded s skip c none = ⊥
  Loaded s skip c (some c') =
      ((k : ℕ) → s + way_size * k < o.end → PartLoaded (AllNew s skip c) (s + way_size * k) c')
      × ((way p e a : ℕ) → p < s → Holds c way p e a → Holds c' way p e a)
      × ((call : Call) → Called call c → Called call c')
      × (c'.way_count ≡ c.way_count)
