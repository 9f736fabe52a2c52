-- ===== src/Colouring.antt =====
-- cachemanagement/CacheColoring.cc: a way of the cache is a colour of physical pages, and a part of a
-- component is moved to the pages of its colour. The moves that the MMU is asked for are the result.
pub mod Slots
pub mod Pages
use cy_ph_os.Base.{
  ℕ, zero, suc, ◌+◌, ◌*◌, ◌/◌, ◌%◌, Bool, true, false, Option, none, some, List, [], ◌∷◌, ◌==◌, ltb,
  if◌then◌else◌,
}

-- A call of `moveVirtualPageToPhysicalAddress`.
pub record Move : Type 0 where
  pub page : ℕ
  pub target : ℕ
  pub cached : Bool

-- What the ports fix: the size of a page and of a way of the hardware's cache, the number of its ways,
-- the pages of a colour and where the colours start.
pub record Colors : Type 0 where
  pub page_size : ℕ
  pub pages_per_color : ℕ
  pub hw_way_size : ℕ
  pub hw_way_count : ℕ
  pub colors_start : ℕ

unfoldable pub color_count : Colors → ℕ
color_count c = c.hw_way_size / (c.page_size * c.pages_per_color)

unfoldable pub color_size : Colors → ℕ
color_size c = c.page_size * c.pages_per_color * c.hw_way_count

-- `pageOffset` after one more page, where `count` is colorOffset.
unfoldable pub next_offset : Colors → ℕ → ℕ → ℕ
next_offset c count offset =
    if count % c.pages_per_color == 0
    then offset + c.page_size * c.pages_per_color * color_count c
    else offset + c.page_size

-- The loop of `prefetchDataToWay`; `none` is a lack of fuel.
unfoldable pub color_moves : ℕ → Colors → ℕ → ℕ → ℕ → ℕ → ℕ → Option (List Move)
color_moves zero c way page end count offset = none
color_moves (suc fuel) c way page end count offset =
    let target = c.colors_start + (way * c.page_size * c.pages_per_color + offset) in
    let rest =
      color_moves fuel c way (page + c.page_size) end (suc count)
        (next_offset c (suc count) offset) in
    if ltb page end
    then elim rest [
      | none ↦ none
      | some moves ↦ some (record { page = page; target = target; cached = true } ∷ moves)
    ]
    else some []

-- `prefetchDataToWay`: from the start of the page that the data starts in; a page has 2^k bytes.
unfoldable pub prefetch_moves : ℕ → Colors → ℕ → ℕ → ℕ → Option (List Move)
prefetch_moves fuel c start end way =
    color_moves fuel c way (start / c.page_size * c.page_size) end 0 0

-- The loop of `evictCacheWay`: every page goes back to where it was.
unfoldable pub evict_moves : ℕ → Colors → ℕ → ℕ → Option (List Move)
evict_moves zero c page end = none
evict_moves (suc fuel) c page end =
    let rest = evict_moves fuel c (page + c.page_size) end in
    if ltb page end
    then elim rest [
      | none ↦ none
      | some moves ↦ some (record { page = page; target = page; cached = false } ∷ moves)
    ]
    else some []
