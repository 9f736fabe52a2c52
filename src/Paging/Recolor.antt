-- ===== src/Paging/Recolor.antt =====
-- cachemanagement/CacheColoring.cc with driver/GenericMMU.cc: the moves that a part of a component
-- makes, page by page, with pages of 4096 bytes and two pages per colour, as on both ports.

pub mod Places
pub mod Transparent
use cy_ph_os.Base.{
  ℕ, zero, suc, ◌+◌, ◌*◌, ◌/◌, ◌%◌, ◌≤◌, ◌<◌, ◌≡◌, refl, sym, ◌∙◌, ap, some, List, [], ◌∷◌, ltb,
  arith, inl, inr, Bool-cases, ltb→lt, true, false,
}
use cy_ph_os.Colouring.{Move, Colors, color_count, next_offset, color_moves, evict_moves}
use cy_ph_os.Colouring.Slots.{slot, slot-way}
use cy_ph_os.Colouring.Pages.{next_offset-slot, target_of}

-- Where the `i`-th page of a part goes.
abbrev pub color_page : Colors → ℕ → ℕ → ℕ
color_page c way i = c.colors_start + 4096 * slot (color_count c) way i

-- The moves of the pages from the `i`-th on, to places that `place` gives, up to `end`.
abbrev pub Follows : (ℕ → ℕ) → ℕ → ℕ → ℕ → List Move → Type 0
Follows place start end i [] = end ≤ start + 4096 * i
Follows place start end i (m ∷ ms) =
    (start + 4096 * i < end)
    × (m.page ≡ start + 4096 * i)
    × (m.target ≡ place i)
    × Follows place start end (suc i) ms

-- The loop of `prefetchDataToWay` ends and moves every page to its colour.
pub color_moves-Follows :
    (fuel : ℕ) (c : Colors) (way start end i page offset : ℕ)
    → c.page_size ≡ 4096
    → c.pages_per_color ≡ 2
    → page ≡ start + 4096 * i
    → end < page + fuel
    → 0 < fuel
    → offset ≡ c.page_size * slot (color_count c) 0 i
    → (ms : List Move) × (color_moves fuel c way page end i offset ≡ some ms)
      × Follows (color_page c way) start end i ms
unfolding color_moves
color_moves-Follows zero c way start end i page offset size two at enough more e =
    absurd (omega arith)
color_moves-Follows (suc fuel) c way start end i page offset size two at enough more e =
    elim (Bool-cases (ltb page end)) [
      | inr t ↦ ([], rw t refl, ground arith)
      | inl t ↦
          let lt = ltb→lt page end t in
          let (ms, run, follows) =
            color_moves-Follows fuel c way start end (suc i) (page + c.page_size)
              (next_offset c (suc i) offset) size two (omega arith) (omega arith) (omega arith)
              (next_offset-slot c i offset two e) in
          let first : Move = record {
            page = page;
            target = c.colors_start + (way * c.page_size * c.pages_per_color + offset);
            cached = true;
          } in
          (
            first ∷ ms,
            rw (t, run) refl,
            (
              omega arith,
              at,
              target_of c.page_size c.pages_per_color c.colors_start way (slot (color_count c) 0 i)
                    (slot (color_count c) way i) offset two e (slot-way (color_count c) way i)
                  ∙ ap (λ p. c.colors_start + p * slot (color_count c) way i) size,
              follows,
            ),
          )
    ]

-- The loop of `evictCacheWay` ends and moves every page to its own address.
pub evict_moves-Follows :
    (fuel : ℕ) (c : Colors) (start end i page : ℕ)
    → c.page_size ≡ 4096
    → page ≡ start + 4096 * i
    → end < page + fuel
    → 0 < fuel
    → (ms : List Move) × (evict_moves fuel c page end ≡ some ms)
      × Follows (λ j. start + 4096 * j) start end i ms
unfolding evict_moves
evict_moves-Follows zero c start end i page size at enough more = absurd (omega arith)
evict_moves-Follows (suc fuel) c start end i page size at enough more =
    elim (Bool-cases (ltb page end)) [
      | inr t ↦ ([], rw t refl, ground arith)
      | inl t ↦
          let lt = ltb→lt page end t in
          let (ms, run, follows) =
            evict_moves-Follows fuel c start end (suc i) (page + c.page_size) size (omega arith)
              (omega arith) (omega arith) in
          let first : Move = record { page = page; target = page; cached = false } in
          (first ∷ ms, rw (t, run) refl, (omega arith, at, at, follows))
    ]
