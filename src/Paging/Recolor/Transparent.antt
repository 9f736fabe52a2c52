-- ===== src/Paging/Recolor/Transparent.antt =====
-- Colouring and the MMU together: a part of a component goes to its colour and comes back, and the
-- program reads what it read before.
use native.Mathlib.Nat.{mul-zero}
use cy_ph_os.Base.{
  ℕ, ◌+◌, ◌*◌, ◌/◌, ◌%◌, ◌<◌, ◌≡◌, ◌≢◌, sym, ◌∙◌, ap, some, List, arith, inl, inr, true, has,
}
use cy_ph_os.Colouring.{Move, Colors, color_count, prefetch_moves, evict_moves, color_moves}
use cy_ph_os.Colouring.Slots.{slot, slot-zero}
use cy_ph_os.Paging.Mmu.{GenericMmu, IsPage}
use cy_ph_os.Paging.Move.{Space}
use cy_ph_os.Paging.Move.Run.{
  run_moves, pages, IsGood, SameWords, run_moves-SameWords, physical-run_moves,
}
use cy_ph_os.Paging.Recolor.{color_page, Follows, color_moves-Follows, evict_moves-Follows}
use cy_ph_os.Paging.Recolor.Places.{
  Colored, has_page, all_follow, prefetch-Fresh, prefetch-Colored, prefetch-InColors, evict-Fresh,
  evict-identity,
}

prefetch_moves-Follows :
    (fuel : ℕ) (c : Colors) (way start end : ℕ)
    → c.page_size ≡ 4096
    → c.pages_per_color ≡ 2
    → start % 4096 ≡ 0
    → end < fuel
    → (ms : List Move) × (prefetch_moves fuel c start end way ≡ some ms)
      × Follows (color_page c way) start end 0 ms
unfolding prefetch_moves
prefetch_moves-Follows fuel c way start end size two aligned enough =
    let down : start / c.page_size * c.page_size ≡ start =
      ap (λ p. start / p * p) size ∙ omega arith in
    let begin : 0 ≡ c.page_size * slot (color_count c) 0 0 =
      sym (ap (λ n. c.page_size * n) (slot-zero (color_count c)) ∙ mul-zero c.page_size) in
    let (ms, run, follows) =
      color_moves-Follows fuel c way start end 0 start 0 size two (omega arith) (omega arith)
        (omega arith) begin in
    (ms, ap (λ p. color_moves fuel c way p end 0 0) down ∙ run, follows)

-- For any port, with pages of 4096 bytes and two pages per colour: a program whose pages are mapped
-- to themselves below the colours, a part of it that starts at a page, a way below the number of
-- colours whose pages for the part lie in the address space, and more fuel than the address of the
-- end. Both `prefetchDataToWay` and the `evictCacheWay` after it return. After the first the `j`-th
-- page of the part is the `j`-th page of its colour, after the second every page of the program is
-- mapped to itself again, and after each of them the program reads the same words as before.
pub prefetch-evict_transparent :
    (mmu : GenericMmu) (dummy : ℕ) (Used : ℕ → Type 0) (fuel : ℕ) (c : Colors) (way start end : ℕ)
    (s : Space mmu)
    → c.page_size ≡ 4096
    → c.pages_per_color ≡ 2
    → start % 4096 ≡ 0
    → end < fuel
    → way < color_count c
    → IsPage dummy
    → ((w : ℕ) → Used w → IsPage w × (w ≢ dummy))
    → ((w : ℕ) → Used w → w < c.colors_start)
    → ((j : ℕ) → start + 4096 * j < end → Used (start + 4096 * j) × IsPage (color_page c way j))
    → IsGood mmu dummy Used s
    → ((w : ℕ) → Used w → mmu.physical s.tables w ≡ w)
    → (ms : List Move) × (es : List Move) × (prefetch_moves fuel c start end way ≡ some ms)
      × (evict_moves fuel c start end ≡ some es)
      × Colored mmu dummy Used c way start end s (run_moves mmu dummy ms s)
      × SameWords mmu dummy Used s (run_moves mmu dummy ms s)
      × SameWords mmu dummy Used s (run_moves mmu dummy es (run_moves mmu dummy ms s))
      × ((w : ℕ)
          → Used w
          → mmu.physical (run_moves mmu dummy es (run_moves mmu dummy ms s)).tables w ≡ w)
prefetch-evict_transparent mmu dummy Used fuel c way start end s size two aligned enough exists_way
      is_dummy Used-IsPage below part good identity =
    let (ms, run, follows) = prefetch_moves-Follows fuel c way start end size two aligned enough in
    let (es, run', follows') =
      evict_moves-Follows fuel c start end 0 start size (omega arith) (omega arith) (omega arith) in
    let s1 = run_moves mmu dummy ms s in
    let fresh =
      prefetch-Fresh mmu dummy Used c way start end s is_dummy Used-IsPage below part exists_way ms
        follows good identity in
    let colors =
      prefetch-InColors mmu dummy Used c way start end s is_dummy Used-IsPage below part exists_way
        ms follows good identity in
    let (good1, same) = run_moves-SameWords mmu dummy Used is_dummy Used-IsPage ms s good fresh in
    let fresh' =
      evict-Fresh mmu dummy Used c way start end s1 is_dummy Used-IsPage below part exists_way es
        follows' good1 colors in
    let (good2, same') =
      run_moves-SameWords mmu dummy Used is_dummy Used-IsPage es s1 good1 fresh' in
    let Listed : ℕ → ℕ → Type 0 = λ w p. has w (pages es) ≡ true in
    (
      ms,
      es,
      run,
      run',
      prefetch-Colored mmu dummy Used c way start end s is_dummy Used-IsPage below part exists_way
          ms follows good identity,
      same,
      λ w used j lt. same' w used j lt ∙ same w used j lt,
      λ w used.
          evict-identity mmu dummy Used c way start end s1 is_dummy Used-IsPage below part
            exists_way es follows' good1 colors w used
            (elim (physical-run_moves mmu dummy Used is_dummy Used-IsPage Listed ms s w
              (all_follow Listed (color_page c way) start end 0 ms
                (λ j v p inside ev ep.
                  has_page (λ k. start + 4096 * k) start end 0 j v es follows' (omega arith) ev
                    (omega arith))
                follows)
              good fresh used) [
                | inl stays ↦ inl (stays.1 ∙ identity w used)
                | inr moved ↦ inr moved.1
              ]),
    )
