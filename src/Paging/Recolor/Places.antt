-- ===== src/Paging/Recolor/Places.antt =====
-- Where the pages of a part are after its moves: to its colour, and back.
use mathlib.Core.Bool.{true≢false}
use cy_ph_os.Base.{
  ℕ, suc, ◌+◌, ◌*◌, ◌≤◌, ◌<◌, ◌≡◌, ◌≢◌, ◌⊎◌, refl, sym, ◌∙◌, ap, List, [], ◌∷◌, arith, inl, inr,
  true, has, has_there, Bool-cases, ltb, ltb→lt,
}
use cy_ph_os.Colouring.{Move, Colors, color_count}
use cy_ph_os.Colouring.Slots.{slot-injective}
use cy_ph_os.Paging.Mmu.{GenericMmu, IsPage}
use cy_ph_os.Paging.Move.{Space}
use cy_ph_os.Paging.Move.Run.{
  run_moves, pages, Avoids, AllMoves, IsGood, Fresh, physical-run_moves, has_first,
}
use cy_ph_os.Paging.Recolor.{color_page, Follows}

-- The moves cover every page from the `i`-th on.
pub has_page :
    (place : ℕ → ℕ) (start end i j w : ℕ) (ms : List Move)
    → Follows place start end i ms
    → i ≤ j
    → w ≡ start + 4096 * j
    → w < end
    → has w (pages ms) ≡ true
has_page place start end i j w [] follows le e lt = absurd (omega arith)
has_page place start end i j w (m ∷ ms) follows le e lt = elim (Bool-cases (ltb i j)) [
  | inl more ↦
      has_there w m.page (pages ms)
        (has_page place start end (suc i) j w ms follows.3 (ltb→lt i j more) e lt)
  | inr same ↦ has_first w m.page (pages ms) (ground (arith, follows.1))
]

pub all_follow :
    (R : ℕ → ℕ → Type 0) (place : ℕ → ℕ) (start end i : ℕ) (ms : List Move)
    → ((j w p : ℕ) → start + 4096 * j < end → w ≡ start + 4096 * j → p ≡ place j → R w p)
    → Follows place start end i ms
    → AllMoves R ms
all_follow R place start end i [] h follows = tt
all_follow R place start end i (m ∷ ms) h follows = (
  h i m.page m.target follows.0 follows.1 follows.2,
  all_follow R place start end (suc i) ms h follows.3,
)

-- No later move has the place of an earlier page, if the places differ.
Avoids-earlier :
    (place : ℕ → ℕ) (start end i k a : ℕ) (ms : List Move)
    → ((j : ℕ) → place k ≡ place j → k ≡ j)
    → a ≡ place k
    → k < i
    → Follows place start end i ms
    → Avoids a ms
Avoids-earlier place start end i k a [] differ e lt follows = tt
Avoids-earlier place start end i k a (m ∷ ms) differ e lt follows = (
  λ same. let equal : k ≡ i = differ i (sym e ∙ same ∙ follows.2) in absurd (omega arith),
  Avoids-earlier place start end (suc i) k a ms differ e (omega arith) follows.3,
)

-- Moves to places that differ and that no page of the program has, but the one that moves there.
Follows-Fresh :
    (mmu : GenericMmu) (dummy : ℕ) (Used : ℕ → Type 0) (s : Space mmu) (place : ℕ → ℕ)
    (start end i : ℕ) (ms : List Move)
    → ((j k : ℕ) → place j ≡ place k → j ≡ k)
    → ((j : ℕ) → start + 4096 * j < end → Used (start + 4096 * j) × IsPage (place j))
    → ((j w : ℕ)
        → start + 4096 * j < end
        → Used w
        → w ≢ start + 4096 * j
        → mmu.physical s.tables w ≢ place j)
    → Follows place start end i ms
    → Fresh mmu dummy Used s ms
Follows-Fresh mmu dummy Used s place start end i [] differ part free follows = tt
Follows-Fresh mmu dummy Used s place start end i (m ∷ ms) differ part free follows = (
  rw follows.1 (part i follows.0).0,
  rw follows.2 (part i follows.0).1,
  λ w used ne e. free i w follows.0 used (λ same. ne (same ∙ sym follows.1)) (e ∙ follows.2),
  Avoids-earlier place start end (suc i) i m.target ms (differ i) follows.2 (omega arith) follows.3,
  Follows-Fresh mmu dummy Used s place start end (suc i) ms differ part free follows.3,
)

color_page-injective :
    (c : Colors) (way j k : ℕ)
    → way < color_count c
    → color_page c way j ≡ color_page c way k
    → j ≡ k
color_page-injective c way j k below e =
    (slot-injective (color_count c) way j way k below below (omega arith)).1

module _ (mmu : GenericMmu) (dummy : ℕ) (Used : ℕ → Type 0) (c : Colors) (way start end : ℕ)
    (s : Space mmu) where
  -- Every page of the program is in its place, or in the colours.
  abbrev pub InColors : Space mmu → Type 0
  InColors s' =
      (w : ℕ)
      → Used w
      → (mmu.physical s'.tables w ≡ w) ⊎ (c.colors_start ≤ mmu.physical s'.tables w)

  -- The pages of the part are in the colour of the way, one after the other.
  abbrev pub Colored : Space mmu → Type 0
  Colored s' =
      (j : ℕ)
      → start + 4096 * j < end
      → mmu.physical s'.tables (start + 4096 * j) ≡ color_page c way j

  module _ (is_dummy : IsPage dummy) (Used-IsPage : (w : ℕ) → Used w → IsPage w × (w ≢ dummy))
      (below : (w : ℕ) → Used w → w < c.colors_start)
      (part : (j : ℕ)
        → start + 4096 * j < end
        → Used (start + 4096 * j) × IsPage (color_page c way j))
      (exists_way : way < color_count c) where
    module _ (ms : List Move) (follows : Follows (color_page c way) start end 0 ms)
        (good : IsGood mmu dummy Used s)
        (identity : (w : ℕ) → Used w → mmu.physical s.tables w ≡ w) where
      pub prefetch-Fresh : Fresh mmu dummy Used s ms
      prefetch-Fresh =
          Follows-Fresh mmu dummy Used s (color_page c way) start end 0 ms
            (λ j k. color_page-injective c way j k exists_way) part
            (λ j w lt used ne e. absurd (omega (arith, identity w used, below w used, e))) follows

      pub prefetch-Colored : Colored (run_moves mmu dummy ms s)
      prefetch-Colored j lt =
          let w = start + 4096 * j in
          let place_of : ℕ → ℕ → Type 0 =
            λ w p. (k : ℕ) → w ≡ start + 4096 * k → p ≡ color_page c way k in
          elim (physical-run_moves mmu dummy Used is_dummy Used-IsPage place_of ms s w
            (all_follow place_of (color_page c way) start end 0 ms
              (λ i v p inside ev ep k ek.
                let same : i ≡ k = omega arith in ep ∙ ap (color_page c way) same)
              follows)
            good prefetch-Fresh (part j lt).0) [
              | inl stays ↦ absurd (
                  true≢false (
                    sym
                      (has_page (color_page c way) start end 0 j w ms follows (omega arith) refl lt)
                    ∙ stays.0))
              | inr moved ↦ moved.1 j refl
            ]

      pub prefetch-InColors : InColors (run_moves mmu dummy ms s)
      prefetch-InColors w used =
          elim (physical-run_moves mmu dummy Used is_dummy Used-IsPage (λ w p. c.colors_start ≤ p)
            ms s w
            (all_follow (λ w p. c.colors_start ≤ p) (color_page c way) start end 0 ms
              (λ i v p inside ev ep. omega arith) follows)
            good prefetch-Fresh used) [
              | inl stays ↦ inl (stays.1 ∙ identity w used)
              | inr moved ↦ inr moved.1
            ]

    module _ (ms : List Move) (follows : Follows (λ j. start + 4096 * j) start end 0 ms)
        (good : IsGood mmu dummy Used s) (in_colors : InColors s) where
      pub evict-Fresh : Fresh mmu dummy Used s ms
      evict-Fresh =
          Follows-Fresh mmu dummy Used s (λ j. start + 4096 * j) start end 0 ms
            (λ j k e. omega arith)
            (λ j lt. ((part j lt).0, (Used-IsPage (start + 4096 * j) (part j lt).0).0))
            (λ j w lt used ne e. elim (in_colors w used) [
              | inl home ↦ ne (sym home ∙ e)
              | inr away ↦ absurd (omega (arith, below (start + 4096 * j) (part j lt).0, away, e))
            ])
            follows

      -- A page comes back to its address, or was there.
      pub evict-identity :
          (w : ℕ)
          → Used w
          → (mmu.physical s.tables w ≡ w) ⊎ (has w (pages ms) ≡ true)
          → mmu.physical (run_moves mmu dummy ms s).tables w ≡ w
      evict-identity w used before =
          elim (physical-run_moves mmu dummy Used is_dummy Used-IsPage (λ w p. p ≡ w) ms s w
            (all_follow (λ w p. p ≡ w) (λ j. start + 4096 * j) start end 0 ms
              (λ i v p inside ev ep. omega arith) follows)
            good evict-Fresh used) [
              | inr moved ↦ moved.1
              | inl stays ↦ elim before [
                | inl home ↦ stays.1 ∙ home
                | inr listed ↦ absurd (true≢false (sym listed ∙ stays.0))
              ]
            ]
