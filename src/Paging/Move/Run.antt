-- ===== src/Paging/Move/Run.antt =====
-- cachemanagement/CacheColoring.cc: the moves of prefetchDataToWay and evictCacheWay, one after the
-- other, and what a program reads through the tables.
use cy_ph_os.Base.{
  ℕ, ◌+◌, ◌*◌, ◌<◌, ◌≡◌, ◌≢◌, ◌⊎◌, refl, sym, ◌∙◌, ap, List, [], ◌∷◌, ◌==◌, arith, inl, inr,
  Bool-cases, map, has, has_there, not_has_cons, true, false,
}
use cy_ph_os.Colouring.{Move}
use cy_ph_os.Paging.Mmu.{GenericMmu, IsPage}
use cy_ph_os.Paging.Move.{Space, load, move_virtual_page}
use cy_ph_os.Paging.Move.Copy.{translate_lem}
use cy_ph_os.Paging.Move.Moved.{Moved, move_virtual_page-Moved}

-- The calls of `moveVirtualPageToPhysicalAddress` in turn.
unfoldable pub run_moves : (mmu : GenericMmu) → ℕ → List Move → Space mmu → Space mmu
run_moves mmu dummy [] s = s
run_moves mmu dummy (m ∷ ms) s =
    run_moves mmu dummy ms (move_virtual_page mmu dummy m.page m.target m.cached s)

abbrev pub pages : List Move → List ℕ
pages ms = map (λ m. m.page) ms

-- No move has the target.
abbrev pub Avoids : ℕ → List Move → Type 0
Avoids a [] = Unit
Avoids a (m ∷ ms) = (a ≢ m.target) × Avoids a ms

abbrev pub AllMoves : (ℕ → ℕ → Type 0) → List Move → Type 0
AllMoves R [] = Unit
AllMoves R (m ∷ ms) = R m.page m.target × AllMoves R ms

pub has_first : (w page : ℕ) (rest : List ℕ) → w ≡ page → has w (page ∷ rest) ≡ true
has_first w page rest e = ground arith

-- The pages of a program, none of which is the dummy page.
module _ (mmu : GenericMmu) (dummy : ℕ) (Used : ℕ → Type 0) where
  -- The tables are ready, the dummy page is mapped to itself and every page has a place.
  abbrev pub IsGood : Space mmu → Type 0
  IsGood s =
      mmu.Ready s.tables
      × (mmu.physical s.tables dummy ≡ dummy)
      × ((w : ℕ) → Used w → IsPage (mmu.physical s.tables w))

  -- The targets are pages that no other page of the program has, and differ from one another.
  abbrev pub Fresh : Space mmu → List Move → Type 0
  Fresh s [] = Unit
  Fresh s (m ∷ ms) =
      Used m.page
      × IsPage m.target
      × ((w : ℕ) → Used w → w ≢ m.page → mmu.physical s.tables w ≢ m.target)
      × Avoids m.target ms
      × Fresh s ms

  -- Every word of the program is read as before.
  abbrev pub SameWords : Space mmu → Space mmu → Type 0
  SameWords s s' =
      (w : ℕ) → Used w → (j : ℕ) → j < 512 → load mmu s' (w + 8 * j) ≡ load mmu s (w + 8 * j)

  module _ (is_dummy : IsPage dummy) (Used-IsPage : (w : ℕ) → Used w → IsPage w × (w ≢ dummy)) where
    load_lem :
        (s : Space mmu) (w j place : ℕ)
        → Used w
        → mmu.physical s.tables w ≡ place
        → j < 512
        → load mmu s (w + 8 * j) ≡ s.memory (place + 8 * j)
    load_lem s w j place used p lt = ap s.memory (
        translate_lem mmu s.tables w place (8 * j) (w + 8 * j) (Used-IsPage w used).0.0 p
          (omega arith) refl)

    move-Moved :
        (m : Move) (s : Space mmu)
        → IsGood s
        → Used m.page
        → IsPage m.target
        → Moved mmu m.page m.target s (move_virtual_page mmu dummy m.page m.target m.cached s)
    move-Moved m s good used is_target =
        let (is_page, ne) = Used-IsPage m.page used in
        move_virtual_page-Moved mmu m.page m.target dummy m.cached s good.0 is_page is_target
          (good.2 m.page used) is_dummy ne good.1

    -- Where a page is after a move.
    physical-Moved :
        (page target : ℕ) (s s' : Space mmu) (w : ℕ)
        → Moved mmu page target s s'
        → Used w
        → ((w ≡ page) × (mmu.physical s'.tables w ≡ target))
          ⊎ ((w ≢ page) × (mmu.physical s'.tables w ≡ mmu.physical s.tables w))
    physical-Moved page target s s' w moved used = elim (Bool-cases (w == page)) [
      | inl e ↦
          (let same : w ≡ page = ground arith in
            inl (same, ap (mmu.physical s'.tables) same ∙ moved.1))
      | inr e ↦ (let ne : w ≢ page = ground arith in inr (ne, moved.2 w (Used-IsPage w used).0 ne))
    ]

    IsGood-Moved :
        (m : Move) (s s' : Space mmu)
        → Moved mmu m.page m.target s s'
        → Used m.page
        → IsPage m.target
        → IsGood s
        → IsGood s'
    IsGood-Moved m s s' moved used is_target good = (
      moved.0,
      moved.2 dummy is_dummy (λ e. (Used-IsPage m.page used).1 (sym e)) ∙ good.1,
      λ w used_w. elim (physical-Moved m.page m.target s s' w moved used_w) [
        | inl here ↦ rw here.1 is_target
        | inr away ↦ rw away.1 (good.2 w used_w)
      ],
    )

    Fresh-Moved :
        (m : Move) (s s' : Space mmu) (ms : List Move)
        → Moved mmu m.page m.target s s'
        → Avoids m.target ms
        → Fresh s ms
        → Fresh s' ms
    Fresh-Moved m s s' [] moved apart fresh = tt
    Fresh-Moved m s s' (next ∷ ms) moved apart fresh = (
      fresh.0,
      fresh.1,
      λ w used ne e. elim (physical-Moved m.page m.target s s' w moved used) [
        | inl here ↦ apart.0 (sym here.1 ∙ e)
        | inr away ↦ fresh.2 w used ne (sym away.1 ∙ e)
      ],
      fresh.3,
      Fresh-Moved m s s' ms moved apart.1 fresh.4,
    )

    SameWords-Moved :
        (m : Move) (s s' : Space mmu)
        → Moved mmu m.page m.target s s'
        → IsGood s
        → Used m.page
        → IsPage m.target
        → ((w : ℕ) → Used w → w ≢ m.page → mmu.physical s.tables w ≢ m.target)
        → SameWords s s'
    SameWords-Moved m s s' moved good used_page is_target alone w used j lt =
        elim (physical-Moved m.page m.target s s' w moved used) [
          | inl here ↦
              load_lem s' w j m.target used here.1 lt
              ∙ moved.3 j lt
              ∙ ap (λ p. s.memory (mmu.physical s.tables p + 8 * j)) (sym here.0)
              ∙ sym (load_lem s w j _ used refl lt)
          | inr away ↦
              (let (aligned, below) = good.2 w used in
                let aligned' = is_target.0 in
                let ne = alone w used away.0 in
                load_lem s' w j _ used away.1 lt
                ∙ moved.4 (mmu.physical s.tables w + 8 * j) (λ i inside e. ne (omega arith))
                ∙ sym (load_lem s w j _ used refl lt))
        ]

    -- The moves of fresh targets leave the space good, and a program reads every word as before.
    pub run_moves-SameWords :
        (ms : List Move) (s : Space mmu)
        → IsGood s
        → Fresh s ms
        → IsGood (run_moves mmu dummy ms s) × SameWords s (run_moves mmu dummy ms s)
    unfolding run_moves
    run_moves-SameWords [] s good fresh = (good, λ w used j lt. refl)
    run_moves-SameWords (m ∷ ms) s good fresh =
        let s' = move_virtual_page mmu dummy m.page m.target m.cached s in
        let moved = move-Moved m s good fresh.0 fresh.1 in
        let good' = IsGood-Moved m s s' moved fresh.0 fresh.1 good in
        let (last, same) =
          run_moves-SameWords ms s' good' (Fresh-Moved m s s' ms moved fresh.3 fresh.4) in
        (
          last,
          λ w used j lt.
              same w used j lt
              ∙ SameWords-Moved m s s' moved good fresh.0 fresh.1 fresh.2 w used j lt,
        )

    -- A page of the program is where it was, or where one of its moves has sent it.
    pub physical-run_moves :
        (R : ℕ → ℕ → Type 0) (ms : List Move) (s : Space mmu) (w : ℕ)
        → AllMoves R ms
        → IsGood s
        → Fresh s ms
        → Used w
        → ((has w (pages ms) ≡ false)
            × (mmu.physical (run_moves mmu dummy ms s).tables w ≡ mmu.physical s.tables w))
          ⊎ ((has w (pages ms) ≡ true) × R w (mmu.physical (run_moves mmu dummy ms s).tables w))
    unfolding run_moves
    physical-run_moves R [] s w all good fresh used = inl (refl, refl)
    physical-run_moves R (m ∷ ms) s w all good fresh used =
        let s' = move_virtual_page mmu dummy m.page m.target m.cached s in
        let moved = move-Moved m s good fresh.0 fresh.1 in
        let good' = IsGood-Moved m s s' moved fresh.0 fresh.1 good in
        let fresh' = Fresh-Moved m s s' ms moved fresh.3 fresh.4 in
        elim (physical-run_moves R ms s' w all.1 good' fresh' used) [
          | inr later ↦ inr (has_there w m.page (pages ms) later.0, later.1)
          | inl stays ↦ elim (physical-Moved m.page m.target s s' w moved used) [
            | inl here ↦
                inr (has_first w m.page (pages ms) here.0, rw (stays.1, here.1, here.0) all.0)
            | inr away ↦ inl (not_has_cons w m.page (pages ms) away.0 stays.0, stays.1 ∙ away.1)
          ]
        ]
