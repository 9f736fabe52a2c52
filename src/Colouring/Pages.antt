-- ===== src/Colouring/Pages.antt =====
-- Where the pages of a way go, with the two pages per colour that both ports have.
use native.Mathlib.Nat.{add-zero}
use mathlib.Core.Option.{some-injective}
use cy_ph_os.Base.{
  ℕ, zero, suc, ◌+◌, ◌*◌, ◌/◌, ◌%◌, ◌<◌, ◌≡◌, refl, sym, ap, ◌∙◌, true, some, List, [], ◌∷◌, ◌==◌,
  ltb, arith, Bool-cases, inl, inr, get_elem?, length, ltb→lt,
}
use cy_ph_os.Colouring.{Move, Colors, color_count, next_offset, color_moves, prefetch_moves}
use cy_ph_os.Colouring.Slots.{slot, slot-zero, slot-suc, slot-way, slot-injective, cancel}

-- The `j`-th page of a way, of the pages from `page` on.
abbrev pub move_of : Colors → ℕ → ℕ → ℕ → Move
move_of c way page j = record {
  page = page + j * c.page_size;
  target = c.colors_start + c.page_size * slot (color_count c) way j;
  cached = true;
}

-- The moves `i` pages on are those of the pages from there.
abbrev From : Colors → ℕ → ℕ → ℕ → List Move → Type 0
From c way page i ms = (j : ℕ) → j < length ms → get_elem? ms j ≡ some (move_of c way page (i + j))

From-next :
    (c : Colors) (way page i : ℕ) (ms : List Move)
    → From c way page (suc i) ms
    → From c way page i (move_of c way page i ∷ ms)
From-next c way page i ms from zero lt = rw (add-zero i) refl
From-next c way page i ms from (suc j) lt =
    let same : i + suc j ≡ suc i + j = omega arith in rw same (from j (omega arith))

over_stride :
    (p ppc colors s s' offset : ℕ)
    → ppc ≡ 2
    → offset ≡ p * s
    → s' ≡ s + 2 * colors
    → offset + p * ppc * colors ≡ p * s'
over_stride p ppc colors s s' offset two e e' = rw (two, e, e') (grind arith)

over_page : (p s s' offset : ℕ) → offset ≡ p * s → s' ≡ s + 1 → offset + p ≡ p * s'
over_page p s s' offset e e' = rw (e, e') (grind arith)

pub target_of :
    (p ppc start way s s' offset : ℕ)
    → ppc ≡ 2
    → offset ≡ p * s
    → s' ≡ 2 * way + s
    → start + (way * p * ppc + offset) ≡ start + p * s'
target_of p ppc start way s s' offset two e e' = rw (two, e, e') (grind arith)

pub next_offset-slot :
    (c : Colors) (i offset : ℕ)
    → c.pages_per_color ≡ 2
    → offset ≡ c.page_size * slot (color_count c) 0 i
    → next_offset c (suc i) offset ≡ c.page_size * slot (color_count c) 0 (suc i)
unfolding next_offset
next_offset-slot c i offset two e =
    let next = slot-suc (color_count c) i in
    let old = slot (color_count c) 0 i in
    let new = slot (color_count c) 0 (suc i) in
    let parity : (suc i % c.pages_per_color == 0) ≡ (suc i % 2 == 0) =
      ap (λ n. suc i % n == 0) two in
    elim (Bool-cases (suc i % 2 == 0)) [
      | inl t ↦ rw (parity ∙ t) (
          over_stride c.page_size c.pages_per_color (color_count c) old new offset two e
            (next ∙ rw t refl))
      | inr t ↦ rw (parity ∙ t) (over_page c.page_size old new offset e (next ∙ rw t refl))
    ]

-- The loop ends, and its moves are those of the pages in turn.
color_moves-From :
    (fuel : ℕ) (c : Colors) (way page i end offset : ℕ)
    → c.pages_per_color ≡ 2
    → 0 < c.page_size
    → end < page + i * c.page_size + fuel
    → 0 < fuel
    → offset ≡ c.page_size * slot (color_count c) 0 i
    → (ms : List Move) × (color_moves fuel c way (page + i * c.page_size) end i offset ≡ some ms)
      × From c way page i ms
unfolding color_moves
color_moves-From zero c way page i end offset two pos enough more e = absurd (omega arith)
color_moves-From (suc fuel) c way page i end offset two pos enough more e =
    elim (Bool-cases (ltb (page + i * c.page_size) end)) [
      | inr t ↦ ([], rw t refl, λ j lt. absurd (omega arith))
      | inl t ↦
          let lt = ltb→lt (page + i * c.page_size) end t in
          let next : page + suc i * c.page_size ≡ page + i * c.page_size + c.page_size =
            grind arith in
          let (ms, run, from) =
            color_moves-From fuel c way page (suc i) end (next_offset c (suc i) offset) two pos
              (omega arith) (omega arith) (next_offset-slot c i offset two e) in
          let at =
            target_of c.page_size c.pages_per_color c.colors_start way (slot (color_count c) 0 i)
              (slot (color_count c) way i) offset two e (slot-way (color_count c) way i) in
          (move_of c way page i ∷ ms, rw (t, ← next, run, at) refl, From-next c way page i ms from)
    ]

times_zero : (p : ℕ) → p * 0 ≡ 0
times_zero p = grind arith

prefetch-From :
    (fuel : ℕ) (c : Colors) (start end way : ℕ)
    → c.pages_per_color ≡ 2
    → 0 < c.page_size
    → end < fuel
    → (ms : List Move) × (prefetch_moves fuel c start end way ≡ some ms)
      × From c way (start / c.page_size * c.page_size) 0 ms
unfolding prefetch_moves
prefetch-From fuel c start end way two pos enough =
    let page = start / c.page_size * c.page_size in
    let first : page + 0 * c.page_size ≡ page = grind arith in
    let begin : 0 ≡ c.page_size * slot (color_count c) 0 0 =
      sym (ap (λ n. c.page_size * n) (slot-zero (color_count c)) ∙ times_zero c.page_size) in
    let (ms, run, from) =
      color_moves-From fuel c way page 0 end 0 two pos (omega arith) (omega arith) begin in
    (ms, ap (λ p. color_moves fuel c way p end 0 0) (sym first) ∙ run, from)

same_factor : (p a b : ℕ) → 0 < p → p * a ≡ p * b → a ≡ b
same_factor p a b pos e = grind arith

same_target :
    (c : Colors) (way page i way' page' i' : ℕ)
    → 0 < c.page_size
    → way < color_count c
    → way' < color_count c
    → (move_of c way page i).target ≡ (move_of c way' page' i').target
    → (way ≡ way') × (i ≡ i')
same_target c way page i way' page' i' pos h h' e =
    let slots =
      same_factor c.page_size (slot (color_count c) way i) (slot (color_count c) way' i') pos
        (cancel c.colors_start _ _ e) in
    slot-injective (color_count c) way i way' i' h h' slots

place :
    (c : Colors) (way page i : ℕ) (m : Move) (ms : List Move)
    → From c way page 0 ms
    → i < length ms
    → get_elem? ms i ≡ some m
    → (move_of c way page i).target ≡ m.target
place c way page i m ms from lt at =
    let zero_add : 0 + i ≡ i = omega arith in
    ap (λ t. t.target)
      (some-injective (move_of c way page i) m
        (ap (λ n. some (move_of c way page n)) (sym zero_add) ∙ sym (from i lt) ∙ at))

-- With two pages per colour, pages that are not empty, and more fuel than the addresses of the
-- ends, `prefetchDataToWay` of two ways below the number of colours returns, and two of the pages
-- that it moves have the same target only if they are the same page of the same way: no two ways
-- share a physical page.
pub prefetch_moves-apart :
    (fuel : ℕ) (c : Colors) (start end way start' end' way' : ℕ)
    → c.pages_per_color ≡ 2
    → 0 < c.page_size
    → end < fuel
    → end' < fuel
    → way < color_count c
    → way' < color_count c
    → (ms : List Move) × (ms' : List Move) × (prefetch_moves fuel c start end way ≡ some ms)
      × (prefetch_moves fuel c start' end' way' ≡ some ms')
      × ((i i' : ℕ) (m m' : Move)
          → i < length ms
          → i' < length ms'
          → get_elem? ms i ≡ some m
          → get_elem? ms' i' ≡ some m'
          → m.target ≡ m'.target
          → (way ≡ way') × (i ≡ i'))
prefetch_moves-apart fuel c start end way start' end' way' two pos enough enough' h h' =
    let (ms, run, from) = prefetch-From fuel c start end way two pos enough in
    let (ms', run', from') = prefetch-From fuel c start' end' way' two pos enough' in
    (
      ms,
      ms',
      run,
      run',
      λ i i' m m' lt lt' at at' e.
          same_target c way (start / c.page_size * c.page_size) i way'
            (start' / c.page_size * c.page_size) i' pos h h'
            (place c way (start / c.page_size * c.page_size) i m ms from lt at
              ∙ e
              ∙ sym (place c way' (start' / c.page_size * c.page_size) i' m' ms' from' lt' at')),
    )
