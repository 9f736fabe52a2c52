-- ===== src/Paging/X86/Range.antt =====
-- `setRangeCacheable` of the x86 port, against a description of its result page by page.
use cy_ph_os.Base.{
  ℕ, zero, suc, ◌+◌, ◌*◌, ◌%◌, ◌^◌, ◌<◌, ◌≤◌, ◌≡◌, ◌≢◌, refl, sym, ◌∙◌, ap, Bool, true, false, not,
  ◌&&◌, ◌||◌, some, arith, if◌then◌else◌, ltb, leb, ◌==◌, Bool-cases, inl, inr, ltb→lt,
}
use cy_ph_os.Paging.{Memory, field, with_field, flag}
use cy_ph_os.Paging.Mmu.{IsPage}
use cy_ph_os.Paging.X86.{
  with_caching, get_pte_entry_from_address, get_physical_address_for_virtual, set_range_cacheable,
}
use cy_ph_os.Paging.X86.Walk.{IsPlaced, IsLinked, walk-entry_of, entry_of}
use cy_ph_os.Paging.X86.Entry.{changed, changed_at, changed_other, changed-IsLinked, physical_lem}

-- The entry of a page after the attribute of the pages from `start` up to `end`, and of the first in
-- any case, is set.
abbrev pub entry_in_range : ℕ → ℕ → Bool → ℕ → ℕ → ℕ
entry_in_range start end cacheable w entry =
    if w == start || (leb start w && ltb w end) then with_caching cacheable entry else entry

abbrev pub InRange : ℕ → Memory → ℕ → ℕ → Bool → Memory → Type 0
InRange base m start end cacheable m' =
    IsLinked base m'
    × ((w : ℕ)
        → IsPage w
        → m' (entry_of base w) ≡ entry_in_range start end cacheable w (m (entry_of base w)))

-- One page and the pages after it.
step_in_range :
    (start end w : ℕ) (cacheable : Bool) (old here now : ℕ)
    → start % 4096 ≡ 0
    → w % 4096 ≡ 0
    → (w ≡ start → here ≡ with_caching cacheable old)
    → (w ≢ start → here ≡ old)
    → start + 4096 < end
    → now ≡ entry_in_range (start + 4096) end cacheable w here
    → now ≡ entry_in_range start end cacheable w old
step_in_range start end w cacheable old here now aligned aligned' at other lt e =
    elim (Bool-cases (w == start)) [
      | inl t ↦
          let same : w ≡ start = ground arith in
          let out : (w == start + 4096 || (leb (start + 4096) w && ltb w end)) ≡ false =
            ground arith in
          let in_range : (w == start || (leb start w && ltb w end)) ≡ true = ground arith in
          e ∙ rw (out, in_range) (at same)
      | inr t ↦
          let ne : w ≢ start = ground arith in
          let same : (w == start + 4096 || (leb (start + 4096) w && ltb w end))
              ≡ (w == start || (leb start w && ltb w end)) =
            elim (Bool-cases (ltb w start)) [
              | inl less ↦ ground arith
              | inr more ↦
                  let least : start ≤ w = ground arith in
                  let far : start + 4096 ≤ w = omega (arith, ne) in ground arith
            ] in
          e ∙ rw (same, other ne) refl
    ]

-- The last page that is changed.
last_in_range :
    (start end w : ℕ) (cacheable : Bool) (old now : ℕ)
    → ltb (start + 4096) end ≡ false
    → start % 4096 ≡ 0
    → w % 4096 ≡ 0
    → (w ≡ start → now ≡ with_caching cacheable old)
    → (w ≢ start → now ≡ old)
    → now ≡ entry_in_range start end cacheable w old
last_in_range start end w cacheable old now t aligned aligned' at other =
    elim (Bool-cases (w == start)) [
      | inl e ↦
          let same : w ≡ start = ground arith in
          let in_range : (w == start || (leb start w && ltb w end)) ≡ true = ground arith in
          rw in_range (at same)
      | inr e ↦
          let ne : w ≢ start = ground arith in
          let out : (w == start || (leb start w && ltb w end)) ≡ false =
            elim (Bool-cases (ltb w start)) [
              | inl less ↦ ground arith
              | inr more ↦
                  let least : start ≤ w = ground arith in
                  let far : start + 4096 ≤ w = omega (arith, ne) in ground arith
            ] in
          rw out (other ne)
    ]

range-InRange :
    (fuel base : ℕ) (m : Memory) (start end : ℕ) (cacheable : Bool)
    → IsPlaced base
    → IsLinked base m
    → start % 4096 ≡ 0
    → start < 2 ^ 32
    → end ≤ 2 ^ 32
    → end < start + fuel
    → 0 < fuel
    → (m' : Memory) × (set_range_cacheable fuel base m start end cacheable ≡ some m')
      × InRange base m start end cacheable m'
unfolding set_range_cacheable
range-InRange zero base m start end cacheable placed linked aligned below fits enough more =
    absurd (omega arith)
range-InRange (suc fuel) base m start end cacheable placed linked aligned below fits enough more =
    let v = with_caching cacheable (m (get_pte_entry_from_address base m start)) in
    let linked' = changed-IsLinked base m start placed linked below v in
    let value : v ≡ with_caching cacheable (m (entry_of base start)) =
      ap (λ a. with_caching cacheable (m a)) (walk-entry_of base m start placed linked below) in
    let at = changed_at base m start placed linked below v in
    let other = changed_other base m start placed linked below v in
    elim (Bool-cases (ltb (start + 4096) end)) [
      | inr t ↦
          let next : (start + 4096) % 2 ^ 64 ≡ start + 4096 = omega arith in
          (
            changed base m start placed linked below v,
            rw (next, t) refl,
            (
              linked',
              λ w is_page.
                  last_in_range start end w cacheable (m (entry_of base w)) _ t aligned is_page.0
                    (λ same. rw same (at ∙ value))
                    (λ ne. other (entry_of base w) (λ e. ne (omega (arith, is_page.0)))),
            ),
          )
      | inl t ↦
          let lt = ltb→lt (start + 4096) end t in
          let (m', run, (last, entries)) =
            range-InRange fuel base (changed base m start placed linked below v) (start + 4096) end
              cacheable placed linked' (omega arith) (omega arith) fits (omega arith)
              (omega arith) in
          let next : (start + 4096) % 2 ^ 64 ≡ start + 4096 = omega arith in
          (
            m',
            rw (next, t) run,
            (
              last,
              λ w is_page.
                  step_in_range start end w cacheable (m (entry_of base w)) _ (m' (entry_of base w))
                    aligned is_page.0 (λ same. rw same (at ∙ value))
                    (λ ne. other (entry_of base w) (λ e. ne (omega (arith, is_page.0)))) lt
                    (entries w is_page),
            ),
          )
    ]

caching_bits : (x e : ℕ) → field 12 40 (with_field 4 1 x (with_field 3 1 x e)) ≡ field 12 40 e
caching_bits x e = omega arith

field-with_caching :
    (cacheable : Bool) (e : ℕ) → field 12 40 (with_caching cacheable e) ≡ field 12 40 e
field-with_caching cacheable e = caching_bits (flag (not cacheable)) e

-- For tables that are linked, a first page and an end in the 32-bit address space, and more fuel than
-- the address of the end, `setRangeCacheable` returns. The entries of the pages of the range, and of
-- the first page even if the range is empty, have the attribute and all else as before, those of the
-- other pages are unchanged; the tables stay linked, and no page is mapped anew.
pub range_cacheable-InRange :
    (fuel base : ℕ) (m : Memory) (start end : ℕ) (cacheable : Bool)
    → IsPlaced base
    → IsLinked base m
    → start % 4096 ≡ 0
    → start < 2 ^ 32
    → end ≤ 2 ^ 32
    → end < fuel
    → (m' : Memory) × (set_range_cacheable fuel base m start end cacheable ≡ some m')
      × InRange base m start end cacheable m'
      × ((w : ℕ)
          → IsPage w
          → get_physical_address_for_virtual base m' w ≡ get_physical_address_for_virtual base m w)
range_cacheable-InRange fuel base m start end cacheable placed linked aligned below fits enough =
    let (m', run, in_range) =
      range-InRange fuel base m start end cacheable placed linked aligned below fits (omega arith)
        (omega arith) in
    (
      m',
      run,
      in_range,
      λ w is_page.
          let inside = w == start || (leb start w && ltb w end) in
          let same : field 12 40 (m' (entry_of base w)) ≡ field 12 40 (m (entry_of base w)) =
            ap (field 12 40) (in_range.1 w is_page) ∙ elim (Bool-cases inside) [
              | inl t ↦ rw t (field-with_caching cacheable (m (entry_of base w)))
              | inr t ↦ rw t refl
            ] in
          physical_lem base m' w placed in_range.0 is_page.1
          ∙ ap (λ n. n * 2 ^ 12) same
          ∙ sym (physical_lem base m w placed linked is_page.1),
    )
