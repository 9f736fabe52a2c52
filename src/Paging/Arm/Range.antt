-- ===== src/Paging/Arm/Range.antt =====
-- `setRangeCacheable` of the ARM port, against a description of its result page by page.
use cy_ph_os.Base.{
  ℕ, zero, suc, ◌+◌, ◌-◌, ◌*◌, ◌%◌, ◌^◌, ◌<◌, ◌≤◌, ◌≡◌, ◌≢◌, refl, sym, ◌∙◌, ap, Bool, true, false,
  ◌&&◌, some, arith, if◌then◌else◌, ltb, leb, ◌==◌, Bool-cases, inl, inr, ltb→lt,
}
use cy_ph_os.Paging.{Memory, field, with_field, flag}
use cy_ph_os.Paging.Mmu.{IsPage}
use cy_ph_os.Paging.Arm.{
  with_caching, get_second_level_entry, get_physical_address_for_virtual, set_range_cacheable,
}
use cy_ph_os.Paging.Arm.Walk.{IsPlaced, IsLinked, walk-entry_of, entry_of}
use cy_ph_os.Paging.Arm.Entry.{changed, changed_at, changed_other, changed-IsLinked, physical_lem}

-- The entry of a page after the attribute of the pages from `start` up to `end` is set.
abbrev pub entry_in_range : ℕ → ℕ → Bool → ℕ → ℕ → ℕ
entry_in_range start end cacheable w entry =
    if leb start w && ltb w end then with_caching cacheable entry else entry

abbrev pub InRange : ℕ → Memory → ℕ → ℕ → Bool → Memory → Type 0
InRange base m start end cacheable m' =
    IsLinked base m'
    × ((w : ℕ)
        → IsPage w
        → m' (entry_of base w) ≡ entry_in_range start end cacheable w (m (entry_of base w)))

-- One page and the pages after it.
step_in_range :
    (start end w : ℕ) (cacheable : Bool) (old here now : ℕ)
    → start < end
    → start % 4096 ≡ 0
    → w % 4096 ≡ 0
    → (w ≡ start → here ≡ with_caching cacheable old)
    → (w ≢ start → here ≡ old)
    → now ≡ entry_in_range (start + 4096) end cacheable w here
    → now ≡ entry_in_range start end cacheable w old
step_in_range start end w cacheable old here now lt aligned aligned' at other e =
    elim (Bool-cases (w == start)) [
      | inl t ↦
          let same : w ≡ start = ground arith in
          let out : (leb (start + 4096) w && ltb w end) ≡ false = ground arith in
          let in_range : (leb start w && ltb w end) ≡ true = ground arith in
          e ∙ rw (out, in_range) (at same)
      | inr t ↦
          let ne : w ≢ start = ground arith in
          let same : (leb (start + 4096) w && ltb w end) ≡ (leb start w && ltb w end) =
            elim (Bool-cases (ltb w start)) [
              | inl less ↦ ground arith
              | inr more ↦
                  let least : start ≤ w = ground arith in
                  let far : start + 4096 ≤ w = omega (arith, ne) in ground arith
            ] in
          e ∙ rw (same, other ne) refl
    ]

range-InRange :
    (fuel base : ℕ) (m : Memory) (start end : ℕ) (cacheable : Bool)
    → IsPlaced base
    → IsLinked base m
    → start % 4096 ≡ 0
    → end ≤ 2 ^ 32 - 4096
    → end < start + fuel
    → 0 < fuel
    → (m' : Memory) × (set_range_cacheable fuel base m start end cacheable ≡ some m')
      × InRange base m start end cacheable m'
unfolding set_range_cacheable
range-InRange zero base m start end cacheable placed linked aligned fits enough more =
    absurd (omega arith)
range-InRange (suc fuel) base m start end cacheable placed linked aligned fits enough more =
    elim (Bool-cases (ltb start end)) [
      | inr t ↦ (
        m,
        rw t refl,
        (
          linked,
          λ w is_page. let out : (leb start w && ltb w end) ≡ false = ground arith in rw out refl,
        ),
      )
      | inl t ↦
          let lt = ltb→lt start end t in
          let below : start < 2 ^ 32 = omega arith in
          let v = with_caching cacheable (m (get_second_level_entry base m start)) in
          let linked' = changed-IsLinked base m start placed linked below v in
          let (m', run, (last, entries)) =
            range-InRange fuel base (changed base m start placed linked below v) (start + 4096) end
              cacheable placed linked' (omega arith) fits (omega arith) (omega arith) in
          let next : (start + 4096) % 2 ^ 32 ≡ start + 4096 = omega arith in
          let value : v ≡ with_caching cacheable (m (entry_of base start)) =
            ap (λ a. with_caching cacheable (m a))
              (walk-entry_of base m start placed linked below) in
          (
            m',
            rw (t, next) run,
            (
              last,
              λ w is_page.
                  step_in_range start end w cacheable (m (entry_of base w)) _ (m' (entry_of base w))
                    lt aligned is_page.0
                    (λ same. rw same (changed_at base m start placed linked below v ∙ value))
                    (λ ne.
                      changed_other base m start placed linked below v (entry_of base w)
                        (λ e. ne (omega (arith, is_page.0))))
                    (entries w is_page),
            ),
          )
    ]

caching_bits : (x e : ℕ) → field 12 20 (with_field 3 1 x (with_field 2 1 x e)) ≡ field 12 20 e
caching_bits x e = omega arith

field-with_caching :
    (cacheable : Bool) (e : ℕ) → field 12 20 (with_caching cacheable e) ≡ field 12 20 e
field-with_caching cacheable e = caching_bits (flag cacheable) e

-- For tables that are linked, a range that starts at a page and ends below the last page, and more
-- fuel than the address of the end, `setRangeCacheable` returns. The entries of the pages of the range
-- have the attribute and all else as before, those of the other pages are unchanged; the tables stay
-- linked, and no page is mapped anew.
pub set_range_cacheable-InRange :
    (fuel base : ℕ) (m : Memory) (start end : ℕ) (cacheable : Bool)
    → IsPlaced base
    → IsLinked base m
    → start % 4096 ≡ 0
    → end ≤ 2 ^ 32 - 4096
    → end < fuel
    → (m' : Memory) × (set_range_cacheable fuel base m start end cacheable ≡ some m')
      × InRange base m start end cacheable m'
      × ((w : ℕ)
          → IsPage w
          → get_physical_address_for_virtual base m' w ≡ get_physical_address_for_virtual base m w)
set_range_cacheable-InRange fuel base m start end cacheable placed linked aligned fits enough =
    let (m', run, in_range) =
      range-InRange fuel base m start end cacheable placed linked aligned fits (omega arith)
        (omega arith) in
    (
      m',
      run,
      in_range,
      λ w is_page.
          let inside = leb start w && ltb w end in
          let same : field 12 20 (m' (entry_of base w)) ≡ field 12 20 (m (entry_of base w)) =
            ap (field 12 20) (in_range.1 w is_page) ∙ elim (Bool-cases inside) [
              | inl t ↦ rw t (field-with_caching cacheable (m (entry_of base w)))
              | inr t ↦ rw t refl
            ] in
          physical_lem base m' w placed in_range.0 is_page.1
          ∙ ap (λ n. n * 2 ^ 12 + w % 4096) same
          ∙ sym (physical_lem base m w placed linked is_page.1),
    )
