-- ===== src/Paging/X86/Mapping.antt =====
-- Mapping a page in the tables of the x86 port: the interface that the moves of pages rely on.
use cy_ph_os.Base.{ℕ, ◌*◌, ◌/◌, ◌%◌, ◌^◌, ◌≡◌, ◌≢◌, sym, ◌∙◌, ap, Bool, not, arith}
use cy_ph_os.Paging.{Memory, field, with_field, flag}
use cy_ph_os.Paging.Mmu.{IsPage, GenericMmu}
use cy_ph_os.Paging.X86.{
  get_physical_address_for_virtual, map_virtual_page_to_physical_address,
  get_pte_entry_from_address,
}
use cy_ph_os.Paging.X86.Walk.{IsPlaced, IsLinked, entry_of}
use cy_ph_os.Paging.X86.Entry.{changed_at, changed_other, changed-IsLinked, physical_lem}

field-with_bits :
    (e v x y : ℕ)
    → field 12 40 (with_field 4 1 x (with_field 3 1 y (with_field 12 40 v e))) ≡ v % 2 ^ 40
field-with_bits e v x y = omega arith

module _ (base : ℕ) (m : Memory) (page target : ℕ) (cacheable : Bool) (placed : IsPlaced base)
    (linked : IsLinked base m) (is_page : IsPage page) where
  abbrev mapped : Memory
  mapped = map_virtual_page_to_physical_address base m page target cacheable

  pub map_page-IsLinked : IsLinked base mapped
  unfolding map_virtual_page_to_physical_address
  map_page-IsLinked = changed-IsLinked base m page placed linked is_page.1 _

  mapped_entry : field 12 40 (mapped (entry_of base page)) ≡ target / 2 ^ 12 % 2 ^ 40
  unfolding map_virtual_page_to_physical_address
  mapped_entry =
      ap (field 12 40) (changed_at base m page placed linked is_page.1 _)
      ∙ field-with_bits (m (get_pte_entry_from_address base m page)) (target / 2 ^ 12 % 2 ^ 40)
          (flag (not cacheable)) (flag (not cacheable))
      ∙ omega arith

  mapped_other : (a : ℕ) → a ≢ entry_of base page → mapped a ≡ m a
  unfolding map_virtual_page_to_physical_address
  mapped_other a ne = changed_other base m page placed linked is_page.1 _ a ne

  pub physical-map_page : IsPage target → get_physical_address_for_virtual base mapped page ≡ target
  physical-map_page is_target =
      physical_lem base mapped page placed map_page-IsLinked is_page.1
      ∙ ap (λ n. n * 2 ^ 12) mapped_entry
      ∙ omega arith

  pub physical-map_page_other :
      (other : ℕ)
      → IsPage other
      → other ≢ page
      → get_physical_address_for_virtual base mapped other
        ≡ get_physical_address_for_virtual base m other
  physical-map_page_other other is_other ne =
      physical_lem base mapped other placed map_page-IsLinked is_other.1
      ∙ ap (λ e. field 12 40 e * 2 ^ 12)
          (mapped_other (entry_of base other) (λ e. ne (omega arith)))
      ∙ sym (physical_lem base m other placed linked is_other.1)

-- The x86 port, with its tables at `base`.
abbrev pub x86_mmu : (base : ℕ) → IsPlaced base → GenericMmu
x86_mmu base placed = record {
  Tables = Memory;
  Ready = IsLinked base;
  physical = get_physical_address_for_virtual base;
  map_page = map_virtual_page_to_physical_address base;
  map_page-Ready = λ m page target cacheable linked is_page.
      map_page-IsLinked base m page target cacheable placed linked is_page;
  physical-map_page = λ m page target cacheable linked is_page is_target.
      physical-map_page base m page target cacheable placed linked is_page is_target;
  physical-map_page_other = λ m page target other cacheable linked is_page is_other ne.
      physical-map_page_other base m page target cacheable placed linked is_page other is_other ne;
}
