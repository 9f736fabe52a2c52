-- ===== src/Paging/Arm/Entry.antt =====
-- A change of the entry of one page, in the tables of the ARM port.
use cy_ph_os.Base.{
  ℕ, ◌+◌, ◌*◌, ◌%◌, ◌^◌, ◌<◌, ◌≡◌, ◌≢◌, sym, ◌∙◌, ap, arith, update, update_at, update_ne,
}
use cy_ph_os.Paging.{Memory, field}
use cy_ph_os.Paging.Arm.{get_second_level_entry, get_physical_address_for_virtual}
use cy_ph_os.Paging.Arm.Walk.{IsPlaced, IsLinked, walk-entry_of, entry_of}

module _ (base : ℕ) (m : Memory) (page : ℕ) (placed : IsPlaced base) (linked : IsLinked base m)
    (below : page < 2 ^ 32) (v : ℕ) where
  -- The memory after a store to the entry that the walk finds.
  abbrev pub changed : Memory
  changed = update m (get_second_level_entry base m page) v

  pub changed_at : changed (entry_of base page) ≡ v
  changed_at =
      update_at m (get_second_level_entry base m page) v
        (sym (walk-entry_of base m page placed linked below))

  pub changed_other : (a : ℕ) → a ≢ entry_of base page → changed a ≡ m a
  changed_other a ne =
      update_ne m (get_second_level_entry base m page) v
        (λ e. ne (e ∙ walk-entry_of base m page placed linked below))

  -- The upper levels stay linked.
  pub changed-IsLinked : IsLinked base changed
  changed-IsLinked i lt = changed_other (base + 4 * i) (λ e. omega arith) ∙ linked i lt

-- Where the walk by hand sends an address, in linked tables.
pub physical_lem :
    (base : ℕ) (m : Memory) (address : ℕ)
    → IsPlaced base
    → IsLinked base m
    → address < 2 ^ 32
    → get_physical_address_for_virtual base m address
      ≡ field 12 20 (m (entry_of base address)) * 2 ^ 12 + address % 4096
unfolding get_physical_address_for_virtual
physical_lem base m address placed linked below =
    ap (λ a. field 12 20 (m a) * 2 ^ 12 + address % 4096)
      (walk-entry_of base m address placed linked below)
