-- ===== src/Paging/Arm.antt =====
-- arch/armv7/driver/ARMv7PageTable.cc, ARMv7PageTable.h, ARMMMU.cc: the two levels of tables and the
-- walk through them by hand. Words have 32 bits. The tables are aligned to 0x10000, so `|` with the
-- flags is an addition. CONFIG_SET_ALL_PAGES_CACHEABLE is not set.
pub mod Walk
pub mod Entry
pub mod Mapping
pub mod Range
use cy_ph_os.Base.{
  ℕ, zero, suc, ◌+◌, ◌*◌, ◌/◌, ◌%◌, ◌^◌, Bool, Option, none, some, List, [], ◌∷◌, update,
  if◌then◌else◌, ltb,
}
use cy_ph_os.Paging.{Memory, field, with_field, flag, fill}

abbrev pub page_size : ℕ
page_size = 4096

abbrev pub first_level_entries : ℕ
first_level_entries = 4096

abbrev pub second_level_entries : ℕ
second_level_entries = 256

abbrev pub first_level_flags : ℕ
first_level_flags = 0x1

abbrev pub second_level_flags : ℕ
second_level_flags = 0x402

-- The members of ARMv7PageTable: firstLevelTable stands at `base`, and secondLevelTable at the next
-- multiple of 0x10000.
abbrev pub second_level_table : ℕ → ℕ
second_level_table base = base + 0x10000

-- `fillLinear`: the memory, and the address for global_pagetable_address.
unfoldable pub fill_linear : ℕ → Memory → Memory × ℕ
fill_linear base m =
    let m1 =
      fill 4 base
        (λ i. second_level_table base + i * (4 * second_level_entries) + first_level_flags)
        first_level_entries 0 m in
    let m2 =
      fill 4 (second_level_table base) (λ i. i * 4096 + second_level_flags)
        (first_level_entries * second_level_entries) 0 m1 in
    (m2, base)

-- `getSecondLevelPageTableEntryFromAddress`: the address of the entry.
unfoldable pub get_second_level_entry : ℕ → Memory → ℕ → ℕ
get_second_level_entry base m address =
    let first_entry = m (base + 4 * (address / 2 ^ 20)) in
    field 10 22 first_entry * 2 ^ 10 + 4 * (address / 2 ^ 12 % 256)

unfoldable pub get_physical_address_for_virtual : ℕ → Memory → ℕ → ℕ
get_physical_address_for_virtual base m address =
    field 12 20 (m (get_second_level_entry base m address)) * 2 ^ 12 + address % 4096

-- The assignments to b and c.
abbrev pub with_caching : Bool → ℕ → ℕ
with_caching cacheable entry =
    with_field 3 1 (flag cacheable) (with_field 2 1 (flag cacheable) entry)

unfoldable pub map_virtual_page_to_physical_address : ℕ → Memory → ℕ → ℕ → Bool → Memory
map_virtual_page_to_physical_address base m page target cacheable =
    let entry = get_second_level_entry base m page in
    update m entry (with_caching cacheable (with_field 12 20 (target / 2 ^ 12) (m entry)))

-- `setRangeCacheable`; `none` is a lack of fuel.
unfoldable pub set_range_cacheable : ℕ → ℕ → Memory → ℕ → ℕ → Bool → Option Memory
set_range_cacheable zero base m start end cacheable = none
set_range_cacheable (suc fuel) base m start end cacheable =
    let entry = get_second_level_entry base m start in
    let changed = update m entry (with_caching cacheable (m entry)) in
    let rest = set_range_cacheable fuel base changed ((start + page_size) % 2 ^ 32) end cacheable in
    if ltb start end then rest else some m

-- memory_map_entry_t; `cacheable` is false for NONCACHEABLE.
pub record MemoryMapEntry : Type 0 where
  pub start : ℕ
  pub length : ℕ
  pub cacheable : Bool

-- `setMemoryMap`: the entries before the last one, which ends the map.
unfoldable pub set_memory_map : ℕ → ℕ → List MemoryMapEntry → Memory → Option Memory
set_memory_map fuel base [] m = some m
set_memory_map fuel base (entry ∷ entries) m =
    if entry.cacheable
    then set_memory_map fuel base entries m
    else elim (set_range_cacheable fuel base m entry.start (entry.start + entry.length)
        entry.cacheable) [ none ↦ none | some changed ↦ set_memory_map fuel base entries changed ]

-- `getDummyPageAddress`, with cDUMMY_PAGE_ADDRESS.
unfoldable pub get_dummy_page_address : ℕ → ℕ
get_dummy_page_address cpu_id = 0 + page_size * cpu_id
