-- ===== src/Paging/X86.antt =====
-- arch/x86/driver/X86Pagetable.cc, X86Pagetable.h, X86MMU.cc: the four levels of tables, in memory
-- one after the other, and the walk through them by hand. The tables are aligned to a page, so `|`
-- with the flags is an addition.
pub mod Linear
pub mod Entry
pub mod Mapping
pub mod Range
pub mod Walk
use cy_ph_os.Base.{
  ℕ, zero, suc, ◌+◌, ◌-◌, ◌*◌, ◌/◌, ◌%◌, ◌^◌, ◌<◌, ◌≡◌, Bool, true, false, not, Option, none, some,
  arith, update, if◌then◌else◌, ltb,
}
use cy_ph_os.Paging.{Memory, field, with_field, flag, fill}

abbrev pub page_size : ℕ
page_size = 4096

-- cMAX_MEMORY_SIZE, in GB.
abbrev pub max_memory_size : ℕ
max_memory_size = 4

abbrev pub pml4_entries : ℕ
pml4_entries = 512

abbrev pub pdpe_entries : ℕ
pdpe_entries = 512

abbrev pub pde_entries : ℕ
pde_entries = 512 * max_memory_size

abbrev pub pte_entries : ℕ
pte_entries = 512 * 512 * max_memory_size

-- The members of X86Pagetable, from its address on: pml4 stands at `base`.
abbrev pub pdpe : ℕ → ℕ
pdpe base = base + 8 * pml4_entries

abbrev pub pde : ℕ → ℕ
pde base = pdpe base + 8 * pdpe_entries

abbrev pub pte : ℕ → ℕ
pte base = pde base + 8 * pde_entries

abbrev pub pml4_flags : ℕ
pml4_flags = 0x7

abbrev pub pdpe_flags : ℕ
pdpe_flags = 0x7

abbrev pub pde_flags : ℕ
pde_flags = 0x7

abbrev pub pte_flags : ℕ
pte_flags = 0x1F

-- `fillLinear`: the memory, and the address for ap_pagetable.
unfoldable pub fill_linear : ℕ → Memory → Memory × ℕ
fill_linear base m =
    let m1 = update m base (pdpe base + pml4_flags) in
    let m2 = fill 8 base (λ i. with_field 0 1 0 pml4_flags) (pml4_entries - 1) 1 m1 in
    let m3 = fill 8 (pdpe base) (λ i. pde base + i * 0x1000 + pdpe_flags) max_memory_size 0 m2 in
    let m4 =
      fill 8 (pdpe base) (λ i. pdpe_flags - 1) (pdpe_entries - max_memory_size) max_memory_size
        m3 in
    let m5 = fill 8 (pde base) (λ i. pte base + i * 0x1000 + pde_flags) pde_entries 0 m4 in
    let m6 = fill 8 (pte base) (λ i. 0x1000 * i % 2 ^ 32 + pte_flags) pte_entries 0 m5 in (m6, base)

-- `entry & 0xFFFFFFFFFF000`.
abbrev pub table_address : ℕ → ℕ
table_address entry = entry / 2 ^ 12 % 2 ^ 40 * 2 ^ 12

-- `getPTEEntryFromAddress`: the address of the entry.
unfoldable pub get_pte_entry_from_address : ℕ → Memory → ℕ → ℕ
get_pte_entry_from_address base m address =
    let pml4_entry = m (base + 8 * (address / 2 ^ 39 % 512)) in
    let pdpe_address = table_address pml4_entry in
    let pdpe_entry = m (pdpe_address + 8 * (address / 2 ^ 30 % 512)) in
    let pde_address = table_address pdpe_entry in
    let pde_entry = m (pde_address + 8 * (address / 2 ^ 21 % 512)) in
    let pte_address = table_address pde_entry in pte_address + 8 * (address / 2 ^ 12 % 512)

unfoldable pub get_physical_address_for_virtual : ℕ → Memory → ℕ → ℕ
get_physical_address_for_virtual base m page =
    field 12 40 (m (get_pte_entry_from_address base m page)) * 2 ^ 12

-- `virtualToPhysical`, with the nine bits that it takes of the offset.
unfoldable pub virtual_to_physical : ℕ → Memory → ℕ → ℕ
virtual_to_physical base m address =
    field 12 40 (m (get_pte_entry_from_address base m address)) * 2 ^ 12 + address % 512

-- The assignments to pwt and pcd.
abbrev pub with_caching : Bool → ℕ → ℕ
with_caching cacheable entry =
    with_field 4 1 (flag (not cacheable)) (with_field 3 1 (flag (not cacheable)) entry)

unfoldable pub map_virtual_page_to_physical_address : ℕ → Memory → ℕ → ℕ → Bool → Memory
map_virtual_page_to_physical_address base m page target cacheable =
    let entry = get_pte_entry_from_address base m page in
    update m entry (with_caching cacheable (with_field 12 40 (target / 2 ^ 12 % 2 ^ 40) (m entry)))

-- `setRangeCacheable`: the first page is always changed; `none` is a lack of fuel.
unfoldable pub set_range_cacheable : ℕ → ℕ → Memory → ℕ → ℕ → Bool → Option Memory
set_range_cacheable zero base m start end cacheable = none
set_range_cacheable (suc fuel) base m start end cacheable =
    let entry = get_pte_entry_from_address base m start in
    let changed = update m entry (with_caching cacheable (m entry)) in
    let next = (start + page_size) % 2 ^ 64 in
    let rest = set_range_cacheable fuel base changed next end cacheable in
    if ltb next end then rest else some changed

-- `getDummyPageAddress`, with cDUMMY_PAGE.
unfoldable pub get_dummy_page_address : ℕ → ℕ
get_dummy_page_address cpu_id = 0 + page_size * cpu_id
