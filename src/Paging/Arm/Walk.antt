-- ===== src/Paging/Arm/Walk.antt =====
-- The tables of the ARM port: `fillLinear`, and where the walk ends once they are linked.
use cy_ph_os.Base.{ℕ, ◌+◌, ◌*◌, ◌/◌, ◌%◌, ◌^◌, ◌<◌, ◌≡◌, refl, ◌∙◌, ap, arith}
use cy_ph_os.Paging.{Memory, field, fill, fill_from_start, fill-Outside}
use cy_ph_os.Paging.Arm.{
  second_level_table, fill_linear, get_second_level_entry, get_physical_address_for_virtual,
}

-- Where the linker puts the tables.
abbrev pub IsPlaced : ℕ → Type 0
IsPlaced base = (base % 2 ^ 16 ≡ 0) × (base < 2 ^ 31)

-- The first level leads to the array secondLevelTable.
abbrev pub IsLinked : ℕ → Memory → Type 0
IsLinked base m = (i : ℕ) → i < 4096 → m (base + 4 * i) ≡ second_level_table base + i * 1024 + 1

-- The address of the entry of a page.
abbrev pub entry_of : ℕ → ℕ → ℕ
entry_of base address = second_level_table base + 4 * (address / 4096)

linked_base :
    (base i entry : ℕ)
    → IsPlaced base
    → i < 4096
    → entry ≡ second_level_table base + i * 1024 + 1
    → field 10 22 entry * 2 ^ 10 ≡ second_level_table base + i * 1024
linked_base base i entry placed lt e = omega arith

pub walk-entry_of :
    (base : ℕ) (m : Memory) (address : ℕ)
    → IsPlaced base
    → IsLinked base m
    → address < 2 ^ 32
    → get_second_level_entry base m address ≡ entry_of base address
unfolding get_second_level_entry
walk-entry_of base m address placed linked below =
    let first = address / 2 ^ 20 in
    ap (λ t. t + 4 * (address / 2 ^ 12 % 256))
      (linked_base base first (m (base + 4 * first)) placed (omega arith)
        (linked first (omega arith)))
    ∙ omega arith

module _ (base : ℕ) (m : Memory) where
  abbrev with_first : Memory
  with_first = fill 4 base (λ i. second_level_table base + i * (4 * 256) + 1) 4096 0 m

  abbrev with_second : Memory
  with_second = fill 4 (second_level_table base) (λ i. i * 4096 + 0x402) 1048576 0 with_first

  fill_linear_lem : (fill_linear base m).0 ≡ with_second
  unfolding fill_linear
  fill_linear_lem = refl

  IsLinked-second : IsLinked base with_second
  IsLinked-second i lt =
      fill-Outside 4 (second_level_table base) _ 1048576 0 with_first (base + 4 * i)
        (λ j inside e. omega arith)
      ∙ fill_from_start 4 base (λ i. second_level_table base + i * (4 * 256) + 1) 4096 i m
          (omega arith) lt
      ∙ omega arith

  fill_linear-IsLinked : IsLinked base (fill_linear base m).0
  fill_linear-IsLinked = rw fill_linear_lem IsLinked-second

  fill_linear-entry :
      (i : ℕ)
      → i < 1048576
      → (fill_linear base m).0 (second_level_table base + 4 * i) ≡ i * 4096 + 0x402
  fill_linear-entry i lt =
      ap (λ f. f (second_level_table base + 4 * i)) fill_linear_lem
      ∙ fill_from_start 4 (second_level_table base) (λ i. i * 4096 + 0x402) 1048576 i with_first
          (omega arith) lt

  address_of_entry :
      (a e : ℕ) → a < 2 ^ 32 → e ≡ a / 4096 * 4096 + 0x402 → field 12 20 e * 2 ^ 12 + a % 4096 ≡ a
  address_of_entry a e below same = omega arith

  -- After `fillLinear` the tables are linked, and getPhysicalAddressForVirtual is the identity on the
  -- 32-bit addresses: what activateMMU has as a sanity check, commented out.
  pub fill_linear-own_address :
      IsPlaced base
      → IsLinked base (fill_linear base m).0
        × ((address : ℕ)
            → address < 2 ^ 32
            → get_physical_address_for_virtual base (fill_linear base m).0 address ≡ address)
  unfolding get_physical_address_for_virtual
  fill_linear-own_address placed = (
    fill_linear-IsLinked,
    λ address below. address_of_entry address _ below (
        ap (fill_linear base m).0
          (walk-entry_of base (fill_linear base m).0 address placed fill_linear-IsLinked below)
        ∙ fill_linear-entry (address / 4096) (omega arith)),
  )
