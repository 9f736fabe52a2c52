-- ===== src/Paging/X86/Walk.antt =====
-- The walk through the tables of the x86 port: where it ends once they are linked.
use cy_ph_os.Base.{ℕ, ◌+◌, ◌*◌, ◌/◌, ◌%◌, ◌^◌, ◌<◌, ◌≡◌, ◌∙◌, ap, arith}
use cy_ph_os.Paging.{Memory}
use cy_ph_os.Paging.X86.{pdpe, pde, pte, table_address, get_pte_entry_from_address}

-- Where the linker puts the tables: at the start of a page.
abbrev pub IsPlaced : ℕ → Type 0
IsPlaced base = (base % 4096 ≡ 0) × (base < 2 ^ 40)

-- The upper three levels lead to the array pte.
abbrev pub IsLinked : ℕ → Memory → Type 0
IsLinked base m =
    (m base ≡ pdpe base + 7)
    × ((i : ℕ) → i < 4 → m (pdpe base + 8 * i) ≡ pde base + i * 4096 + 7)
    × ((i : ℕ) → i < 2048 → m (pde base + 8 * i) ≡ pte base + i * 4096 + 7)

table_address_of :
    (a flags entry : ℕ)
    → a % 4096 ≡ 0
    → a < 2 ^ 41
    → flags < 4096
    → entry ≡ a + flags
    → table_address entry ≡ a
table_address_of a flags entry aligned bound small e = omega arith

-- The address of the entry of a page.
abbrev pub entry_of : ℕ → ℕ → ℕ
entry_of base address = pte base + 8 * (address / 4096)

pub walk-entry_of :
    (base : ℕ) (m : Memory) (address : ℕ)
    → IsPlaced base
    → IsLinked base m
    → address < 2 ^ 32
    → get_pte_entry_from_address base m address ≡ entry_of base address
unfolding get_pte_entry_from_address
walk-entry_of base m address placed linked below =
    let third = address / 2 ^ 30 % 512 in
    let second = address / 2 ^ 21 % 512 in
    let pml4_entry = m (base + 8 * (address / 2 ^ 39 % 512)) in
    let at4 : base + 8 * (address / 2 ^ 39 % 512) ≡ base = omega arith in
    let level4 : table_address pml4_entry ≡ pdpe base =
      table_address_of (pdpe base) 7 pml4_entry (omega arith) (omega arith) (omega arith)
        (ap m at4 ∙ linked.0) in
    let pdpe_entry = m (table_address pml4_entry + 8 * third) in
    let level3 : table_address pdpe_entry ≡ pde base + third * 4096 =
      table_address_of (pde base + third * 4096) 7 pdpe_entry (omega arith) (omega arith)
        (omega arith) (ap (λ t. m (t + 8 * third)) level4 ∙ linked.1 third (omega arith)) in
    let pde_entry = m (table_address pdpe_entry + 8 * second) in
    let at2 : pde base + third * 4096 + 8 * second ≡ pde base + 8 * (address / 2 ^ 21) =
      omega arith in
    let level2 : table_address pde_entry ≡ pte base + address / 2 ^ 21 * 4096 =
      table_address_of (pte base + address / 2 ^ 21 * 4096) 7 pde_entry (omega arith) (omega arith)
        (omega arith)
        (ap (λ t. m (t + 8 * second)) level3
          ∙ ap m at2
          ∙ linked.2 (address / 2 ^ 21) (omega arith)) in
    ap (λ t. t + 8 * (address / 2 ^ 12 % 512)) level2 ∙ omega arith
