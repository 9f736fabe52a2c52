-- ===== src/Examples/Paging.antt =====
-- The page tables at concrete inputs: tables at 1 MB, and a program of two pages that goes to the
-- second colour and back.
use cy_ph_os.Base.{
  ℕ, zero, suc, ◌+◌, ◌*◌, ◌/◌, ◌^◌, ◌<◌, ◌≡◌, ◌≢◌, ◌⊎◌, refl, ◌∙◌, true, false, some, List, arith,
  inl, inr,
}
use cy_ph_os.Colouring.{Move, Colors, color_count, prefetch_moves, evict_moves}
use cy_ph_os.Colouring.Slots.{slot}
use cy_ph_os.Paging.{Memory}
use cy_ph_os.Paging.Mmu.{GenericMmu, IsPage}
use cy_ph_os.Paging.Move.{Space, move_virtual_page}
use cy_ph_os.Paging.Move.Moved.{Moved, move_virtual_page-Moved}
use cy_ph_os.Paging.Move.Run.{run_moves, SameWords}
use cy_ph_os.Paging.Recolor.{color_page}
use cy_ph_os.Paging.Recolor.Places.{Colored}
use cy_ph_os.Paging.Recolor.Transparent.{prefetch-evict_transparent}
use cy_ph_os.Paging.X86
use cy_ph_os.Paging.X86.Walk as X86Walk
use cy_ph_os.Paging.X86.Range as X86Range
use cy_ph_os.Paging.X86.Range.{range_cacheable-InRange}
use cy_ph_os.Paging.X86.Linear.{fill_linear-identity}
use cy_ph_os.Paging.X86.Mapping.{x86_mmu}
use cy_ph_os.Paging.Arm
use cy_ph_os.Paging.Arm.Walk as ArmWalk
use cy_ph_os.Paging.Arm.Walk.{fill_linear-own_address}
use cy_ph_os.Paging.Arm.Range.{InRange, set_range_cacheable-InRange}

abbrev blank : Memory
blank a = 0

abbrev tables_at : ℕ
tables_at = 0x100000

fill_linear-identity_example :
    X86Walk.IsLinked tables_at (X86.fill_linear tables_at blank).0
    × ((address : ℕ)
        → address < 2 ^ 32
        → X86.get_physical_address_for_virtual tables_at (X86.fill_linear tables_at blank).0 address
          ≡ 4096 * (address / 4096))
fill_linear-identity_example = fill_linear-identity tables_at blank (refl, omega arith)

fill_linear-own_address_example :
    ArmWalk.IsLinked tables_at (Arm.fill_linear tables_at blank).0
    × ((address : ℕ)
        → address < 2 ^ 32
        → Arm.get_physical_address_for_virtual tables_at (Arm.fill_linear tables_at blank).0 address
          ≡ address)
fill_linear-own_address_example = fill_linear-own_address tables_at blank (refl, omega arith)

abbrev arm_tables : Memory
arm_tables = (Arm.fill_linear tables_at blank).0

arm_tables-IsLinked : ArmWalk.IsLinked tables_at arm_tables
arm_tables-IsLinked = (fill_linear-own_address tables_at blank (refl, omega arith)).0

set_range_cacheable-InRange_example :
    (m' : Memory) × (Arm.set_range_cacheable 30000 tables_at arm_tables 0x2000 0x5800 true
      ≡ some m')
    × InRange tables_at arm_tables 0x2000 0x5800 true m'
    × ((w : ℕ)
        → IsPage w
        → Arm.get_physical_address_for_virtual tables_at m' w
          ≡ Arm.get_physical_address_for_virtual tables_at arm_tables w)
set_range_cacheable-InRange_example =
    set_range_cacheable-InRange 30000 tables_at arm_tables 0x2000 0x5800 true (refl, omega arith)
      arm_tables-IsLinked refl (omega arith) (omega arith)

-- The x86 port with its tables filled, and a memory whose words are all different.
abbrev port : GenericMmu
port = x86_mmu tables_at (refl, omega arith)

abbrev space : Space port
space = record { tables = (X86.fill_linear tables_at blank).0; memory = λ a. a }

x86_tables-IsLinked : X86Walk.IsLinked tables_at (X86.fill_linear tables_at blank).0
x86_tables-IsLinked = (fill_linear-identity tables_at blank (refl, omega arith)).0

own_place : (i : ℕ) → i < 2 ^ 20 → port.physical space.tables (4096 * i) ≡ 4096 * i
own_place i lt =
    (fill_linear-identity tables_at blank (refl, omega arith)).1 (4096 * i) (omega arith)
    ∙ omega arith

move_virtual_page-Moved_example :
    Moved port 0x5000 0x1000000 space (move_virtual_page port 0 0x5000 0x1000000 true space)
move_virtual_page-Moved_example =
    move_virtual_page-Moved port 0x5000 0x1000000 0 true space x86_tables-IsLinked
      (refl, omega arith) (refl, omega arith) (rw (own_place 5 (omega arith)) (refl, omega arith))
      (refl, omega arith) (omega arith) (own_place 0 (omega arith))

abbrev colors : Colors
colors = record {
  page_size = 4096;
  pages_per_color = 2;
  hw_way_size = 65536;
  hw_way_count = 16;
  colors_start = 0x1000000;
}

abbrev Used : ℕ → Type 0
Used w = (w ≡ 0x5000) ⊎ (w ≡ 0x6000)

Used-IsPage : (w : ℕ) → Used w → IsPage w × (w ≢ 0)
Used-IsPage w (inl e) = rw e ((refl, omega arith), omega arith)
Used-IsPage w (inr e) = rw e ((refl, omega arith), omega arith)

below_two : (j : ℕ) → j < 2 → (j ≡ 0) ⊎ (j ≡ 1)
below_two zero lt = inl refl
below_two (suc zero) lt = inr refl
below_two (suc (suc j)) lt = absurd (omega arith)

color_page_first : IsPage (color_page colors 1 0)
unfolding slot color_count
color_page_first = (refl, omega arith)

color_page_second : IsPage (color_page colors 1 1)
unfolding slot color_count
color_page_second = (refl, omega arith)

way_exists : 1 < color_count colors
unfolding color_count
way_exists = omega arith

below : (w : ℕ) → Used w → w < 0x1000000
below w (inl e) = omega arith
below w (inr e) = omega arith

part_pages :
    (j : ℕ) → 0x5000 + 4096 * j < 0x6100 → Used (0x5000 + 4096 * j) × IsPage (color_page colors 1 j)
part_pages j lt = elim (below_two j (omega arith)) [
  | inl e ↦ rw e (inl refl, color_page_first)
  | inr e ↦ rw e (inr refl, color_page_second)
]

identity : (w : ℕ) → Used w → port.physical space.tables w ≡ w
identity w (inl e) = rw e (own_place 5 (omega arith))
identity w (inr e) = rw e (own_place 6 (omega arith))

prefetch-evict_transparent_example :
    (ms : List Move) × (es : List Move) × (prefetch_moves 30000 colors 0x5000 0x6100 1 ≡ some ms)
    × (evict_moves 30000 colors 0x5000 0x6100 ≡ some es)
    × Colored port 0 Used colors 1 0x5000 0x6100 space (run_moves port 0 ms space)
    × SameWords port 0 Used space (run_moves port 0 ms space)
    × SameWords port 0 Used space (run_moves port 0 es (run_moves port 0 ms space))
    × ((w : ℕ)
        → Used w
        → port.physical (run_moves port 0 es (run_moves port 0 ms space)).tables w ≡ w)
prefetch-evict_transparent_example =
    prefetch-evict_transparent port 0 Used 30000 colors 1 0x5000 0x6100 space refl refl refl
      (omega arith) way_exists (refl, omega arith) Used-IsPage below part_pages
      (
        x86_tables-IsLinked,
        own_place 0 (omega arith),
        λ w used. rw (identity w used) (Used-IsPage w used).0,
      )
      identity

abbrev x86_tables : Memory
x86_tables = (X86.fill_linear tables_at blank).0

range_cacheable-InRange_example :
    (m' : Memory) × (X86.set_range_cacheable 30000 tables_at x86_tables 0x5000 0x2000 false
      ≡ some m')
    × X86Range.InRange tables_at x86_tables 0x5000 0x2000 false m'
    × ((w : ℕ)
        → IsPage w
        → X86.get_physical_address_for_virtual tables_at m' w
          ≡ X86.get_physical_address_for_virtual tables_at x86_tables w)
range_cacheable-InRange_example =
    range_cacheable-InRange 30000 tables_at x86_tables 0x5000 0x2000 false (refl, omega arith)
      x86_tables-IsLinked refl (omega arith) (omega arith) (omega arith)
