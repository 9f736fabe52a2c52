-- ===== src/Paging/X86/Linear.antt =====
-- `fillLinear` of the x86 port: the tables are linked and every page below 4 GB is mapped to itself.
use cy_ph_os.Base.{ℕ, ◌+◌, ◌*◌, ◌/◌, ◌%◌, ◌^◌, ◌<◌, ◌≡◌, refl, ◌∙◌, ap, arith, update, update_at}
use cy_ph_os.Paging.{Memory, field, with_field, fill, fill-Outside, fill_from_start}
use cy_ph_os.Paging.X86.{pdpe, pde, pte, fill_linear, get_physical_address_for_virtual}
use cy_ph_os.Paging.X86.Walk.{IsPlaced, IsLinked, walk-entry_of}

module _ (base : ℕ) (m : Memory) where
  -- The memory after each of the loops.
  abbrev with_pml4 : Memory
  with_pml4 = fill 8 base (λ i. with_field 0 1 0 7) 511 1 (update m base (pdpe base + 7))

  abbrev with_pdpe : Memory
  with_pdpe =
      fill 8 (pdpe base) (λ i. 6) 508 4
        (fill 8 (pdpe base) (λ i. pde base + i * 0x1000 + 7) 4 0 with_pml4)

  abbrev with_pde : Memory
  with_pde = fill 8 (pde base) (λ i. pte base + i * 0x1000 + 7) 2048 0 with_pdpe

  abbrev with_pte : Memory
  with_pte = fill 8 (pte base) (λ i. 0x1000 * i % 2 ^ 32 + 0x1F) 1048576 0 with_pde

  fill_linear_lem : (fill_linear base m).0 ≡ with_pte
  unfolding fill_linear
  fill_linear_lem = refl

  over_pte : (a : ℕ) → a < pte base → with_pte a ≡ with_pde a
  over_pte a below = fill-Outside 8 (pte base) _ 1048576 0 with_pde a λ j inside e. omega arith

  over_pde : (a : ℕ) → a < pde base → with_pde a ≡ with_pdpe a
  over_pde a below = fill-Outside 8 (pde base) _ 2048 0 with_pdpe a λ j inside e. omega arith

  over_pdpe : (a : ℕ) → a < pdpe base → with_pdpe a ≡ with_pml4 a
  over_pdpe a below =
      fill-Outside 8 (pdpe base) _ 508 4 _ a (λ j inside e. omega arith)
      ∙ fill-Outside 8 (pdpe base) _ 4 0 with_pml4 a (λ j inside e. omega arith)

  IsLinked-pml4 : with_pte base ≡ pdpe base + 7
  IsLinked-pml4 =
      over_pte base (omega arith)
      ∙ over_pde base (omega arith)
      ∙ over_pdpe base (omega arith)
      ∙ fill-Outside 8 base _ 511 1 _ base (λ j inside e. omega arith)
      ∙ update_at m base (pdpe base + 7) refl

  IsLinked-pdpe : (i : ℕ) → i < 4 → with_pte (pdpe base + 8 * i) ≡ pde base + i * 4096 + 7
  IsLinked-pdpe i lt =
      over_pte (pdpe base + 8 * i) (omega arith)
      ∙ over_pde (pdpe base + 8 * i) (omega arith)
      ∙ fill-Outside 8 (pdpe base) _ 508 4 _ (pdpe base + 8 * i) (λ j inside e. omega arith)
      ∙ fill_from_start 8 (pdpe base) (λ i. pde base + i * 0x1000 + 7) 4 i with_pml4 (omega arith)
          lt

  IsLinked-pde : (i : ℕ) → i < 2048 → with_pte (pde base + 8 * i) ≡ pte base + i * 4096 + 7
  IsLinked-pde i lt =
      over_pte (pde base + 8 * i) (omega arith)
      ∙ fill_from_start 8 (pde base) (λ i. pte base + i * 0x1000 + 7) 2048 i with_pdpe (omega arith)
          lt

  fill_linear-IsLinked : IsLinked base (fill_linear base m).0
  fill_linear-IsLinked = rw fill_linear_lem (IsLinked-pml4, IsLinked-pdpe, IsLinked-pde)

  fill_linear-entry :
      (i : ℕ) → i < 1048576 → (fill_linear base m).0 (pte base + 8 * i) ≡ 4096 * i + 31
  fill_linear-entry i lt =
      ap (λ f. f (pte base + 8 * i)) fill_linear_lem
      ∙ fill_from_start 8 (pte base) (λ i. 0x1000 * i % 2 ^ 32 + 0x1F) 1048576 i with_pde
          (omega arith) lt
      ∙ omega arith

  page_of_entry : (i e : ℕ) → i < 1048576 → e ≡ 4096 * i + 31 → field 12 40 e * 2 ^ 12 ≡ 4096 * i
  page_of_entry i e lt same = omega arith

  -- After `fillLinear` the tables are linked, and the walk by hand maps every address below 4 GB to
  -- the start of its own page.
  pub fill_linear-identity :
      IsPlaced base
      → IsLinked base (fill_linear base m).0
        × ((address : ℕ)
            → address < 2 ^ 32
            → get_physical_address_for_virtual base (fill_linear base m).0 address
              ≡ 4096 * (address / 4096))
  unfolding get_physical_address_for_virtual
  fill_linear-identity placed = (
    fill_linear-IsLinked,
    λ address below. page_of_entry (address / 4096) _ (omega arith) (
        ap (fill_linear base m).0
          (walk-entry_of base (fill_linear base m).0 address placed fill_linear-IsLinked below)
        ∙ fill_linear-entry (address / 4096) (omega arith)),
  )
