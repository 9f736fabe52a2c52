-- ===== src/Paging.antt =====
-- Words of memory, the fields that are packed in them and the loops that fill a table, as the page
-- tables of both ports need them. A memory gives the word at the address of its first byte.
pub mod Arm
pub mod Mmu
pub mod Move
pub mod Recolor
pub mod X86
use native.Mathlib.Nat.{add-zero}
use cy_ph_os.Base.{
  ℕ, zero, suc, ◌+◌, ◌*◌, ◌/◌, ◌%◌, ◌^◌, ◌<◌, ◌≡◌, ◌≢◌, refl, sym, ap, ◌∙◌, Bool, true, false,
  arith, update, update_at, update_ne, if◌then◌else◌, ◌==◌, Bool-cases, inl, inr,
}

abbrev pub Memory : Type 0
Memory = ℕ → ℕ

-- A field of a packed struct: its lowest bit and its width.
abbrev pub field : ℕ → ℕ → ℕ → ℕ
field low width word = word / 2 ^ low % 2 ^ width

-- An assignment to a field.
abbrev pub with_field : ℕ → ℕ → ℕ → ℕ → ℕ
with_field low width value word =
    word % 2 ^ low + value % 2 ^ width * 2 ^ low + word / 2 ^ (low + width) * 2 ^ (low + width)

abbrev pub flag : Bool → ℕ
flag b = if b then 1 else 0

-- A loop over the entries from `i` on of a table at `start` with entries of `size` bytes.
unfoldable pub fill : ℕ → ℕ → (ℕ → ℕ) → ℕ → ℕ → Memory → Memory
fill size start entry zero i m = m
fill size start entry (suc count) i m =
    fill size start entry count (suc i) (update m (start + size * i) (entry i))

-- No entry of the table from `i` on stands at the address.
abbrev pub Outside : ℕ → ℕ → ℕ → ℕ → ℕ → Type 0
Outside size start count i a = (j : ℕ) → j < count → a ≢ start + size * (i + j)

pub fill-Outside :
    (size start : ℕ) (entry : ℕ → ℕ) (count i : ℕ) (m : Memory) (a : ℕ)
    → Outside size start count i a
    → fill size start entry count i m a ≡ m a
unfolding fill
fill-Outside size start entry zero i m a out = refl
fill-Outside size start entry (suc count) i m a out =
    fill-Outside size start entry count (suc i) (update m (start + size * i) (entry i)) a
      (λ j lt e. out (suc j) (omega arith) (e ∙ grind arith))
    ∙ update_ne m (start + size * i) (entry i) (λ e. out 0 (omega arith) (e ∙ grind arith))

later_entry : (size start i j : ℕ) → 0 < size → start + size * i ≢ start + size * (suc i + j)
later_entry size start i j pos e = absurd (grind (arith, pos, e))

pub fill_at :
    (size start : ℕ) (entry : ℕ → ℕ) (count i j : ℕ) (m : Memory)
    → 0 < size
    → j < count
    → fill size start entry count i m (start + size * (i + j)) ≡ entry (i + j)
unfolding fill
fill_at size start entry zero i j m pos lt = absurd (omega arith)
fill_at size start entry (suc count) i zero m pos lt = rw (add-zero i) (
    fill-Outside size start entry count (suc i) (update m (start + size * i) (entry i))
      (start + size * i) (λ j lt e. later_entry size start i j pos e)
    ∙ update_at m (start + size * i) (entry i) refl)
fill_at size start entry (suc count) i (suc j) m pos lt =
    let same : i + suc j ≡ suc i + j = omega arith in
    rw same (
      fill_at size start entry count (suc i) j (update m (start + size * i) (entry i)) pos
        (omega arith))

-- The entry of a table that is filled from its start.
pub fill_from_start :
    (size start : ℕ) (entry : ℕ → ℕ) (count j : ℕ) (m : Memory)
    → 0 < size
    → j < count
    → fill size start entry count 0 m (start + size * j) ≡ entry j
fill_from_start size start entry count j m pos lt =
    let same : 0 + j ≡ j = omega arith in
    ap (λ i. fill size start entry count 0 m (start + size * i)) (sym same)
    ∙ fill_at size start entry count 0 j m pos lt
    ∙ ap entry same
