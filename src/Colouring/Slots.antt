-- ===== src/Colouring/Slots.antt =====
-- The order of the targets in physical memory, with two pages per colour.
use native.Mathlib.Nat.{mul-le-mul_right}
use cy_ph_os.Base.{
  ℕ, suc, ◌+◌, ◌*◌, ◌/◌, ◌%◌, ◌≤◌, ◌<◌, ◌≡◌, if◌then◌else◌, ◌==◌, ltb, arith, Bool-cases, inl, inr,
  eq_of_test, ne_of_test, ltb→lt,
}

-- The number of a page's target, counted from the start of the colours.
unfoldable pub slot : ℕ → ℕ → ℕ → ℕ
slot colors way i = i / 2 * (2 * colors + 1) + (2 * way + i % 2)

pub slot-zero : (colors : ℕ) → slot colors 0 0 ≡ 0
unfolding slot
slot-zero colors = grind arith

-- The next page of a way is one further, or a stride further after every second page.
pub slot-suc :
    (colors i : ℕ)
    → slot colors 0 (suc i)
      ≡ (if suc i % 2 == 0 then slot colors 0 i + 2 * colors else slot colors 0 i + 1)
unfolding slot
slot-suc colors i = elim (Bool-cases (suc i % 2 == 0)) [
  | inl e ↦
      let even = eq_of_test (suc i % 2) 0 e in
      let half : suc i / 2 ≡ suc (i / 2) = omega arith in
      let one : i % 2 ≡ 1 = omega arith in rw (slot, e) (rw (half, one, even) (grind arith))
  | inr e ↦
      let odd = ne_of_test (suc i % 2) 0 e in
      let half : suc i / 2 ≡ i / 2 = omega arith in
      let none_over : i % 2 ≡ 0 = omega arith in
      let one : suc i % 2 ≡ 1 = omega arith in
      rw (slot, e) (rw (half, none_over, one) (grind arith))
]

pub slot-way : (colors way i : ℕ) → slot colors way i ≡ 2 * way + slot colors 0 i
unfolding slot
slot-way colors way i = grind arith

less_slot : (m q r q' r' : ℕ) → r < m → q < q' → q * m + r < q' * m + r'
less_slot m q r q' r' hr h =
    let le : suc q * m ≤ q' * m = mul-le-mul_right m h in
    let split : suc q * m ≡ q * m + m = grind arith in omega arith

-- Quotient and remainder are determined.
same_quotient : (m q r q' r' : ℕ) → r < m → r' < m → q * m + r ≡ q' * m + r' → q ≡ q'
same_quotient m q r q' r' hr hr' e = elim (Bool-cases (ltb q q')) [
  | inl lt ↦ let less = less_slot m q r q' r' hr (ltb→lt q q' lt) in absurd (omega arith)
  | inr ge ↦ elim (Bool-cases (ltb q' q)) [
    | inl lt ↦ let less = less_slot m q' r' q r hr' (ltb→lt q' q lt) in absurd (omega arith)
    | inr ge' ↦ ground arith
  ]
]

pub cancel : (a b c : ℕ) → a + b ≡ a + c → b ≡ c
cancel a b c e = omega arith

-- Two slots of ways below the number of colours are the same only for the same page of the same way.
pub slot-injective :
    (colors way i way' i' : ℕ)
    → way < colors
    → way' < colors
    → slot colors way i ≡ slot colors way' i'
    → (way ≡ way') × (i ≡ i')
unfolding slot
slot-injective colors way i way' i' h h' e =
    let q =
      same_quotient (2 * colors + 1) (i / 2) (2 * way + i % 2) (i' / 2) (2 * way' + i' % 2)
        (omega arith) (omega arith) e in
    let rest : 2 * way + i % 2 ≡ 2 * way' + i' % 2 =
      cancel (i' / 2 * (2 * colors + 1)) (2 * way + i % 2) (2 * way' + i' % 2) (rw q at e) in
    (omega arith, omega arith)
