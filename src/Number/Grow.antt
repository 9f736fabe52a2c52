-- ===== src/Number/Grow.antt =====
-- The first loop of a printed number ends at the highest power of the base that is in the number.
use native.Mathlib.Nat.{div-div-eq-div-mul, mod-eq_of_lt, le-div_iff_mul-le, div-one, mul_comm}
use cy_ph_os.Base.{
  ℕ, zero, suc, ◌*◌, ◌/◌, ◌%◌, ◌^◌, ◌≤◌, ◌<◌, ◌≡◌, refl, ◌∙◌, ◌⊎◌, inl, inr, Bool-cases, true,
  false, some, arith, leb,
}
use cy_ph_os.Number.{grow}
use cy_ph_os.Number.Power.{pow, pow-pos}

-- The power that the loop ends at.
pub record Top (base ival k : ℕ) : Type 0 where
  pub below : ival / pow base k < base
  pub reached : (k ≡ 0) ⊎ (pow base k ≤ ival)

grow-stop :
    (fuel base ival div : ℕ)
    → leb base (ival / div) ≡ false
    → grow (suc fuel) base ival div ≡ some div
unfolding grow
grow-stop fuel base ival div e = rw e

grow-next :
    (fuel base ival div : ℕ)
    → leb base (ival / div) ≡ true
    → div * base < 2 ^ 64
    → grow (suc fuel) base ival div ≡ grow fuel base ival (div * base)
unfolding grow
grow-next fuel base ival div e small =
    let same : div * base % 2 ^ 64 ≡ div * base = mod-eq_of_lt small in rw (e, same)

pow_next : (base j : ℕ) → pow base j * base ≡ pow base (suc j)
unfolding pow
pow_next base j = mul_comm (pow base j) base

pow_two_suc : (k : ℕ) → pow 2 (suc k) ≡ 2 * pow 2 k
unfolding pow
pow_two_suc k = refl

pow_zero : (b : ℕ) → pow b 0 ≡ 1
unfolding pow
pow_zero b = refl

halved : (q base n : ℕ) → 2 ≤ base → q < 2 * n → q / base < n
halved q base n h lt = grind arith

-- The state of the loop at the power `j`, with `f` rounds enough for what is left.
abbrev pub Fit : ℕ → ℕ → ℕ → ℕ → Type 0
Fit f base ival j = (ival / pow base j < pow 2 f) × ((j ≡ 0) ⊎ (pow base j ≤ ival))

too_few :
    (base ival j : ℕ)
    → 2 ≤ base
    → ival / pow base j < pow 2 0
    → leb base (ival / pow base j) ≡ false
too_few base ival j h lt = let one = pow_zero 2 in ground arith

climb :
    (f base ival j : ℕ)
    → 2 ≤ base
    → Fit (suc f) base ival j
    → leb base (ival / pow base j) ≡ true
    → Fit f base ival (suc j) × (pow base j * base ≤ ival)
climb f base ival j hb (hq, at) e =
    let pos : 0 < pow base j = pow-pos base j (omega arith) in
    let le : base ≤ ival / pow base j = ground arith in
    let fits : base * pow base j ≤ ival = (le-div_iff_mul-le pos).0 le in
    let fits' : pow base j * base ≤ ival = rw (mul_comm (pow base j) base) fits in
    let less : ival / pow base (suc j) < pow 2 f =
      rw (← pow_next base j, ← div-div-eq-div-mul ival (pow base j) base)
        (halved (ival / pow base j) base (pow 2 f) hb (rw (← pow_two_suc f) hq)) in
    ((less, inr (rw (← pow_next base j) fits')), fits')

pub grow_lem :
    (f base ival j : ℕ)
    → 2 ≤ base
    → ival < 2 ^ 64
    → Fit f base ival j
    → (k : ℕ) × (grow (suc f) base ival (pow base j) ≡ some (pow base k)) × Top base ival k
grow_lem zero base ival j hb hv (hq, at) =
    let e = too_few base ival j hb hq in
    (j, grow-stop zero base ival (pow base j) e, record { below = ground arith; reached = at })
grow_lem (suc f) base ival j hb hv fit = elim (Bool-cases (leb base (ival / pow base j))) [
  | inr e ↦ (
    j,
    grow-stop (suc f) base ival (pow base j) e,
    record { below = ground arith; reached = fit.1 },
  )
  | inl e ↦
      let (fit', fits) = climb f base ival j hb fit e in
      let (k, run, top) = grow_lem f base ival (suc j) hb hv fit' in
      let small : pow base j * base < 2 ^ 64 = omega arith in
      (k, grow-next (suc f) base ival (pow base j) e small ∙ rw (pow_next base j) run, top)
]

start : (base ival : ℕ) → ival < 2 ^ 64 → Fit 64 base ival 0
unfolding pow
start base ival h = (rw (div-one ival) h, inl refl)

-- The first loop ends, at the power of the highest digit.
pub grow-ends :
    (base ival : ℕ)
    → 2 ≤ base
    → ival < 2 ^ 64
    → (k : ℕ) × (grow 65 base ival 1 ≡ some (pow base k)) × Top base ival k
unfolding pow
grow-ends base ival hb h = grow_lem 64 base ival 0 hb h (start base ival h)
