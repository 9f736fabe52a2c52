-- ===== src/Number/Power.antt =====
-- Powers of a base, by recursion on the exponent, and division by them.
use native.Mathlib.Nat.{mul-div_cancel_left}
use cy_ph_os.Base.{
  ℕ, zero, suc, ◌+◌, ◌*◌, ◌/◌, ◌^◌, ◌≤◌, ◌<◌, ◌≡◌, refl, ◌-◌, ltb, Bool-cases, inl, inr, arith,
}

unfoldable pub pow : ℕ → ℕ → ℕ
pow b zero = 1
pow b (suc j) = b * pow b j

pub pow-pos : (b j : ℕ) → 0 < b → 0 < pow b j
unfolding pow
pow-pos b zero h = omega arith
pow-pos b (suc j) h = grind (arith, pow-pos b j h)

pub pow-suc-div : (b j : ℕ) → 0 < b → pow b (suc j) / b ≡ pow b j
unfolding pow
pow-suc-div b j h = mul-div_cancel_left (pow b j) h

-- Twice the exponent's successor is reached at least as fast with a base of two or more.
pub two_pow-le : (b j : ℕ) → 2 ≤ b → pow 2 j ≤ pow b j
unfolding pow
two_pow-le b zero h = omega arith
two_pow-le b (suc j) h = grind (arith, two_pow-le b j h)

pow_two_mono : (d j : ℕ) → pow 2 j ≤ pow 2 (d + j)
unfolding pow
pow_two_mono zero j = let e : 0 + j ≡ j = omega arith in rw e (omega arith)
pow_two_mono (suc d) j =
    let rest = pow_two_mono d j in
    let e : suc d + j ≡ suc (d + j) = omega arith in rw e (omega arith)

pow_two_64 : pow 2 64 ≡ 2 ^ 64
unfolding pow
pow_two_64 = refl

-- A power of two or more that fits in 64 bits has an exponent below 64.
pub exponent-lt : (b k : ℕ) → 2 ≤ b → pow b k < 2 ^ 64 → k < 64
exponent-lt b k h lt =
    let le = two_pow-le b k h in
    elim (Bool-cases (ltb k 64)) [
      | inl e ↦ ground arith
      | inr e ↦
          let same : k - 64 + 64 ≡ k = ground arith in
          let more : pow 2 64 ≤ pow 2 k = rw (← same) (pow_two_mono (k - 64) 64) in
          let bits = pow_two_64 in absurd (omega arith)
    ]
