-- ===== src/Barrier/Sums.antt =====
-- Sums of weights over the threads below a bound.
use cy_ph_os.Base.{
  ℕ, zero, suc, ◌≤◌, ◌<◌, ◌≡◌, refl, arith, Bool-cases, inl, inr, ltb, ltb→lt, sum_below,
}

module _ {A : Type 0} (w : A → ℕ) where
  pub sum-le : (k : ℕ) (g : ℕ → A) → ((a : A) → w a ≤ 1) → sum_below w k g ≤ k
  sum-le zero g h = omega arith
  sum-le (suc k) g h = omega (arith, h (g k), sum-le k g h)

  pub sum_of_ones : (k : ℕ) (g : ℕ → A) → ((j : ℕ) → j < k → w (g j) ≡ 1) → sum_below w k g ≡ k
  sum_of_ones zero g h = refl
  sum_of_ones (suc k) g h =
      omega (arith, h k (omega arith), sum_of_ones k g (λ j lt. h j (omega arith)))

  pub sum_of_zeros : (k : ℕ) (g : ℕ → A) → ((j : ℕ) → j < k → w (g j) ≡ 0) → sum_below w k g ≡ 0
  sum_of_zeros zero g h = refl
  sum_of_zeros (suc k) g h =
      omega (arith, h k (omega arith), sum_of_zeros k g (λ j lt. h j (omega arith)))

  -- A sum that is not 0 has a weight.
  pub some_weight : (k : ℕ) (g : ℕ → A) → 0 < sum_below w k g → (j : ℕ) × (j < k) × (0 < w (g j))
  some_weight zero g h = absurd (omega arith)
  some_weight (suc k) g h = elim (Bool-cases (ltb 0 (w (g k)))) [
    | inl e ↦ (k, omega arith, ltb→lt 0 (w (g k)) e)
    | inr e ↦ let (j, lt, more) = some_weight k g (ground arith) in (j, omega arith, more)
  ]
