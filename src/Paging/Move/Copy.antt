-- ===== src/Paging/Move/Copy.antt =====
-- The loop that copies a page, in terms of physical addresses.
use native.Mathlib.Nat.{add-zero}
use cy_ph_os.Base.{
  ℕ, zero, suc, ◌+◌, ◌*◌, ◌/◌, ◌%◌, ◌<◌, ◌≤◌, ◌≡◌, ◌≢◌, refl, sym, ◌∙◌, ap, arith, update,
  update_at, update_ne,
}
use cy_ph_os.Paging.{Memory}
use cy_ph_os.Paging.Mmu.{GenericMmu}
use cy_ph_os.Paging.Move.{translate, copy_words}

module _ (mmu : GenericMmu) (t : mmu.Tables) where
  -- An address within a page.
  pub translate_lem :
      (page place d a : ℕ)
      → page % 4096 ≡ 0
      → mmu.physical t page ≡ place
      → d < 4096
      → a ≡ page + d
      → translate mmu t a ≡ place + d
  translate_lem page place d a aligned p small e =
      let start : a / 4096 * 4096 ≡ page = omega arith in
      let offset : a % 4096 ≡ d = omega arith in
      ap (λ n. mmu.physical t n + a % 4096) start
      ∙ ap (λ n. mmu.physical t page + n) offset
      ∙ ap (λ n. n + d) p

  module _ (page destination from into : ℕ) (is_page : page % 4096 ≡ 0)
      (is_destination : destination % 4096 ≡ 0) (at_page : mmu.physical t page ≡ from)
      (at_destination : mmu.physical t destination ≡ into) where
    pub copy_words_outside :
        (count k d s : ℕ) (m : Memory) (a : ℕ)
        → d ≡ destination + 8 * k
        → s ≡ page + 8 * k
        → k + count ≤ 512
        → ((j : ℕ) → j < count → a ≢ into + 8 * (k + j))
        → copy_words mmu t count d s m a ≡ m a
    unfolding copy_words
    copy_words_outside zero k d s m a ed es fits out = refl
    copy_words_outside (suc count) k d s m a ed es fits out =
        let here =
          translate_lem destination into (8 * k) d is_destination at_destination (omega arith) ed in
        copy_words_outside count (suc k) (d + 8) (s + 8) (update m (translate mmu t d) _) a
          (omega arith) (omega arith) (omega arith)
          (λ j lt e. out (suc j) (omega arith) (omega arith))
        ∙ update_ne m (translate mmu t d) _ (λ e. out 0 (omega arith) (omega (arith, here, e)))

    pub copy_words_at :
        (count k j d s : ℕ) (m : Memory)
        → d ≡ destination + 8 * k
        → s ≡ page + 8 * k
        → k + count ≤ 512
        → from % 4096 ≡ 0
        → into % 4096 ≡ 0
        → j < count
        → copy_words mmu t count d s m (into + 8 * (k + j)) ≡ m (from + 8 * (k + j))
    unfolding copy_words
    copy_words_at zero k j d s m ed es fits af ai lt = absurd (omega arith)
    copy_words_at (suc count) k zero d s m ed es fits af ai lt =
        let here =
          translate_lem destination into (8 * k) d is_destination at_destination (omega arith) ed in
        let there = translate_lem page from (8 * k) s is_page at_page (omega arith) es in
        rw (add-zero k) (
          copy_words_outside count (suc k) (d + 8) (s + 8) (update m (translate mmu t d) _)
            (into + 8 * k) (omega arith) (omega arith) (omega arith)
            (λ i below e. absurd (omega arith))
          ∙ update_at m (translate mmu t d) _ (sym here)
          ∙ ap m there)
    copy_words_at (suc count) k (suc j) d s m ed es fits af ai lt =
        let here =
          translate_lem destination into (8 * k) d is_destination at_destination (omega arith) ed in
        let same : k + suc j ≡ suc k + j = omega arith in
        rw same (
          copy_words_at count (suc k) j (d + 8) (s + 8) (update m (translate mmu t d) _)
            (omega arith) (omega arith) (omega arith) af ai (omega arith)
          ∙ update_ne m (translate mmu t d) _ (λ e. absurd (omega (arith, here, e))))
