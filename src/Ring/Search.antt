-- ===== src/Ring/Search.antt =====
-- The search ends, at a free entry if there is one.
use native.Mathlib.Nat.{mod-eq_of_lt, mod-eq-sub-mod, mod-add-mod, mod-lt}
use cy_ph_os.Base.{
  ℕ, zero, suc, ◌+◌, ◌-◌, ◌%◌, ◌≤◌, ◌<◌, ◌≡◌, refl, sym, ap, ◌∙◌, ◌⊎◌, inl, inr, Bool, true, false,
  not, ◌&&◌, some, ◌==◌, ltb, ltb→lt, ltb→le, arith, Bool-cases, eq_of_test, ne_of_test, ==_refl,
}
use cy_ph_os.Ring.{seek_free}

seek_stop :
    (count : ℕ) (fuel : ℕ) (used : ℕ → Bool) (start n : ℕ)
    → (used n && not (n == start)) ≡ false
    → seek_free count (suc fuel) used start n ≡ some n
unfolding seek_free
seek_stop count fuel used start n e = rw e refl

seek_next :
    (count : ℕ) (fuel : ℕ) (used : ℕ → Bool) (start n : ℕ)
    → (used n && not (n == start)) ≡ true
    → seek_free count (suc fuel) used start n ≡ seek_free count fuel used start ((n + 1) % count)
unfolding seek_free
seek_next count fuel used start n e = rw e refl

-- The lines that were passed are used, and the one that is tried is `i` lines on.
pub record Passed (count : ℕ) (used : ℕ → Bool) (start i : ℕ) : Type 0 where
  pub all : (j : ℕ) → j < i → used ((start + 1 + j) % count) ≡ true

-- The entry `i` on, in this round of the ring or the next.
entry_near : (count start i : ℕ) → start + 1 + i < count → (start + 1 + i) % count ≡ start + 1 + i
entry_near count start i h = mod-eq_of_lt h

entry_far :
    (count start i : ℕ)
    → start < count
    → i < count
    → count ≤ start + 1 + i
    → (start + 1 + i) % count ≡ start + 1 + i - count
entry_far count start i h hi le =
    let lt : start + 1 + i - count < count = omega arith in mod-eq-sub-mod le ∙ mod-eq_of_lt lt

Passed-all :
    (count : ℕ) (used : ℕ → Bool) (start i : ℕ)
    → start < count
    → suc i ≡ count
    → Passed count used start i
    → used start ≡ true
    → (j : ℕ) → j < count
    → used j ≡ true
Passed-all count used start i h last p u j hj = elim (Bool-cases (j == start)) [
  | inl e ↦ rw (eq_of_test j start e) u
  | inr e ↦
      let ne = ne_of_test j start e in
      elim (Bool-cases (ltb start j)) [
        | inl after ↦
            let k = j - (start + 1) in
            let lt = ltb→lt start j after in
            let at : start + 1 + k ≡ j = omega arith in
            let place : (start + 1 + k) % count ≡ j = entry_near count start k (omega arith) ∙ at in
            rw (← place) (p.all k (omega arith))
        | inr before ↦
            let le = ltb→le start j before in
            let k = j + count - (start + 1) in
            let at : start + 1 + k - count ≡ j = omega arith in
            let place : (start + 1 + k) % count ≡ j =
              entry_far count start k h (omega arith) (omega arith) ∙ at in
            rw (← place) (p.all k (omega arith))
      ]
]

-- Only the last entry is the one that the search started after.
is_last :
    (count start i : ℕ)
    → start < count
    → i < count
    → (start + 1 + i) % count ≡ start
    → suc i ≡ count
is_last count start i h hi e = elim (Bool-cases (ltb (start + 1 + i) count)) [
  | inl t ↦
      let near = entry_near count start i (ltb→lt (start + 1 + i) count t) in absurd (omega arith)
  | inr t ↦
      let far = entry_far count start i h hi (ltb→le (start + 1 + i) count t) in
      let le = ltb→le (start + 1 + i) count t in omega arith
]

Passed-next :
    (count : ℕ) (used : ℕ → Bool) (start i : ℕ)
    → Passed count used start i
    → used ((start + 1 + i) % count) ≡ true
    → Passed count used start (suc i)
Passed-next count used start i p u = record { all = go }
  where
    go : (j : ℕ) → j < suc i → used ((start + 1 + j) % count) ≡ true
    go j h = elim (Bool-cases (j == i)) [
      | inl e ↦ rw (eq_of_test j i e) u
      | inr e ↦ let ne = ne_of_test j i e in p.all j (omega arith)
    ]

-- What the search ends with.
abbrev pub Found : ℕ → (ℕ → Bool) → ℕ → ℕ → Type 0
Found count used start n =
    (n < count) × ((used n ≡ false) ⊎ ((n ≡ start) × ((j : ℕ) → j < count → used j ≡ true)))

at_end :
    (count : ℕ) (used : ℕ → Bool) (start i : ℕ)
    → start < count
    → i < count
    → Passed count used start i
    → used ((start + 1 + i) % count) ≡ true
    → (((start + 1 + i) % count) == start) ≡ true
    → Found count used start ((start + 1 + i) % count)
at_end count used start i h hi p u e =
    let eq = eq_of_test ((start + 1 + i) % count) start e in
    let last = is_last count start i h hi eq in
    (rw eq h, inr (eq, Passed-all count used start i h last p (rw (← eq) u)))

-- The search that is to try the line `i` lines on ends well.
Ends : ℕ → ℕ → ℕ → (ℕ → Bool) → ℕ → Type 0
Ends count fuel i used start =
    (n : ℕ) × (seek_free count (suc fuel) used start ((start + 1 + i) % count) ≡ some n)
    × Found count used start n

Ends-free :
    (count : ℕ) (fuel i : ℕ) (used : ℕ → Bool) (start : ℕ)
    → 0 < count
    → used ((start + 1 + i) % count) ≡ false
    → Ends count fuel i used start
unfolding Ends
Ends-free count fuel i used start pos u = (
  (start + 1 + i) % count,
  seek_stop count fuel used start ((start + 1 + i) % count) (rw u refl),
  (mod-lt (start + 1 + i) pos, inl u),
)

Ends-last :
    (count : ℕ) (fuel i : ℕ) (used : ℕ → Bool) (start : ℕ)
    → start < count
    → i < count
    → Passed count used start i
    → used ((start + 1 + i) % count) ≡ true
    → (((start + 1 + i) % count) == start) ≡ true
    → Ends count fuel i used start
unfolding Ends
Ends-last count fuel i used start h hi p u e = (
  (start + 1 + i) % count,
  seek_stop count fuel used start ((start + 1 + i) % count) (rw (u, e) refl),
  at_end count used start i h hi p u e,
)

seek_lem :
    (count : ℕ) (fuel i : ℕ) (used : ℕ → Bool) (start : ℕ)
    → start < count
    → i + suc fuel ≡ count
    → Passed count used start i
    → Ends count fuel i used start
unfolding Ends
seek_lem count zero i used start h hf p = elim (Bool-cases (used ((start + 1 + i) % count))) [
  | inr u ↦ Ends-free count zero i used start (omega arith) u
  | inl u ↦ Ends-last count zero i used start h (omega arith) p u (
      let far = entry_far count start i h (omega arith) (omega arith) in
      let at : start + 1 + i - count ≡ start = omega arith in rw (far ∙ at) (==_refl start))
]
seek_lem count (suc f) i used start h hf p = elim (Bool-cases (used ((start + 1 + i) % count))) [
  | inr u ↦ Ends-free count (suc f) i used start (omega arith) u
  | inl u ↦ elim (Bool-cases (((start + 1 + i) % count) == start)) [
    | inl e ↦ Ends-last count (suc f) i used start h (omega arith) p u e
    | inr e ↦
        let (n, run, found) =
          seek_lem count f (suc i) used start h (omega arith)
            (Passed-next count used start i p u) in
        let shift : start + 1 + i + 1 ≡ start + 1 + suc i = omega arith in
        let next : ((start + 1 + i) % count + 1) % count ≡ (start + 1 + suc i) % count =
          mod-add-mod (start + 1 + i) count 1 ∙ ap (λ k. k % count) shift in
        (
          n,
          seek_next count (suc f) used start ((start + 1 + i) % count) (rw (u, e) refl)
              ∙ rw next run,
          found,
        )
  ]
]

-- The search that starts at the next entry ends within a round for each entry.
pub seek_free-Found :
    (count start : ℕ) (used : ℕ → Bool)
    → start < count
    → (n : ℕ) × (seek_free count count used start ((start + 1) % count) ≡ some n)
      × Found count used start n
unfolding Ends
seek_free-Found zero start used h = absurd (omega arith)
seek_free-Found (suc m) start used h =
    let none_passed : Passed (suc m) used start 0 = record { all = λ j h'. absurd (omega arith) } in
    let (n, run, found) = seek_lem (suc m) m 0 used start h (omega arith) none_passed in
    let zero_more : start + 1 + 0 ≡ start + 1 = omega arith in
    (n, ap (λ k. seek_free (suc m) (suc m) used start (k % suc m)) (sym zero_more) ∙ run, found)
