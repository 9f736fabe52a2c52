-- ===== src/StackPool/Search.antt =====
-- StackPool.cc, `getFreeStack` and `setStackFree`: the search round the pool.
use mathlib.Core.Bool.{false≢true}
use native.Mathlib.Nat.{mod-eq_of_lt}
use cy_ph_os.Base.{
  ℕ, zero, suc, ◌+◌, ◌*◌, ◌-◌, ◌%◌, ◌<◌, ◌≤◌, ◌≡◌, refl, sym, ap, ◌∙◌, ◌≢◌, inl, inr, true, false,
  Bool-cases, eq_of_test, test_of_ne, ==_refl, arith, ◌==◌, ltb, if◌then◌else◌, update,
}
use cy_ph_os.Queue.{Ptr, null}
use cy_ph_os.StackPool.{
  StackPool, stack_size, stack_address, search_free, get_free_stack, release_from, set_stack_free,
}

-- The index that the search reads in round `d`, when it starts at `last`.
abbrev visited : ℕ → ℕ → ℕ → ℕ
visited n last d = if ltb (last + d) n then last + d else last + d - n

step_mod : (n x : ℕ) → x < n → (x + 1) % n ≡ (if x + 1 == n then 0 else x + 1)
step_mod n x h = elim (Bool-cases (x + 1 == n)) [
  | inl e ↦ rw e (mod_self n x (eq_of_test (x + 1) n e))
  | inr e ↦ rw e (mod-eq_of_lt (ground arith))
]
  where
    mod_self : (n x : ℕ) → x + 1 ≡ n → (x + 1) % n ≡ 0
    mod_self n x e = grind arith

visited_next :
    (n last d : ℕ) → last < n → d < n → (visited n last d + 1) % n ≡ visited n last (d + 1)
visited_next n last d hl hd =
    let lt : visited n last d < n = ground arith in
    rw (step_mod n (visited n last d) lt) (ground arith)

-- The outcome of the search from round `d` on.
data Outcome (n base last d : ℕ) (p : StackPool) (r : Ptr × StackPool) : Type 0 where
  found :
      (i : ℕ)
      → i < n
      → p.used i ≡ false
      → r ≡ (stack_address base i, record { used = update p.used i true; pointer = i })
      → Outcome n base last d p r
  full :
      ((e : ℕ) → d ≤ e → e < n → p.used (visited n last e) ≡ true)
      → r ≡ (null, record p { pointer = last })
      → Outcome n base last d p r

module _ (n base last : ℕ) (hl : last < n) where
  search-hit :
      (k : ℕ) (p : StackPool)
      → p.used p.pointer ≡ false
      → search_free n base last (suc k) p
        ≡ (stack_address base p.pointer, record p { used = update p.used p.pointer true })
  unfolding search_free
  search-hit k p e = rw e

  search-end :
      (k : ℕ) (p : StackPool)
      → p.used p.pointer ≡ true
      → (p.pointer + 1) % n ≡ last
      → search_free n base last (suc k) p ≡ (null, record p { pointer = last })
  unfolding search_free
  search-end k p e f = rw (e, f, ==_refl last)

  search-miss :
      (k : ℕ) (p : StackPool)
      → p.used p.pointer ≡ true
      → (p.pointer + 1) % n ≢ last
      → search_free n base last (suc k) p
        ≡ search_free n base last k (record p { pointer = (p.pointer + 1) % n })
  unfolding search_free
  search-miss k p e f = rw (e, test_of_ne _ _ f)

  search-Outcome :
      (k d : ℕ) (p : StackPool)
      → d + k ≡ n
      → 0 < k
      → p.pointer ≡ visited n last d
      → Outcome n base last d p (search_free n base last k p)
  search-Outcome zero d p e pos at = elim pos [ ]
  search-Outcome (suc k) d p e pos at =
      let hd : d < n = omega arith in
      let next : (p.pointer + 1) % n ≡ visited n last (d + 1) =
        rw at (visited_next n last d hl hd) in
      elim (Bool-cases (p.used p.pointer)) [
        | inr free ↦ Outcome.found p.pointer (ground arith) free (search-hit k p free)
        | inl taken ↦ elim (Bool-cases (d + 1 == n)) [
          | inl stop ↦
              let back : visited n last (d + 1) ≡ last = ground arith in
              Outcome.full (λ i lo hi. let same : i ≡ d = ground arith in rw (same, ← at) taken)
                (search-end k p taken (next ∙ back))
          | inr more ↦
              let away : visited n last (d + 1) ≢ last = ground arith in
              rw (search-miss k p taken (λ f. away (sym next ∙ f))) (
                widen d p taken at (
                  search-Outcome k (d + 1) (record p { pointer = (p.pointer + 1) % n })
                    (omega arith) (ground arith) next))
        ]
      ]
    where
      widen :
          {r : Ptr × StackPool} (d : ℕ) (p : StackPool)
          → p.used p.pointer ≡ true
          → p.pointer ≡ visited n last d
          → Outcome n base last (d + 1) (record p { pointer = (p.pointer + 1) % n }) r
          → Outcome n base last d p r
      widen d p taken at (found i lt free e) = Outcome.found i lt free e
      widen d p taken at (full all e) =
          Outcome.full
            (λ i lo hi. elim (Bool-cases (i == d)) [
              | inl s ↦ rw (eq_of_test i d s, ← at) taken
              | inr s ↦ all i (ground arith) hi
            ])
            e

-- The round in which the search reads index `i`.
round_of : (n last i : ℕ) → last < n → i < n → (d : ℕ) × (d < n) × (visited n last d ≡ i)
round_of n last i hl hi = elim (Bool-cases (ltb i last)) [
  | inl e ↦ (i + n - last, ground arith, ground arith)
  | inr e ↦ (i - last, ground arith, ground arith)
]

-- When the pointer is in range and some stack `i` is free, `getFreeStack` returns the address of a
-- stack that was free, marks it used, and leaves the pointer at it.
pub get_free_stack_finds :
    (n base : ℕ) (p : StackPool) (i : ℕ)
    → p.pointer < n
    → i < n
    → p.used i ≡ false
    → (k : ℕ) × (k < n)
      × (p.used k ≡ false)
      × (get_free_stack n base p
          ≡ (stack_address base k, record { used = update p.used k true; pointer = k }))
unfolding get_free_stack
get_free_stack_finds n base p i hp hi free =
    pick_found (search-Outcome n base p.pointer hp n 0 p (omega arith) (omega arith) (ground arith))
  where
    pick_found :
        {r : Ptr × StackPool}
        → Outcome n base p.pointer 0 p r
        → (k : ℕ) × (k < n)
          × (p.used k ≡ false)
          × (r ≡ (stack_address base k, record { used = update p.used k true; pointer = k }))
    pick_found (found k lt e f) = (k, lt, e, f)
    pick_found (full all f) =
        let (d, hd, at) = round_of n p.pointer i hp hi in
        absurd (false≢true (sym free ∙ ap p.used (sym at) ∙ all d (omega arith) hd))

-- When the pointer is in range and every stack is used, `getFreeStack` returns nullptr and leaves
-- the pool as it was.
get_free_stack_full :
    (n base : ℕ) (p : StackPool)
    → p.pointer < n
    → ((i : ℕ) → i < n → p.used i ≡ true)
    → get_free_stack n base p ≡ (null, p)
unfolding get_free_stack
get_free_stack_full n base p hp all =
    pick_full (search-Outcome n base p.pointer hp n 0 p (omega arith) (omega arith) (ground arith))
  where
    pick_full : {r : Ptr × StackPool} → Outcome n base p.pointer 0 p r → r ≡ (null, p)
    pick_full (found k lt e f) = absurd (false≢true (sym e ∙ all k lt))
    pick_full (full all' f) = f

release_from_hit :
    (base k i j : ℕ) (p : StackPool)
    → i ≤ j
    → j < i + k
    → release_from base k i (stack_address base j) p ≡ record p { used = update p.used j false }
unfolding release_from
release_from_hit base zero i j p lo hi = absurd (omega arith)
release_from_hit base (suc k) i j p lo hi = elim (Bool-cases (i == j)) [
  | inl e ↦ let f : i ≡ j = eq_of_test i j e in rw (f, ==_refl (stack_address base j))
  | inr e ↦
      let miss : (base + i * stack_size + stack_size == stack_address base j) ≡ false =
        ground arith in
      rw miss (release_from_hit base k (i + 1) j p (ground arith) (omega arith))
]

-- `setStackFree` of the address of stack `j` of the pool marks that stack free and changes nothing
-- else.
pub set_stack_free-stack_address :
    (n base j : ℕ) (p : StackPool)
    → j < n
    → set_stack_free n base (stack_address base j) p ≡ record p { used = update p.used j false }
unfolding set_stack_free
set_stack_free-stack_address n base j p h =
    release_from_hit base n 0 j p (omega arith) (omega arith)

release_from_foreign :
    (base k i : ℕ) (sp : Ptr) (p : StackPool)
    → ((j : ℕ) → j < i + k → sp ≢ stack_address base j)
    → release_from base k i sp p ≡ p
unfolding release_from
release_from_foreign base zero i sp p h = refl
release_from_foreign base (suc k) i sp p h =
    let miss : (base + i * stack_size + stack_size == sp) ≡ false =
      test_of_ne _ _ (λ e. h i (omega arith) (sym e)) in
    rw miss (release_from_foreign base k (i + 1) sp p (λ j hj. h j (omega arith)))

-- `setStackFree` of an address that is no stack's changes nothing.
set_stack_free_foreign :
    (n base : ℕ) (sp : Ptr) (p : StackPool)
    → ((j : ℕ) → j < n → sp ≢ stack_address base j)
    → set_stack_free n base sp p ≡ p
unfolding set_stack_free
set_stack_free_foreign n base sp p h =
    release_from_foreign base n 0 sp p (λ j hj. h j (omega arith))
