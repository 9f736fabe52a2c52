-- ===== src/Barrier/Waits.antt =====
-- The barrier: nobody leaves a round before everybody has come, and the threads never block each other
-- for ever.
use mathlib.Core.Bool.{true≢false}
use cy_ph_os.Base.{
  ℕ, suc, ◌+◌, ◌^◌, ◌≤◌, ◌<◌, ◌≡◌, ◌⊎◌, refl, sym, ap, ◌∙◌, arith, Bool-cases, inl, inr, ◌==◌,
  update, update_at, update_ne, weight_of_zero_sum, eq_of_test, ne_of_test, ltb, ltb→lt,
}
use cy_ph_os.Barrier.{
  Stage, outside, entering, draining, spinning, leaving, Thread, Barrier, new_barrier, reset, Step,
  enters, counts, sees, leaves, resets, Reaches, start, step,
}
use cy_ph_os.Barrier.Sums.{sum_of_ones, sum_of_zeros, some_weight}
use cy_ph_os.Barrier.Phase.{
  at_outside, at_entering, at_draining, at_waiting, threads_at, Gathers, Gathering, Draining, Phase,
  drained-Gathers, Gathers-ended, Drains-ended,
}
use cy_ph_os.Barrier.Steps.{
  sum_after, moved, enter-Gathering, enter-Draining, count_waiting-Gathering, see_ready-Draining,
  leave-Draining,
}

-- A thread after the last one has reset the barrier: outside, and ready for the next round.
abbrev Settled : ℕ → Thread → Type 0
Settled r u =
    Gathers (suc r) u.stage u.begun u.ended × (at_outside u.stage ≡ 1) × (at_entering u.stage ≡ 0)

reset-Gathering :
    (size cpu r : ℕ) (s : Barrier)
    → cpu < size
    → Draining size r s
    → (s.thread cpu).stage ≡ draining
    → s.waiting ≡ 0
    → Gathering size (suc r) (reset size cpu s)
unfolding reset
reset-Gathering size cpu r s lt d e nobody =
    let t : Thread = record {
      stage = outside;
      begun = (s.thread cpu).begun;
      ended = (s.thread cpu).ended + 1;
    } in
    let own : ((s.thread cpu).begun ≡ suc r) × ((s.thread cpu).ended ≡ r) =
      rw e at (d.threads cpu lt) in
    let waits = d.waits in
    let last = d.last in
    let m2 = moved size cpu s lt at_waiting t draining e in
    let m4 = moved size cpu s lt at_draining t draining e in
    let no_waits : sum_after size cpu s lt at_waiting t ≡ 0 = omega arith in
    let no_drains : sum_after size cpu s lt at_draining t ≡ 0 = omega arith in
    let after = update s.thread cpu t in
    let settled : (j : ℕ) → j < size → Settled r (after j) = λ j below.
      elim (Bool-cases (j == cpu)) [
        | inl k ↦
            rw (update_at s.thread cpu t (eq_of_test j cpu k))
              ((own.0, omega (arith, own.1)), refl, refl)
        | inr k ↦
            let same = update_ne s.thread cpu t (ne_of_test j cpu k) in
            rw same (
              drained-Gathers r (s.thread j).stage (s.thread j).begun (s.thread j).ended
                (ap (λ (u : Thread). at_waiting u.stage) (sym same)
                  ∙ weight_of_zero_sum (λ (u : Thread). at_waiting u.stage) size after j no_waits
                      below)
                (ap (λ (u : Thread). at_draining u.stage) (sym same)
                  ∙ weight_of_zero_sum (λ (u : Thread). at_draining u.stage) size after j no_drains
                      below)
                (d.threads j below))
      ] in
    record {
      outs =
          sum_of_ones (λ (u : Thread). at_outside u.stage) size after
            (λ j below. (settled j below).1);
      waits = no_waits ∙ sym nobody;
      locks =
          sum_of_zeros (λ (u : Thread). at_entering u.stage) size after
            (λ j below. (settled j below).2);
      more = omega arith;
      threads = λ j below. (settled j below).0;
    }

-- Every step keeps the phases.
Phase-Step :
    (size : ℕ) (s s' : Barrier) → size < 2 ^ 32 → Phase size s → Step size s s' → Phase size s'
Phase-Step size _ _ small (r, inl g) (enters cpu s lt e free) =
    elim (Bool-cases (s.not_ready == 1)) [
      | inl k ↦ (r, inr (enter-Draining size cpu s lt r small g e free k))
      | inr k ↦ (r, inl (enter-Gathering size cpu s lt r small g e free k))
    ]
Phase-Step size _ _ small (r, inr d) (enters cpu s lt e free) =
    absurd (true≢false (sym d.locked ∙ free))
Phase-Step size _ _ small (r, inl g) (counts cpu s lt e) =
    (r, inl (count_waiting-Gathering size cpu s lt r small g e))
Phase-Step size _ _ small (r, inr d) (counts cpu s lt e) = absurd (rw e at (d.threads cpu lt))
Phase-Step size _ _ small (r, inl g) (sees cpu s lt e none) =
    let more = g.more in absurd (omega arith)
Phase-Step size _ _ small (r, inr d) (sees cpu s lt e none) =
    (r, inr (see_ready-Draining size cpu s lt r small d e))
Phase-Step size _ _ small (r, inl g) (leaves cpu s lt e) = absurd (rw e at (g.threads cpu lt))
Phase-Step size _ _ small (r, inr d) (leaves cpu s lt e) =
    (r, inr (leave-Draining size cpu s lt r small d e))
Phase-Step size _ _ small (r, inl g) (resets cpu s lt e none) = absurd (rw e at (g.threads cpu lt))
Phase-Step size _ _ small (r, inr d) (resets cpu s lt e none) =
    (suc r, inl (reset-Gathering size cpu r s lt d e none))

Phase-new : (size : ℕ) → 0 < size → Phase size (new_barrier size)
unfolding new_barrier
Phase-new size more = (
  0,
  inl (record {
    outs = sum_of_ones (λ (u : Thread). at_outside u.stage) size _ (λ j below. refl);
    waits = sum_of_zeros (λ (u : Thread). at_waiting u.stage) size _ (λ j below. refl);
    locks = sum_of_zeros (λ (u : Thread). at_entering u.stage) size _ (λ j below. refl);
    more = more;
    threads = λ j below. (refl, refl);
  }),
)

Phase-Reaches : (size : ℕ) (s : Barrier) → 0 < size → size < 2 ^ 32 → Reaches size s → Phase size s
Phase-Reaches size _ more small start = Phase-new size more
Phase-Reaches size _ more small (step s s' before next) =
    Phase-Step size s s' small (Phase-Reaches size s more small before) next

-- In every state that threads of a barrier of at least one and fewer than 2^32 threads reach, no thread
-- has ended more calls of `await` than any other thread has begun: nobody leaves a round before
-- everybody has come to it.
pub Reaches-ended_le_begun :
    (size : ℕ) (s : Barrier) (i j : ℕ)
    → 0 < size
    → size < 2 ^ 32
    → Reaches size s
    → i < size
    → j < size
    → (s.thread i).ended ≤ (s.thread j).begun
Reaches-ended_le_begun size s i j more small reaches lt lt' =
    elim (Phase-Reaches size s more small reaches).1 [
      | inl g ↦
          Gathers-ended _ (s.thread i).stage (s.thread j).stage _ _ _ _ (g.threads i lt)
            (g.threads j lt')
      | inr d ↦
          Drains-ended _ (s.thread i).stage (s.thread j).stage _ _ _ _ (d.threads i lt)
            (d.threads j lt')
    ]

-- A stage with a weight is one of those that the weight counts.
outside_of : (st : Stage) → 0 < at_outside st → st ≡ outside
outside_of outside lt = refl
outside_of entering lt = absurd (omega arith)
outside_of draining lt = absurd (omega arith)
outside_of spinning lt = absurd (omega arith)
outside_of leaving lt = absurd (omega arith)

entering_of : (st : Stage) → 0 < at_entering st → st ≡ entering
entering_of outside lt = absurd (omega arith)
entering_of entering lt = refl
entering_of draining lt = absurd (omega arith)
entering_of spinning lt = absurd (omega arith)
entering_of leaving lt = absurd (omega arith)

draining_of : (st : Stage) → 0 < at_draining st → st ≡ draining
draining_of outside lt = absurd (omega arith)
draining_of entering lt = absurd (omega arith)
draining_of draining lt = refl
draining_of spinning lt = absurd (omega arith)
draining_of leaving lt = absurd (omega arith)

waiting_of : (st : Stage) → 0 < at_waiting st → (st ≡ spinning) ⊎ (st ≡ leaving)
waiting_of outside lt = absurd (omega arith)
waiting_of entering lt = absurd (omega arith)
waiting_of draining lt = absurd (omega arith)
waiting_of spinning lt = inl refl
waiting_of leaving lt = inr refl

-- For a barrier of `size` threads, 0 < size < 2^32: in every state that is reached, some thread can
-- take a step; the threads never all wait for each other.
pub Reaches-Step :
    (size : ℕ) (s : Barrier)
    → 0 < size
    → size < 2 ^ 32
    → Reaches size s
    → (s' : Barrier) × Step size s s'
Reaches-Step size s more small reaches = elim (Phase-Reaches size s more small reaches).1 [
  | inl g ↦ elim (Bool-cases s.ready_locked) [
    | inl k ↦
        let held : threads_at at_entering size s ≡ 1 = g.locks ∙ rw k refl in
        let (cpu, lt, at) =
          some_weight (λ (u : Thread). at_entering u.stage) size s.thread (omega arith) in
        (_, counts cpu s lt (entering_of (s.thread cpu).stage at))
    | inr k ↦
        let outs = g.outs in
        let left = g.more in
        let (cpu, lt, at) =
          some_weight (λ (u : Thread). at_outside u.stage) size s.thread (omega arith) in
        (_, enters cpu s lt (outside_of (s.thread cpu).stage at) k)
  ]
  | inr d ↦ elim (Bool-cases (ltb 0 s.waiting)) [
    | inl k ↦
        let waits = d.waits in
        let some = ltb→lt 0 s.waiting k in
        let (cpu, lt, at) =
          some_weight (λ (u : Thread). at_waiting u.stage) size s.thread (omega arith) in
        elim (waiting_of (s.thread cpu).stage at) [
          | inl e ↦ (_, sees cpu s lt e d.ready)
          | inr e ↦ (_, leaves cpu s lt e)
        ]
    | inr k ↦
        let last = d.last in
        let nobody : s.waiting ≡ 0 = ground arith in
        let (cpu, lt, at) =
          some_weight (λ (u : Thread). at_draining u.stage) size s.thread (omega arith) in
        (_, resets cpu s lt (draining_of (s.thread cpu).stage at) nobody)
  ]
]
