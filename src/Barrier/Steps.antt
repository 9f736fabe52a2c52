-- ===== src/Barrier/Steps.antt =====
-- The steps of the threads keep the phases of the barrier.
use cy_ph_os.Base.{
  ℕ, suc, ◌+◌, ◌^◌, ◌≤◌, ◌<◌, ◌≡◌, refl, sym, ap, ◌∙◌, true, false, arith, Bool-cases, inl, inr,
  ◌==◌, update, update_at, update_ne, sum_below, sum-update, weight_of_zero_sum, eq_of_test,
  ne_of_test,
}
use cy_ph_os.Barrier.{
  Stage, outside, entering, draining, spinning, leaving, Thread, Barrier, enter, count_waiting,
  see_ready, leave,
}
use cy_ph_os.Barrier.Sums.{sum-le, sum_of_zeros}
use cy_ph_os.Barrier.Phase.{
  at_outside, at_entering, at_draining, at_waiting, threads_at, Gathers, Drains, Gathering,
  Draining, all_threads, gathered-Drains, gathered_not_draining,
}

abbrev AtMostOne : (at : Stage → ℕ) → Type 0
AtMostOne at = (st : Stage) → at st ≤ 1

outside_one : AtMostOne at_outside
outside_one outside = omega arith
outside_one entering = omega arith
outside_one draining = omega arith
outside_one spinning = omega arith
outside_one leaving = omega arith

waiting_one : AtMostOne at_waiting
waiting_one outside = omega arith
waiting_one entering = omega arith
waiting_one draining = omega arith
waiting_one spinning = omega arith
waiting_one leaving = omega arith

module _ (size cpu : ℕ) (s : Barrier) (lt : cpu < size) where
  -- The sum over the threads after the thread has changed.
  abbrev pub sum_after : (Stage → ℕ) → Thread → ℕ
  sum_after at t = sum_below (λ (u : Thread). at u.stage) size (update s.thread cpu t)

  pub moved :
      (at : Stage → ℕ) (t : Thread) (st : Stage)
      → (s.thread cpu).stage ≡ st
      → at st + sum_after at t ≡ at t.stage + threads_at at size s
  moved at t st e =
      ap (λ x. at x + sum_after at t) (sym e)
      ∙ sum-update (λ (u : Thread). at u.stage) size s.thread cpu t lt

  at_most : (at : Stage → ℕ) → AtMostOne at → threads_at at size s ≤ size
  at_most at one = sum-le (λ (u : Thread). at u.stage) size s.thread (λ u. one u.stage)

  after_at_most : (at : Stage → ℕ) (t : Thread) → AtMostOne at → sum_after at t ≤ size
  after_at_most at t one =
      sum-le (λ (u : Thread). at u.stage) size (update s.thread cpu t) (λ u. one u.stage)

  module _ (r : ℕ) (small : size < 2 ^ 32) where
    -- Another than the last thread begins.
    pub enter-Gathering :
        Gathering size r s
        → (s.thread cpu).stage ≡ outside
        → s.ready_locked ≡ false
        → (s.not_ready == 1) ≡ false
        → Gathering size r (enter cpu s)
    unfolding enter
    enter-Gathering g e free others =
        let t : Thread = record {
          stage = entering;
          begun = (s.thread cpu).begun + 1;
          ended = (s.thread cpu).ended;
        } in
        let own : ((s.thread cpu).begun ≡ r) × ((s.thread cpu).ended ≡ r) =
          rw e at (g.threads cpu lt) in
        let outs = g.outs in
        let more = g.more in
        let waits = g.waits in
        let ne = ne_of_test s.not_ready 1 others in
        let m1 = moved at_outside t outside e in
        let m2 = moved at_waiting t outside e in
        let m3 = moved at_entering t outside e in
        let bound = at_most at_outside outside_one in
        let none_inside : threads_at at_entering size s ≡ 0 = g.locks ∙ rw free refl in
        rw others (record {
          outs = omega arith;
          waits = omega arith;
          locks = omega arith;
          more = omega arith;
          threads =
              all_threads (λ u. Gathers r u.stage u.begun u.ended) size cpu s.thread t
                (omega (arith, own.0), own.1) g.threads;
        })

    -- The last thread begins: all have gathered.
    pub enter-Draining :
        Gathering size r s
        → (s.thread cpu).stage ≡ outside
        → s.ready_locked ≡ false
        → (s.not_ready == 1) ≡ true
        → Draining size r (enter cpu s)
    unfolding enter
    enter-Draining g e free only =
        let t : Thread = record {
          stage = draining;
          begun = (s.thread cpu).begun + 1;
          ended = (s.thread cpu).ended;
        } in
        let own : ((s.thread cpu).begun ≡ r) × ((s.thread cpu).ended ≡ r) =
          rw e at (g.threads cpu lt) in
        let one = eq_of_test s.not_ready 1 only in
        let outs = g.outs in
        let waits = g.waits in
        let m1 = moved at_outside t outside e in
        let m2 = moved at_waiting t outside e in
        let m3 = moved at_entering t outside e in
        let m4 = moved at_draining t outside e in
        let none_inside : threads_at at_entering size s ≡ 0 = g.locks ∙ rw free refl in
        let none_drains : threads_at at_draining size s ≡ 0 =
          sum_of_zeros (λ (u : Thread). at_draining u.stage) size s.thread
            (λ j below.
              gathered_not_draining r (s.thread j).stage (s.thread j).begun (s.thread j).ended
                (g.threads j below)) in
        let no_outs : sum_after at_outside t ≡ 0 = omega arith in
        let no_enters : sum_after at_entering t ≡ 0 = omega arith in
        let after = update s.thread cpu t in
        let settled : (j : ℕ)
            → j < size
            → Drains r (after j).stage (after j).begun (after j).ended =
          λ j below. elim (Bool-cases (j == cpu)) [
            | inl k ↦
                rw (update_at s.thread cpu t (eq_of_test j cpu k)) (omega (arith, own.0), own.1)
            | inr k ↦
                let same = update_ne s.thread cpu t (ne_of_test j cpu k) in
                rw same (
                  gathered-Drains r (s.thread j).stage (s.thread j).begun (s.thread j).ended
                    (ap (λ (u : Thread). at_outside u.stage) (sym same)
                      ∙ weight_of_zero_sum (λ (u : Thread). at_outside u.stage) size after j no_outs
                          below)
                    (ap (λ (u : Thread). at_entering u.stage) (sym same)
                      ∙ weight_of_zero_sum (λ (u : Thread). at_entering u.stage) size after j
                          no_enters below)
                    (g.threads j below))
          ] in
        rw only (record {
          ready = omega arith;
          locked = refl;
          waits = omega arith;
          last = omega arith;
          threads = settled;
        })

    pub count_waiting-Gathering :
        Gathering size r s
        → (s.thread cpu).stage ≡ entering
        → Gathering size r (count_waiting cpu s)
    unfolding count_waiting
    count_waiting-Gathering g e =
        let t : Thread = record (s.thread cpu) { stage = spinning } in
        let own : ((s.thread cpu).begun ≡ suc r) × ((s.thread cpu).ended ≡ r) =
          rw e at (g.threads cpu lt) in
        let outs = g.outs in
        let waits = g.waits in
        let locks = g.locks in
        let m1 = moved at_outside t entering e in
        let m2 = moved at_waiting t entering e in
        let m3 = moved at_entering t entering e in
        let bound = after_at_most at_waiting t waiting_one in
        record {
          outs = omega arith;
          waits = omega arith;
          locks = elim (Bool-cases s.ready_locked) [
            | inl k ↦
                (let held : threads_at at_entering size s ≡ 1 = locks ∙ rw k refl in omega arith)
            | inr k ↦
                (let held : threads_at at_entering size s ≡ 0 = locks ∙ rw k refl in
                  absurd (omega arith))
          ];
          more = g.more;
          threads =
              all_threads (λ u. Gathers r u.stage u.begun u.ended) size cpu s.thread t own
                g.threads;
        }

    pub see_ready-Draining :
        Draining size r s → (s.thread cpu).stage ≡ spinning → Draining size r (see_ready cpu s)
    unfolding see_ready
    see_ready-Draining d e =
        let t : Thread = record (s.thread cpu) { stage = leaving } in
        let own : ((s.thread cpu).begun ≡ suc r) × ((s.thread cpu).ended ≡ r) =
          rw e at (d.threads cpu lt) in
        let waits = d.waits in
        let last = d.last in
        let m2 = moved at_waiting t spinning e in
        let m4 = moved at_draining t spinning e in
        record {
          ready = d.ready;
          locked = d.locked;
          waits = omega arith;
          last = omega arith;
          threads =
              all_threads (λ u. Drains r u.stage u.begun u.ended) size cpu s.thread t own d.threads;
        }

    pub leave-Draining :
        Draining size r s → (s.thread cpu).stage ≡ leaving → Draining size r (leave cpu s)
    unfolding leave
    leave-Draining d e =
        let t : Thread = record {
          stage = outside;
          begun = (s.thread cpu).begun;
          ended = (s.thread cpu).ended + 1;
        } in
        let own : ((s.thread cpu).begun ≡ suc r) × ((s.thread cpu).ended ≡ r) =
          rw e at (d.threads cpu lt) in
        let waits = d.waits in
        let last = d.last in
        let m2 = moved at_waiting t leaving e in
        let m4 = moved at_draining t leaving e in
        let bound = at_most at_waiting waiting_one in
        record {
          ready = d.ready;
          locked = d.locked;
          waits = omega arith;
          last = omega arith;
          threads =
              all_threads (λ u. Drains r u.stage u.begun u.ended) size cpu s.thread t
                (own.0, omega (arith, own.1)) d.threads;
        }
