-- ===== src/Examples/Barriers.antt =====
-- The barrier at a concrete run: of two threads the first waits and the second, the last, has come.
use cy_ph_os.Base.{ℕ, ◌≤◌, ◌≡◌, refl, arith}
use cy_ph_os.Barrier.{
  Barrier, new_barrier, enter, count_waiting, see_ready, Step, enters, counts, sees, Reaches, start,
  step,
}
use cy_ph_os.Barrier.Waits.{Reaches-ended_le_begun, Reaches-Step}

abbrev first_in : Barrier
first_in = enter 0 (new_barrier 2)

abbrev first_waits : Barrier
first_waits = count_waiting 0 first_in

abbrev last_in : Barrier
last_in = enter 1 first_waits

abbrev first_goes : Barrier
first_goes = see_ready 0 last_in

run_of_two : Reaches 2 first_goes
unfolding enter count_waiting new_barrier cy_ph_os.Base.update
run_of_two =
    step last_in first_goes
      (step first_waits last_in
        (step first_in first_waits
          (step (new_barrier 2) first_in start (enters 0 (new_barrier 2) (omega arith) refl refl))
          (counts 0 first_in (omega arith) refl))
        (enters 1 first_waits (omega arith) refl refl))
      (sees 0 last_in (omega arith) refl refl)

Reaches-ended_le_begun_example : (first_goes.thread 0).ended ≤ (first_goes.thread 1).begun
Reaches-ended_le_begun_example =
    Reaches-ended_le_begun 2 first_goes 0 1 (omega arith) (omega arith) run_of_two (omega arith)
      (omega arith)

Reaches-Step_example : (s' : Barrier) × Step 2 first_goes s'
Reaches-Step_example = Reaches-Step 2 first_goes (omega arith) (omega arith) run_of_two
