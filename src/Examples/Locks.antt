-- ===== src/Examples/Locks.antt =====
-- The spinlock of two processors at concrete inputs: processor 0 holds it and processor 1 waits.
use mathlib.Core.Bool.{true≢false}
use cy_ph_os.Base.{ℕ, ◌<◌, ◌≡◌, ◌≢◌, ◌⊎◌, refl, sym, ap, ◌∙◌, List, [], arith, update}
use cy_ph_os.Spinlock.{
  Spinlock, idle, waiting, holding, new_spinlock, take_ticket, pass, takes, passes, Reaches, start,
  step,
}
use cy_ph_os.Spinlock.Serves.{Serves, is_idle}
use cy_ph_os.Spinlock.Exclusion.{Turn, Step-Turn, Reaches-exclusion, Reaches-turn}

abbrev held : Spinlock
held = take_ticket 1 (pass 0 (take_ticket 0 new_spinlock))

held-Reaches : Reaches 2 held
unfolding take_ticket pass update
held-Reaches =
    step (pass 0 (take_ticket 0 new_spinlock)) held
      (step (take_ticket 0 new_spinlock) (pass 0 (take_ticket 0 new_spinlock))
        (step new_spinlock (take_ticket 0 new_spinlock) start
          (takes 0 new_spinlock (omega arith) refl))
        (passes 0 (take_ticket 0 new_spinlock) (omega arith) refl))
      (takes 1 (pass 0 (take_ticket 0 new_spinlock)) (omega arith) refl)

first_holds : held.stage 0 ≡ holding 0
unfolding take_ticket pass update
first_holds = refl

Reaches-exclusion_example : ◌≡◌ {A = ℕ} 0 0
Reaches-exclusion_example =
    Reaches-exclusion 2 held 0 0 0 0 (omega arith) held-Reaches first_holds first_holds

first_busy : held.stage 0 ≢ idle
first_busy e = true≢false (ap is_idle (sym e ∙ first_holds))

Reaches-turn_example :
    (c : ℕ) × (c < 2)
    × ((held.stage c ≡ waiting held.active) ⊎ (held.stage c ≡ holding held.active))
Reaches-turn_example = Reaches-turn 2 held 0 (omega arith) held-Reaches first_busy

new-Serves : Serves 2 new_spinlock []
new-Serves = record {
  front = tt;
  others = λ c o. refl;
  members = λ c i. absurd (true≢false (sym i));
  distinct = tt;
  next = refl;
  small = omega arith;
  fits = refl;
}

Step-Turn_example : (q' : List ℕ) × Turn [] q' × Serves 2 (take_ticket 0 new_spinlock) q'
Step-Turn_example =
    Step-Turn 2 new_spinlock (take_ticket 0 new_spinlock) [] (omega arith) new-Serves
      (takes 0 new_spinlock (omega arith) refl)
