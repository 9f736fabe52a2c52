-- ===== src/Examples/Timers.antt =====
-- The timer at concrete inputs: three oneshot events, due in 1, 1 and 5 ticks, and two periodic ones.
use cy_ph_os.Base.{
  ℕ, ◌+◌, ◌^◌, ◌<◌, ◌≡◌, refl, List, [], ◌∷◌, ◌++◌, arith, ◌==◌, if◌then◌else◌, has, Bool-cases,
  inl, inr,
}
use cy_ph_os.Queue.{Ptr}
use cy_ph_os.Timer.{schedule_oneshot, tick_oneshot, tick_periodic}
use cy_ph_os.Timer.Schedule.{NoneDue, schedule, insert_due, due_at, one_later}
use cy_ph_os.Timer.Oneshot.{span, schedule_oneshot-insert_due}
use cy_ph_os.Timer.Tick.{IsRunning, next_ticks, tick_oneshot-schedule, tick_periodic_lem}

abbrev events : List Ptr
events = 8 ∷ 16 ∷ 24 ∷ []

abbrev remaining : Ptr → ℕ
remaining p = if p == 8 then 1 else (if p == 24 then 4 else 0)

span-events : 0 + span remaining events < 2 ^ 32
unfolding span
span-events = omega arith

schedule_oneshot-insert_due_example :
    schedule (schedule_oneshot 32 3 events remaining).1 0 (schedule_oneshot 32 3 events remaining).0
    ≡ insert_due 32 3 (schedule remaining 0 events)
schedule_oneshot-insert_due_example =
    schedule_oneshot-insert_due 32 3 events remaining (refl, (refl, (refl, tt))) refl (omega arith)
      (omega (arith, span-events))

tick_oneshot-schedule_example :
    (schedule remaining 0 events
      ≡ due_at 1 (tick_oneshot events remaining).0
        ++ one_later
            (schedule (tick_oneshot events remaining).2 0 (tick_oneshot events remaining).1))
    × NoneDue (schedule (tick_oneshot events remaining).2 0 (tick_oneshot events remaining).1)
tick_oneshot-schedule_example =
    tick_oneshot-schedule 8 (16 ∷ 24 ∷ []) remaining (refl, (refl, (refl, tt))) (omega arith)
      (omega arith)

abbrev running : Ptr → ℕ
running p = if p == 40 then 1 else 3

running-IsRunning : IsRunning (40 ∷ 48 ∷ []) running
running-IsRunning a h = elim (Bool-cases (a == 40)) [
  | inl e ↦ rw e (omega arith, omega arith)
  | inr e ↦ rw e (omega arith, omega arith)
]

tick_periodic_lem_example :
    ((tick_periodic (40 ∷ 48 ∷ []) (λ p. 10) running).1 40 ≡ next_ticks (λ p. 10) running 40)
    × (has 40 (tick_periodic (40 ∷ 48 ∷ []) (λ p. 10) running).0 ≡ (running 40 == 1))
tick_periodic_lem_example =
    tick_periodic_lem (40 ∷ 48 ∷ []) (λ p. 10) running 40 (refl, (refl, tt)) running-IsRunning refl
