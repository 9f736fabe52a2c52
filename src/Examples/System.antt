-- ===== src/Examples/System.antt =====
-- The system at a concrete start: two processors, three tasks and one priority queue per processor.
use cy_ph_os.Base.{ℕ, ◌+◌, refl, List, [], ◌∷◌, arith, Distinct, ◌==◌, if◌then◌else◌}
use cy_ph_os.Queue.{Ptr}
use cy_ph_os.Tasks.{Env, software_event, interrupt_event}
use cy_ph_os.Strategy.{SchedulingStrategy}
use cy_ph_os.Strategy.MultiPriority.{Queues, strategy}
use cy_ph_os.EventHandler.{
  EventHandler, new_event_handler, event_triggered, interrupt_event_triggered,
}
use cy_ph_os.EventHandler.Places.{IsRunnable}
use cy_ph_os.EventHandler.System.{Reaches, here, then_step, emit, interrupt, Reaches-IsRunnable}
use cy_ph_os.EventHandler.Start.{new_event_handler-IsRunnable}

abbrev env : Env
env = record {
  trigger = λ t. record { osc = t + 1; deps = []; priority = t; affinity = 0 };
  kind = λ e. if e == 7 then interrupt_event else software_event;
}

abbrev two : SchedulingStrategy env 2
two = strategy env 2

abbrev base : ℕ
base = 4096

abbrev no_tasks : Queues
no_tasks = λ i. []

abbrev tasks : List Ptr
tasks = 8 ∷ 16 ∷ 24 ∷ []

abbrev booted : EventHandler Queues
booted = new_event_handler no_tasks (8 ∷ 16 ∷ []) (24 ∷ [])

abbrev emitted : EventHandler Queues
emitted = event_triggered two 5 42 (3 ∷ 4 ∷ []) booted

abbrev interrupted : EventHandler Queues
interrupted = interrupt_event_triggered two 7 0 (6 ∷ []) emitted

tasks-Distinct : Distinct tasks
tasks-Distinct = (refl, (refl, (refl, tt)))

runnable : IsRunnable two base tasks booted
runnable =
    new_event_handler-IsRunnable two base no_tasks (8 ∷ 16 ∷ []) (24 ∷ []) (omega arith) (λ a. refl)

emitted-Reaches : Reaches two base booted emitted
emitted-Reaches = then_step booted emitted here (emit 5 42 (3 ∷ 4 ∷ []))

Reaches-IsRunnable_example : IsRunnable two base tasks interrupted
Reaches-IsRunnable_example =
    Reaches-IsRunnable two base tasks tasks-Distinct refl booted interrupted
      (then_step emitted interrupted emitted-Reaches (interrupt 7 0 (6 ∷ []))) runnable
