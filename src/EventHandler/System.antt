-- ===== src/EventHandler/System.antt =====
-- The processors together: every processor takes its steps in its own time, in any order, and new
-- tasks come from events, from interrupts and from calls of triggers.
use mathlib.Core.Option.{some-injective}
use cy_ph_os.Base.{
  ℕ, ◌<◌, ◌≡◌, sym, ap, ◌∙◌, ◌≢◌, inl, inr, Bool-cases, some, List, ◌==◌, count, Distinct,
  ne_of_test,
}
use cy_ph_os.Queue.{Ptr, null}
use cy_ph_os.Tasks.{Env}
use cy_ph_os.StackPool.Held.{IsHeld-release}
use cy_ph_os.Strategy.{SchedulingStrategy}
use cy_ph_os.EventHandler.{
  EventHandler, event_triggered, interrupt_event_triggered, call_osc_trigger, event_task_finished,
  start_dispatching, dispatching,
}
use cy_ph_os.EventHandler.Places.{IsSystem, IsRunnable}
use cy_ph_os.EventHandler.Emit.{
  event_triggered-IsSystem, interrupt_event_triggered-IsSystem, call_osc_trigger-IsSystem,
}
use cy_ph_os.EventHandler.Keeps.{
  Keeps, event_triggered-Keeps, interrupt_event_triggered-Keeps, call_osc_trigger-Keeps,
  Keeps-IsHeld, Keeps-IsClean,
}
use cy_ph_os.EventHandler.Finish.{event_task_finished-IsRunnable}
use cy_ph_os.EventHandler.Dispatch.{dispatching-Dispatched}

module _ {env : Env} {n : ℕ} (strategy : SchedulingStrategy env n) (base : ℕ) where
  -- One step of the system. A processor that runs a task finishes it; one that runs none returns its
  -- stack, if it still has one, and then looks for a task.
  pub data Step (s : EventHandler strategy.Queues) : EventHandler strategy.Queues → Type 0 where
    emit :
        (event : Ptr) (arg : ℕ) (subscribers : List Ptr)
        → Step s (event_triggered strategy event arg subscribers s)
    interrupt :
        (event : Ptr) (arg : ℕ) (subscribers : List Ptr)
        → Step s (interrupt_event_triggered strategy event arg subscribers s)
    call : (dummy trigger : Ptr) (arg : ℕ) → Step s (call_osc_trigger strategy dummy trigger arg s)
    finish :
        (cpu : ℕ) → cpu < n → s.kernel.active cpu ≢ null → Step s (event_task_finished env cpu s).0
    start :
        (cpu : ℕ)
        → cpu < n
        → s.kernel.active cpu ≡ null
        → Step s (start_dispatching strategy base cpu s)
    dispatch :
        (cpu : ℕ) (x : Ptr) (s' : EventHandler strategy.Queues)
        → cpu < n
        → s.kernel.active cpu ≡ null
        → s.stack_pointers cpu ≡ null
        → dispatching strategy base cpu s ≡ some (x, s')
        → Step s s'

  pub data Reaches (s : EventHandler strategy.Queues) : EventHandler strategy.Queues → Type 0 where
    here : Reaches s s
    then_step : (s' s'' : EventHandler strategy.Queues) → Reaches s s' → Step s' s'' → Reaches s s''

  -- `dispatching` returns the stack, and nothing else changes.
  start_dispatching-IsRunnable :
      (all : List Ptr) (cpu : ℕ) (s : EventHandler strategy.Queues)
      → cpu < n
      → IsRunnable strategy base all s
      → IsRunnable strategy base all (start_dispatching strategy base cpu s)
  unfolding start_dispatching
  start_dispatching-IsRunnable all cpu s lt (sys, held, clean) =
      elim (Bool-cases (s.stack_pointers cpu == null)) [
        | inl e ↦ rw e (sys, held, clean)
        | inr e ↦ rw e (
          sys,
          IsHeld-release n base cpu s.kernel.stacks s.stack_pointers held lt
              (ne_of_test (s.stack_pointers cpu) null e),
          clean,
        )
      ]

  kept :
      (all : List Ptr) (s s' : EventHandler strategy.Queues)
      → Keeps s s'
      → IsRunnable strategy base all s
      → IsSystem strategy all s'
      → IsRunnable strategy base all s'
  kept all s s' k (sys, held, clean) sys' =
      (sys', Keeps-IsHeld strategy base s s' k held, Keeps-IsClean strategy s s' k clean)

  module _ (all : List Ptr) (distinct : Distinct all) (no_null : count null all ≡ 0) where
    pub Step-IsRunnable :
        (s s' : EventHandler strategy.Queues)
        → Step s s'
        → IsRunnable strategy base all s
        → IsRunnable strategy base all s'
    Step-IsRunnable s _ (emit event arg ts) h =
        kept all s (event_triggered strategy event arg ts s)
          (event_triggered-Keeps strategy event arg ts s) h
          (event_triggered-IsSystem strategy all distinct no_null event arg ts s h.0)
    Step-IsRunnable s _ (interrupt event arg ts) h =
        kept all s (interrupt_event_triggered strategy event arg ts s)
          (interrupt_event_triggered-Keeps strategy event arg ts s) h
          (interrupt_event_triggered-IsSystem strategy all distinct no_null event arg ts s h.0)
    Step-IsRunnable s _ (call dummy trigger arg) h =
        kept all s (call_osc_trigger strategy dummy trigger arg s)
          (call_osc_trigger-Keeps strategy dummy trigger arg s) h
          (call_osc_trigger-IsSystem strategy all distinct no_null dummy trigger arg s h.0)
    Step-IsRunnable s _ (finish cpu lt busy) h =
        (event_task_finished-IsRunnable strategy all distinct no_null base cpu s lt busy h).0
    Step-IsRunnable s _ (start cpu lt idle) h = start_dispatching-IsRunnable all cpu s lt h
    Step-IsRunnable s s' (dispatch cpu x _ lt idle spent e) h =
        let (y, t, run, at, good, free) =
          dispatching-Dispatched strategy all distinct no_null base cpu s lt idle spent h in
        let same : t ≡ s' =
          ap (λ (r : Ptr × EventHandler strategy.Queues). r.1)
            (some-injective (y, t) (x, s') (sym run ∙ e)) in
        rw (← same) good

    -- After any sequence of steps of the processors from a state that satisfies the invariant, the
    -- invariant holds again: every task of `all` is in exactly one of the pools, the ready queues
    -- and the processors, no two processors run tasks that share a component, exactly the stacks
    -- that processors hold are marked used, and a task that no processor runs has no stack. `all`
    -- has no repetition and no nullptr.
    pub Reaches-IsRunnable :
        (s s' : EventHandler strategy.Queues)
        → Reaches s s'
        → IsRunnable strategy base all s
        → IsRunnable strategy base all s'
    Reaches-IsRunnable s _ here h = h
    Reaches-IsRunnable s _ (then_step s' s'' r e) h =
        Step-IsRunnable s' s'' e (Reaches-IsRunnable s s' r h)
