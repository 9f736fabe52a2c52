-- ===== src/EventHandler/Keeps.antt =====
-- EventHandler.cc, new tasks: the fields that they do not write.
use cy_ph_os.Base.{
  ℕ, ◌≡◌, refl, sym, ap, ◌∙◌, inl, inr, true, Bool-cases, List, [], ◌∷◌, ◌==◌, update, update_at,
  update_ne, eq_of_test, ne_of_test,
}
use cy_ph_os.Queue.{Ptr, null}
use cy_ph_os.Tasks.{Env, Tasks, Task}
use cy_ph_os.StackPool.Held.{IsHeld}
use cy_ph_os.Strategy.{SchedulingStrategy, enqueue_event}
use cy_ph_os.EventHandler.{
  EventHandler, dequeue_first, get_task, get_interrupt_task, prepare, ready_task, trigger_all,
  event_triggered, interrupt_event_triggered, call_osc_trigger,
}
use cy_ph_os.EventHandler.Places.{IsClean}

-- A change of a task that keeps its stack keeps every stack.
pub update_stack :
    (tasks : Tasks) (t : Ptr) (task : Task)
    → task.stack ≡ (tasks t).stack
    → (a : Ptr) → (update tasks t task a).stack ≡ (tasks a).stack
update_stack tasks t task e a = elim (Bool-cases (a == t)) [
  | inl h ↦
      let h' : a ≡ t = eq_of_test a t h in
      ap (λ (k : Task). k.stack) (update_at tasks t task h')
      ∙ e
      ∙ ap (λ b. (tasks b).stack) (sym h')
  | inr h ↦ ap (λ (k : Task). k.stack) (update_ne tasks t task (ne_of_test a t h))
]

abbrev pub Keeps : {Q : Type 0} → EventHandler Q → EventHandler Q → Type 0
Keeps s s' =
    (s'.kernel.active ≡ s.kernel.active)
    × (s'.kernel.stacks ≡ s.kernel.stacks)
    × (s'.stack_pointers ≡ s.stack_pointers)
    × ((a : Ptr) → (s'.kernel.tasks a).stack ≡ (s.kernel.tasks a).stack)

Keeps-trans : {Q : Type 0} (s s' s'' : EventHandler Q) → Keeps s s' → Keeps s' s'' → Keeps s s''
Keeps-trans s s' s'' (a, b, c, d) (a', b', c', d') = (a' ∙ a, b' ∙ b, c' ∙ c, λ t. d' t ∙ d t)

get_task-Keeps : {Q : Type 0} (s : EventHandler Q) → Keeps s (get_task s).1
unfolding get_task
get_task-Keeps s = elim (Bool-cases ((dequeue_first s.pool).0 == null)) [
  | inl e ↦ rw e (refl, refl, refl, λ a. refl)
  | inr e ↦
      let x = (dequeue_first s.pool).0 in
      rw e (
        refl,
        refl,
        refl,
        update_stack s.kernel.tasks x (record (s.kernel.tasks x) { timestamp = s.last_event_id })
            refl,
      )
]

get_interrupt_task-Keeps : {Q : Type 0} (s : EventHandler Q) → Keeps s (get_interrupt_task s).1
unfolding get_interrupt_task
get_interrupt_task-Keeps s = elim (Bool-cases ((dequeue_first s.interrupt_pool).0 == null)) [
  | inl e ↦ rw e (refl, refl, refl, λ a. refl)
  | inr e ↦
      let x = (dequeue_first s.interrupt_pool).0 in
      rw e (
        refl,
        refl,
        refl,
        update_stack s.kernel.tasks x (record (s.kernel.tasks x) { timestamp = s.last_event_id })
            refl,
      )
]

module _ {env : Env} {n : ℕ} (strategy : SchedulingStrategy env n) where
  submit-Keeps :
      (x event trigger : Ptr) (arg : ℕ) (s : EventHandler strategy.Queues)
      → Keeps s (ready_task strategy x (prepare x event trigger arg s))
  unfolding ready_task enqueue_event
  submit-Keeps x event trigger arg s =
      let task = record (s.kernel.tasks x) { event = event; trigger = trigger; arg = arg } in
      let tasks = update s.kernel.tasks x task in
      let first : (a : Ptr) → (tasks a).stack ≡ (s.kernel.tasks a).stack =
        update_stack s.kernel.tasks x task refl in
      elim (Bool-cases (x == null)) [
        | inl e ↦ rw e (refl, refl, refl, first)
        | inr e ↦ rw e (
          refl,
          refl,
          refl,
          λ a. update_stack tasks x (record (tasks x) { enqueued = true }) refl a ∙ first a,
        )
      ]

  pub trigger_all-Keeps :
      (get : EventHandler strategy.Queues → Ptr × EventHandler strategy.Queues)
      → ((s : EventHandler strategy.Queues) → Keeps s (get s).1)
      → (event : Ptr) (arg : ℕ) (ts : List Ptr) (s : EventHandler strategy.Queues)
      → Keeps s (trigger_all strategy get event arg ts s)
  unfolding trigger_all
  trigger_all-Keeps get keeps event arg [] s = (refl, refl, refl, λ a. refl)
  trigger_all-Keeps get keeps event arg (t ∷ ts) s =
      let x = (get s).0 in
      let s1 = (get s).1 in
      let s2 = ready_task strategy x (prepare x event t arg s1) in
      elim (Bool-cases (x == null)) [
        | inl e ↦ rw e (keeps s)
        | inr e ↦ rw e (
            Keeps-trans s s1 (trigger_all strategy get event arg ts s2) (keeps s) (
              Keeps-trans s1 s2 (trigger_all strategy get event arg ts s2)
                (submit-Keeps x event t arg s1) (trigger_all-Keeps get keeps event arg ts s2)))
      ]

  pub event_triggered-Keeps :
      (event : Ptr) (arg : ℕ) (ts : List Ptr) (s : EventHandler strategy.Queues)
      → Keeps s (event_triggered strategy event arg ts s)
  unfolding event_triggered
  event_triggered-Keeps event arg ts s = trigger_all-Keeps get_task get_task-Keeps event arg ts s

  pub interrupt_event_triggered-Keeps :
      (event : Ptr) (arg : ℕ) (ts : List Ptr) (s : EventHandler strategy.Queues)
      → Keeps s (interrupt_event_triggered strategy event arg ts s)
  unfolding interrupt_event_triggered
  interrupt_event_triggered-Keeps event arg ts s =
      trigger_all-Keeps get_interrupt_task get_interrupt_task-Keeps event arg ts s

  pub call_osc_trigger-Keeps :
      (dummy trigger : Ptr) (arg : ℕ) (s : EventHandler strategy.Queues)
      → Keeps s (call_osc_trigger strategy dummy trigger arg s)
  unfolding call_osc_trigger
  call_osc_trigger-Keeps dummy trigger arg s =
      let x = (get_task s).0 in
      let s1 = (get_task s).1 in
      elim (Bool-cases (x == null)) [
        | inl e ↦ rw e (get_task-Keeps s)
        | inr e ↦ rw e (
            Keeps-trans s s1 (ready_task strategy x (prepare x dummy trigger arg s1))
              (get_task-Keeps s) (submit-Keeps x dummy trigger arg s1))
      ]

  -- Stacks and their holders are right after any such step.
  pub Keeps-IsHeld :
      (base : ℕ) (s s' : EventHandler strategy.Queues)
      → Keeps s s'
      → IsHeld n base s.kernel.stacks s.stack_pointers
      → IsHeld n base s'.kernel.stacks s'.stack_pointers
  Keeps-IsHeld base s s' (act, st, sp, tk) h = rw (st, sp) h

  pub Keeps-IsClean :
      (s s' : EventHandler strategy.Queues) → Keeps s s' → IsClean strategy s → IsClean strategy s'
  Keeps-IsClean s s' (act, st, sp, tk) h a na off =
      tk a ∙ h a na (λ c lt e. off c lt (ap (λ (f : ℕ → Ptr). f c) act ∙ e))
