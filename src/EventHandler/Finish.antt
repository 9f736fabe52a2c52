-- ===== src/EventHandler/Finish.antt =====
-- EventHandler.cc, `eventTaskFinished`: the task that a processor ran.
use cy_ph_os.Base.{
  ℕ, ◌<◌, ◌≡◌, refl, ◌≢◌, false, List, [], ◌∷◌, arith, ◌==◌, count, count-append, Distinct, update,
  update_at, update_ne, Bool-cases, inl, inr, eq_of_test, ne_of_test, sym, ap, ◌∙◌,
}
use cy_ph_os.Queue.{Ptr, null}
use cy_ph_os.Tasks.{
  Env, Tasks, Task, EventType, software_event, interrupt_event, timer_oneshot, timer_periodic,
  dummy_call_event,
}
use cy_ph_os.Locking.{unlock_task}
use cy_ph_os.Locking.Exclusion.{unlock_task-IsExclusive}
use cy_ph_os.Strategy.{SchedulingStrategy, set_stack}
use cy_ph_os.EventHandler.{
  EventHandler, requeue_event_task, requeue_interrupt_event_task, requeue, event_task_finished,
}
use cy_ph_os.EventHandler.Places.{
  running-clear, IsSystem, IsRunnable, Holds, IsExclusive-frame, update_trigger,
}
use cy_ph_os.EventHandler.Emit.{Holds-update}

-- Writing a task without a stack gives no task one.
cleared :
    (tasks : Tasks) (t : Ptr) (task : Task)
    → task.stack ≡ null
    → (a : Ptr) → (tasks a).stack ≡ null
    → (update tasks t task a).stack ≡ null
cleared tasks t task e a h = elim (Bool-cases (a == t)) [
  | inl z ↦ ap (λ (k : Task). k.stack) (update_at tasks t task (eq_of_test a t z)) ∙ e
  | inr z ↦ ap (λ (k : Task). k.stack) (update_ne tasks t task (ne_of_test a t z)) ∙ h
]

module _ {env : Env} {n : ℕ} (strategy : SchedulingStrategy env n) (all : List Ptr)
    (distinct : Distinct all) (no_null : count null all ≡ 0) where
  requeue_event_task-IsSystem :
      (x : Ptr) (s : EventHandler strategy.Queues)
      → Holds strategy all x s
      → IsSystem strategy all (requeue_event_task x s)
  unfolding requeue_event_task
  requeue_event_task-IsSystem x s h =
      let task = record (s.kernel.tasks x) {
        stack = null;
        enqueued = false;
        event = null;
        trigger = null;
      } in
      let (ne, pl, ex) = Holds-update strategy all distinct no_null x task s h in
      ((λ a. omega (arith, pl a, count-append a s.pool (x ∷ []))), ex)

  requeue_interrupt_event_task-IsSystem :
      (x : Ptr) (s : EventHandler strategy.Queues)
      → Holds strategy all x s
      → IsSystem strategy all (requeue_interrupt_event_task x s)
  unfolding requeue_interrupt_event_task
  requeue_interrupt_event_task-IsSystem x s h =
      let task = record (s.kernel.tasks x) {
        stack = null;
        enqueued = false;
        event = null;
        trigger = null;
      } in
      let (ne, pl, ex) = Holds-update strategy all distinct no_null x task s h in
      ((λ a. omega (arith, pl a, count-append a s.interrupt_pool (x ∷ []))), ex)

  requeue-IsSystem :
      (k : EventType) (event x : Ptr) (s : EventHandler strategy.Queues)
      → Holds strategy all x s
      → IsSystem strategy all (requeue k event x s).0
  requeue-IsSystem software_event event x s h = requeue_event_task-IsSystem x s h
  requeue-IsSystem interrupt_event event x s h = requeue_interrupt_event_task-IsSystem x s h
  requeue-IsSystem timer_oneshot event x s h = requeue_event_task-IsSystem x s h
  requeue-IsSystem timer_periodic event x s h = requeue_event_task-IsSystem x s h
  requeue-IsSystem dummy_call_event event x s h = requeue_event_task-IsSystem x s h

  pub event_task_finished-IsSystem :
      (cpu : ℕ) (s : EventHandler strategy.Queues)
      → cpu < n
      → s.kernel.active cpu ≢ null
      → IsSystem strategy all s
      → IsSystem strategy all (event_task_finished env cpu s).0
  unfolding event_task_finished unlock_task
  event_task_finished-IsSystem cpu s lt busy (pl, ex) =
      let x = s.kernel.active cpu in
      let tasks = set_stack s.kernel.tasks x null in
      let active = unlock_task cpu x s.kernel.active in
      let same : (a : Ptr) → (tasks a).trigger ≡ (s.kernel.tasks a).trigger =
        update_trigger s.kernel.tasks x (record (s.kernel.tasks x) { stack = null }) refl in
      requeue-IsSystem _ _ x _ (
        busy,
        (λ a. omega (arith, pl a, running-clear n cpu s.kernel.active x a lt refl busy)),
        IsExclusive-frame env n s.kernel.tasks tasks active (λ i hi ne. same (active i))
            (unlock_task-IsExclusive env s.kernel.tasks n cpu x s.kernel.active ex).0,
      )

  -- No task gets a stack when one goes back, and it loses its own.
  requeue-unchanged :
      (k : EventType) (event x : Ptr) (s : EventHandler strategy.Queues)
      → ((requeue k event x s).0.kernel.active ≡ s.kernel.active)
        × ((requeue k event x s).0.kernel.stacks ≡ s.kernel.stacks)
        × ((requeue k event x s).0.stack_pointers ≡ s.stack_pointers)
        × ((a : Ptr)
            → (s.kernel.tasks a).stack ≡ null
            → ((requeue k event x s).0.kernel.tasks a).stack ≡ null)
  unfolding requeue_event_task requeue_interrupt_event_task
  requeue-unchanged software_event event x s = (refl, refl, refl, cleared s.kernel.tasks x _ refl)
  requeue-unchanged interrupt_event event x s = (refl, refl, refl, cleared s.kernel.tasks x _ refl)
  requeue-unchanged timer_oneshot event x s = (refl, refl, refl, cleared s.kernel.tasks x _ refl)
  requeue-unchanged timer_periodic event x s = (refl, refl, refl, cleared s.kernel.tasks x _ refl)
  requeue-unchanged dummy_call_event event x s = (refl, refl, refl, cleared s.kernel.tasks x _ refl)

  finished :
      (cpu : ℕ) (s : EventHandler strategy.Queues)
      → let s' = (event_task_finished env cpu s).0 in
        (s'.kernel.active ≡ update s.kernel.active cpu null)
        × (s'.kernel.stacks ≡ s.kernel.stacks)
        × (s'.stack_pointers ≡ s.stack_pointers)
        × ((a : Ptr)
            → (set_stack s.kernel.tasks (s.kernel.active cpu) null a).stack ≡ null
            → (s'.kernel.tasks a).stack ≡ null)
  unfolding event_task_finished unlock_task
  finished cpu s = requeue-unchanged _ _ (s.kernel.active cpu) _

  -- `eventTaskFinished` keeps the invariant, and the processor is idle afterwards.
  pub event_task_finished-IsRunnable :
      (base cpu : ℕ) (s : EventHandler strategy.Queues)
      → cpu < n
      → s.kernel.active cpu ≢ null
      → IsRunnable strategy base all s
      → IsRunnable strategy base all (event_task_finished env cpu s).0
        × ((event_task_finished env cpu s).0.kernel.active cpu ≡ null)
  event_task_finished-IsRunnable base cpu s lt busy (sys, held, clean) =
      let (act, st, sp, tk) = finished cpu s in
      let x = s.kernel.active cpu in
      (
        (
          event_task_finished-IsSystem cpu s lt busy sys,
          rw (st, sp) held,
          (λ a na off. tk a (elim (Bool-cases (a == x)) [
            | inl z ↦
                ap (λ (k : Task). k.stack)
                  (update_at s.kernel.tasks x (record (s.kernel.tasks x) { stack = null })
                    (eq_of_test a x z))
            | inr z ↦
                ap (λ (k : Task). k.stack)
                  (update_ne s.kernel.tasks x (record (s.kernel.tasks x) { stack = null })
                    (ne_of_test a x z))
                ∙ clean a na (λ c hc e. still a c na (ne_of_test a x z) act off hc e)
          ])),
        ),
        ap (λ (f : ℕ → Ptr). f cpu) act ∙ update_at s.kernel.active cpu null refl,
      )
    where
      still :
          {active' : ℕ → Ptr} (a c : ℕ)
          → a ≢ null
          → a ≢ s.kernel.active cpu
          → active' ≡ update s.kernel.active cpu null
          → ((i : ℕ) → i < n → active' i ≢ a)
          → c < n
          → s.kernel.active c ≢ a
      still a c na nx act off hc e = elim (Bool-cases (c == cpu)) [
        | inl z ↦ nx (sym e ∙ ap s.kernel.active (eq_of_test c cpu z))
        | inr z ↦ off c hc (
            ap (λ (f : ℕ → Ptr). f c) act
            ∙ update_ne s.kernel.active cpu null (ne_of_test c cpu z)
            ∙ e)
      ]
