-- ===== src/EventHandler/Emit.antt =====
-- EventHandler.cc, `eventTriggered`, `interruptEventTriggered` and `callOSCTrigger`: new tasks.
use cy_ph_os.Base.{
  ℕ, ◌+◌, ◌≡◌, refl, sym, ap, ◌∙◌, ◌≢◌, ◌⊎◌, inl, inr, true, false, List, [], ◌∷◌, arith, ◌==◌,
  count, Distinct, update, update_ne, test_of_ne,
}
use cy_ph_os.Queue.{Ptr, null}
use cy_ph_os.Tasks.{Env, Task}
use cy_ph_os.Strategy.{SchedulingStrategy, enqueue_event}
use cy_ph_os.EventHandler.{
  EventHandler, set_tasks, stamp, get_task, get_interrupt_task, prepare, ready_task, trigger_all,
  event_triggered, interrupt_event_triggered, call_osc_trigger,
}
use cy_ph_os.EventHandler.Places.{
  is, running, count_le_one, not_running, IsExclusive-frame, IsSystem, Holds,
}

module _ {env : Env} {n : ℕ} (strategy : SchedulingStrategy env n) (all : List Ptr)
    (distinct : Distinct all) (no_null : count null all ≡ 0) where
  -- A change of the task that a function holds is no change for the processors.
  pub Holds-update :
      (x : Ptr) (task : Task) (s : EventHandler strategy.Queues)
      → Holds strategy all x s
      → Holds strategy all x (set_tasks s (update s.kernel.tasks x task))
  Holds-update x task s (ne, pl, ex) =
      let free : running n s.kernel.active x ≡ 0 =
        ground (arith, pl x, count_le_one all x distinct) in
      (
        ne,
        pl,
        IsExclusive-frame env n s.kernel.tasks (update s.kernel.tasks x task) s.kernel.active
            (λ i lt busy.
              ap (λ (t : Task). t.trigger)
                (update_ne s.kernel.tasks x task (not_running n s.kernel.active x free i lt busy)))
            ex,
      )

  -- What taking a task from a pool gives: no task, or one that the caller then holds.
  abbrev pub Got : Ptr × EventHandler strategy.Queues → Type 0
  Got r = ((r.0 ≡ null) × IsSystem strategy all r.1) ⊎ Holds strategy all r.0 r.1

  get_task_empty :
      (s : EventHandler strategy.Queues) → s.pool ≡ [] → get_task s ≡ (null, record s { pool = [] })
  unfolding get_task
  get_task_empty s e = rw e

  get_task_next :
      (s : EventHandler strategy.Queues) (x : Ptr) (xs : List Ptr)
      → s.pool ≡ x ∷ xs
      → x ≢ null
      → get_task s ≡ (x, stamp x (record s { pool = xs }))
  unfolding get_task
  get_task_next s x xs e ne = rw (e, test_of_ne x null ne)

  get_interrupt_task_empty :
      (s : EventHandler strategy.Queues)
      → s.interrupt_pool ≡ []
      → get_interrupt_task s ≡ (null, record s { interrupt_pool = [] })
  unfolding get_interrupt_task
  get_interrupt_task_empty s e = rw e

  get_interrupt_task_next :
      (s : EventHandler strategy.Queues) (x : Ptr) (xs : List Ptr)
      → s.interrupt_pool ≡ x ∷ xs
      → x ≢ null
      → get_interrupt_task s ≡ (x, stamp x (record s { interrupt_pool = xs }))
  unfolding get_interrupt_task
  get_interrupt_task_next s x xs e ne = rw (e, test_of_ne x null ne)

  stamped :
      (x : Ptr) (s : EventHandler strategy.Queues)
      → Holds strategy all x s
      → Holds strategy all x (stamp x s)
  stamped x s h = Holds-update x (record (s.kernel.tasks x) { timestamp = s.last_event_id }) s h

  first_ne_null : (x : Ptr) (xs : List Ptr) → count null (x ∷ xs) ≡ 0 → x ≢ null
  first_ne_null x xs h e = ground arith

  -- `getTask` takes a task out of the pool, or finds the pool empty.
  pub get_task-Got : (s : EventHandler strategy.Queues) → IsSystem strategy all s → Got (get_task s)
  get_task-Got s (pl, ex) = by_pool s.pool refl
    where
      by_pool : (xs : List Ptr) → s.pool ≡ xs → Got (get_task s)
      by_pool [] e = rw (get_task_empty s e) (
          inl (
            refl,
            (
              (λ a.
                  ap
                    (λ ys.
                      count a ys
                      + count a s.interrupt_pool
                      + strategy.count_ready a s.kernel.queues
                      + running n s.kernel.active a)
                    (sym e)
                  ∙ pl a),
              ex,
            ),
          ))
      by_pool (x ∷ xs) e =
          let split : (a : Ptr) → count a s.pool ≡ is a x + count a xs = λ a. ap (count a) e in
          let ne : x ≢ null = first_ne_null x xs (omega (arith, split null, pl null, no_null)) in
          rw (get_task_next s x xs e ne)
            (inr (stamped x (record s { pool = xs }) (ne, (λ a. omega (arith, split a, pl a)), ex)))

  pub get_interrupt_task-Got :
      (s : EventHandler strategy.Queues) → IsSystem strategy all s → Got (get_interrupt_task s)
  get_interrupt_task-Got s (pl, ex) = by_pool s.interrupt_pool refl
    where
      by_pool : (xs : List Ptr) → s.interrupt_pool ≡ xs → Got (get_interrupt_task s)
      by_pool [] e = rw (get_interrupt_task_empty s e) (
          inl (
            refl,
            (
              (λ a.
                  ap
                    (λ ys.
                      count a s.pool
                      + count a ys
                      + strategy.count_ready a s.kernel.queues
                      + running n s.kernel.active a)
                    (sym e)
                  ∙ pl a),
              ex,
            ),
          ))
      by_pool (x ∷ xs) e =
          let split : (a : Ptr) → count a s.interrupt_pool ≡ is a x + count a xs =
            λ a. ap (count a) e in
          let ne : x ≢ null = first_ne_null x xs (omega (arith, split null, pl null, no_null)) in
          rw (get_interrupt_task_next s x xs e ne) (
            inr (
              stamped x (record s { interrupt_pool = xs })
                (ne, (λ a. omega (arith, split a, pl a)), ex)))

  -- `readyTask` puts the task that the caller holds into the ready queues.
  pub ready_task-IsSystem :
      (x : Ptr) (s : EventHandler strategy.Queues)
      → Holds strategy all x s
      → IsSystem strategy all (ready_task strategy x s)
  unfolding ready_task enqueue_event
  ready_task-IsSystem x s h =
      let task = record (s.kernel.tasks x) { enqueued = true } in
      let (ne, pl, ex) = Holds-update x task s h in
      let away : strategy.count_ready x s.kernel.queues ≡ 0 =
        ground (arith, pl x, count_le_one all x distinct) in
      let test : (x == null) ≡ false = test_of_ne x null ne in
      rw test (
        (λ a. omega (arith, pl a, strategy.enqueue_counts s.kernel.tasks x s.kernel.queues away a)),
        ex,
      )

  -- The loop of `eventTriggered` keeps every task in one place, also when it runs out of tasks.
  pub trigger_all-IsSystem :
      (get : EventHandler strategy.Queues → Ptr × EventHandler strategy.Queues)
      → ((s : EventHandler strategy.Queues) → IsSystem strategy all s → Got (get s))
      → (event : Ptr) (arg : ℕ) (ts : List Ptr) (s : EventHandler strategy.Queues)
      → IsSystem strategy all s
      → IsSystem strategy all (trigger_all strategy get event arg ts s)
  unfolding trigger_all
  trigger_all-IsSystem get gets event arg [] s h = h
  trigger_all-IsSystem get gets event arg (t ∷ ts) s h = elim (gets s h) [
    | inl (e, h') ↦ rw e h'
    | inr held ↦
        let x = (get s).0 in
        let test : (x == null) ≡ false = test_of_ne x null held.0 in
        rw test (
          trigger_all-IsSystem get gets event arg ts _ (
            ready_task-IsSystem x (prepare x event t arg (get s).1) (
              Holds-update x
                (record ((get s).1.kernel.tasks x) { event = event; trigger = t; arg = arg })
                (get s).1 held)))
  ]

  pub event_triggered-IsSystem :
      (event : Ptr) (arg : ℕ) (ts : List Ptr) (s : EventHandler strategy.Queues)
      → IsSystem strategy all s
      → IsSystem strategy all (event_triggered strategy event arg ts s)
  unfolding event_triggered
  event_triggered-IsSystem event arg ts s h =
      trigger_all-IsSystem get_task get_task-Got event arg ts s h

  pub interrupt_event_triggered-IsSystem :
      (event : Ptr) (arg : ℕ) (ts : List Ptr) (s : EventHandler strategy.Queues)
      → IsSystem strategy all s
      → IsSystem strategy all (interrupt_event_triggered strategy event arg ts s)
  unfolding interrupt_event_triggered
  interrupt_event_triggered-IsSystem event arg ts s h =
      trigger_all-IsSystem get_interrupt_task get_interrupt_task-Got event arg ts s h

  pub call_osc_trigger-IsSystem :
      (dummy trigger : Ptr) (arg : ℕ) (s : EventHandler strategy.Queues)
      → IsSystem strategy all s
      → IsSystem strategy all (call_osc_trigger strategy dummy trigger arg s)
  unfolding call_osc_trigger
  call_osc_trigger-IsSystem dummy trigger arg s h = elim (get_task-Got s h) [
    | inl (e, h') ↦ rw e h'
    | inr held ↦
        let x = (get_task s).0 in
        let test : (x == null) ≡ false = test_of_ne x null held.0 in
        rw test (
          ready_task-IsSystem x (prepare x dummy trigger arg (get_task s).1) (
            Holds-update x
              (record ((get_task s).1.kernel.tasks x) {
                event = dummy;
                trigger = trigger;
                arg = arg;
              })
              (get_task s).1 held))
  ]
