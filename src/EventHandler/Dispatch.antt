-- ===== src/EventHandler/Dispatch.antt =====
-- EventHandler.cc, `dispatching`: a round of the loop on an idle processor.
use cy_ph_os.Base.{
  ℕ, ◌+◌, ◌<◌, ◌≡◌, refl, sym, ap, ◌∙◌, ◌≢◌, ◌⊎◌, inl, inr, true, false, Bool-cases, some, List,
  arith, ◌==◌, count, Distinct, update, update_at, update_ne, eq_of_test, ne_of_test, test_of_ne,
  ==_refl,
}
use cy_ph_os.Queue.{Ptr, null}
use cy_ph_os.Tasks.{Env, Tasks, Task}
use cy_ph_os.Locking.Exclusion.{IsFree, update-IsExclusive}
use cy_ph_os.StackPool.{StackPool, get_free_stack, stack_address}
use cy_ph_os.StackPool.Held.{IsHeld-HasStack, IsHeld-take, stack_address_ne_null}
use cy_ph_os.StackPool.Search.{get_free_stack_finds}
use cy_ph_os.Strategy.{
  SchedulingStrategy, Kernel, nothing, took, set_stack, set_enqueued, give_stack, dispatch_taken,
  get_event,
}
use cy_ph_os.EventHandler.{EventHandler, activate_osc, dispatching}
use cy_ph_os.EventHandler.Places.{
  is, running, running-update, IsClean, IsRunnable, IsExclusive-frame, update_trigger, not_running,
  count_le_one,
}
use cy_ph_os.EventHandler.Keeps.{update_stack}

module _ {env : Env} {n : ℕ} (strategy : SchedulingStrategy env n) where
  -- The task table after `getEvent` gave the stack `sp` to `t`.
  abbrev supplied : Tasks → Ptr → Ptr → Tasks
  supplied tasks t sp = set_enqueued (set_stack tasks t sp) t false

  give_stack_run :
      (base : ℕ) (t sp : Ptr) (pool : StackPool) (k : Kernel strategy.Queues)
      → (k.tasks t).stack ≡ null
      → get_free_stack n base k.stacks ≡ (sp, pool)
      → give_stack strategy base t k ≡ record k { tasks = set_stack k.tasks t sp; stacks = pool }
  unfolding give_stack
  give_stack_run base t sp pool k e f = rw (e, f)

  dispatch_taken_run :
      (base : ℕ) (t sp : Ptr) (pool : StackPool) (k : Kernel strategy.Queues)
      → (k.tasks t).stack ≡ null
      → get_free_stack n base k.stacks ≡ (sp, pool)
      → sp ≢ null
      → dispatch_taken strategy base t k
        ≡ (t, record k { tasks = supplied k.tasks t sp; stacks = pool })
  unfolding dispatch_taken
  dispatch_taken_run base t sp pool k e f ne =
      let here : (set_stack k.tasks t sp t).stack ≡ sp =
        ap (λ (y : Task). y.stack) (update_at k.tasks t (record (k.tasks t) { stack = sp }) refl) in
      rw (give_stack_run base t sp pool k e f, here, test_of_ne sp null ne)

  supplied_trigger :
      (tasks : Tasks) (t sp a : Ptr) → (supplied tasks t sp a).trigger ≡ (tasks a).trigger
  supplied_trigger tasks t sp a =
      let tasks' = set_stack tasks t sp in
      update_trigger tasks' t (record (tasks' t) { enqueued = false }) refl a
      ∙ update_trigger tasks t (record (tasks t) { stack = sp }) refl a

  supplied_stack : (tasks : Tasks) (t sp : Ptr) → (supplied tasks t sp t).stack ≡ sp
  supplied_stack tasks t sp =
      let tasks' = set_stack tasks t sp in
      update_stack tasks' t (record (tasks' t) { enqueued = false }) refl t
      ∙ ap (λ (y : Task). y.stack) (update_at tasks t (record (tasks t) { stack = sp }) refl)

  supplied_other :
      (tasks : Tasks) (t sp a : Ptr) → a ≢ t → (supplied tasks t sp a).stack ≡ (tasks a).stack
  supplied_other tasks t sp a ne =
      let tasks' = set_stack tasks t sp in
      update_stack tasks' t (record (tasks' t) { enqueued = false }) refl a
      ∙ ap (λ (y : Task). y.stack) (update_ne tasks t (record (tasks t) { stack = sp }) ne)

  get_event_nothing :
      (base cpu : ℕ) (k : Kernel strategy.Queues)
      → strategy.take cpu k.tasks k.active k.queues ≡ (null, k.queues, k.active)
      → get_event strategy base cpu k ≡ (null, k)
  unfolding get_event
  get_event_nothing base cpu k e = rw e

  get_event_took :
      (base cpu : ℕ) (k : Kernel strategy.Queues) (x : Ptr) (q : strategy.Queues)
      → x ≢ null
      → strategy.take cpu k.tasks k.active k.queues ≡ (x, q, update k.active cpu x)
      → get_event strategy base cpu k
        ≡ dispatch_taken strategy base x (record k { queues = q; active = update k.active cpu x })
  unfolding get_event
  get_event_took base cpu k x q ne e = rw (e, test_of_ne x null ne)

  dispatching_idle :
      (base cpu : ℕ) (s : EventHandler strategy.Queues)
      → get_event strategy base cpu s.kernel ≡ (null, s.kernel)
      → s.kernel.active cpu ≡ null
      → dispatching strategy base cpu s ≡ some (null, s)
  unfolding dispatching
  dispatching_idle base cpu s e idle = rw (e, idle)

  dispatching_task :
      (base cpu : ℕ) (s : EventHandler strategy.Queues) (x : Ptr) (k : Kernel strategy.Queues)
      → get_event strategy base cpu s.kernel ≡ (x, k)
      → k.active cpu ≡ x
      → x ≢ null
      → dispatching strategy base cpu s ≡ some (x, activate_osc cpu x (record s { kernel = k }))
  unfolding dispatching
  dispatching_task base cpu s x k e at ne = rw (e, at, ==_refl x, test_of_ne x null ne)

  module _ (all : List Ptr) (distinct : Distinct all) (no_null : count null all ≡ 0) where
    -- What a round of the loop gives on an idle processor.
    abbrev pub Dispatched : ℕ → ℕ → EventHandler strategy.Queues → Type 0
    Dispatched base cpu s =
        (x : Ptr) × (s' : EventHandler strategy.Queues) × (dispatching strategy base cpu s
          ≡ some (x, s'))
        × (s'.kernel.active cpu ≡ x)
        × IsRunnable strategy base all s'
        × ((x ≡ null) ⊎ IsFree env s.kernel.tasks n s.kernel.active x)

    -- The state after `x` was taken from the queues, which leaves `q`, and got the stack `sp`.
    abbrev activated :
        ℕ
        → Ptr
        → Ptr
        → strategy.Queues
        → StackPool
        → EventHandler strategy.Queues
        → EventHandler strategy.Queues
    activated cpu x sp q pool s = activate_osc cpu x (record s {
      kernel = record s.kernel {
        tasks = supplied s.kernel.tasks x sp;
        active = update s.kernel.active cpu x;
        stacks = pool;
        queues = q;
      };
    })

    activated-IsClean :
        (cpu : ℕ) (x sp : Ptr) (q : strategy.Queues) (pool : StackPool)
        (s : EventHandler strategy.Queues)
        → cpu < n
        → s.kernel.active cpu ≡ null
        → IsClean strategy s
        → IsClean strategy (activated cpu x sp q pool s)
    activated-IsClean cpu x sp q pool s lt idle clean a na off =
        let ne : a ≢ x = λ e. off cpu lt (update_at s.kernel.active cpu x refl ∙ sym e) in
        supplied_other s.kernel.tasks x sp a ne
        ∙ clean a na (λ c hc e. elim (Bool-cases (c == cpu)) [
          | inl z ↦ na (sym e ∙ ap s.kernel.active (eq_of_test c cpu z) ∙ idle)
          | inr z ↦ off c hc (update_ne s.kernel.active cpu x (ne_of_test c cpu z) ∙ e)
        ])

    dispatch_took :
        (base cpu : ℕ) (s : EventHandler strategy.Queues) (x : Ptr) (q : strategy.Queues)
        → cpu < n
        → s.kernel.active cpu ≡ null
        → s.stack_pointers cpu ≡ null
        → IsRunnable strategy base all s
        → x ≢ null
        → ((a : Ptr) → strategy.count_ready a s.kernel.queues ≡ strategy.count_ready a q + is a x)
        → IsFree env s.kernel.tasks n s.kernel.active x
        → strategy.take cpu s.kernel.tasks s.kernel.active s.kernel.queues
          ≡ (x, q, update s.kernel.active cpu x)
        → Dispatched base cpu s
    dispatch_took base cpu s x q lt idle spent ((pl, ex), held, clean) ne cnt free e =
        let (hp, (i, hi, fi)) =
          IsHeld-HasStack n base cpu s.kernel.stacks s.stack_pointers held lt spent in
        let (k, hk, fk, found) = get_free_stack_finds n base s.kernel.stacks i hp hi fi in
        let sp = stack_address base k in
        let pool : StackPool = record { used = update s.kernel.stacks.used k true; pointer = k } in
        let off : running n s.kernel.active x ≡ 0 =
          ground (arith, pl x, cnt x, count_le_one all x distinct) in
        let bare : (s.kernel.tasks x).stack ≡ null =
          clean x ne (λ c hc z. not_running n s.kernel.active x off c hc (λ y. ne (sym z ∙ y)) z) in
        let s' = activated cpu x sp q pool s in
        let run : get_event strategy base cpu s.kernel ≡ (x, s'.kernel) =
          get_event_took base cpu s.kernel x q ne e
          ∙ dispatch_taken_run base x sp pool
              (record s.kernel { queues = q; active = update s.kernel.active cpu x }) bare found
              (stack_address_ne_null base k) in
        let at : s'.kernel.active cpu ≡ x = update_at s.kernel.active cpu x refl in
        (
          x,
          s',
          dispatching_task base cpu s x s'.kernel run at ne,
          at,
          (
            (
              (λ a.
                  omega (arith, pl a, cnt a, running-update n cpu s.kernel.active x a lt idle ne)),
              IsExclusive-frame env n s.kernel.tasks s'.kernel.tasks s'.kernel.active
                  (λ c hc h. supplied_trigger s.kernel.tasks x sp (s'.kernel.active c))
                  (update-IsExclusive env s.kernel.tasks n cpu x s.kernel.active free ex),
            ),
            rw (supplied_stack s.kernel.tasks x sp)
                (IsHeld-take n base cpu k s.kernel.stacks s.stack_pointers held lt spent hk fk),
            activated-IsClean cpu x sp q pool s lt idle clean,
          ),
          inr free,
        )

    -- On an idle processor without a stack, a round of the loop ends.
    pub dispatching-Dispatched :
        (base cpu : ℕ) (s : EventHandler strategy.Queues)
        → cpu < n
        → s.kernel.active cpu ≡ null
        → s.stack_pointers cpu ≡ null
        → IsRunnable strategy base all s
        → Dispatched base cpu s
    dispatching-Dispatched base cpu s lt idle spent ((pl, ex), held, clean) =
        let no_ready : strategy.count_ready null s.kernel.queues ≡ 0 =
          omega (arith, pl null, no_null) in
        elim (strategy.take-Takes cpu s.kernel.tasks s.kernel.active s.kernel.queues lt no_ready) [
          | nothing e ↦ (
            null,
            s,
            dispatching_idle base cpu s (get_event_nothing base cpu s.kernel e) idle,
            idle,
            ((pl, ex), held, clean),
            inl refl,
          )
          | took x q ne cnt free e ↦
              dispatch_took base cpu s x q lt idle spent ((pl, ex), held, clean) ne cnt free e
        ]
