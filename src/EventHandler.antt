-- ===== src/EventHandler.antt =====
-- eventhandling/EventHandler.cc: tasks go from a pool of free tasks to the ready queues of the
-- scheduling strategy, are run by a processor and go back to the pool. The pools are the lists of
-- `pEventTaskPoolQueue` and `pInterruptTaskPoolQueue`; `base` is the address of the stacks.
pub mod Places
pub mod Emit
pub mod Keeps
pub mod Finish
pub mod Dispatch
pub mod System
pub mod Start
use cy_ph_os.Base.{
  ℕ, ◌+◌, ◌%◌, ◌^◌, Bool, true, false, Option, none, some, List, [], ◌∷◌, ◌++◌, ◌==◌, if◌then◌else◌,
  update,
}
use cy_ph_os.Queue.{Ptr, null}
use cy_ph_os.Tasks.{Env, Tasks, EventType, interrupt_event, timer_oneshot, kind_of}
use cy_ph_os.Locking.{unlock_task}
use cy_ph_os.StackPool.{set_stack_free}
use cy_ph_os.Strategy.{SchedulingStrategy, Kernel, enqueue_event, get_event, set_stack}

pub record EventHandler (Q : Type 0) : Type 0 where
  pub kernel : Kernel Q
  pub pool : List Ptr
  pub interrupt_pool : List Ptr
  pub last_event_id : ℕ
  pub stack_pointers : ℕ → Ptr
  pub dispatch_counter : ℕ
  pub core_dispatch_count : ℕ → ℕ

-- The state that the constructors of `EventHandler`, `EventTask` and `StackPool` leave, on an empty
-- queue state: the pools hold the tasks of `pEventTasks` and `pInterruptTasks`, which the loops of the
-- constructor enqueue one by one. That no task has a stack and no stack is used is the zero of
-- static storage; no constructor writes it.
abbrev pub new_event_handler : {Q : Type 0} → Q → List Ptr → List Ptr → EventHandler Q
new_event_handler q event_tasks interrupt_tasks = record {
  kernel = record {
    tasks = λ t. record {
      event = null;
      trigger = null;
      timestamp = 0;
      enqueued = false;
      arg = 0;
      stack = null;
    };
    active = λ cpu. null;
    stacks = record { used = λ i. false; pointer = 0 };
    queues = q;
  };
  pool = event_tasks;
  interrupt_pool = interrupt_tasks;
  last_event_id = 0;
  stack_pointers = λ cpu. null;
  dispatch_counter = 0;
  core_dispatch_count = λ cpu. 0;
}

abbrev pub set_tasks : {Q : Type 0} → EventHandler Q → Tasks → EventHandler Q
set_tasks s tasks = record s { kernel = record s.kernel { tasks = tasks } }

-- `Queue::dequeueFirst` on the list of a queue
abbrev pub dequeue_first : List Ptr → Ptr × List Ptr
dequeue_first [] = (null, [])
dequeue_first (x ∷ xs) = (x, xs)

module _ {Q : Type 0} where
  -- `task->pTimestamp = pLastEventID++`
  abbrev pub stamp : Ptr → EventHandler Q → EventHandler Q
  stamp x s =
      record (set_tasks s
        (update s.kernel.tasks x (record (s.kernel.tasks x) { timestamp = s.last_event_id }))) {
          last_event_id = (s.last_event_id + 1) % 2 ^ 64;
        }

  -- `getTask`
  unfoldable pub get_task : EventHandler Q → Ptr × EventHandler Q
  get_task s =
      let (x, rest) = dequeue_first s.pool in
      let s' = record s { pool = rest } in if x == null then (x, s') else (x, stamp x s')

  -- `getInterruptTask`
  unfoldable pub get_interrupt_task : EventHandler Q → Ptr × EventHandler Q
  get_interrupt_task s =
      let (x, rest) = dequeue_first s.interrupt_pool in
      let s' = record s { interrupt_pool = rest } in if x == null then (x, s') else (x, stamp x s')

  -- The event, trigger and argument of a new task.
  abbrev pub prepare : Ptr → Ptr → Ptr → ℕ → EventHandler Q → EventHandler Q
  prepare x event trigger arg s = set_tasks s (
      update s.kernel.tasks x
        (record (s.kernel.tasks x) { event = event; trigger = trigger; arg = arg }))

  -- A task that is free again.
  abbrev pub clear_task : Ptr → EventHandler Q → EventHandler Q
  clear_task x s = set_tasks s (
      update s.kernel.tasks x (record (s.kernel.tasks x) {
        stack = null;
        enqueued = false;
        event = null;
        trigger = null;
      }))

  -- `requeueEventTask`
  unfoldable pub requeue_event_task : Ptr → EventHandler Q → EventHandler Q
  requeue_event_task x s = let s' = clear_task x s in record s' { pool = s'.pool ++ x ∷ [] }

  -- `requeueInterruptEventTask`
  unfoldable pub requeue_interrupt_event_task : Ptr → EventHandler Q → EventHandler Q
  requeue_interrupt_event_task x s =
      let s' = clear_task x s in record s' { interrupt_pool = s'.interrupt_pool ++ x ∷ [] }

  -- The choice at the end of `eventTaskFinished`, by the type of the task's event; the second
  -- component is the oneshot timer event that goes back to the timer.
  abbrev pub requeue : EventType → Ptr → Ptr → EventHandler Q → EventHandler Q × Option Ptr
  requeue interrupt_event event x s = (requeue_interrupt_event_task x s, none)
  requeue timer_oneshot event x s = (requeue_event_task x s, some event)
  requeue _ event x s = (requeue_event_task x s, none)

  -- `eventTaskFinished` on processor `cpu`, without the cache, whose eviction changes nothing here.
  unfoldable pub event_task_finished : Env → ℕ → EventHandler Q → EventHandler Q × Option Ptr
  event_task_finished env cpu s =
      let x = s.kernel.active cpu in
      let s1 = set_tasks s (set_stack s.kernel.tasks x null) in
      let s2 = record s1 {
        kernel = record s1.kernel { active = unlock_task cpu x s.kernel.active };
      } in
      requeue (kind_of env s2.kernel.tasks x) (s2.kernel.tasks x).event x s2

  -- `activateOSC`, up to the jump into the trigger's function
  abbrev pub activate_osc : ℕ → Ptr → EventHandler Q → EventHandler Q
  activate_osc cpu x s = record s {
    stack_pointers = update s.stack_pointers cpu (s.kernel.tasks x).stack;
    dispatch_counter = (s.dispatch_counter + 1) % 2 ^ 32;
    core_dispatch_count =
        update s.core_dispatch_count cpu ((s.core_dispatch_count cpu + 1) % 2 ^ 32);
  }

module _ {env : Env} {n : ℕ} (strategy : SchedulingStrategy env n) where
  -- `readyTask`
  unfoldable pub ready_task : Ptr → EventHandler strategy.Queues → EventHandler strategy.Queues
  ready_task x s = record s { kernel = enqueue_event strategy x s.kernel }

  -- The loop of `eventTriggered` over the subscribed triggers: it ends early when no task is free.
  unfoldable pub trigger_all :
      (EventHandler strategy.Queues → Ptr × EventHandler strategy.Queues)
      → Ptr
      → ℕ
      → List Ptr
      → EventHandler strategy.Queues
      → EventHandler strategy.Queues
  trigger_all get event arg [] s = s
  trigger_all get event arg (t ∷ ts) s =
      let (x, s') = get s in
      let rest = trigger_all get event arg ts (ready_task x (prepare x event t arg s')) in
      if x == null then s' else rest

  -- `eventTriggered`
  unfoldable pub event_triggered :
      Ptr → ℕ → List Ptr → EventHandler strategy.Queues → EventHandler strategy.Queues
  event_triggered event arg subscribers s = trigger_all get_task event arg subscribers s

  -- `interruptEventTriggered`
  unfoldable pub interrupt_event_triggered :
      Ptr → ℕ → List Ptr → EventHandler strategy.Queues → EventHandler strategy.Queues
  interrupt_event_triggered event arg subscribers s =
      trigger_all get_interrupt_task event arg subscribers s

  -- `callOSCTrigger`, where `dummy` is `pDummyEvent`
  unfoldable pub call_osc_trigger :
      Ptr → Ptr → ℕ → EventHandler strategy.Queues → EventHandler strategy.Queues
  call_osc_trigger dummy trigger arg s =
      let (x, s') = get_task s in
      if x == null then s' else ready_task x (prepare x dummy trigger arg s')

  -- The start of `dispatching`: the stack of the task that ran before goes back to the pool.
  unfoldable pub start_dispatching :
      ℕ → ℕ → EventHandler strategy.Queues → EventHandler strategy.Queues
  start_dispatching base cpu s =
      let sp = s.stack_pointers cpu in
      if sp == null then s else record s {
        kernel = record s.kernel { stacks = set_stack_free n base sp s.kernel.stacks };
        stack_pointers = update s.stack_pointers cpu null;
      }

  -- One round of the loop of `dispatching`: the task that runs next, nullptr if there is none.
  -- `none` is the endless loop after "Trying to activate non locked task".
  unfoldable pub dispatching :
      ℕ → ℕ → EventHandler strategy.Queues → Option (Ptr × EventHandler strategy.Queues)
  dispatching base cpu s =
      let (x, k) = get_event strategy base cpu s.kernel in
      let s' = record s { kernel = k } in
      if x == k.active cpu
      then (if x == null then some (x, s') else some (x, activate_osc cpu x s'))
      else none

  -- `getPendingSWEvents`
  unfoldable pub get_pending_sw_events : EventHandler strategy.Queues → ℕ
  get_pending_sw_events s = strategy.pending s.kernel.queues
