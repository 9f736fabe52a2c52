-- ===== src/Strategy.antt =====
-- eventhandling/SchedulingStrategy.h and what its four implementations share: a task is put into a
-- queue by `enqueueEvent`, and `getEvent` takes one out, locks it and gives it a stack.
pub mod Take
pub mod Choice
pub mod Fifo
pub mod SinglePriority
pub mod MultiFifo
pub mod MultiPriority
use cy_ph_os.Base.{
  ℕ, zero, suc, ◌+◌, ◌<◌, ◌≤◌, ◌≡◌, ◌≢◌, Bool, true, false, List, [], ◌∷◌, ◌==◌, if◌then◌else◌,
  update,
}
use cy_ph_os.Queue.{Ptr, null}
use cy_ph_os.Tasks.{Env, Tasks, Task}
use cy_ph_os.Locking.{Active}
use cy_ph_os.Locking.Exclusion.{IsFree}
use cy_ph_os.StackPool.{StackPool, get_free_stack}

-- What a processor may get from a queue state `q` whose tasks `cnt` counts: nothing, with no change;
-- or a task that is free to run, which leaves the queues and is now active.
pub data Takes (env : Env) (tasks : Tasks) (n cpu : ℕ) {Q : Type 0} (cnt : Ptr → Q → ℕ) (q : Q)
    (active : Active) (r : Ptr × Q × Active) : Type 0 where
  nothing : r ≡ (null, q, active) → Takes env tasks n cpu cnt q active r
  took :
      (x : Ptr) (q' : Q)
      → x ≢ null
      → ((a : Ptr) → cnt a q ≡ cnt a q' + (if a == x then 1 else 0))
      → IsFree env tasks n active x
      → r ≡ (x, q', update active cpu x)
      → Takes env tasks n cpu cnt q active r

-- A scheduling strategy for `n` processors, and what the event handler relies on.
pub record SchedulingStrategy (env : Env) (n : ℕ) : Type 1 where
  pub Queues : Type 0
  pub enqueue : Tasks → Ptr → Queues → Queues
  pub take : ℕ → Tasks → Active → Queues → Ptr × Queues × Active
  pub pending : Queues → ℕ
  pub count_ready : Ptr → Queues → ℕ
  pub enqueue_counts :
      (tasks : Tasks) (t : Ptr) (q : Queues)
      → count_ready t q ≡ 0
      → (a : Ptr) → count_ready a (enqueue tasks t q) ≡ count_ready a q + (if a == t then 1 else 0)
  pub take-Takes :
      (cpu : ℕ) (tasks : Tasks) (active : Active) (q : Queues)
      → cpu < n
      → count_ready null q ≡ 0
      → Takes env tasks n cpu count_ready q active (take cpu tasks active q)

-- The part of the system that a strategy works on.
pub record Kernel (Q : Type 0) : Type 0 where
  pub tasks : Tasks
  pub active : Active
  pub stacks : StackPool
  pub queues : Q

abbrev pub set_stack : Tasks → Ptr → Ptr → Tasks
set_stack tasks t sp = update tasks t (record (tasks t) { stack = sp })

abbrev pub set_enqueued : Tasks → Ptr → Bool → Tasks
set_enqueued tasks t b = update tasks t (record (tasks t) { enqueued = b })

module _ {env : Env} {n : ℕ} (strategy : SchedulingStrategy env n) where
  -- `enqueueEvent`
  unfoldable pub enqueue_event : Ptr → Kernel strategy.Queues → Kernel strategy.Queues
  enqueue_event t k = if t == null then k else record k {
    tasks = set_enqueued k.tasks t true;
    queues = strategy.enqueue k.tasks t k.queues;
  }

  -- The stack of `getEvent`: a task that has none gets one from the pool, if there is one.
  unfoldable pub give_stack : ℕ → Ptr → Kernel strategy.Queues → Kernel strategy.Queues
  give_stack base t k =
      let (sp, pool) = get_free_stack n base k.stacks in
      if (k.tasks t).stack == null
      then record k { tasks = set_stack k.tasks t sp; stacks = pool }
      else k

  -- `getEvent`, from the point where a task has been taken out of a queue and locked.
  unfoldable pub dispatch_taken : ℕ → Ptr → Kernel strategy.Queues → Ptr × Kernel strategy.Queues
  dispatch_taken base t k =
      let k' = give_stack base t k in
      if (k'.tasks t).stack == null
      then (null, enqueue_event t k')
      else (t, record k' { tasks = set_enqueued k'.tasks t false })

  -- `getEvent`
  unfoldable pub get_event : ℕ → ℕ → Kernel strategy.Queues → Ptr × Kernel strategy.Queues
  get_event base cpu k =
      let (t, q, active) = strategy.take cpu k.tasks k.active k.queues in
      let k' = record k { queues = q; active = active } in
      if t == null then (null, k') else dispatch_taken base t k'
