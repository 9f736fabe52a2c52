-- ===== src/Strategy/SinglePriority.antt =====
-- eventhandling/SingleQueuePriorityStrategy.cc: one queue, ordered by priority, for all processors.
use cy_ph_os.Base.{
  ℕ, ◌+◌, ◌%◌, ◌^◌, ◌≡◌, Bool-cases, inl, inr, none, List, [], ◌∷◌, arith, ◌==◌, leb, if◌then◌else◌,
  length, count,
}
use cy_ph_os.Queue.{Ptr, null}
use cy_ph_os.Tasks.{Env, Tasks, trigger_of}
use cy_ph_os.Locking.{Active, attempt}
use cy_ph_os.EventQueue.Model.{pick_level, insert_by}
use cy_ph_os.Strategy.{Takes, SchedulingStrategy, Kernel}
use cy_ph_os.Strategy
use cy_ph_os.Strategy.Take.{leave, or_else, or_else-Takes, leave_level-Takes}

-- `task->trigger->pPriority`
abbrev pub priority_of : Env → Tasks → Ptr → ℕ
priority_of env tasks t = (trigger_of env tasks t).priority

pub insert_by-count :
    (prio : Ptr → ℕ) (t a : Ptr) (xs : List Ptr)
    → count a (insert_by prio t xs) ≡ count a xs + (if a == t then 1 else 0)
unfolding insert_by
insert_by-count prio t a [] = omega arith
insert_by-count prio t a (x ∷ xs) = elim (Bool-cases (leb (prio t) (prio x))) [
  | inl e ↦ rw e (omega (arith, insert_by-count prio t a xs))
  | inr e ↦ rw e (omega arith)
]

module _ (env : Env) (n : ℕ) where
  -- `mFifoQueue.enqueue`
  unfoldable pub enqueue : Tasks → Ptr → List Ptr → List Ptr
  enqueue tasks t q = insert_by (priority_of env tasks) t q

  -- `getReadyEvent`, and `getGlobalReadyEvent` on the same queue
  unfoldable pub ready_event : ℕ → Tasks → Active → List Ptr → Ptr × List Ptr × Active
  ready_event cpu tasks active q =
      leave q (pick_level (attempt env tasks n cpu) (priority_of env tasks) none q active)

  unfoldable pub take : ℕ → Tasks → Active → List Ptr → Ptr × List Ptr × Active
  take cpu tasks active q =
      or_else (ready_event cpu tasks active q) (λ q' active'. ready_event cpu tasks active' q')

  -- `getPendingEvents`
  unfoldable pub pending : List Ptr → ℕ
  pending q = length q % 2 ^ 32

  ready_event-Takes :
      (cpu : ℕ) (tasks : Tasks) (active : Active) (q : List Ptr)
      → count null q ≡ 0
      → Takes env tasks n cpu count q active (ready_event cpu tasks active q)
  unfolding ready_event
  ready_event-Takes cpu tasks active q h =
      leave_level-Takes env tasks n cpu (priority_of env tasks) q active h

  -- When no queue holds nullptr, a processor gets nothing, with no change, or a task that leaves
  -- the queue, while every other task stays as often as it was, that shares no component with an
  -- active task, and that the processor now runs.
  pub take_single_priority-Takes :
      (cpu : ℕ) (tasks : Tasks) (active : Active) (q : List Ptr)
      → count null q ≡ 0
      → Takes env tasks n cpu count q active (take cpu tasks active q)
  unfolding take
  take_single_priority-Takes cpu tasks active q h =
      or_else-Takes env tasks n cpu count q active (ready_event cpu tasks active q)
        (λ q' active'. ready_event cpu tasks active' q') (ready_event-Takes cpu tasks active q h)
        (ready_event-Takes cpu tasks active q h)

  -- A task is in the queue once more after `enqueueEvent`, and every other task as often as before.
  pub enqueue_single_priority-count :
      (tasks : Tasks) (t : Ptr) (q : List Ptr) (a : Ptr)
      → count a (enqueue tasks t q) ≡ count a q + (if a == t then 1 else 0)
  unfolding enqueue
  enqueue_single_priority-count tasks t q a = insert_by-count (priority_of env tasks) t a q

  abbrev pub strategy : SchedulingStrategy env n
  strategy = record {
    Queues = List Ptr;
    enqueue = enqueue;
    take = take;
    pending = pending;
    count_ready = count;
    enqueue_counts = λ tasks t q h a. enqueue_single_priority-count tasks t q a;
    take-Takes = λ cpu tasks active q lt h. take_single_priority-Takes cpu tasks active q h;
  }

  -- `enqueueEvent` and `getEvent` of this strategy
  unfoldable pub enqueue_event : Ptr → Kernel (List Ptr) → Kernel (List Ptr)
  enqueue_event = Strategy.enqueue_event strategy

  unfoldable pub get_event : ℕ → ℕ → Kernel (List Ptr) → Ptr × Kernel (List Ptr)
  get_event = Strategy.get_event strategy
