-- ===== src/Strategy/MultiPriority.antt =====
-- eventhandling/MultiQueuePriorityStrategy.cc: a priority queue for each processor, and one more, at
-- index `n`, for tasks without affinity.
use cy_ph_os.Base.{
  ℕ, suc, ◌+◌, ◌%◌, ◌^◌, ◌<◌, ◌≡◌, List, none, arith, ◌==◌, ltb, if◌then◌else◌, length, count,
  update, update_self, sum_below, sum-update, weight_of_zero_sum,
}
use cy_ph_os.Queue.{Ptr, null}
use cy_ph_os.Tasks.{Env, Tasks, trigger_of}
use cy_ph_os.Locking.{Active, attempt}
use cy_ph_os.EventQueue.Model.{pick_level, insert_by}
use cy_ph_os.Strategy.{Takes, SchedulingStrategy, Kernel}
use cy_ph_os.Strategy
use cy_ph_os.Strategy.Take.{leave, put, or_else, put-Takes, or_else-Takes, leave_level-Takes}
use cy_ph_os.Strategy.SinglePriority.{priority_of, insert_by-count}

-- `cpuNo` of `enqueueEvent`: the affinity as a `cpu_t`, at most `NR_CPUS`.
unfoldable pub queue_index : ℕ → ℕ → ℕ
queue_index n affinity = let c = affinity % 2 ^ 8 in if ltb c n then c else n

pub queue_index_bound : (n affinity : ℕ) → queue_index n affinity < suc n
unfolding queue_index
queue_index_bound n affinity = ground arith

-- `mFifoQueue`
abbrev pub Queues : Type 0
Queues = ℕ → List Ptr

-- Adding a task to one of the queues.
pub total_added :
    (n i : ℕ) (t a : Ptr) (ys : List Ptr) (q : Queues)
    → i < suc n
    → count a ys ≡ count a (q i) + (if a == t then 1 else 0)
    → sum_below (count a) (suc n) (update q i ys)
      ≡ sum_below (count a) (suc n) q + (if a == t then 1 else 0)
total_added n i t a ys q lt e = omega (arith, sum-update (count a) (suc n) q i ys lt)

module _ (env : Env) (n : ℕ) where
  abbrev pub count_ready : Ptr → Queues → ℕ
  count_ready a q = sum_below (count a) (suc n) q

  unfoldable pub enqueue : Tasks → Ptr → Queues → Queues
  enqueue tasks t q =
      let i = queue_index n (trigger_of env tasks t).affinity in
      update q i (insert_by (priority_of env tasks) t (q i))

  -- `getReadyEvent` at queue `i`; `getGlobalReadyEvent` is the same at queue `n`.
  unfoldable pub ready_event : ℕ → ℕ → Tasks → Active → Queues → Ptr × Queues × Active
  ready_event i cpu tasks active q =
      put (λ ys. update q i ys)
        (leave (q i)
          (pick_level (attempt env tasks n cpu) (priority_of env tasks) none (q i) active))

  unfoldable pub take : ℕ → Tasks → Active → Queues → Ptr × Queues × Active
  take cpu tasks active q =
      or_else (ready_event cpu cpu tasks active q)
        (λ q' active'. ready_event n cpu tasks active' q')

  -- `getPendingEvents`
  unfoldable pub pending : Queues → ℕ
  pending q = sum_below length (suc n) q % 2 ^ 32

  ready_event-Takes :
      (i cpu : ℕ) (tasks : Tasks) (active : Active) (q : Queues)
      → i < suc n
      → count_ready null q ≡ 0
      → Takes env tasks n cpu count_ready q active (ready_event i cpu tasks active q)
  unfolding ready_event
  ready_event-Takes i cpu tasks active q lt h =
      put-Takes env tasks n cpu count_ready (λ ys. update q i ys) q (q i) active _ (update_self q i)
        (λ a ys. omega (arith, sum-update (count a) (suc n) q i ys lt))
        (leave_level-Takes env tasks n cpu (priority_of env tasks) (q i) active
          (weight_of_zero_sum (count null) (suc n) q i h lt))

  -- When no queue holds nullptr, a processor below `n` gets nothing, with no change, or a task that
  -- leaves the queues, while every other task stays as often as it was, that shares no component
  -- with an active task, and that the processor now runs.
  pub take_multi_priority-Takes :
      (cpu : ℕ) (tasks : Tasks) (active : Active) (q : Queues)
      → cpu < n
      → count_ready null q ≡ 0
      → Takes env tasks n cpu count_ready q active (take cpu tasks active q)
  unfolding take
  take_multi_priority-Takes cpu tasks active q lt h =
      or_else-Takes env tasks n cpu count_ready q active (ready_event cpu cpu tasks active q)
        (λ q' active'. ready_event n cpu tasks active' q')
        (ready_event-Takes cpu cpu tasks active q (omega arith) h)
        (ready_event-Takes n cpu tasks active q (omega arith) h)

  -- A task is in the queues once more after `enqueueEvent`, and every other task as often as
  -- before.
  pub enqueue_multi_priority-count :
      (tasks : Tasks) (t : Ptr) (q : Queues) (a : Ptr)
      → count_ready a (enqueue tasks t q) ≡ count_ready a q + (if a == t then 1 else 0)
  unfolding enqueue
  enqueue_multi_priority-count tasks t q a =
      let i = queue_index n (trigger_of env tasks t).affinity in
      total_added n i t a _ q (queue_index_bound n _)
        (insert_by-count (priority_of env tasks) t a (q i))

  abbrev pub strategy : SchedulingStrategy env n
  strategy = record {
    Queues = Queues;
    enqueue = enqueue;
    take = take;
    pending = pending;
    count_ready = count_ready;
    enqueue_counts = λ tasks t q h a. enqueue_multi_priority-count tasks t q a;
    take-Takes = λ cpu tasks active q lt h. take_multi_priority-Takes cpu tasks active q lt h;
  }

  -- `enqueueEvent` and `getEvent` of this strategy
  unfoldable pub enqueue_event : Ptr → Kernel Queues → Kernel Queues
  enqueue_event = Strategy.enqueue_event strategy

  unfoldable pub get_event : ℕ → ℕ → Kernel Queues → Ptr × Kernel Queues
  get_event = Strategy.get_event strategy
