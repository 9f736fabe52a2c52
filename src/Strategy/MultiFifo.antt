-- ===== src/Strategy/MultiFifo.antt =====
-- eventhandling/MultiFifoStrategy.cc: two queues in order of arrival for each processor, interrupts
-- first, and two more, at index `n`, for tasks without affinity.
use cy_ph_os.Base.{
  ℕ, suc, ◌+◌, ◌%◌, ◌^◌, ◌<◌, ◌≡◌, ap, List, arith, ◌==◌, if◌then◌else◌, length, count, update,
  update_self, sum_below, sum-update, weight_of_zero_sum, Bool-cases, inl, inr,
}
use cy_ph_os.Queue.{Ptr, null}
use cy_ph_os.Queue.Model.{append_new}
use cy_ph_os.Tasks.{Env, Tasks, trigger_of, kind_of}
use cy_ph_os.Locking.{Active, attempt}
use cy_ph_os.EventQueue.Model.{pick}
use cy_ph_os.Strategy.{Takes, SchedulingStrategy, Kernel}
use cy_ph_os.Strategy
use cy_ph_os.Strategy.Take.{leave, put, or_else, put-Takes, or_else-Takes, leave-pick-Takes}
use cy_ph_os.Strategy.Fifo.{is_interrupt, append_new-count}
use cy_ph_os.Strategy.MultiPriority.{queue_index, queue_index_bound, total_added}

-- `mFifoQueue` and `mFifoInterruptQueue`
pub record Queues : Type 0 where
  pub normal : ℕ → List Ptr
  pub interrupt : ℕ → List Ptr

module _ (env : Env) (n : ℕ) where
  abbrev pub count_ready : Ptr → Queues → ℕ
  count_ready a q = sum_below (count a) (suc n) q.normal + sum_below (count a) (suc n) q.interrupt

  unfoldable pub enqueue : Tasks → Ptr → Queues → Queues
  enqueue tasks t q =
      let i = queue_index n (trigger_of env tasks t).affinity in
      if is_interrupt (kind_of env tasks t)
      then record q { interrupt = update q.interrupt i (append_new (q.interrupt i) t) }
      else record q { normal = update q.normal i (append_new (q.normal i) t) }

  -- The two queues of index `i`: the interrupts, then the others.
  unfoldable pub ready_at : ℕ → ℕ → Tasks → Active → Queues → Ptr × Queues × Active
  ready_at i cpu tasks active q =
      or_else
        (put (λ ys. record q { interrupt = update q.interrupt i ys })
          (leave (q.interrupt i) (pick (attempt env tasks n cpu) (q.interrupt i) active)))
        (λ q' active'.
          put (λ ys. record q' { normal = update q'.normal i ys })
            (leave (q'.normal i) (pick (attempt env tasks n cpu) (q'.normal i) active')))

  -- `getReadyEvent`, then `getGlobalReadyEvent`
  unfoldable pub take : ℕ → Tasks → Active → Queues → Ptr × Queues × Active
  take cpu tasks active q =
      or_else (ready_at cpu cpu tasks active q) (λ q' active'. ready_at n cpu tasks active' q')

  -- `getPendingEvents`
  unfoldable pub pending : Queues → ℕ
  pending q = (sum_below length (suc n) q.normal + sum_below length (suc n) q.interrupt) % 2 ^ 32

  ready_at-Takes :
      (i cpu : ℕ) (tasks : Tasks) (active : Active) (q : Queues)
      → i < suc n
      → count_ready null q ≡ 0
      → Takes env tasks n cpu count_ready q active (ready_at i cpu tasks active q)
  unfolding ready_at
  ready_at-Takes i cpu tasks active q lt h =
      or_else-Takes env tasks n cpu count_ready q active _
        (λ q' active'.
          put (λ ys. record q' { normal = update q'.normal i ys })
            (leave (q'.normal i) (pick (attempt env tasks n cpu) (q'.normal i) active')))
        (put-Takes env tasks n cpu count_ready
          (λ ys. record q { interrupt = update q.interrupt i ys }) q (q.interrupt i) active _
          (ap (λ f. record q { interrupt = f }) (update_self q.interrupt i))
          (λ a ys. omega (arith, sum-update (count a) (suc n) q.interrupt i ys lt))
          (leave-pick-Takes env tasks n cpu (q.interrupt i) active
            (weight_of_zero_sum (count null) (suc n) q.interrupt i (omega arith) lt)))
        (put-Takes env tasks n cpu count_ready (λ ys. record q { normal = update q.normal i ys }) q
          (q.normal i) active _ (ap (λ f. record q { normal = f }) (update_self q.normal i))
          (λ a ys. omega (arith, sum-update (count a) (suc n) q.normal i ys lt))
          (leave-pick-Takes env tasks n cpu (q.normal i) active
            (weight_of_zero_sum (count null) (suc n) q.normal i (omega arith) lt)))

  -- When no queue holds nullptr, a processor below `n` gets nothing, with no change, or a task that
  -- leaves the queues, while every other task stays as often as it was, that shares no component
  -- with an active task, and that the processor now runs.
  pub take_multi_fifo-Takes :
      (cpu : ℕ) (tasks : Tasks) (active : Active) (q : Queues)
      → cpu < n
      → count_ready null q ≡ 0
      → Takes env tasks n cpu count_ready q active (take cpu tasks active q)
  unfolding take
  take_multi_fifo-Takes cpu tasks active q lt h =
      or_else-Takes env tasks n cpu count_ready q active (ready_at cpu cpu tasks active q)
        (λ q' active'. ready_at n cpu tasks active' q')
        (ready_at-Takes cpu cpu tasks active q (omega arith) h)
        (ready_at-Takes n cpu tasks active q (omega arith) h)

  -- A task that is in no queue is in the queues once more after `enqueueEvent`, and every other
  -- task as often as before.
  pub enqueue_multi_fifo-count :
      (tasks : Tasks) (t : Ptr) (q : Queues)
      → count_ready t q ≡ 0
      → (a : Ptr) → count_ready a (enqueue tasks t q) ≡ count_ready a q + (if a == t then 1 else 0)
  unfolding enqueue
  enqueue_multi_fifo-count tasks t q h a =
      let i = queue_index n (trigger_of env tasks t).affinity in
      let lt : i < suc n = queue_index_bound n _ in
      elim (Bool-cases (is_interrupt (kind_of env tasks t))) [
        | inl e ↦ rw e (
            omega (
              arith,
              total_added n i t a (append_new (q.interrupt i) t) q.interrupt lt (
                  append_new-count t a (q.interrupt i)
                    (weight_of_zero_sum (count t) (suc n) q.interrupt i (omega arith) lt)),
            ))
        | inr e ↦ rw e (
            omega (
              arith,
              total_added n i t a (append_new (q.normal i) t) q.normal lt (
                  append_new-count t a (q.normal i)
                    (weight_of_zero_sum (count t) (suc n) q.normal i (omega arith) lt)),
            ))
      ]

  abbrev pub strategy : SchedulingStrategy env n
  strategy = record {
    Queues = Queues;
    enqueue = enqueue;
    take = take;
    pending = pending;
    count_ready = count_ready;
    enqueue_counts = enqueue_multi_fifo-count;
    take-Takes = take_multi_fifo-Takes;
  }

  -- `enqueueEvent` and `getEvent` of this strategy
  unfoldable pub enqueue_event : Ptr → Kernel Queues → Kernel Queues
  enqueue_event = Strategy.enqueue_event strategy

  unfoldable pub get_event : ℕ → ℕ → Kernel Queues → Ptr × Kernel Queues
  get_event = Strategy.get_event strategy
