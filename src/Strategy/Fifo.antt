-- ===== src/Strategy/Fifo.antt =====
-- eventhandling/FifoStrategy.cc: two queues in order of arrival, interrupts first.
use cy_ph_os.Base.{
  ℕ, ◌+◌, ◌%◌, ◌^◌, ◌≡◌, refl, List, [], ◌∷◌, arith, ◌==◌, if◌then◌else◌, length, count,
  count-append, not_has_of_count, Bool, Bool-cases, inl, inr, true, false,
}
use cy_ph_os.Queue.{Ptr, null}
use cy_ph_os.Queue.Model.{append_new}
use cy_ph_os.Tasks.{Env, Tasks, EventType, interrupt_event, kind_of}
use cy_ph_os.Locking.{Active, attempt}
use cy_ph_os.EventQueue.Model.{pick}
use cy_ph_os.Strategy.{Takes, SchedulingStrategy, Kernel}
use cy_ph_os.Strategy
use cy_ph_os.Strategy.Take.{leave, put, or_else, put-Takes, or_else-Takes, leave-pick-Takes}

-- `event->pType == INTERRUPT_EVENT`
abbrev pub is_interrupt : EventType → Bool
is_interrupt interrupt_event = true
is_interrupt _ = false

pub append_new-count :
    (t a : Ptr) (xs : List Ptr)
    → count t xs ≡ 0
    → count a (append_new xs t) ≡ count a xs + (if a == t then 1 else 0)
append_new-count t a xs h = rw (not_has_of_count t xs h) (omega (arith, count-append a xs (t ∷ [])))

-- `mFifoQueue` and `mFifoInterruptQueue`
pub record Queues : Type 0 where
  pub normal : List Ptr
  pub interrupt : List Ptr

abbrev pub count_ready : Ptr → Queues → ℕ
count_ready a q = count a q.normal + count a q.interrupt

module _ (env : Env) (n : ℕ) where
  unfoldable pub enqueue : Tasks → Ptr → Queues → Queues
  enqueue tasks t q =
      if is_interrupt (kind_of env tasks t)
      then record q { interrupt = append_new q.interrupt t }
      else record q { normal = append_new q.normal t }

  -- `getReadyEvent`
  unfoldable pub take : ℕ → Tasks → Active → Queues → Ptr × Queues × Active
  take cpu tasks active q =
      or_else
        (put (λ ys. record q { interrupt = ys })
          (leave q.interrupt (pick (attempt env tasks n cpu) q.interrupt active)))
        (λ q' active'.
          put (λ ys. record q' { normal = ys })
            (leave q'.normal (pick (attempt env tasks n cpu) q'.normal active')))

  -- `getPendingEvents`
  unfoldable pub pending : Queues → ℕ
  pending q = (length q.normal + length q.interrupt) % 2 ^ 32

  -- When no queue holds nullptr, a processor gets nothing, with no change, or a task that leaves
  -- the queues, while every other task stays as often as it was, that shares no component with an
  -- active task, and that the processor now runs.
  pub take_fifo-Takes :
      (cpu : ℕ) (tasks : Tasks) (active : Active) (q : Queues)
      → count_ready null q ≡ 0
      → Takes env tasks n cpu count_ready q active (take cpu tasks active q)
  unfolding take
  take_fifo-Takes cpu tasks active q h =
      or_else-Takes env tasks n cpu count_ready q active _
        (λ q' active'.
          put (λ ys. record q' { normal = ys })
            (leave q'.normal (pick (attempt env tasks n cpu) q'.normal active')))
        (put-Takes env tasks n cpu count_ready (λ ys. record q { interrupt = ys }) q q.interrupt
          active _ refl (λ a ys. omega arith)
          (leave-pick-Takes env tasks n cpu q.interrupt active (omega arith)))
        (put-Takes env tasks n cpu count_ready (λ ys. record q { normal = ys }) q q.normal active _
          refl (λ a ys. omega arith)
          (leave-pick-Takes env tasks n cpu q.normal active (omega arith)))

  -- A task that is in no queue is in the queues once more after `enqueueEvent`, and every other
  -- task as often as before.
  pub enqueue_fifo-count :
      (tasks : Tasks) (t : Ptr) (q : Queues)
      → count_ready t q ≡ 0
      → (a : Ptr) → count_ready a (enqueue tasks t q) ≡ count_ready a q + (if a == t then 1 else 0)
  unfolding enqueue
  enqueue_fifo-count tasks t q h a = elim (Bool-cases (is_interrupt (kind_of env tasks t))) [
    | inl e ↦ rw e (omega (arith, append_new-count t a q.interrupt (omega arith)))
    | inr e ↦ rw e (omega (arith, append_new-count t a q.normal (omega arith)))
  ]

  abbrev pub strategy : SchedulingStrategy env n
  strategy = record {
    Queues = Queues;
    enqueue = enqueue;
    take = take;
    pending = pending;
    count_ready = count_ready;
    enqueue_counts = enqueue_fifo-count;
    take-Takes = λ cpu tasks active q lt h. take_fifo-Takes cpu tasks active q h;
  }

  -- `enqueueEvent` and `getEvent` of this strategy
  unfoldable pub enqueue_event : Ptr → Kernel Queues → Kernel Queues
  enqueue_event = Strategy.enqueue_event strategy

  unfoldable pub get_event : ℕ → ℕ → Kernel Queues → Ptr × Kernel Queues
  get_event = Strategy.get_event strategy
