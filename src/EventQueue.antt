-- ===== src/EventQueue.antt =====
-- eventhandling/EventQueue.cc and eventhandling/EventPriorityQueue.cc: the queues of ready tasks.
-- `prio` is the field read `task->trigger->pPriority`; `try` is `EventHandler::tryTaskLock` on the
-- state `S` of the active tasks. Each loop takes fuel, and `none` is a fault or a lack of fuel.
pub mod Model
pub mod Enqueue
pub mod Locked
use cy_ph_os.Base.{
  ℕ, zero, suc, ◌≡◌, Bool, true, false, ◌&&◌, not, Option, none, some, ◌==◌, leb, if◌then◌else◌,
}
use cy_ph_os.Queue.{
  Ptr, null, Queue, queue, M, pure, and_then, ◌>>=◌, ◌>>◌, branch, get_next, get_prev, set_next,
  set_prev, size_inc, size_dec, remove_element,
}

-- `EventQueue::dequeueFirstLocked`: the first task that can be locked, taken out of the queue.
module _ {S : Type 0} (try : Ptr → S → Bool × S) where
  unfoldable pub first_locked : ℕ → Ptr → S → M (Ptr × S)
  first_locked zero cur s = λ _. none
  first_locked (suc fuel) cur s = branch (cur == null) (pure (null, s)) (
      let (ok, s') = try cur s in
      branch ok (pure (cur, s')) (do n ← get_next cur; first_locked fuel n s'))

  unfoldable pub dequeue_first_locked : ℕ → Queue → S → M (Ptr × Queue × S)
  dequeue_first_locked fuel q s = do
    (x, s') ← first_locked fuel q.head s
    branch (x == null) (pure (null, q, s')) (do q' ← remove_element q x; pure (x, q', s'))

module _ (prio : Ptr → ℕ) where
  -- The search of `EventPriorityQueue::enqueue`: past every priority that is not lower.
  unfoldable pub seek : ℕ → Ptr → ℕ → M Ptr
  seek zero cur p = λ _. none
  seek (suc fuel) cur p =
      branch (not (cur == null) && leb p (prio cur)) (do n ← get_next cur; seek fuel n p) (pure cur)

  unfoldable pub enqueue : ℕ → Queue → Ptr → M Queue
  enqueue fuel q x = branch (x == null) (pure q) (
      branch (q.head == null)
        (do set_next x null; set_prev x null; pure (queue x x (size_inc q.size)))
        (do
          cur ← seek fuel q.head (prio x)
          branch (cur == null)
              (do
                set_next x null
                set_prev x q.tail
                set_next q.tail x
                pure (queue q.head x (size_inc q.size)))
              (branch (cur == q.head)
                (do
                  set_prev cur x
                  set_next x cur
                  set_prev x null
                  pure (queue x q.tail (size_inc q.size)))
                (do
                  set_next x cur
                  p ← get_prev cur
                  set_prev x p
                  p' ← get_prev x
                  set_next p' x
                  set_prev cur x
                  pure (queue q.head q.tail (size_inc q.size))))))

  -- The inner loop of `dequeueHighestPriority`: past the elements of one priority.
  unfoldable pub skip_level : ℕ → Ptr → ℕ → M Ptr
  skip_level zero cur p = λ _. none
  skip_level (suc fuel) cur p =
      branch (not (cur == null) && (prio cur == p)) (do n ← get_next cur; skip_level fuel n p)
        (pure cur)

  -- `EventPriorityQueue::getHighestPriority`; 0 is `cInvalid_Priority`.
  unfoldable pub highest_priority : Queue → ℕ
  highest_priority q = if q.head == null then 0 else prio q.head

  module _ {S : Type 0} (try : Ptr → S → Bool × S) where
    unfoldable pub highest_locked : ℕ → Ptr → S → M (Ptr × S)
    highest_locked zero cur s = λ _. none
    highest_locked (suc fuel) cur s = branch (cur == null) (pure (null, s)) (
        let (ok, s') = try cur s in
        branch ok (pure (cur, s'))
          (do n ← skip_level (suc fuel) cur (prio cur); highest_locked fuel n s'))

    unfoldable pub dequeue_highest_priority : ℕ → Queue → S → M (Ptr × Queue × S)
    dequeue_highest_priority fuel q s = branch (q.head == null) (pure (null, q, s)) (do
      (x, s') ← highest_locked fuel q.head s
      branch (x == null) (pure (null, q, s')) (do q' ← remove_element q x; pure (x, q', s')))

-- `EventPriorityQueue::dequeueHead`: `pTail` and the links of the element stay as they were.
unfoldable pub dequeue_head : Queue → M (Ptr × Queue)
dequeue_head q = branch (q.head == null) (pure (q.head, q)) (do
  n ← get_next q.head
  branch (n == null) (pure tt) (set_prev n null)
  pure (q.head, queue n q.tail (size_dec q.size)))
