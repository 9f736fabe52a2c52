-- ===== src/Examples/Queues.antt =====
-- The queues at concrete inputs: three elements, and one more to come.
use cy_ph_os.Base.{
  ℕ, ◌+◌, ◌≡◌, refl, Bool, true, false, List, [], ◌∷◌, arith, ◌==◌, if◌then◌else◌, none,
}
use cy_ph_os.Queue.{Ptr, null, Links, Queue, queue, remove_element}
use cy_ph_os.Queue.Chain.{IsQueue, SameOutside}
use cy_ph_os.Queue.Model.{without}
use cy_ph_os.Queue.Returns.{Returns}
use cy_ph_os.Queue.Remove.{remove_element-IsQueue}
use cy_ph_os.EventQueue
use cy_ph_os.EventQueue.{dequeue_first_locked, dequeue_highest_priority}
use cy_ph_os.EventQueue.Model.{pick_level, insert_by}
use cy_ph_os.EventQueue.Enqueue.{enqueue_by_priority-IsQueue}
use cy_ph_os.EventQueue.Locked.{dequeue_highest_priority-IsQueue}

abbrev three_links : Links
three_links = record {
  next = λ p. if p == 8 then 16 else (if p == 16 then 24 else 0);
  prev = λ p. if p == 24 then 16 else (if p == 16 then 8 else 0);
}

abbrev three : Queue
three = queue 8 24 3

abbrev three_elements : List Ptr
three_elements = 8 ∷ 16 ∷ 24 ∷ []

three-IsQueue : IsQueue three_links three three_elements
three-IsQueue = record {
  head = refl;
  tail = refl;
  size = refl;
  links = (omega arith, refl, refl, (omega arith, refl, refl, (omega arith, refl, refl, tt)));
  distinct = (refl, (refl, (refl, tt)));
}

-- The priority of an element, and a lock that refuses the element 8 and counts its calls.
abbrev prio : Ptr → ℕ
prio p = if p == 24 then 1 else 5

abbrev try : Ptr → ℕ → Bool × ℕ
try p calls = if p == 8 then (false, calls + 1) else (true, calls + 1)

abbrev Holding : List Ptr → Queue → Links → Type 0
Holding xs q n = IsQueue n q xs

remove_element-IsQueue_example :
    Returns
      (λ q' n.
        IsQueue n q' (8 ∷ 24 ∷ [])
        × (n.next 16 ≡ null)
        × (n.prev 16 ≡ null)
        × SameOutside three_elements three_links n)
      (remove_element three 16 three_links)
remove_element-IsQueue_example =
    remove_element-IsQueue three_links three (8 ∷ []) 16 (24 ∷ []) three-IsQueue

enqueue_by_priority-IsQueue_example :
    Returns
      (λ q' n.
        IsQueue n q' (insert_by prio 32 three_elements)
        × SameOutside (32 ∷ three_elements) three_links n)
      (EventQueue.enqueue prio 4 three 32 three_links)
enqueue_by_priority-IsQueue_example =
    enqueue_by_priority-IsQueue prio three_links 4 three three_elements 32 three-IsQueue
      (omega arith) refl (omega arith)

dequeue_highest_priority-IsQueue_example :
    Returns
      (λ (x, q', t) n.
        (x ≡ (pick_level try prio none three_elements 0).0)
        × (t ≡ (pick_level try prio none three_elements 0).1)
        × IsQueue n q' (without (pick_level try prio none three_elements 0).0 three_elements)
        × SameOutside three_elements three_links n)
      (dequeue_highest_priority prio try 4 three 0 three_links)
dequeue_highest_priority-IsQueue_example =
    dequeue_highest_priority-IsQueue prio try three_links 4 three three_elements 0 three-IsQueue
      (omega arith)
