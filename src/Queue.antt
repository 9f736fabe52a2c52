-- ===== src/Queue.antt =====
-- common/Queue.h, common/Queue.cc, common/QueueElement.h: the intrusive doubly linked queue.
-- A pointer is a number and 0 is nullptr. The link fields of every element live in one `Links`, since
-- all queues of a type share them. `none` is a dereference of nullptr, or a loop out of fuel.
pub mod Chain
pub mod Model
pub mod Returns
pub mod Insert
pub mod Remove
pub mod Between
pub mod Unlink
pub mod Search
pub mod Dequeue
use cy_ph_os.Base.{
  ℕ, zero, suc, ◌+◌, ◌-◌, ◌%◌, ◌^◌, Bool, true, false, ◌&&◌, ◌||◌, not, Option, none, some, ◌==◌,
  leb, if◌then◌else◌, update,
}

abbrev pub Ptr : Type 0
Ptr = ℕ

abbrev pub null : Ptr
null = 0

-- `pNext` and `pPrevious` of each element
pub record Links : Type 0 where
  pub next : Ptr → Ptr
  pub prev : Ptr → Ptr

-- `pHead`, `pTail`, `pSize`
pub record Queue : Type 0 where
  pub head : Ptr
  pub tail : Ptr
  pub size : ℕ

abbrev pub M : Type 0 → Type 0
M A = Links → Option (A × Links)

abbrev pub pure : {A : Type 0} → A → M A
pure a m = some (a, m)

abbrev pub and_then : {A B : Type 0} → Option (A × Links) → (A → M B) → Option (B × Links)
and_then none f = none
and_then (some (a, m)) f = f a m

infixl 5 ◌>>=◌ ◌>>◌
abbrev pub ◌>>=◌ : {A B : Type 0} → M A → (A → M B) → M B
c >>= f = λ m. and_then (c m) f

abbrev pub ◌>>◌ : {B : Type 0} → M (Unit {0}) → M B → M B
c >> k = c >>= λ _. k

-- A command at a pointer that the code dereferences.
abbrev pub deref : {A : Type 0} → Bool → A → Option A
deref true a = none
deref false a = some a

-- A branch of the code, as a command.
abbrev pub branch : {A : Type 0} → Bool → M A → M A → M A
branch true c d m = c m
branch false c d m = d m

-- `p->pNext`, `p->pPrevious` and writes of them; a fault at nullptr
unfoldable pub get_next : Ptr → M Ptr
get_next p m = deref (p == null) (m.next p, m)

unfoldable pub get_prev : Ptr → M Ptr
get_prev p m = deref (p == null) (m.prev p, m)

unfoldable pub set_next : Ptr → Ptr → M (Unit {0})
set_next p v m = deref (p == null) (tt, record m { next = update m.next p v })

unfoldable pub set_prev : Ptr → Ptr → M (Unit {0})
set_prev p v m = deref (p == null) (tt, record m { prev = update m.prev p v })

-- `pSize++` and `pSize--` on a uint32_t
abbrev pub size_inc : ℕ → ℕ
size_inc n = (n + 1) % 2 ^ 32

abbrev pub size_dec : ℕ → ℕ
size_dec n = (n + 2 ^ 32 - 1) % 2 ^ 32

abbrev pub queue : Ptr → Ptr → ℕ → Queue
queue h t n = record { head = h; tail = t; size = n }

abbrev pub empty : Queue
empty = queue null null 0

unfoldable pub enqueue_fast : Queue → Ptr → M Queue
enqueue_fast q x =
    branch ((q.head == null) && (q.tail == null))
      (do set_next x null; set_prev x null; pure (queue x x (size_inc q.size)))
      (do
        set_next x null
        set_prev x q.tail
        set_next q.tail x
        pure (queue q.head x (size_inc q.size)))

-- The search loop of `enqueue`: is `x` reached from `cur`?
unfoldable pub is_in : ℕ → Ptr → Ptr → M Bool
is_in zero cur x = λ _. none
is_in (suc fuel) cur x =
    branch (cur == null) (pure false)
      (branch (cur == x) (pure true) (do n ← get_next cur; is_in fuel n x))

unfoldable pub enqueue : ℕ → Queue → Ptr → M Queue
enqueue fuel q x = do found ← is_in fuel q.head x; branch found (pure q) (enqueue_fast q x)

unfoldable pub enqueue_before : Queue → Ptr → Ptr → M Queue
enqueue_before q x before = do
  p ← get_prev before
  h ← branch (not (p == null)) (do set_next p x; pure q.head) (pure x)
  set_next x before
  p' ← get_prev before
  set_prev x p'
  set_prev before x
  pure (queue h q.tail (size_inc q.size))

-- `dequeueFirst` from `pHead == pTail` on, where `pHead` is an element.
unfoldable pub take_head : Queue → M Queue
take_head q =
    branch (q.head == q.tail) (pure (queue null null q.size))
      (do n ← get_next q.head; set_prev n null; pure (queue n q.tail q.size))

unfoldable pub dequeue_first : Queue → M (Ptr × Queue)
unfolding take_head
dequeue_first q = branch (q.head == null) (pure (null, q)) (do
  q' ← take_head q
  set_next q.head null
  set_prev q.head null
  pure (q.head, record q' { size = size_dec q'.size }))

unfoldable pub remove_element : Queue → Ptr → M Queue
remove_element q x = do
  h ← branch (q.head == x) (get_next x) (pure q.head)
  t ← branch (q.tail == x) (get_prev x) (pure q.tail)
  p ← get_prev x
  branch (not (p == null)) (do n ← get_next x; set_next p n) (pure tt)
  n ← get_next x
  branch (not (n == null)) (do p' ← get_prev x; set_prev n p') (pure tt)
  set_next x null
  set_prev x null
  pure (queue h t (size_dec q.size))

-- The loop of `get` and `dequeue`, which counts `pos` down to 0.
unfoldable pub walk : ℕ → Ptr → M Ptr
walk zero cur = pure cur
walk (suc pos) cur = branch (cur == null) (pure cur) (do n ← get_next cur; walk pos n)

unfoldable pub get : Queue → ℕ → M Ptr
unfolding walk
get q pos = branch (leb q.size pos) (pure null) (walk pos q.head)

unfoldable pub dequeue : Queue → ℕ → M (Ptr × Queue)
dequeue q pos = branch (leb q.size pos) (pure (null, q)) (do
  x ← walk pos q.head
  q' ← branch (not (x == null)) (remove_element q x) (pure q)
  pure (x, q'))

-- The loop of `remove`: the element itself if it is reached, else nullptr.
unfoldable pub find : ℕ → Ptr → Ptr → M Ptr
find zero cur x = λ _. none
find (suc fuel) cur x =
    branch (not (cur == null) && not (cur == x)) (do n ← get_next cur; find fuel n x) (pure cur)

unfoldable pub remove : ℕ → Queue → Ptr → M Queue
remove fuel q x = do
  cur ← find fuel q.head x
  branch (not (cur == null)) (remove_element q cur) (pure q)

unfoldable pub clear_list : ℕ → Queue → M Queue
clear_list zero q = λ _. none
clear_list (suc fuel) q = do
  (x, q') ← dequeue_first q
  branch (x == null) (pure q') (clear_list fuel q')
