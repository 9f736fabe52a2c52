-- ===== src/Timer.antt =====
-- driver/GenericTimer.cc and eventhandling/TimerEvent.h: the software timer. Oneshot events stand in a
-- list in which each holds the ticks that remain after its predecessor is due. Fields of the events
-- are functions of the pointer; an event that fires is part of the result.
pub mod Schedule
pub mod Oneshot
pub mod Tick
use cy_ph_os.Base.{
  ℕ, suc, ◌+◌, ◌-◌, ◌*◌, ◌/◌, ◌%◌, ◌^◌, Bool, Option, none, some, List, [], ◌∷◌, ◌++◌, ◌==◌, ltb,
  if◌then◌else◌, has, update,
}
use cy_ph_os.Queue.{Ptr, null}
use cy_ph_os.Queue.Model.{append_new, without}
use cy_ph_os.Tasks.{EventType, timer_oneshot, timer_periodic}

-- `a - b` on a uint32_t
abbrev pub sub32 : ℕ → ℕ → ℕ
sub32 a b = (a + 2 ^ 32 - b) % 2 ^ 32

pub record Timer : Type 0 where
  pub kind : Ptr → EventType
  pub interval : Ptr → ℕ
  pub remaining : Ptr → ℕ
  pub subscribers : Ptr → List Ptr
  pub oneshot_queue : List Ptr
  pub periodic_queue : List Ptr
  pub oneshot_pool : List Ptr
  pub periodic_pool : List Ptr
  pub timer_interval : ℕ
  pub ticks : ℕ

-- The loop of `setOneshotEvent`: `event` is due in `required` ticks, and `sum` ticks are behind.
unfoldable pub insert_oneshot : Ptr → ℕ → ℕ → List Ptr → (Ptr → ℕ) → List Ptr × (Ptr → ℕ)
insert_oneshot event required sum [] rem = (event ∷ [], update rem event (sub32 required sum))
insert_oneshot event required sum (c ∷ cs) rem =
    let sum' = (sum + rem c) % 2 ^ 32 in
    let ticks = sub32 required (sub32 sum' (rem c)) in
    let rest = insert_oneshot event required sum' cs rem in
    if ltb required sum'
    then (event ∷ c ∷ cs, update (update rem event ticks) c (sub32 (rem c) ticks))
    else (c ∷ rest.0, rest.1)

-- From the test of the queue's size on.
unfoldable pub schedule_oneshot : Ptr → ℕ → List Ptr → (Ptr → ℕ) → List Ptr × (Ptr → ℕ)
schedule_oneshot event required [] rem = (event ∷ [], update rem event required)
schedule_oneshot event required (x ∷ xs) rem = insert_oneshot event required 0 (x ∷ xs) rem

-- `setOneshotEvent`
unfoldable pub set_oneshot_event : Ptr → ℕ → Timer → Ptr × Timer
set_oneshot_event trigger delay t = go t.oneshot_pool
  where
    go : List Ptr → Ptr × Timer
    go [] = (null, t)
    go (event ∷ pool) =
        let (queue, rem) =
          schedule_oneshot event (delay / t.timer_interval) t.oneshot_queue t.remaining in
        (
          event,
          record t {
            kind = update t.kind event timer_oneshot;
            subscribers = update t.subscribers event (append_new (t.subscribers event) trigger);
            oneshot_pool = pool;
            oneshot_queue = queue;
            remaining = rem;
          },
        )

-- `setPeriodicEvent`
unfoldable pub set_periodic_event : Ptr → ℕ → Timer → Ptr × Timer
set_periodic_event trigger interval t = go t.periodic_pool
  where
    go : List Ptr → Ptr × Timer
    go [] = (null, t)
    go (event ∷ pool) =
        let ticks = interval / t.timer_interval in
        (
          event,
          record t {
            kind = update t.kind event timer_periodic;
            interval = update t.interval event ticks;
            remaining = update t.remaining event ticks;
            subscribers = update t.subscribers event (append_new (t.subscribers event) trigger);
            periodic_pool = pool;
            periodic_queue = t.periodic_queue ++ event ∷ [];
          },
        )

-- The ticks of a cancelled event go to its successor.
unfoldable pub pass_on : Ptr → List Ptr → (Ptr → ℕ) → Ptr → ℕ
pass_on x [] rem = rem
pass_on x (y ∷ []) rem = rem
pass_on x (y ∷ z ∷ zs) rem =
    let rest = pass_on x (z ∷ zs) rem in
    if x == y then update rem z ((rem z + rem y) % 2 ^ 32) else rest

-- `returnOneshotEventToPool` and `returnPeriodicEventToPool`
unfoldable pub return_oneshot_event : Ptr → Timer → Timer
return_oneshot_event x t = record t {
  subscribers = update t.subscribers x [];
  oneshot_pool = t.oneshot_pool ++ x ∷ [];
}

unfoldable pub return_periodic_event : Ptr → Timer → Timer
return_periodic_event x t = record t {
  subscribers = update t.subscribers x [];
  periodic_pool = t.periodic_pool ++ x ∷ [];
}

-- `cancelOneshotTimerEvent`; `none` is the null dereference at an event that is not in the queue.
unfoldable pub cancel_oneshot : Ptr → Timer → Option Timer
cancel_oneshot x t =
    if has x t.oneshot_queue
    then some (
        return_oneshot_event x (record t {
          remaining = pass_on x t.oneshot_queue t.remaining;
          oneshot_queue = without x t.oneshot_queue;
        }))
    else none

-- `cancelPeriodicTimerEvent`
unfoldable pub cancel_periodic : Ptr → Timer → Option Timer
cancel_periodic x t =
    if has x t.periodic_queue
    then some (return_periodic_event x (record t { periodic_queue = without x t.periodic_queue }))
    else none

-- The loop of `handleTick` over the oneshot events that are due at once: those that fire, the rest.
unfoldable pub drain : (Ptr → ℕ) → List Ptr → List Ptr × List Ptr
drain rem [] = ([], [])
drain rem (x ∷ xs) =
    let rest = drain rem xs in if rem x == 0 then (x ∷ rest.0, rest.1) else ([], x ∷ xs)

-- The first half of `handleTick`.
unfoldable pub tick_oneshot : List Ptr → (Ptr → ℕ) → List Ptr × List Ptr × (Ptr → ℕ)
tick_oneshot [] rem = ([], [], rem)
tick_oneshot (x ∷ xs) rem =
    let rem' = update rem x (sub32 (rem x) 1) in
    let (fired, rest) = drain rem' xs in
    let (fired', rest') = drain rem' (x ∷ xs) in
    if rem' x == 0 then (x ∷ fired, rest, rem') else (fired', rest', rem')

-- The second half of `handleTick`: every periodic event.
unfoldable pub tick_periodic : List Ptr → (Ptr → ℕ) → (Ptr → ℕ) → List Ptr × (Ptr → ℕ)
tick_periodic [] interval rem = ([], rem)
tick_periodic (x ∷ xs) interval rem =
    let left = sub32 (rem x) 1 in
    let again = tick_periodic xs interval (update rem x (interval x)) in
    let later = tick_periodic xs interval (update rem x left) in
    if left == 0 then (x ∷ again.0, again.1) else later

-- `handleTick`: the events that fire, in order.
unfoldable pub handle_tick : Timer → List Ptr × Timer
handle_tick t =
    let (fired, queue, rem) = tick_oneshot t.oneshot_queue t.remaining in
    let (fired', rem') = tick_periodic t.periodic_queue t.interval rem in
    (
      fired ++ fired',
      record t { oneshot_queue = queue; remaining = rem'; ticks = (t.ticks + 1) % 2 ^ 64 },
    )

-- `getTimeInMS`
unfoldable pub get_time_in_ms : Timer → ℕ
get_time_in_ms t = (t.ticks * t.timer_interval) % 2 ^ 64 / 1000
