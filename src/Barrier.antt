-- ===== src/Barrier.antt =====
-- sync/barrier.h: the barrier of `size` threads that call `await` again and again. Its two spinlocks
-- are taken as such: what a lock guards is a step, and mReadyLock, which is held over several steps, is
-- a flag. The counters wrap at 2^32.
pub mod Phase
pub mod Steps
pub mod Sums
pub mod Waits
use cy_ph_os.Base.{ℕ, ◌+◌, ◌-◌, ◌%◌, ◌^◌, ◌<◌, ◌≡◌, Bool, true, false, ◌==◌, if◌then◌else◌, update}

-- Where a thread is: outside of `await`; past its decrement, with mReadyLock, as another than the last
-- or as the last; in the loop until mNotReady is 0, and past it.
pub data Stage : Type 0 where
  outside : Stage
  entering : Stage
  draining : Stage
  spinning : Stage
  leaving : Stage

-- A thread, and how often it has begun and ended `await`, which the code does not count.
pub record Thread : Type 0 where
  pub stage : Stage
  pub begun : ℕ
  pub ended : ℕ

pub record Barrier : Type 0 where
  pub not_ready : ℕ
  pub waiting : ℕ
  pub ready_locked : Bool
  pub thread : ℕ → Thread

-- The constructor.
unfoldable pub new_barrier : ℕ → Barrier
new_barrier size = record {
  not_ready = size;
  waiting = 0;
  ready_locked = false;
  thread = λ cpu. record { stage = outside; begun = 0; ended = 0 };
}

abbrev pub wrap_increment : ℕ → ℕ
wrap_increment a = (a + 1) % 2 ^ 32

abbrev pub wrap_decrement : ℕ → ℕ
wrap_decrement a = (a + (2 ^ 32 - 1)) % 2 ^ 32

-- `mReadyLock.lock(); val = mNotReady--;` and the test of `val`.
unfoldable pub enter : ℕ → Barrier → Barrier
enter cpu s =
    let t = s.thread cpu in
    record s {
      not_ready = wrap_decrement s.not_ready;
      ready_locked = true;
      thread = update s.thread cpu (record {
        stage = if s.not_ready == 1 then draining else entering;
        begun = t.begun + 1;
        ended = t.ended;
      });
    }

-- `mWaiting++` under its lock, and `mReadyLock.unlock()`.
unfoldable pub count_waiting : ℕ → Barrier → Barrier
count_waiting cpu s = record s {
  waiting = wrap_increment s.waiting;
  ready_locked = false;
  thread = update s.thread cpu (record (s.thread cpu) { stage = spinning });
}

-- The loop `while (mNotReady > 0)` ends.
unfoldable pub see_ready : ℕ → Barrier → Barrier
see_ready cpu s = record s {
  thread = update s.thread cpu (record (s.thread cpu) { stage = leaving });
}

-- `mWaiting--` under its lock, and the end of `await`.
unfoldable pub leave : ℕ → Barrier → Barrier
leave cpu s =
    let t = s.thread cpu in
    record s {
      waiting = wrap_decrement s.waiting;
      thread =
          update s.thread cpu (record { stage = outside; begun = t.begun; ended = t.ended + 1 });
    }

-- The last thread: the loop `while (mWaiting > 0)` ends, mNotReady is reset and the lock given back.
unfoldable pub reset : ℕ → ℕ → Barrier → Barrier
reset size cpu s =
    let t = s.thread cpu in
    record s {
      not_ready = size;
      ready_locked = false;
      thread =
          update s.thread cpu (record { stage = outside; begun = t.begun; ended = t.ended + 1 });
    }

-- The steps of as many threads as the barrier is for.
pub data Step (size : ℕ) : Barrier → Barrier → Type 0 where
  enters :
      (cpu : ℕ) (s : Barrier)
      → cpu < size
      → (s.thread cpu).stage ≡ outside
      → s.ready_locked ≡ false
      → Step size s (enter cpu s)
  counts :
      (cpu : ℕ) (s : Barrier)
      → cpu < size
      → (s.thread cpu).stage ≡ entering
      → Step size s (count_waiting cpu s)
  sees :
      (cpu : ℕ) (s : Barrier)
      → cpu < size
      → (s.thread cpu).stage ≡ spinning
      → s.not_ready ≡ 0
      → Step size s (see_ready cpu s)
  leaves :
      (cpu : ℕ) (s : Barrier)
      → cpu < size
      → (s.thread cpu).stage ≡ leaving
      → Step size s (leave cpu s)
  resets :
      (cpu : ℕ) (s : Barrier)
      → cpu < size
      → (s.thread cpu).stage ≡ draining
      → s.waiting ≡ 0
      → Step size s (reset size cpu s)

pub data Reaches (size : ℕ) : Barrier → Type 0 where
  start : Reaches size (new_barrier size)
  step : (s s' : Barrier) → Reaches size s → Step size s s' → Reaches size s'
