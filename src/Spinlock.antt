-- ===== src/Spinlock.antt =====
-- sync/Spinlock.h: the ticket lock. A processor is idle, in the loop of `lock` with its ticket, or past
-- it; each atomic operation is one step, and the counters wrap at 2^32.
pub mod Line
pub mod Serves
pub mod Exclusion
use cy_ph_os.Base.{ℕ, ◌+◌, ◌%◌, ◌^◌, ◌<◌, ◌≡◌, update}

pub data Stage : Type 0 where
  idle : Stage
  waiting : ℕ → Stage
  holding : ℕ → Stage

pub record Spinlock : Type 0 where
  pub available : ℕ
  pub active : ℕ
  pub stage : ℕ → Stage

abbrev pub new_spinlock : Spinlock
new_spinlock = record { available = 0; active = 0; stage = λ cpu. idle }

abbrev pub increment : ℕ → ℕ
increment a = (a + 1) % 2 ^ 32

-- `myTicket = fetch_add(&available, 1)`.
unfoldable pub take_ticket : ℕ → Spinlock → Spinlock
take_ticket cpu s = record s {
  available = increment s.available;
  stage = update s.stage cpu (waiting s.available);
}

-- The loop ends: `active` is the processor's ticket.
unfoldable pub pass : ℕ → Spinlock → Spinlock
pass cpu s = record s { stage = update s.stage cpu (holding s.active) }

unfoldable pub unlock : ℕ → Spinlock → Spinlock
unlock cpu s = record s { active = increment s.active; stage = update s.stage cpu idle }

-- The steps of `n` processors that use `lock` and `unlock` in turn.
pub data Step (n : ℕ) : Spinlock → Spinlock → Type 0 where
  takes : (cpu : ℕ) (s : Spinlock) → cpu < n → s.stage cpu ≡ idle → Step n s (take_ticket cpu s)
  passes :
      (cpu : ℕ) (s : Spinlock) → cpu < n → s.stage cpu ≡ waiting s.active → Step n s (pass cpu s)
  unlocks : (cpu t : ℕ) (s : Spinlock) → cpu < n → s.stage cpu ≡ holding t → Step n s (unlock cpu s)

pub data Reaches (n : ℕ) : Spinlock → Type 0 where
  start : Reaches n new_spinlock
  step : (s s' : Spinlock) → Reaches n s → Step n s s' → Reaches n s'
