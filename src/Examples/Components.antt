-- ===== src/Examples/Components.antt =====
-- Locks, stacks and scheduling strategies at concrete inputs: two processors, of which processor 1 runs
-- the task 8.
use cy_ph_os.Base.{
  ℕ, ◌+◌, ◌<◌, ◌≡◌, ◌≢◌, ◌⊎◌, Bool, some, none, refl, true, false, List, [], ◌∷◌, arith, ◌==◌,
  if◌then◌else◌, update,
}
use cy_ph_os.Queue.{Ptr, null}
use cy_ph_os.Tasks.{trigger_of, Env, Tasks, software_event, interrupt_event}
use cy_ph_os.Locking.{Active, try_task_lock, attempt}
use cy_ph_os.Locking.Exclusion.{IsExclusive, Decided, try_task_lock-IsFree, attempt-IsExclusive}
use cy_ph_os.StackPool.{StackPool, stack_address, get_free_stack}
use cy_ph_os.StackPool.Search.{get_free_stack_finds}
use cy_ph_os.Strategy.MultiFifo
use cy_ph_os.Strategy.MultiFifo.{take_multi_fifo-Takes}
use cy_ph_os.Strategy.MultiPriority
use cy_ph_os.Strategy.Choice.{Chosen, take_multi_priority-Chosen}

abbrev env : Env
env = record {
  trigger = λ t. record { osc = t + 1; deps = 50 ∷ []; priority = t; affinity = 0 };
  kind = λ e. if e == 7 then interrupt_event else software_event;
}

abbrev tasks : Tasks
tasks =
    λ t. record { event = 5; trigger = t; timestamp = 0; enqueued = true; arg = 0; stack = null }

abbrev active : Active
active = λ cpu. if cpu == 1 then 8 else 0

active-IsExclusive : IsExclusive env tasks 2 active
active-IsExclusive i j hi hj ne ai aj = absurd (only_one i j ne ai aj)
  where
    only_one : (i j : ℕ) → i ≢ j → active i ≢ null → active j ≢ null → ⊥
    only_one i j ne ai aj = ground arith

try_task_lock-IsFree_example :
    (((trigger_of env tasks 16).osc ≡ null) × (try_task_lock env tasks 2 0 16 active ≡ none))
    ⊎ (((trigger_of env tasks 16).osc ≢ null)
        × (r : Bool × Active) × (try_task_lock env tasks 2 0 16 active ≡ some r)
        × Decided env tasks 2 0 16 active r.0 r.1)
try_task_lock-IsFree_example = try_task_lock-IsFree env tasks 2 0 16 active

attempt-IsExclusive_example : IsExclusive env tasks 2 (attempt env tasks 2 0 16 active).1
attempt-IsExclusive_example = attempt-IsExclusive env tasks 2 0 16 active active-IsExclusive

-- Four stacks, of which the second one is free, and a pool that is full.
abbrev pool : StackPool
pool = record { used = λ i. if i == 1 then false else true; pointer = 2 }

abbrev full_pool : StackPool
full_pool = record { used = λ i. true; pointer = 3 }

get_free_stack_finds_example :
    (k : ℕ) × (k < 4)
    × (pool.used k ≡ false)
    × (get_free_stack 4 4096 pool
        ≡ (stack_address 4096 k, record { used = update pool.used k true; pointer = k }))
get_free_stack_finds_example = get_free_stack_finds 4 4096 pool 1 (omega arith) (omega arith) refl

abbrev waiting : List Ptr
waiting = 24 ∷ 16 ∷ []

abbrev per_cpu : ℕ → List Ptr
per_cpu = λ i. if i == 0 then waiting else (if i == 2 then 32 ∷ [] else [])

abbrev multi_fifo : MultiFifo.Queues
multi_fifo = record { normal = per_cpu; interrupt = λ i. if i == 1 then 48 ∷ [] else [] }

take_multi_priority-Chosen_example :
    ((x : Ptr) (running : Active)
      → MultiPriority.count_ready env 2 x per_cpu ≢ 0
      → try_task_lock env tasks 2 0 x running ≡ some (attempt env tasks 2 0 x running))
    × Chosen env tasks 2 0 active per_cpu (MultiPriority.take env 2 0 tasks active per_cpu)
take_multi_priority-Chosen_example =
    take_multi_priority-Chosen env tasks 2 0 active per_cpu (omega arith) refl
      (λ x ready e. absurd (omega arith))
