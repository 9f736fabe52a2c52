-- ===== src/EventHandler/Places.antt =====
-- Where the tasks are: in a pool, in a ready queue or on a processor.
use cy_ph_os.Base.{
  ℕ, ◌+◌, ◌<◌, ◌≤◌, ◌≡◌, sym, ap, ◌∙◌, ◌≢◌, inl, inr, Bool-cases, List, [], ◌∷◌, arith, ◌==◌,
  if◌then◌else◌, count, count-eq-zero, Distinct, sum_below, sum-update, weight_of_zero_sum, update,
  update_at, update_ne, eq_of_test, ne_of_test,
}
use cy_ph_os.Queue.{Ptr, null}
use cy_ph_os.Tasks.{Env, Tasks, Task, trigger_of}
use cy_ph_os.Locking.{Active}
use cy_ph_os.Locking.Exclusion.{IsExclusive}
use cy_ph_os.StackPool.Held.{IsHeld}
use cy_ph_os.Strategy.{SchedulingStrategy}
use cy_ph_os.EventHandler.{EventHandler}

abbrev pub is : ℕ → ℕ → ℕ
is a x = if a == x then 1 else 0

-- The processors below `n` that run `a`.
abbrev pub running : ℕ → Active → Ptr → ℕ
running n active a = if a == null then 0 else sum_below (is a) n active

pub count_le_one : (xs : List Ptr) (a : Ptr) → Distinct xs → count a xs ≤ 1
count_le_one [] a d = omega arith
count_le_one (x ∷ xs) a d = elim (Bool-cases (a == x)) [
  | inl e ↦
      let absent : count a xs ≡ 0 = rw (eq_of_test a x e) (count-eq-zero x xs d.0) in
      rw e (omega (arith, absent))
  | inr e ↦ rw e (omega (arith, count_le_one xs a d.1))
]

-- A processor that runs nothing takes `x`.
pub running-update :
    (n cpu : ℕ) (active : Active) (x a : Ptr)
    → cpu < n
    → active cpu ≡ null
    → x ≢ null
    → running n (update active cpu x) a ≡ running n active a + is a x
running-update n cpu active x a lt idle ne = ground (arith, sum-update (is a) n active cpu x lt)

-- A processor that runs `x` gives it up.
pub running-clear :
    (n cpu : ℕ) (active : Active) (x a : Ptr)
    → cpu < n
    → active cpu ≡ x
    → x ≢ null
    → running n active a ≡ running n (update active cpu null) a + is a x
running-clear n cpu active x a lt busy ne = ground (arith, sum-update (is a) n active cpu null lt)

pub not_running :
    (n : ℕ) (active : Active) (x : Ptr)
    → running n active x ≡ 0
    → (i : ℕ) → i < n
    → active i ≢ null
    → active i ≢ x
not_running n active x h i lt ne e =
    let none_here : sum_below (is x) n active ≡ 0 = ground arith in
    let w : is x (active i) ≡ 0 = weight_of_zero_sum (is x) n active i none_here lt in ground arith

-- Only the triggers of the active tasks matter for exclusion.
pub IsExclusive-frame :
    (env : Env) (n : ℕ) (tasks tasks' : Tasks) (active : Active)
    → ((i : ℕ) → i < n → active i ≢ null → (tasks' (active i)).trigger ≡ (tasks (active i)).trigger)
    → IsExclusive env tasks n active
    → IsExclusive env tasks' n active
IsExclusive-frame env n tasks tasks' active same ex i j hi hj ne ai aj =
    let ei : trigger_of env tasks' (active i) ≡ trigger_of env tasks (active i) =
      ap env.trigger (same i hi ai) in
    let ej : trigger_of env tasks' (active j) ≡ trigger_of env tasks (active j) =
      ap env.trigger (same j hj aj) in
    rw (ei, ej) (ex i j hi hj ne ai aj)

module _ {env : Env} {n : ℕ} (strategy : SchedulingStrategy env n) where
  -- How often a task is in a pool, in a ready queue or on a processor.
  abbrev pub places : EventHandler strategy.Queues → Ptr → ℕ
  places s a =
      count a s.pool
      + count a s.interrupt_pool
      + strategy.count_ready a s.kernel.queues
      + running n s.kernel.active a

  -- Every task of `all` is in exactly one place, and no two processors run tasks that share a
  -- component.
  abbrev pub IsSystem : List Ptr → EventHandler strategy.Queues → Type 0
  IsSystem all s =
      ((a : Ptr) → places s a ≡ count a all) × IsExclusive env s.kernel.tasks n s.kernel.active

  -- The same while a function holds the task `x`.
  abbrev pub Holds : List Ptr → Ptr → EventHandler strategy.Queues → Type 0
  Holds all x s =
      (x ≢ null)
      × ((a : Ptr) → places s a + is a x ≡ count a all)
      × IsExclusive env s.kernel.tasks n s.kernel.active

-- A change of a task that keeps its trigger keeps every trigger.
pub update_trigger :
    (tasks : Tasks) (t : Ptr) (task : Task)
    → task.trigger ≡ (tasks t).trigger
    → (a : Ptr) → (update tasks t task a).trigger ≡ (tasks a).trigger
update_trigger tasks t task e a = elim (Bool-cases (a == t)) [
  | inl h ↦
      let h' : a ≡ t = eq_of_test a t h in
      ap (λ (k : Task). k.trigger) (update_at tasks t task h')
      ∙ e
      ∙ ap (λ b. (tasks b).trigger) (sym h')
  | inr h ↦ ap (λ (k : Task). k.trigger) (update_ne tasks t task (ne_of_test a t h))
]

module _ {env : Env} {n : ℕ} (strategy : SchedulingStrategy env n) where
  -- A task that no processor runs has no stack.
  abbrev pub IsClean : EventHandler strategy.Queues → Type 0
  IsClean s =
      (a : Ptr)
      → a ≢ null
      → ((c : ℕ) → c < n → s.kernel.active c ≢ a)
      → (s.kernel.tasks a).stack ≡ null

  -- The invariant of the whole system.
  abbrev pub IsRunnable : ℕ → List Ptr → EventHandler strategy.Queues → Type 0
  IsRunnable base all s =
      IsSystem strategy all s × IsHeld n base s.kernel.stacks s.stack_pointers × IsClean s
