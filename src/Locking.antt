-- ===== src/Locking.antt =====
-- eventhandling/EventHandler.cc, `tryTaskLock` and `unlockTask`: a processor runs a task only while no
-- other processor runs one that needs a component of it. `pActiveEventTask` is a function of the
-- processor, nullptr where it runs nothing; `NR_CPUS` is `n`.
pub mod Exclusion
use cy_ph_os.Base.{
  ℕ, zero, suc, ◌+◌, Bool, true, false, ◌||◌, not, Option, none, some, List, [], ◌∷◌, ◌==◌,
  if◌then◌else◌, has, update,
}
use cy_ph_os.Queue.{Ptr, null}
use cy_ph_os.Tasks.{Trigger, Env, Tasks, trigger_of}

abbrev pub Active : Type 0
Active = ℕ → Ptr

-- The loop over the dependencies of the task, against one active trigger.
unfoldable pub deps_busy : List Ptr → Trigger → Bool
deps_busy [] a = false
deps_busy (d ∷ ds) a = if d == a.osc then true else (if has d a.deps then true else deps_busy ds a)

-- The body of the loop over the processors, at a processor that runs `a`.
unfoldable pub busy : Trigger → Trigger → Bool
busy t a = if t.osc == a.osc then true else (if has t.osc a.deps then true else deps_busy t.deps a)

module _ (env : Env) (tasks : Tasks) where
  -- The loop over the processors: `k` are left, from `cpu` on.
  unfoldable pub any_busy : ℕ → ℕ → Active → Ptr → Bool
  any_busy zero cpu active t = false
  any_busy (suc k) cpu active t =
      let rest = any_busy k (cpu + 1) active t in
      if active cpu == null
      then rest
      else (if busy (trigger_of env tasks t) (trigger_of env tasks (active cpu))
          then true
          else rest)

  -- `tryTaskLock` on processor `cpu`, behind its check of the component: all of it, for a task whose
  -- trigger has one.
  unfoldable pub attempt : ℕ → ℕ → Ptr → Active → Bool × Active
  attempt n cpu t active =
      if any_busy n 0 active t then (false, active) else (true, update active cpu t)

  -- `tryTaskLock`; `none` is its endless loop at a trigger with no component.
  unfoldable pub try_task_lock : ℕ → ℕ → Ptr → Active → Option (Bool × Active)
  try_task_lock n cpu t active =
      if (trigger_of env tasks t).osc == null then none else some (attempt n cpu t active)

-- `unlockTask` on processor `cpu`. A foreign task is reported and the processor is freed all the same.
unfoldable pub unlock_task : ℕ → Ptr → Active → Active
unlock_task cpu t active = update active cpu null
