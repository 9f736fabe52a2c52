-- ===== src/Strategy/Choice.antt =====
-- eventhandling/MultiQueuePriorityStrategy.cc: which task `getEvent` chooses.
use cy_ph_os.Base.{
  ℕ, ◌<◌, ◌≡◌, ◌≢◌, refl, sym, ap, ◌∙◌, ◌⊎◌, inl, inr, Bool-cases, Option, none, some, List, [],
  ◌∷◌, arith, if◌then◌else◌, count, not_has_of_count, suc, test_of_ne, update, update_self,
  weight_of_zero_sum,
}
use mathlib.Core.Bool.{true≢false}
use cy_ph_os.Queue.{Ptr, null}
use cy_ph_os.Queue.Model.{without}
use cy_ph_os.Queue.Search.{without_same}
use cy_ph_os.Tasks.{Env, Tasks, trigger_of}
use cy_ph_os.EventQueue.Model.{skips, pick_level}
use cy_ph_os.Locking.{Active, attempt, try_task_lock}
use cy_ph_os.Locking.Exclusion.{
  IsFree, attempt_iff, attempt_failed, attempt_locked, try_task_lock_lem,
}
use cy_ph_os.Strategy.Take.{leave, put, or_else}
use cy_ph_os.Strategy.SinglePriority.{priority_of}
use cy_ph_os.Strategy.MultiPriority.{Queues, count_ready, ready_event, take}

-- The first task of each run of equal priority, behind a task of the priority `l`.
abbrev pub level_heads : (Ptr → ℕ) → Option ℕ → List Ptr → List Ptr
level_heads prio l [] = []
level_heads prio l (x ∷ xs) =
    if skips l (prio x) then level_heads prio l xs else x ∷ level_heads prio (some (prio x)) xs

module _ (env : Env) (tasks : Tasks) (n cpu : ℕ) where
  -- None of the tasks is free.
  abbrev pub NoneFree : Active → List Ptr → Type 0
  NoneFree active [] = Unit
  NoneFree active (y ∷ ys) = (¬ IsFree env tasks n active y) × NoneFree active ys

  -- `x` is the first of the tasks that is free.
  abbrev pub FirstFree : Active → Ptr → List Ptr → Type 0
  FirstFree active x [] = ⊥
  FirstFree active x (y ∷ ys) =
      ((x ≡ y) × IsFree env tasks n active y)
      ⊎ ((¬ IsFree env tasks n active y) × FirstFree active x ys)

  -- The outcome of the search of one queue.
  abbrev Searched : Active → List Ptr → Ptr × Active → Type 0
  Searched active heads r =
      (NoneFree active heads × (r ≡ (null, active)))
      ⊎ ((x : Ptr) × (x ≢ null) × FirstFree active x heads × (r ≡ (x, update active cpu x)))

  Searched-next :
      (active : Active) (y : Ptr) (heads : List Ptr) (r : Ptr × Active)
      → ¬ IsFree env tasks n active y
      → Searched active heads r
      → Searched active (y ∷ heads) r
  Searched-next active y heads r not_free (inl (none_free, e)) = inl ((not_free, none_free), e)
  Searched-next active y heads r not_free (inr (x, ne, first, e)) =
      inr (x, ne, inr (not_free, first), e)

  pick_level-Searched :
      (prio : Ptr → ℕ) (l : Option ℕ) (xs : List Ptr) (active : Active)
      → count null xs ≡ 0
      → Searched active
          (level_heads prio l xs)
          (pick_level (attempt env tasks n cpu) prio l xs active)
  unfolding pick_level
  pick_level-Searched prio l [] active h = inl (tt, refl)
  pick_level-Searched prio l (x ∷ xs) active h =
      let rest : count null xs ≡ 0 = ground arith in
      elim (Bool-cases (skips l (prio x))) [
        | inl over ↦ rw over (pick_level-Searched prio l xs active rest)
        | inr stop ↦ elim (Bool-cases (attempt env tasks n cpu x active).0) [
          | inl ok ↦
              let ne : x ≢ null = λ e. ground arith in
              rw (stop, ok, attempt_locked env tasks n cpu x active ok)
                (inr (x, ne, inl (refl, (attempt_iff env tasks n cpu x active).0 ok), refl))
          | inr no_lock ↦
              rw (stop, no_lock, attempt_failed env tasks n cpu x active no_lock)
                (Searched-next active x _ _
                  (λ free.
                    true≢false (sym ((attempt_iff env tasks n cpu x active).1 free) ∙ no_lock))
                  (pick_level-Searched prio (some (prio x)) xs active rest))
        ]
      ]

  abbrev heads : List Ptr → List Ptr
  heads xs = level_heads (priority_of env tasks) none xs

  -- What `getEvent` may give, of the processor's own queue and the global one.
  pub data Chosen (active : Active) (q : Queues) (r : Ptr × Queues × Active) : Type 0 where
    own :
        (x : Ptr)
        → FirstFree active x (heads (q cpu))
        → r ≡ (x, update q cpu (without x (q cpu)), update active cpu x)
        → Chosen active q r
    global :
        (x : Ptr)
        → NoneFree active (heads (q cpu))
        → FirstFree active x (heads (q n))
        → r ≡ (x, update q n (without x (q n)), update active cpu x)
        → Chosen active q r
    nothing :
        NoneFree active (heads (q cpu))
        → NoneFree active (heads (q n))
        → r ≡ (null, q, active)
        → Chosen active q r

  -- The search of the queue `i`.
  abbrev Answered : ℕ → Active → Queues → Type 0
  Answered i active q =
      (NoneFree active (heads (q i)) × (ready_event env n i cpu tasks active q ≡ (null, q, active)))
      ⊎ ((x : Ptr) × (x ≢ null)
          × FirstFree active x (heads (q i))
          × (ready_event env n i cpu tasks active q
              ≡ (x, update q i (without x (q i)), update active cpu x)))

  ready_event-Answered :
      (i : ℕ) (active : Active) (q : Queues)
      → i < suc n
      → count_ready env n null q ≡ 0
      → Answered i active q
  unfolding ready_event
  ready_event-Answered i active q lt h =
      let absent = weight_of_zero_sum (count null) (suc n) q i h lt in
      elim (pick_level-Searched (priority_of env tasks) none (q i) active absent) [
        | inl none_there ↦ inl (
          none_there.0,
          ap (λ r. put (λ ys. update q i ys) (leave (q i) r)) none_there.1
              ∙ ap (λ ys. (null, update q i ys, active))
                  (without_same null (q i) (not_has_of_count null (q i) absent))
              ∙ ap (λ q'. (null, q', active)) (update_self q i),
        )
        | inr there ↦
            (let (x, ne, first, e) = there in
              inr (x, ne, first, ap (λ r. put (λ ys. update q i ys) (leave (q i) r)) e))
      ]

  chosen :
      (active : Active) (q : Queues)
      → cpu < n
      → count_ready env n null q ≡ 0
      → Chosen active q (take env n cpu tasks active q)
  unfolding take
  chosen active q lt h =
      let next : Queues → Active → Ptr × Queues × Active =
        λ q' active'. ready_event env n n cpu tasks active' q' in
      elim (ready_event-Answered cpu active q (omega arith) h) [
        | inr there ↦
            (let (x, ne, first, e) = there in
              own x first (ap (λ r. or_else r next) e ∙ rw (test_of_ne x null ne) refl))
        | inl none_there ↦
            (let skip = ap (λ r. or_else r next) none_there.1 in
              elim (ready_event-Answered n active q (omega arith) h) [
                | inr there ↦
                    (let (x, ne, first, e) = there in global x none_there.0 first (skip ∙ e))
                | inl none_global ↦ nothing none_there.0 none_global.0 (skip ∙ none_global.1)
              ])
      ]

  -- When no queue holds nullptr and every ready task has a component, `tryTaskLock` returns for each
  -- of them, and `getEvent` on a processor below `n` takes the first free one of the tasks that head
  -- a run of equal priority in the processor's own queue; when none of those is free, the first free
  -- one of those that head a run in the global queue; and when none of those is free either, it takes
  -- nothing and changes nothing. What it takes leaves its queue and is then active.
  pub take_multi_priority-Chosen :
      (active : Active) (q : Queues)
      → cpu < n
      → count_ready env n null q ≡ 0
      → ((x : Ptr) → count_ready env n x q ≢ 0 → (trigger_of env tasks x).osc ≢ null)
      → ((x : Ptr) (running : Active)
          → count_ready env n x q ≢ 0
          → try_task_lock env tasks n cpu x running ≡ some (attempt env tasks n cpu x running))
        × Chosen active q (take env n cpu tasks active q)
  take_multi_priority-Chosen active q lt h owned = (
    λ x running ready. try_task_lock_lem env tasks n cpu x running (owned x ready),
    chosen active q lt h,
  )
