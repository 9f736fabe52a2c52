-- ===== src/Locking/Exclusion.antt =====
-- Mutual exclusion of components: what `tryTaskLock` decides and what it preserves.
use mathlib.Core.Bool.{false≢true}
use cy_ph_os.Base.{
  ℕ, zero, suc, ◌+◌, ◌<◌, ◌≤◌, ◌≡◌, refl, sym, ap, ◌∙◌, ◌≢◌, ◌↔◌, Bool, true, false, Bool-cases,
  inl, inr, ◌⊎◌, some, none, List, [], ◌∷◌, arith, ◌==◌, if◌then◌else◌, has, Disjoint, update,
  update_at, update_ne, has_here, has_there, eq_of_test, ne_of_test, test_of_ne,
}
use cy_ph_os.Queue.{Ptr, null}
use cy_ph_os.Tasks.{Trigger, Env, Tasks, trigger_of, resources}
use cy_ph_os.Locking.{Active, deps_busy, busy, any_busy, attempt, try_task_lock, unlock_task}

deps_busy_sound : (ds : List Ptr) (a : Trigger) → deps_busy ds a ≡ false → Disjoint ds (resources a)
unfolding deps_busy
deps_busy_sound [] a h y k = cc
deps_busy_sound (d ∷ ds) a h y k = elim (Bool-cases (y == d)) [
  | inl e ↦ rw (eq_of_test y d e) (ground arith)
  | inr e ↦ deps_busy_sound ds a (ground arith) y (ground arith)
]

deps_busy_complete :
    (ds : List Ptr) (a : Trigger) → Disjoint ds (resources a) → deps_busy ds a ≡ false
unfolding deps_busy
deps_busy_complete [] a h = refl
deps_busy_complete (d ∷ ds) a h =
    ground (arith, h d (has_here d ds), deps_busy_complete ds a (λ y k. h y (has_there y d ds k)))

-- The test against one active trigger holds exactly when the two need a common component.
pub busy-Disjoint : (t a : Trigger) → (busy t a ≡ false) ↔ Disjoint (resources t) (resources a)
unfolding busy
busy-Disjoint t a = (
  λ h y k. elim (Bool-cases (y == t.osc)) [
    | inl e ↦ ap (λ z. has z (resources a)) (eq_of_test y t.osc e) ∙ ground arith
    | inr e ↦ deps_busy_sound t.deps a (ground arith) y (ground arith)
  ],
  λ h. ground (
    arith,
    h t.osc (has_here t.osc t.deps),
    deps_busy_complete t.deps a (λ y k. h y (has_there y t.osc t.deps k)),
  ),
)

module _ (env : Env) (tasks : Tasks) where
  abbrev needs : Ptr → List Ptr
  needs t = resources (trigger_of env tasks t)

  -- No active task of the processors below `n` shares a component with `t`.
  abbrev pub IsFree : ℕ → Active → Ptr → Type 0
  IsFree n active t = (i : ℕ) → i < n → active i ≢ null → Disjoint (needs t) (needs (active i))

  -- Two processors never run tasks that share a component.
  abbrev pub IsExclusive : ℕ → Active → Type 0
  IsExclusive n active =
      (i j : ℕ)
      → i < n
      → j < n
      → i ≢ j
      → active i ≢ null
      → active j ≢ null
      → Disjoint (needs (active i)) (needs (active j))

  any_busy_sound :
      (k cpu : ℕ) (active : Active) (t : Ptr)
      → any_busy env tasks k cpu active t ≡ false
      → (i : ℕ) → cpu ≤ i
      → i < cpu + k
      → active i ≢ null
      → busy (trigger_of env tasks t) (trigger_of env tasks (active i)) ≡ false
  unfolding any_busy
  any_busy_sound zero cpu active t h i lo hi ne = absurd (omega arith)
  any_busy_sound (suc k) cpu active t h i lo hi ne = elim (Bool-cases (cpu == i)) [
    | inl e ↦ let e' : cpu ≡ i = eq_of_test cpu i e in rw (← e') (ground (arith, ap active e'))
    | inr e ↦ any_busy_sound k (cpu + 1) active t (ground arith) i (ground arith) (omega arith) ne
  ]

  any_busy_complete :
      (k cpu : ℕ) (active : Active) (t : Ptr)
      → ((i : ℕ)
          → cpu ≤ i
          → i < cpu + k
          → active i ≢ null
          → busy (trigger_of env tasks t) (trigger_of env tasks (active i)) ≡ false)
      → any_busy env tasks k cpu active t ≡ false
  unfolding any_busy
  any_busy_complete zero cpu active t h = refl
  any_busy_complete (suc k) cpu active t h = ground (
    arith,
    h cpu (omega arith) (omega arith),
    any_busy_complete k (cpu + 1) active t (λ i lo hi. h i (omega arith) (omega arith)),
  )

  -- Behind the check of the component, the task is locked exactly when no active task of a processor
  -- below `n` shares a component with it.
  pub attempt_iff :
      (n cpu : ℕ) (t : Ptr) (active : Active)
      → ((attempt env tasks n cpu t active).0 ≡ true) ↔ IsFree n active t
  unfolding attempt
  attempt_iff n cpu t active = (
    λ h i lt ne.
        (busy-Disjoint _ _).0
          (any_busy_sound n 0 active t (ground arith) i (omega arith) (omega arith) ne),
    λ h.
        let free : any_busy env tasks n 0 active t ≡ false =
          any_busy_complete n 0 active t
            (λ i lo hi ne. (busy-Disjoint _ _).1 (h i (omega arith) ne)) in
        rw free,
  )

  -- On success the processor runs the task; else, and at every other processor, nothing changes.
  pub attempt_frame :
      (n cpu : ℕ) (t : Ptr) (active : Active) (i : ℕ)
      → (attempt env tasks n cpu t active).1 i ≡ (
          if (attempt env tasks n cpu t active).0
          then (if i == cpu then t else active i)
          else active i)
  unfolding attempt update
  attempt_frame n cpu t active i = ground arith

  -- What `tryTaskLock` gives and makes of the active tasks when it returns.
  pub record Decided (n cpu : ℕ) (t : Ptr) (active : Active) (locked : Bool) (after : Active)
      : Type 0 where
    pub free : (locked ≡ true) ↔ IsFree n active t
    pub frame :
        (i : ℕ) → after i ≡ (if locked then (if i == cpu then t else active i) else active i)

  -- `tryTaskLock` never returns for a task whose trigger has no component. For any other task it
  -- returns; it has then locked the task exactly when no active task of a processor below `n` shares
  -- a component with it, the processor runs the task when it is locked, and nothing else changes.
  pub try_task_lock-IsFree :
      (n cpu : ℕ) (t : Ptr) (active : Active)
      → (((trigger_of env tasks t).osc ≡ null) × (try_task_lock env tasks n cpu t active ≡ none))
        ⊎ (((trigger_of env tasks t).osc ≢ null)
            × (r : Bool × Active) × (try_task_lock env tasks n cpu t active ≡ some r)
            × Decided n cpu t active r.0 r.1)
  unfolding try_task_lock
  try_task_lock-IsFree n cpu t active = elim (Bool-cases ((trigger_of env tasks t).osc == null)) [
    | inl e ↦ inl (eq_of_test _ null e, rw e refl)
    | inr e ↦ inr (
      ne_of_test _ null e,
      attempt env tasks n cpu t active,
      rw e refl,
      record { free = attempt_iff n cpu t active; frame = attempt_frame n cpu t active },
    )
  ]

  -- For a task with a component `tryTaskLock` returns, and `attempt` is what it gives.
  pub try_task_lock_lem :
      (n cpu : ℕ) (t : Ptr) (active : Active)
      → (trigger_of env tasks t).osc ≢ null
      → try_task_lock env tasks n cpu t active ≡ some (attempt env tasks n cpu t active)
  unfolding try_task_lock
  try_task_lock_lem n cpu t active ne = rw (test_of_ne _ null ne) refl

  pub attempt_failed :
      (n cpu : ℕ) (t : Ptr) (active : Active)
      → (attempt env tasks n cpu t active).0 ≡ false
      → (attempt env tasks n cpu t active).1 ≡ active
  unfolding attempt
  attempt_failed n cpu t active e = ground arith

  pub attempt_locked :
      (n cpu : ℕ) (t : Ptr) (active : Active)
      → (attempt env tasks n cpu t active).0 ≡ true
      → (attempt env tasks n cpu t active).1 ≡ update active cpu t
  unfolding attempt
  attempt_locked n cpu t active e = ground arith

  Disjoint-sym : (xs ys : List Ptr) → Disjoint xs ys → Disjoint ys xs
  Disjoint-sym xs ys h a k = elim (Bool-cases (has a xs)) [
    | inl e ↦ absurd (false≢true (sym (h a e) ∙ k))
    | inr e ↦ e
  ]

  pub update-IsExclusive :
      (n cpu : ℕ) (t : Ptr) (active : Active)
      → IsFree n active t
      → IsExclusive n active
      → IsExclusive n (update active cpu t)
  update-IsExclusive n cpu t active free ex i j hi hj ne ai aj = elim (Bool-cases (i == cpu)) [
    | inl e ↦
        let here : update active cpu t i ≡ t = update_at active cpu t (eq_of_test i cpu e) in
        let there : update active cpu t j ≡ active j =
          update_ne active cpu t (λ k. ne (eq_of_test i cpu e ∙ sym k)) in
        rw (here, there) (free j hj (λ k. aj (there ∙ k)))
    | inr e ↦
        let there : update active cpu t i ≡ active i =
          update_ne active cpu t (ne_of_test i cpu e) in
        elim (Bool-cases (j == cpu)) [
          | inl f ↦
              let here : update active cpu t j ≡ t = update_at active cpu t (eq_of_test j cpu f) in
              rw (here, there)
                (Disjoint-sym (needs t) (needs (active i)) (free i hi (λ k. ai (there ∙ k))))
          | inr f ↦
              let there' : update active cpu t j ≡ active j =
                update_ne active cpu t (ne_of_test j cpu f) in
              rw (there, there') (ex i j hi hj ne (λ k. ai (there ∙ k)) (λ k. aj (there' ∙ k)))
        ]
  ]

  attempt_ok :
      (n cpu : ℕ) (t : Ptr) (active : Active)
      → any_busy env tasks n 0 active t ≡ false
      → (attempt env tasks n cpu t active).0 ≡ true
  unfolding attempt
  attempt_ok n cpu t active e = rw e

  attempt_run :
      (n cpu : ℕ) (t : Ptr) (active : Active)
      → any_busy env tasks n 0 active t ≡ false
      → (attempt env tasks n cpu t active).1 ≡ update active cpu t
  unfolding attempt
  attempt_run n cpu t active e = rw e

  attempt_same :
      (n cpu : ℕ) (t : Ptr) (active : Active)
      → any_busy env tasks n 0 active t ≡ true
      → (attempt env tasks n cpu t active).1 ≡ active
  unfolding attempt
  attempt_same n cpu t active e = rw e

  -- If no two processors run tasks that share a component, then none do after `tryTaskLock`,
  -- whether it succeeds or not.
  pub attempt-IsExclusive :
      (n cpu : ℕ) (t : Ptr) (active : Active)
      → IsExclusive n active
      → IsExclusive n (attempt env tasks n cpu t active).1
  attempt-IsExclusive n cpu t active ex = elim (Bool-cases (any_busy env tasks n 0 active t)) [
    | inl e ↦ rw (attempt_same n cpu t active e) ex
    | inr e ↦
        let ok : (attempt env tasks n cpu t active).0 ≡ true = attempt_ok n cpu t active e in
        rw (attempt_run n cpu t active e)
          (update-IsExclusive n cpu t active ((attempt_iff n cpu t active).0 ok) ex)
  ]

  -- If no two processors run tasks that share a component, then none do after `unlockTask`, and the
  -- processor that called it runs nothing.
  pub unlock_task-IsExclusive :
      (n cpu : ℕ) (t : Ptr) (active : Active)
      → IsExclusive n active
      → IsExclusive n (unlock_task cpu t active) × (unlock_task cpu t active cpu ≡ null)
  unfolding unlock_task
  unlock_task-IsExclusive n cpu t active ex = (
    λ i j hi hj ne ai aj.
        let ni : i ≢ cpu = λ e. ai (update_at active cpu null e) in
        let nj : j ≢ cpu = λ e. aj (update_at active cpu null e) in
        let ei : update active cpu null i ≡ active i = update_ne active cpu null ni in
        let ej : update active cpu null j ≡ active j = update_ne active cpu null nj in
        rw (ei, ej) (ex i j hi hj ne (λ e. ai (ei ∙ e)) (λ e. aj (ej ∙ e))),
    update_at active cpu null refl,
  )
