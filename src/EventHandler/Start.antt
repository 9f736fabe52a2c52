-- ===== src/EventHandler/Start.antt =====
-- The state that the constructors leave.
use cy_ph_os.Base.{
  ℕ, zero, suc, ◌<◌, ◌≡◌, refl, sym, ◌∙◌, false, Bool-cases, inl, inr, List, ◌++◌, arith, ◌==◌,
  count-append, sum_below,
}
use cy_ph_os.Queue.{Ptr, null}
use cy_ph_os.Tasks.{Env}
use cy_ph_os.StackPool.Held.{taken, in_use}
use cy_ph_os.Strategy.{SchedulingStrategy}
use cy_ph_os.EventHandler.{new_event_handler}
use cy_ph_os.EventHandler.Places.{is, running, IsRunnable}

sum_below-zero : {A : Type 0} (w : A → ℕ) (n : ℕ) (a : A) → w a ≡ 0 → sum_below w n (λ i. a) ≡ 0
sum_below-zero w zero a h = refl
sum_below-zero w (suc n) a h = omega (arith, sum_below-zero w n a h)

none_running : (n : ℕ) (a : Ptr) → running n (λ i. null) a ≡ 0
none_running n a = elim (Bool-cases (a == null)) [
  | inl e ↦ rw e refl
  | inr e ↦ let w : is a null ≡ 0 = rw e refl in ground (arith, sum_below-zero (is a) n null w)
]

-- With at least one processor and an empty queue state, the constructors establish the invariant,
-- with the tasks of the two pools as the tasks of the system.
pub new_event_handler-IsRunnable :
    {env : Env} {n : ℕ} (strategy : SchedulingStrategy env n) (base : ℕ) (q : strategy.Queues)
    (event_tasks interrupt_tasks : List Ptr)
    → 0 < n
    → ((a : Ptr) → strategy.count_ready a q ≡ 0)
    → IsRunnable strategy base
        (event_tasks ++ interrupt_tasks)
        (new_event_handler q event_tasks interrupt_tasks)
new_event_handler-IsRunnable strategy base q event_tasks interrupt_tasks pos empty = (
  (
    (λ a. omega (arith, empty a, none_running _ a, count-append a event_tasks interrupt_tasks)),
    (λ i j hi hj ne ai aj. absurd (ai refl)),
  ),
  (
    pos,
    (λ c hc ne. absurd (ne refl)),
    (λ c d hc hd ne nc. absurd (nc refl)),
    sum_below-zero taken _ false refl ∙ sym (sum_below-zero in_use _ null refl),
  ),
  (λ a na off. refl),
)
