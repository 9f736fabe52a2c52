-- ===== src/Barrier/Phase.antt =====
-- The two phases of a round of the barrier: threads gather, and when the last one has come they drain.
use cy_ph_os.Base.{
  ℕ, suc, ◌≤◌, ◌<◌, ◌≡◌, ◌⊎◌, refl, true, arith, Bool-cases, inl, inr, ◌==◌, if◌then◌else◌, update,
  update_at, update_ne, sum_below, eq_of_test, ne_of_test,
}
use cy_ph_os.Barrier.{Stage, outside, entering, draining, spinning, leaving, Thread, Barrier}

abbrev pub at_outside : Stage → ℕ
at_outside outside = 1
at_outside entering = 0
at_outside draining = 0
at_outside spinning = 0
at_outside leaving = 0

abbrev pub at_entering : Stage → ℕ
at_entering outside = 0
at_entering entering = 1
at_entering draining = 0
at_entering spinning = 0
at_entering leaving = 0

abbrev pub at_draining : Stage → ℕ
at_draining outside = 0
at_draining entering = 0
at_draining draining = 1
at_draining spinning = 0
at_draining leaving = 0

-- The threads that mWaiting counts.
abbrev pub at_waiting : Stage → ℕ
at_waiting outside = 0
at_waiting entering = 0
at_waiting draining = 0
at_waiting spinning = 1
at_waiting leaving = 1

-- How many of the threads are at a place.
abbrev pub threads_at : (Stage → ℕ) → ℕ → Barrier → ℕ
threads_at at size s = sum_below (λ (t : Thread). at t.stage) size s.thread

-- In round `r`, a thread is outside and has ended `r` calls, or has begun one more.
abbrev pub Gathers : ℕ → Stage → ℕ → ℕ → Type 0
Gathers r outside begun ended = (begun ≡ r) × (ended ≡ r)
Gathers r entering begun ended = (begun ≡ suc r) × (ended ≡ r)
Gathers r draining begun ended = ⊥
Gathers r spinning begun ended = (begun ≡ suc r) × (ended ≡ r)
Gathers r leaving begun ended = ⊥

-- Every thread has begun the call, and those outside have ended it.
abbrev pub Drains : ℕ → Stage → ℕ → ℕ → Type 0
Drains r outside begun ended = (begun ≡ suc r) × (ended ≡ suc r)
Drains r entering begun ended = ⊥
Drains r draining begun ended = (begun ≡ suc r) × (ended ≡ r)
Drains r spinning begun ended = (begun ≡ suc r) × (ended ≡ r)
Drains r leaving begun ended = (begun ≡ suc r) × (ended ≡ r)

pub record Gathering (size r : ℕ) (s : Barrier) : Type 0 where
  pub outs : threads_at at_outside size s ≡ s.not_ready
  pub waits : threads_at at_waiting size s ≡ s.waiting
  pub locks : threads_at at_entering size s ≡ (if s.ready_locked then 1 else 0)
  pub more : 0 < s.not_ready
  pub threads :
      (j : ℕ) → j < size → Gathers r (s.thread j).stage (s.thread j).begun (s.thread j).ended

pub record Draining (size r : ℕ) (s : Barrier) : Type 0 where
  pub ready : s.not_ready ≡ 0
  pub locked : s.ready_locked ≡ true
  pub waits : threads_at at_waiting size s ≡ s.waiting
  pub last : threads_at at_draining size s ≡ 1
  pub threads :
      (j : ℕ) → j < size → Drains r (s.thread j).stage (s.thread j).begun (s.thread j).ended

abbrev pub Phase : ℕ → Barrier → Type 0
Phase size s = (r : ℕ) × (Gathering size r s ⊎ Draining size r s)

-- A property of all threads after one of them has changed.
pub all_threads :
    (P : Thread → Type 0) (size cpu : ℕ) (g : ℕ → Thread) (t : Thread)
    → P t
    → ((j : ℕ) → j < size → P (g j))
    → (j : ℕ) → j < size
    → P (update g cpu t j)
all_threads P size cpu g t new old j lt = elim (Bool-cases (j == cpu)) [
  | inl e ↦ rw (update_at g cpu t (eq_of_test j cpu e)) new
  | inr e ↦ rw (update_ne g cpu t (ne_of_test j cpu e)) (old j lt)
]

pub gathered-Drains :
    (r : ℕ) (st : Stage) (b e : ℕ)
    → at_outside st ≡ 0
    → at_entering st ≡ 0
    → Gathers r st b e
    → Drains r st b e
gathered-Drains r outside b e out ent g = absurd (omega arith)
gathered-Drains r entering b e out ent g = absurd (omega arith)
gathered-Drains r draining b e out ent g = absurd g
gathered-Drains r spinning b e out ent g = g
gathered-Drains r leaving b e out ent g = absurd g

pub gathered_not_draining : (r : ℕ) (st : Stage) (b e : ℕ) → Gathers r st b e → at_draining st ≡ 0
gathered_not_draining r outside b e g = refl
gathered_not_draining r entering b e g = refl
gathered_not_draining r draining b e g = absurd g
gathered_not_draining r spinning b e g = refl
gathered_not_draining r leaving b e g = refl

-- Once nobody waits or drains, all are outside and the next round can begin.
pub drained-Gathers :
    (r : ℕ) (st : Stage) (b e : ℕ)
    → at_waiting st ≡ 0
    → at_draining st ≡ 0
    → Drains r st b e
    → Gathers (suc r) st b e × (at_outside st ≡ 1) × (at_entering st ≡ 0)
drained-Gathers r outside b e wait drain d = (d, refl, refl)
drained-Gathers r entering b e wait drain d = absurd d
drained-Gathers r draining b e wait drain d = absurd (omega arith)
drained-Gathers r spinning b e wait drain d = absurd (omega arith)
drained-Gathers r leaving b e wait drain d = absurd (omega arith)

-- What the phases say of the counts of two threads.
pub Gathers-ended :
    (r : ℕ) (st st' : Stage) (b e b' e' : ℕ) → Gathers r st b e → Gathers r st' b' e' → e ≤ b'
Gathers-ended r st st' b e b' e' g g' = omega (arith, ended st g, begun st' g')
  where
    ended : (x : Stage) → Gathers r x b e → e ≡ r
    ended outside h = h.1
    ended entering h = h.1
    ended draining h = absurd h
    ended spinning h = h.1
    ended leaving h = absurd h

    begun : (x : Stage) → Gathers r x b' e' → r ≤ b'
    begun outside h = omega (arith, h.0)
    begun entering h = omega (arith, h.0)
    begun draining h = absurd h
    begun spinning h = omega (arith, h.0)
    begun leaving h = absurd h

pub Drains-ended :
    (r : ℕ) (st st' : Stage) (b e b' e' : ℕ) → Drains r st b e → Drains r st' b' e' → e ≤ b'
Drains-ended r st st' b e b' e' g g' = omega (arith, ended st g, begun st' g')
  where
    ended : (x : Stage) → Drains r x b e → e ≤ suc r
    ended outside h = omega (arith, h.1)
    ended entering h = absurd h
    ended draining h = omega (arith, h.1)
    ended spinning h = omega (arith, h.1)
    ended leaving h = omega (arith, h.1)

    begun : (x : Stage) → Drains r x b' e' → b' ≡ suc r
    begun outside h = h.0
    begun entering h = absurd h
    begun draining h = h.0
    begun spinning h = h.0
    begun leaving h = h.0
