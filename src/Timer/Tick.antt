-- ===== src/Timer/Tick.antt =====
-- GenericTimer.cc, `handleTick`: the oneshot events that are due, and the periodic events.
use cy_ph_os.Base.{
  ℕ, ◌+◌, ◌-◌, ◌^◌, ◌<◌, ◌≡◌, refl, sym, ap, ◌∙◌, ◌≢◌, true, false, Bool-cases, inl, inr, List, [],
  ◌∷◌, ◌++◌, arith, ◌==◌, if◌then◌else◌, has, Distinct, update, update_at, update_ne, ne_head,
  not_has_tail, eq_of_test, ne_of_test, test_of_ne, has_here, has_there, ==_refl,
}
use cy_ph_os.Queue.{Ptr}
use cy_ph_os.Timer.{sub32, drain, tick_oneshot, tick_periodic}
use cy_ph_os.Timer.Schedule.{
  NoneDue, schedule-NoneDue, schedule, due_at, one_later, schedule-frame, schedule-one_later,
}

drain-schedule :
    (rem : Ptr → ℕ) (sum : ℕ) (xs : List Ptr)
    → schedule rem sum xs ≡ due_at sum (drain rem xs).0 ++ schedule rem sum (drain rem xs).1
unfolding schedule drain due_at
drain-schedule rem sum [] = refl
drain-schedule rem sum (x ∷ xs) = elim (Bool-cases (rem x == 0)) [
  | inl e ↦
      let now : sum + rem x ≡ sum = omega (arith, eq_of_test (rem x) 0 e) in
      rw (e, now) (ap (λ ys. (x, sum) ∷ ys) (drain-schedule rem sum xs))
  | inr e ↦ rw e refl
]

-- Nothing that the loop leaves is due.
drain-NoneDue : (rem : Ptr → ℕ) (xs : List Ptr) → NoneDue (schedule rem 0 (drain rem xs).1)
unfolding schedule drain NoneDue
drain-NoneDue rem [] = tt
drain-NoneDue rem (x ∷ xs) = elim (Bool-cases (rem x == 0)) [
  | inl e ↦ rw e (drain-NoneDue rem xs)
  | inr e ↦
      let pos : 0 < 0 + rem x = ground (arith, ne_of_test (rem x) 0 e) in
      rw e (pos, schedule-NoneDue rem (0 + rem x) xs pos)
]

tick-fires :
    (x : Ptr) (xs : List Ptr) (rem : Ptr → ℕ)
    → sub32 (rem x) 1 ≡ 0
    → tick_oneshot (x ∷ xs) rem
      ≡ (x ∷ (drain (update rem x 0) xs).0, (drain (update rem x 0) xs).1, update rem x 0)
unfolding tick_oneshot
tick-fires x xs rem e = rw (e, update_at rem x 0 refl) refl

tick-waits :
    (x v : Ptr) (xs : List Ptr) (rem : Ptr → ℕ)
    → sub32 (rem x) 1 ≡ v
    → v ≢ 0
    → tick_oneshot (x ∷ xs) rem ≡ ([], x ∷ xs, update rem x v)
unfolding tick_oneshot drain
tick-waits x v xs rem e ne = rw (e, update_at rem x v refl, test_of_ne v 0 ne) refl

-- One tick less, counted from one tick later.
nearer :
    (rem : Ptr → ℕ) (x : Ptr) (xs : List Ptr)
    → 0 < rem x
    → has x xs ≡ false
    → schedule (update rem x (rem x - 1)) 1 (x ∷ xs) ≡ schedule rem 0 (x ∷ xs)
unfolding schedule
nearer rem x xs pos out =
    let v = rem x - 1 in
    let here : 1 + update rem x v x ≡ 0 + rem x =
      ap (λ k. 1 + k) (update_at rem x v refl) ∙ omega arith in
    rw (here, schedule-frame rem x v (0 + rem x) xs out) refl

-- On a queue without repetition whose first event has between 1 and 2^32 - 1 ticks left, the oneshot
-- events that `handleTick` fires are those that are due in one tick, in order; every other one is
-- due one tick sooner afterwards, and none of them is due at once.
pub tick_oneshot-schedule :
    (x : Ptr) (xs : List Ptr) (rem : Ptr → ℕ)
    → Distinct (x ∷ xs)
    → 0 < rem x
    → rem x < 2 ^ 32
    → (schedule rem 0 (x ∷ xs)
        ≡ due_at 1 (tick_oneshot (x ∷ xs) rem).0
          ++ one_later (schedule (tick_oneshot (x ∷ xs) rem).2 0 (tick_oneshot (x ∷ xs) rem).1))
      × NoneDue (schedule (tick_oneshot (x ∷ xs) rem).2 0 (tick_oneshot (x ∷ xs) rem).1)
unfolding schedule due_at one_later NoneDue
tick_oneshot-schedule x xs rem d pos small = elim (Bool-cases (rem x == 1)) [
  | inl e ↦
      let one : rem x ≡ 1 = eq_of_test (rem x) 1 e in
      let gone : sub32 (rem x) 1 ≡ 0 = rw one refl in
      let rem' = update rem x 0 in
      rw (tick-fires x xs rem gone, one)
        (
          ap (λ ys. (x, 1) ∷ ys)
              (sym (schedule-frame rem x 0 1 xs d.0)
                ∙ drain-schedule rem' 1 xs
                ∙ ap (λ ys. due_at 1 (drain rem' xs).0 ++ ys)
                    (schedule-one_later rem' 0 (drain rem' xs).1)),
          drain-NoneDue rem' xs,
        )
  | inr e ↦
      let v = rem x - 1 in
      let less : sub32 (rem x) 1 ≡ v = omega arith in
      let ne : v ≢ 0 = ground (arith, ne_of_test (rem x) 1 e) in
      let soon : 0 < 0 + update rem x v x =
        let here : update rem x v x ≡ v = update_at rem x v refl in omega arith in
      rw (tick-waits x v xs rem less ne) (
        sym (nearer rem x xs pos d.0) ∙ schedule-one_later (update rem x v) 0 (x ∷ xs),
        (soon, schedule-NoneDue (update rem x v) (0 + update rem x v x) xs soon),
      )
]

periodic-again :
    (x : Ptr) (xs : List Ptr) (interval rem : Ptr → ℕ)
    → rem x ≡ 1
    → tick_periodic (x ∷ xs) interval rem ≡ (
      x ∷ (tick_periodic xs interval (update rem x (interval x))).0,
      (tick_periodic xs interval (update rem x (interval x))).1,
    )
unfolding tick_periodic
periodic-again x xs interval rem e = let gone : sub32 (rem x) 1 ≡ 0 = rw e refl in rw gone refl

periodic-later :
    (x : Ptr) (xs : List Ptr) (interval rem : Ptr → ℕ)
    → rem x ≢ 1
    → 0 < rem x
    → rem x < 2 ^ 32
    → tick_periodic (x ∷ xs) interval rem ≡ tick_periodic xs interval (update rem x (rem x - 1))
unfolding tick_periodic
periodic-later x xs interval rem ne pos small =
    let less : sub32 (rem x) 1 ≡ rem x - 1 = omega arith in
    let more : (rem x - 1 == 0) ≡ false = test_of_ne (rem x - 1) 0 (λ e. ne (omega arith)) in
    rw (less, more) refl

-- What a tick makes of the ticks of a periodic event.
abbrev pub next_ticks : (Ptr → ℕ) → (Ptr → ℕ) → Ptr → ℕ
next_ticks interval rem a = if rem a == 1 then interval a else rem a - 1

abbrev pub IsRunning : List Ptr → (Ptr → ℕ) → Type 0
IsRunning xs rem = (a : Ptr) → has a xs ≡ true → (0 < rem a) × (rem a < 2 ^ 32)

IsRunning-update :
    (x v : Ptr) (xs : List Ptr) (rem : Ptr → ℕ)
    → has x xs ≡ false
    → IsRunning (x ∷ xs) rem
    → IsRunning xs (update rem x v)
IsRunning-update x v xs rem out run a here =
    let ne : a ≢ x = λ e. cc (sym here ∙ ap (λ b. has b xs) e ∙ out) in
    rw (update_ne rem x v ne) (run a (has_there a x xs here))

tick_periodic_other :
    (xs : List Ptr) (interval rem : Ptr → ℕ) (a : Ptr)
    → Distinct xs
    → IsRunning xs rem
    → has a xs ≡ false
    → ((tick_periodic xs interval rem).1 a ≡ rem a)
      × (has a (tick_periodic xs interval rem).0 ≡ false)
unfolding tick_periodic
tick_periodic_other [] interval rem a d run out = (refl, refl)
tick_periodic_other (x ∷ xs) interval rem a d run out =
    let ne : a ≢ x = ne_head a x xs out in
    let out' : has a xs ≡ false = not_has_tail a x xs out in
    let (pos, small) = run x (has_here x xs) in
    elim (Bool-cases (rem x == 1)) [
      | inl e ↦
          let rem' = update rem x (interval x) in
          let (same, quiet) =
            tick_periodic_other xs interval rem' a d.1
              (IsRunning-update x (interval x) xs rem d.0 run) out' in
          rw (periodic-again x xs interval rem (eq_of_test (rem x) 1 e), test_of_ne a x ne)
            (same ∙ update_ne rem x (interval x) ne, quiet)
      | inr e ↦
          let rem' = update rem x (rem x - 1) in
          let (same, quiet) =
            tick_periodic_other xs interval rem' a d.1
              (IsRunning-update x (rem x - 1) xs rem d.0 run) out' in
          rw (periodic-later x xs interval rem (ne_of_test (rem x) 1 e) pos small)
            (same ∙ update_ne rem x (rem x - 1) ne, quiet)
    ]

-- On periodic events without repetition that each have between 1 and 2^32 - 1 ticks left, a tick
-- fires an event exactly when it has one tick left; its ticks are then its interval, and else one
-- less.
pub tick_periodic_lem :
    (xs : List Ptr) (interval rem : Ptr → ℕ) (a : Ptr)
    → Distinct xs
    → IsRunning xs rem
    → has a xs ≡ true
    → ((tick_periodic xs interval rem).1 a ≡ next_ticks interval rem a)
      × (has a (tick_periodic xs interval rem).0 ≡ (rem a == 1))
tick_periodic_lem [] interval rem a d run here = cc
tick_periodic_lem (x ∷ xs) interval rem a d run here =
    let (pos, small) = run x (has_here x xs) in
    elim (Bool-cases (rem x == 1)) [
      | inl e ↦
          let rem' = update rem x (interval x) in
          let run' : IsRunning xs rem' = IsRunning-update x (interval x) xs rem d.0 run in
          rw (periodic-again x xs interval rem (eq_of_test (rem x) 1 e))
            (elim (Bool-cases (a == x)) [
              | inl z ↦
                  let f = eq_of_test a x z in
                  let (same, quiet) = tick_periodic_other xs interval rem' x d.1 run' d.0 in
                  let ends : (tick_periodic xs interval rem').1 x ≡ interval x =
                    same ∙ update_at rem x (interval x) refl in
                  rw (f, e, ==_refl x) (ends, refl)
              | inr z ↦
                  let ne = ne_of_test a x z in
                  let keep : rem' a ≡ rem a = update_ne rem x (interval x) ne in
                  rw (z, ← keep)
                    (tick_periodic_lem xs interval rem' a d.1 run' (tail_has a x xs z here))
            ])
      | inr e ↦
          let rem' = update rem x (rem x - 1) in
          let run' : IsRunning xs rem' = IsRunning-update x (rem x - 1) xs rem d.0 run in
          rw (periodic-later x xs interval rem (ne_of_test (rem x) 1 e) pos small)
            (elim (Bool-cases (a == x)) [
              | inl z ↦
                  let f = eq_of_test a x z in
                  let (same, quiet) = tick_periodic_other xs interval rem' x d.1 run' d.0 in
                  let ends : (tick_periodic xs interval rem').1 x ≡ rem x - 1 =
                    same ∙ update_at rem x (rem x - 1) refl in
                  rw (f, e) (ends, quiet)
              | inr z ↦
                  let ne = ne_of_test a x z in
                  let keep : rem' a ≡ rem a = update_ne rem x (rem x - 1) ne in
                  rw (← keep)
                    (tick_periodic_lem xs interval rem' a d.1 run' (tail_has a x xs z here))
            ])
    ]
  where
    tail_has :
        (a x : Ptr) (xs : List Ptr) → (a == x) ≡ false → has a (x ∷ xs) ≡ true → has a xs ≡ true
    tail_has a x xs z here = ground arith
