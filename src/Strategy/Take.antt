-- ===== src/Strategy/Take.antt =====
-- Taking a task out of one ready queue, and trying several queues in turn.
use cy_ph_os.Base.{
  ℕ, ◌+◌, ◌≡◌, refl, sym, ap, ◌∙◌, ◌⊎◌, inl, inr, true, Bool-cases, Option, none, some, List, [],
  ◌∷◌, arith, ◌==◌, if◌then◌else◌, has, count, not_has_of_count, has_here, has_there, test_of_ne,
  update,
}
use cy_ph_os.Queue.{Ptr, null}
use cy_ph_os.Queue.Model.{without}
use cy_ph_os.Queue.Search.{without_same}
use cy_ph_os.Tasks.{Env, Tasks}
use cy_ph_os.EventQueue.Model.{skips, pick, pick_level}
use cy_ph_os.Locking.{Active, attempt}
use cy_ph_os.Locking.Exclusion.{IsFree, attempt_iff, attempt_failed, attempt_locked}
use cy_ph_os.Strategy.{Takes, nothing, took}

-- What is left after the search of a queue.
abbrev pub leave : List Ptr → Ptr × Active → Ptr × List Ptr × Active
leave xs (x, active) = (x, without x xs, active)

-- Queue `ys` in place of one queue of a strategy.
abbrev pub put : {Q : Type 0} → (List Ptr → Q) → Ptr × List Ptr × Active → Ptr × Q × Active
put f (x, ys, active) = (x, f ys, active)

-- The next queue, where one gave nothing.
abbrev pub or_else :
    {Q : Type 0} → Ptr × Q × Active → (Q → Active → Ptr × Q × Active) → Ptr × Q × Active
or_else (x, q, active) next = let r = next q active in if x == null then r else (x, q, active)

without-count :
    (a x : Ptr) (xs : List Ptr)
    → has x xs ≡ true
    → count a xs ≡ count a (without x xs) + (if a == x then 1 else 0)
without-count a x [] h = cc
without-count a x (y ∷ ys) h = elim (Bool-cases (x == y)) [
  | inl e ↦ ground arith
  | inr e ↦ let ih = without-count a x ys (ground arith) in ground arith
]

null_absent : (x : Ptr) (xs : List Ptr) → x ≡ null → count null xs ≡ 0 → has x xs ≡ true → ⊥
null_absent x xs z h k = cc (sym k ∙ ap (λ a. has a xs) z ∙ not_has_of_count null xs h)

module _ (env : Env) (tasks : Tasks) (n cpu : ℕ) where
  -- The outcome of a search of `xs`.
  abbrev pub Picked : List Ptr → Active → Ptr × Active → Type 0
  Picked xs active r =
      (r ≡ (null, active))
      ⊎ ((x : Ptr) × (has x xs ≡ true)
          × IsFree env tasks n active x
          × (r ≡ (x, update active cpu x)))

  Picked-cons :
      (x : Ptr) (xs : List Ptr) (active : Active) (r : Ptr × Active)
      → Picked xs active r
      → Picked (x ∷ xs) active r
  Picked-cons x xs active r (inl e) = inl e
  Picked-cons x xs active r (inr (y, h, f, e)) = inr (y, has_there y x xs h, f, e)

  Picked-here :
      (x : Ptr) (xs : List Ptr) (active : Active)
      → (attempt env tasks n cpu x active).0 ≡ true
      → Picked (x ∷ xs) active (x, (attempt env tasks n cpu x active).1)
  Picked-here x xs active ok =
      rw (attempt_locked env tasks n cpu x active ok)
        (inr (x, has_here x xs, (attempt_iff env tasks n cpu x active).0 ok, refl))

  pick-Picked :
      (xs : List Ptr) (active : Active)
      → Picked xs active (pick (attempt env tasks n cpu) xs active)
  unfolding pick
  pick-Picked [] active = inl refl
  pick-Picked (x ∷ xs) active = elim (Bool-cases (attempt env tasks n cpu x active).0) [
    | inl ok ↦ rw ok (Picked-here x xs active ok)
    | inr no_lock ↦
        rw (no_lock, attempt_failed env tasks n cpu x active no_lock)
          (Picked-cons x xs active _ (pick-Picked xs active))
  ]

  pick_level-Picked :
      (prio : Ptr → ℕ) (l : Option ℕ) (xs : List Ptr) (active : Active)
      → Picked xs active (pick_level (attempt env tasks n cpu) prio l xs active)
  unfolding pick_level
  pick_level-Picked prio l [] active = inl refl
  pick_level-Picked prio l (x ∷ xs) active = elim (Bool-cases (skips l (prio x))) [
    | inl over ↦ rw over (Picked-cons x xs active _ (pick_level-Picked prio l xs active))
    | inr stop ↦ elim (Bool-cases (attempt env tasks n cpu x active).0) [
      | inl ok ↦ rw (stop, ok) (Picked-here x xs active ok)
      | inr no_lock ↦
          rw (stop, no_lock, attempt_failed env tasks n cpu x active no_lock)
            (Picked-cons x xs active _ (pick_level-Picked prio (some (prio x)) xs active))
    ]
  ]

  leave-Takes :
      (xs : List Ptr) (active : Active) (r : Ptr × Active)
      → count null xs ≡ 0
      → Picked xs active r
      → Takes env tasks n cpu count xs active (leave xs r)
  leave-Takes xs active r h (inl e) =
      nothing (rw (e, without_same null xs (not_has_of_count null xs h)))
  leave-Takes xs active r h (inr (x, k, f, e)) =
      took x (without x xs) (λ z. absurd (null_absent x xs z h k)) (λ a. without-count a x xs k) f
        (rw e)

  -- Putting the rest of one queue back among the queues of a strategy.
  pub put-Takes :
      {Q : Type 0} (cnt : Ptr → Q → ℕ) (f : List Ptr → Q) (q : Q) (xs : List Ptr) (active : Active)
      (r : Ptr × List Ptr × Active)
      → f xs ≡ q
      → ((a : Ptr) (ys : List Ptr) → cnt a (f ys) + count a xs ≡ cnt a q + count a ys)
      → Takes env tasks n cpu count xs active r
      → Takes env tasks n cpu cnt q active (put f r)
  put-Takes cnt f q xs active r same counts (nothing e) = nothing (rw (e, same))
  put-Takes cnt f q xs active r same counts (took x ys ne c free e) =
      took x (f ys) ne (λ a. omega (arith, counts a ys, c a)) free (rw e)

  pub or_else-Takes :
      {Q : Type 0} (cnt : Ptr → Q → ℕ) (q : Q) (active : Active) (r : Ptr × Q × Active)
      (next : Q → Active → Ptr × Q × Active)
      → Takes env tasks n cpu cnt q active r
      → Takes env tasks n cpu cnt q active (next q active)
      → Takes env tasks n cpu cnt q active (or_else r next)
  or_else-Takes cnt q active r next (nothing e) h = rw e h
  or_else-Takes cnt q active r next (took x q' ne c free e) h =
      rw (e, test_of_ne x null ne) (took x q' ne c free refl)

  pub leave-pick-Takes :
      (xs : List Ptr) (active : Active)
      → count null xs ≡ 0
      → Takes env tasks n cpu count xs active (leave xs (pick (attempt env tasks n cpu) xs active))
  leave-pick-Takes xs active h = leave-Takes xs active _ h (pick-Picked xs active)

  pub leave_level-Takes :
      (prio : Ptr → ℕ) (xs : List Ptr) (active : Active)
      → count null xs ≡ 0
      → Takes env tasks n cpu count xs active
          (leave xs (pick_level (attempt env tasks n cpu) prio none xs active))
  leave_level-Takes prio xs active h =
      leave-Takes xs active _ h (pick_level-Picked prio none xs active)
