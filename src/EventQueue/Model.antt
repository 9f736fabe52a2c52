-- ===== src/EventQueue/Model.antt =====
-- What the ready queues mean for the list of tasks that a queue holds, first to last.
use cy_ph_os.Base.{
  ℕ, ◌≤◌, ◌≡◌, refl, ◌⊎◌, inl, inr, Bool, true, false, Bool-cases, Option, none, some, List, [],
  ◌∷◌, ◌==◌, leb, if◌then◌else◌, has, arith,
}
use cy_ph_os.Queue.{null}

abbrev pub skips : Option ℕ → ℕ → Bool
skips none p = false
skips (some l) p = p == l

module _ {S : Type 0} (try : ℕ → S → Bool × S) where
  -- The first task that can be locked; every attempt before it failed.
  unfoldable pub pick : List ℕ → S → ℕ × S
  pick [] s = (null, s)
  pick (x ∷ xs) s = let rest = pick xs (try x s).1 in if (try x s).0 then (x, (try x s).1) else rest

  module _ (prio : ℕ → ℕ) where
    -- The same, but after a failure the other tasks of that priority are passed over.
    unfoldable pub pick_level : Option ℕ → List ℕ → S → ℕ × S
    pick_level l [] s = (null, s)
    pick_level l (x ∷ xs) s =
        let passed = pick_level l xs s in
        let lower = pick_level (some (prio x)) xs (try x s).1 in
        if skips l (prio x) then passed else (if (try x s).0 then (x, (try x s).1) else lower)

  pub pick-has : (xs : List ℕ) (s : S) → ((pick xs s).0 ≡ null) ⊎ (has (pick xs s).0 xs ≡ true)
  unfolding pick
  pick-has [] s = inl refl
  pick-has (x ∷ xs) s = ground (arith, pick-has xs (try x s).1)

  pub pick_level-has :
      (prio : ℕ → ℕ) (l : Option ℕ) (xs : List ℕ) (s : S)
      → ((pick_level prio l xs s).0 ≡ null) ⊎ (has (pick_level prio l xs s).0 xs ≡ true)
  unfolding pick_level
  pick_level-has prio l [] s = inl refl
  pick_level-has prio l (x ∷ xs) s =
      ground (arith, pick_level-has prio l xs s, pick_level-has prio (some (prio x)) xs (try x s).1)

module _ (prio : ℕ → ℕ) where
  -- Behind every task of at least its priority, in front of the first that has less.
  unfoldable pub insert_by : ℕ → List ℕ → List ℕ
  insert_by x [] = x ∷ []
  insert_by x (y ∷ ys) = if leb (prio x) (prio y) then y ∷ insert_by x ys else x ∷ y ∷ ys

  abbrev pub AllBelow : ℕ → List ℕ → Type 0
  AllBelow p [] = Unit
  AllBelow p (y ∷ ys) = (prio y ≤ p) × AllBelow p ys

  -- Priorities fall along the list.
  abbrev pub IsSorted : List ℕ → Type 0
  IsSorted [] = Unit
  IsSorted (x ∷ xs) = AllBelow (prio x) xs × IsSorted xs

  AllBelow-insert_by :
      (p x : ℕ) (ys : List ℕ) → prio x ≤ p → AllBelow p ys → AllBelow p (insert_by x ys)
  unfolding insert_by
  AllBelow-insert_by p x [] h a = (h, tt)
  AllBelow-insert_by p x (y ∷ ys) h a = elim (Bool-cases (leb (prio x) (prio y))) [
    | inl e ↦ rw e (a.0, AllBelow-insert_by p x ys h a.1)
    | inr e ↦ rw e (h, (a.0, a.1))
  ]

  AllBelow-mono : (p r : ℕ) (ys : List ℕ) → p ≤ r → AllBelow p ys → AllBelow r ys
  AllBelow-mono p r [] h a = tt
  AllBelow-mono p r (y ∷ ys) h a = (omega arith, AllBelow-mono p r ys h a.1)

  -- Inserting a task into a list in which priorities do not rise gives such a list again.
  pub insert_by-IsSorted : (x : ℕ) (xs : List ℕ) → IsSorted xs → IsSorted (insert_by x xs)
  unfolding insert_by
  insert_by-IsSorted x [] h = (tt, tt)
  insert_by-IsSorted x (y ∷ ys) h = elim (Bool-cases (leb (prio x) (prio y))) [
    | inl e ↦
        rw e (AllBelow-insert_by (prio y) x ys (ground arith) h.0, insert_by-IsSorted x ys h.1)
    | inr e ↦
        let lt : prio y ≤ prio x = ground arith in
        rw e ((lt, AllBelow-mono (prio y) (prio x) ys lt h.0), (h.0, h.1))
  ]
