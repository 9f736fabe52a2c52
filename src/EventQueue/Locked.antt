-- ===== src/EventQueue/Locked.antt =====
-- `dequeueFirstLocked` and `dequeueHighestPriority` against their specifications on lists.
use cy_ph_os.Base.{
  ℕ, zero, suc, ◌<◌, ◌≤◌, ◌≡◌, refl, ◌≢◌, ◌⊎◌, inl, inr, Bool, Bool-cases, true, false, some, none,
  List, [], ◌∷◌, arith, ◌==◌, if◌then◌else◌, length, has, ==_refl,
}
use cy_ph_os.Queue.{Ptr, null, Links, Queue, pure, ◌>>=◌, branch, get_next, remove_element}
use cy_ph_os.Queue.Returns.{Returns, Returns-bind}
use cy_ph_os.Queue.Chain.{first, Chain, IsQueue, SameOutside, Chain-ne_null}
use cy_ph_os.Queue.Model.{without}
use cy_ph_os.Queue.Remove.{remove_element-IsQueue}
use cy_ph_os.Queue.Dequeue.{not_has-null}
use cy_ph_os.Queue.Search.{split, without_same}
use cy_ph_os.EventQueue.{
  first_locked, dequeue_first_locked, skip_level, highest_locked, dequeue_highest_priority,
}
use cy_ph_os.EventQueue.Model.{pick, pick_level, pick-has, pick_level-has}

head_test : (h x : Ptr) → h ≡ x → x ≢ null → (h == null) ≡ false
head_test h x e ne = ground arith

-- Taking out an element that the queue holds, or nothing at nullptr.
take_out :
    {S : Type 0} (m : Links) (q : Queue) (xs : List Ptr) (x : Ptr) (s : S)
    → IsQueue m q xs
    → (x ≡ null) ⊎ (has x xs ≡ true)
    → Returns
        (λ (y, q', t) n. (y ≡ x) × (t ≡ s) × IsQueue n q' (without x xs) × SameOutside xs m n)
        (branch (x == null) (pure (null, q, s)) (do q' ← remove_element q x; pure (x, q', s)) m)
take_out m q xs x s is (inl e) =
    rw (e, without_same null xs (not_has-null m null null xs is.links))
      (refl, refl, is, λ a k. (refl, refl))
take_out m q xs x s is (inr h) =
    let ne : x ≢ null = Chain-ne_null m null null x xs is.links h in
    let t : (x == null) ≡ false = ground arith in
    let sp = split x xs h in
    rw t (
      Returns-bind _ _ (remove_element q x m) _
        (remove_element-IsQueue m q sp.before x sp.after (rw sp.whole at is))
        λ q' n r. (refl, refl, rw sp.rest r.0, rw sp.whole r.3))

module _ {S : Type 0} (try : Ptr → S → Bool × S) where
  first_locked-pick :
      (m : Links) (fuel : ℕ) (b : Ptr) (xs : List Ptr) (s : S)
      → Chain m b xs null
      → length xs < fuel
      → first_locked try fuel (first xs null) s m ≡ some (pick try xs s, m)
  unfolding first_locked pick get_next
  first_locked-pick m zero b xs s c h = absurd (omega arith)
  first_locked-pick m (suc fuel) b [] s c h = refl
  first_locked-pick m (suc fuel) b (x ∷ xs) s c h =
      ground (arith, first_locked-pick m fuel x xs (try x s).1 c.3)

  -- On a queue that holds `xs`, with more fuel than elements, `dequeueFirstLocked` returns. It
  -- takes out the first task that can be locked, or nothing; the state is that of the attempts
  -- made, the rest stays in order, and no element outside the queue is touched.
  pub dequeue_first_locked-IsQueue :
      (m : Links) (fuel : ℕ) (q : Queue) (xs : List Ptr) (s : S)
      → IsQueue m q xs
      → length xs < fuel
      → Returns
          (λ (x, q', t) n.
            (x ≡ (pick try xs s).0)
            × (t ≡ (pick try xs s).1)
            × IsQueue n q' (without (pick try xs s).0 xs)
            × SameOutside xs m n)
          (dequeue_first_locked try fuel q s m)
  unfolding dequeue_first_locked
  dequeue_first_locked-IsQueue m fuel q xs s is h =
      let run : first_locked try fuel q.head s m ≡ some (pick try xs s, m) =
        rw is.head (first_locked-pick m fuel null xs s is.links h) in
      rw run (take_out m q xs (pick try xs s).0 (pick try xs s).1 is (pick-has try xs s))

module _ (prio : Ptr → ℕ) where
  abbrev drop_level : ℕ → List Ptr → List Ptr
  drop_level p [] = []
  drop_level p (x ∷ xs) = if prio x == p then drop_level p xs else x ∷ xs

  length-drop_level-le : (p : ℕ) (xs : List Ptr) → length (drop_level p xs) ≤ length xs
  length-drop_level-le p [] = omega arith
  length-drop_level-le p (x ∷ xs) = ground (arith, length-drop_level-le p xs)

  drop_level-Chain :
      (m : Links) (p : ℕ) (b : Ptr) (xs : List Ptr)
      → Chain m b xs null
      → (b' : Ptr) × Chain m b' (drop_level p xs) null
  drop_level-Chain m p b [] c = (b, tt)
  drop_level-Chain m p b (x ∷ xs) c = elim (Bool-cases (prio x == p)) [
    | inl e ↦ rw e (drop_level-Chain m p x xs c.3)
    | inr e ↦ rw e (b, c)
  ]

  skip_level-drop_level :
      (m : Links) (fuel : ℕ) (b p : ℕ) (xs : List Ptr)
      → Chain m b xs null
      → length xs < fuel
      → skip_level prio fuel (first xs null) p m ≡ some (first (drop_level p xs) null, m)
  unfolding skip_level get_next
  skip_level-drop_level m zero b p xs c h = absurd (omega arith)
  skip_level-drop_level m (suc fuel) b p [] c h = refl
  skip_level-drop_level m (suc fuel) b p (x ∷ xs) c h =
      ground (arith, skip_level-drop_level m fuel x p xs c.3)

  module _ {S : Type 0} (try : Ptr → S → Bool × S) where
    pick_level-drop_level :
        (p : ℕ) (xs : List Ptr) (s : S)
        → pick_level try prio (some p) xs s ≡ pick_level try prio none (drop_level p xs) s
    unfolding pick_level
    pick_level-drop_level p [] s = refl
    pick_level-drop_level p (x ∷ xs) s = elim (Bool-cases (prio x == p)) [
      | inl e ↦ rw e (pick_level-drop_level p xs s)
      | inr e ↦ rw e
    ]

    highest_locked-null :
        (m : Links) (fuel : ℕ) (s : S)
        → highest_locked prio try (suc fuel) null s m ≡ some ((null, s), m)
    unfolding highest_locked
    highest_locked-null m fuel s = refl

    highest_locked-run :
        (m : Links) (fuel : ℕ) (x n : Ptr) (s s' : S) (r : Ptr × S)
        → x ≢ null
        → skip_level prio (suc fuel) x (prio x) m ≡ some (n, m)
        → highest_locked prio try fuel n (try x s).1 m ≡ some (r, m)
        → highest_locked prio try (suc fuel) x s m
          ≡ some ((if (try x s).0 then (x, (try x s).1) else r), m)
    unfolding highest_locked
    highest_locked-run m fuel x n s s' r ne skip rest = ground arith

    highest_locked-pick_level :
        (m : Links) (fuel : ℕ) (b : Ptr) (xs : List Ptr) (s : S)
        → Chain m b xs null
        → length xs < fuel
        → highest_locked prio try fuel (first xs null) s m ≡ some (pick_level try prio none xs s, m)
    unfolding pick_level
    highest_locked-pick_level m zero b xs s c h = absurd (omega arith)
    highest_locked-pick_level m (suc fuel) b [] s c h = highest_locked-null m fuel s
    highest_locked-pick_level m (suc fuel) b (x ∷ xs) s c h =
        let p = prio x in
        let (b', c') = drop_level-Chain m p x xs c.3 in
        let lower = drop_level p xs in
        let fits : length lower < fuel = omega (arith, length-drop_level-le p xs) in
        let skip = skip_level-drop_level m (suc fuel) b p (x ∷ xs) c h in
        let skip' : skip_level prio (suc fuel) x p m ≡ some (first lower null, m) =
          rw skip (rw (==_refl p)) in
        let rest = highest_locked-pick_level m fuel b' lower (try x s).1 c' fits in
        rw (pick_level-drop_level p xs (try x s).1)
          (highest_locked-run m fuel x (first lower null) s s _ c.0 skip' rest)

    empty_run :
        (m : Links) (fuel : ℕ) (q : Queue) (s : S)
        → q.head ≡ null
        → dequeue_highest_priority prio try fuel q s m ≡ some ((null, q, s), m)
    unfolding dequeue_highest_priority
    empty_run m fuel q s e = ground arith

    pick_level-nil : (s : S) → pick_level try prio none [] s ≡ (null, s)
    unfolding pick_level
    pick_level-nil s = refl

    -- On a queue that holds `xs`, with more fuel than elements, `dequeueHighestPriority` returns.
    -- It takes out the task that `pick_level` names, the first that can be locked when the rest of
    -- a priority is passed over after a failure on it, or nothing; the state is that of the
    -- attempts made, the rest stays in order, and no element outside the queue is touched.
    pub dequeue_highest_priority-IsQueue :
        (m : Links) (fuel : ℕ) (q : Queue) (xs : List Ptr) (s : S)
        → IsQueue m q xs
        → length xs < fuel
        → Returns
            (λ (x, q', t) n.
              (x ≡ (pick_level try prio none xs s).0)
              × (t ≡ (pick_level try prio none xs s).1)
              × IsQueue n q' (without (pick_level try prio none xs s).0 xs)
              × SameOutside xs m n)
            (dequeue_highest_priority prio try fuel q s m)
    unfolding dequeue_highest_priority
    dequeue_highest_priority-IsQueue m fuel q [] s is h =
        rw (empty_run m fuel q s is.head, pick_level-nil s) (refl, refl, is, λ a k. (refl, refl))
    dequeue_highest_priority-IsQueue m fuel q (x ∷ xs) s is h =
        let some_head : (q.head == null) ≡ false = head_test q.head x is.head is.links.0 in
        let r = pick_level try prio none (x ∷ xs) s in
        let run : highest_locked prio try fuel q.head s m ≡ some (r, m) =
          rw is.head (highest_locked-pick_level m fuel null (x ∷ xs) s is.links h) in
        rw (some_head, run)
          (take_out m q (x ∷ xs) r.0 r.1 is (pick_level-has try prio none (x ∷ xs) s))
