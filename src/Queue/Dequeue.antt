-- ===== src/Queue/Dequeue.antt =====
-- `dequeue`: the element at a position is taken out.
use cy_ph_os.Base.{
  ℕ, zero, suc, not, ◌%◌, ◌^◌, ◌<◌, ◌≤◌, ◌≡◌, refl, sym, ◌≢◌, ◌⊎◌, Bool-cases, inl, inr, true,
  false, List, [], ◌∷◌, some, arith, ◌==◌, leb, length, has, has_here, has_there, not_has_cons,
}
use cy_ph_os.Queue.{Ptr, null, Links, Queue, M, pure, ◌>>=◌, branch, walk, dequeue, remove_element}
use cy_ph_os.Queue.Model.{without}
use cy_ph_os.Queue.Returns.{Returns, Returns-bind}
use cy_ph_os.Queue.Chain.{Chain, IsQueue, SameOutside, Chain-ne_null}
use cy_ph_os.Queue.Remove.{remove_element-IsQueue}
use cy_ph_os.Queue.Search.{at, walk-at, at_beyond, split, without_same}

pub not_has-null : (m : Links) (b a : Ptr) (xs : List Ptr) → Chain m b xs a → has null xs ≡ false
not_has-null m b a [] c = refl
not_has-null m b a (x ∷ xs) c =
    not_has_cons null x xs (λ e. c.0 (sym e)) (not_has-null m x a xs c.3)

at-has : (xs : List Ptr) (i : ℕ) → (at xs i ≡ null) ⊎ (has (at xs i) xs ≡ true)
at-has [] i = inl refl
at-has (x ∷ xs) zero = inr (has_here x xs)
at-has (x ∷ xs) (suc i) = elim (at-has xs i) [
  | inl e ↦ inl e
  | inr h ↦ inr (has_there (at xs i) x xs h)
]

-- What `dequeue` does with the element that it found.
abbrev found : Queue → Ptr → M (Ptr × Queue)
found q x = do q' ← branch (not (x == null)) (remove_element q x) (pure q); pure (x, q')

found-IsQueue :
    (m : Links) (q : Queue) (xs : List Ptr) (x : Ptr)
    → IsQueue m q xs
    → (x ≡ null) ⊎ (has x xs ≡ true)
    → Returns
        (λ (y, q') n. (y ≡ x) × IsQueue n q' (without x xs) × SameOutside xs m n)
        (found q x m)
found-IsQueue m q xs x is (inl e) =
    rw (e, without_same null xs (not_has-null m null null xs is.links))
      (refl, is, λ a k. (refl, refl))
found-IsQueue m q xs x is (inr h) =
    let ne : x ≢ null = Chain-ne_null m null null x xs is.links h in
    let t : (x == null) ≡ false = ground arith in
    let sp = split x xs h in
    rw t (
      Returns-bind _ _ (remove_element q x m) _
        (remove_element-IsQueue m q sp.before x sp.after (rw sp.whole at is))
        λ q' n r. (refl, rw sp.rest r.0, rw sp.whole r.3))

dequeue-past :
    (m : Links) (q : Queue) (pos : ℕ)
    → leb q.size pos ≡ true
    → dequeue q pos m ≡ some ((null, q), m)
unfolding dequeue
dequeue-past m q pos e = rw e refl

dequeue-within :
    (m : Links) (q : Queue) (pos : ℕ) (x : Ptr)
    → leb q.size pos ≡ false
    → walk pos q.head m ≡ some (x, m)
    → dequeue q pos m ≡ found q x m
unfolding dequeue
dequeue-within m q pos x e f = rw (e, f) refl

past_end : (size n pos : ℕ) → leb size pos ≡ true → size ≡ n % 2 ^ 32 → n < 2 ^ 32 → n ≤ pos
past_end size n pos e s small = let whole : size ≡ n = omega arith in ground arith

-- On a queue of fewer than 2^32 elements `dequeue` returns the element at a position and leaves the
-- queue of the others, in order; past the end it returns nullptr and the queue stays. Nothing outside
-- the queue is touched.
dequeue-IsQueue :
    (m : Links) (q : Queue) (xs : List Ptr) (pos : ℕ)
    → IsQueue m q xs
    → length xs < 2 ^ 32
    → Returns
        (λ (x, q') n. (x ≡ at xs pos) × IsQueue n q' (without (at xs pos) xs) × SameOutside xs m n)
        (dequeue q pos m)
dequeue-IsQueue m q xs pos is small = elim (Bool-cases (leb q.size pos)) [
  | inl e ↦
      let none_there : at xs pos ≡ null =
        at_beyond xs pos (past_end q.size (length xs) pos e is.size small) in
      rw
        (
          dequeue-past m q pos e,
          none_there,
          without_same null xs (not_has-null m null null xs is.links),
        )
        (refl, is, λ a k. (refl, refl))
  | inr e ↦
      rw (dequeue-within m q pos (at xs pos) e (rw is.head (walk-at m null xs pos is.links)))
        (found-IsQueue m q xs (at xs pos) is (at-has xs pos))
]
