-- ===== src/Queue/Search.antt =====
-- Queue.cc, the walks over a queue: `get`, `remove`, `clearList`.
use cy_ph_os.Base.{
  ℕ, zero, suc, ◌^◌, ◌<◌, ◌≤◌, ◌≡◌, refl, ap, ◌∙◌, ◌≢◌, Bool-cases, inl, inr, true, false, List, [],
  ◌∷◌, ◌++◌, some, arith, ◌==◌, if◌then◌else◌, length, has, not_has_tail,
}
use cy_ph_os.Queue.{
  Ptr, null, Links, Queue, get_next, walk, get, find, remove, remove_element, clear_list,
  dequeue_first,
}
use cy_ph_os.Queue.Model.{without}
use cy_ph_os.Queue.Returns.{Returns, Returns-bind, Returns-mono}
use cy_ph_os.Queue.Chain.{first, Chain, IsQueue, SameOutside}
use cy_ph_os.Queue.Remove.{remove_element-IsQueue, dequeue_first-IsQueue, dequeue_first-nil}

-- The element at a position, or nullptr.
abbrev pub at : List Ptr → ℕ → Ptr
at [] i = null
at (x ∷ xs) zero = x
at (x ∷ xs) (suc i) = at xs i

pub walk-at :
    (m : Links) (b : Ptr) (xs : List Ptr) (pos : ℕ)
    → Chain m b xs null
    → walk pos (first xs null) m ≡ some (at xs pos, m)
unfolding walk get_next
walk-at m b [] zero c = refl
walk-at m b [] (suc i) c = refl
walk-at m b (x ∷ xs) zero c = refl
walk-at m b (x ∷ xs) (suc i) c = ground (arith, walk-at m x xs i c.3)

pub at_beyond : (xs : List Ptr) (i : ℕ) → length xs ≤ i → at xs i ≡ null
at_beyond [] i h = refl
at_beyond (x ∷ xs) zero h = absurd (omega arith)
at_beyond (x ∷ xs) (suc i) h = at_beyond xs i (omega arith)

get-run :
    (m : Links) (q : Queue) (pos n : ℕ) (x : Ptr)
    → walk pos q.head m ≡ some (x, m)
    → q.size ≡ n
    → (n ≤ pos → x ≡ null)
    → get q pos m ≡ some (x, m)
unfolding get
get-run m q pos n x there size beyond = ground arith

-- On a queue of fewer than 2^32 elements `get` returns the element at a position and changes
-- nothing; past the end it returns nullptr.
get-at :
    (m : Links) (q : Queue) (xs : List Ptr) (pos : ℕ)
    → IsQueue m q xs
    → length xs < 2 ^ 32
    → get q pos m ≡ some (at xs pos, m)
get-at m q xs pos is h =
    get-run m q pos (length xs) (at xs pos) (rw is.head (walk-at m null xs pos is.links))
      (omega (arith, is.size)) (at_beyond xs pos)

find-has :
    (m : Links) (fuel : ℕ) (b : Ptr) (xs : List Ptr) (x : Ptr)
    → Chain m b xs null
    → length xs < fuel
    → find fuel (first xs null) x m ≡ some (if has x xs then x else null, m)
unfolding find get_next
find-has m zero b xs x c h = absurd (omega arith)
find-has m (suc fuel) b [] x c h = refl
find-has m (suc fuel) b (y ∷ ys) x c h = ground (arith, find-has m fuel y ys x c.3)

-- A list split at the first occurrence of `x`.
pub record Split (x : ℕ) (xs : List ℕ) : Type 0 where
  pub before : List ℕ
  pub after : List ℕ
  pub whole : xs ≡ before ++ x ∷ after
  pub rest : without x xs ≡ before ++ after

pub split : (x : ℕ) (xs : List ℕ) → has x xs ≡ true → Split x xs
split x [] h = cc
split x (y ∷ ys) h = elim (Bool-cases (x == y)) [
  | inl e ↦ record { before = []; after = ys; whole = ground arith; rest = rw e }
  | inr e ↦
      let s = split x ys (ground arith) in
      record {
        before = y ∷ s.before;
        after = s.after;
        whole = ap (λ l. y ∷ l) s.whole;
        rest = rw e (ap (λ l. y ∷ l) s.rest);
      }
]

pub without_same : (x : ℕ) (xs : List ℕ) → has x xs ≡ false → without x xs ≡ xs
without_same x [] h = refl
without_same x (y ∷ ys) h = ground (arith, without_same x ys)

remove-run :
    (m : Links) (fuel : ℕ) (q : Queue) (xs : List Ptr) (x : Ptr)
    → IsQueue m q xs
    → x ≢ null
    → length xs < fuel
    → remove fuel q x m ≡ (if has x xs then remove_element q x m else some (q, m))
unfolding remove
remove-run m fuel q xs x is ne h =
    let found : find fuel q.head x m ≡ some (if has x xs then x else null, m) =
      rw is.head (find-has m fuel null xs x is.links h) in
    ground arith

-- With more fuel than elements, `remove` of an element that is not nullptr returns: the element is
-- taken out if the queue holds it, and else the queue keeps its elements; nothing outside the queue
-- is touched.
pub remove-IsQueue :
    (m : Links) (fuel : ℕ) (q : Queue) (xs : List Ptr) (x : Ptr)
    → IsQueue m q xs
    → x ≢ null
    → length xs < fuel
    → Returns (λ q' n. IsQueue n q' (without x xs) × SameOutside xs m n) (remove fuel q x m)
remove-IsQueue m fuel q xs x is ne h = elim (Bool-cases (has x xs)) [
  | inl here ↦
      let s = split x xs here in
      rw (remove-run m fuel q xs x is ne h, here, s.rest)
        (Returns-mono _ _ (remove_element q x m)
          (remove_element-IsQueue m q s.before x s.after (rw s.whole at is))
          (λ q' n r. (r.0, rw s.whole r.3)))
  | inr gone ↦
      rw (remove-run m fuel q xs x is ne h, gone, without_same x xs gone) (is, λ a k. (refl, refl))
]

clear_go : (y x : Ptr) → y ≡ x → x ≢ null → (y == null) ≡ false
clear_go y x e ne = ground arith

both : {a b c d e f : Ptr} → (c ≡ b) × (f ≡ e) → (b ≡ a) × (e ≡ d) → (c ≡ a) × (f ≡ d)
both p q = (p.0 ∙ q.0, p.1 ∙ q.1)

-- With more fuel than elements, `clearList` returns, leaves an empty queue, and touches no element
-- outside it.
pub clear_list-IsQueue :
    (m : Links) (fuel : ℕ) (q : Queue) (xs : List Ptr)
    → IsQueue m q xs
    → length xs < fuel
    → Returns (λ q' n. IsQueue n q' [] × SameOutside xs m n) (clear_list fuel q m)
unfolding clear_list
clear_list-IsQueue m zero q xs is h = absurd (omega arith)
clear_list-IsQueue m (suc fuel) q [] is h = rw (dequeue_first-nil m q is) (is, λ a k. (refl, refl))
clear_list-IsQueue m (suc fuel) q (x ∷ xs) is h =
    Returns-bind _ _ (dequeue_first q m) _ (dequeue_first-IsQueue m q x xs is) λ (y, q') n r.
      let ne : (y == null) ≡ false = clear_go y x r.0 is.links.0 in
      rw ne (
        Returns-mono _ _ (clear_list fuel q' n) (clear_list-IsQueue n fuel q' xs r.1 (omega arith))
          (λ q'' k s. (s.0, λ a out. both (s.1 a (not_has_tail a x xs out)) (r.4 a out))))
