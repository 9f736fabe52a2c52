-- ===== src/Queue/Between.antt =====
-- Insertion in front of an element: `enqueueBefore`, and what `EventPriorityQueue::enqueue` shares
-- with it.
use mathlib.Core.Bool.{false≢true}
use cy_ph_os.Base.{
  Bool-cases, inl, inr, not_has_cons, not_has_left, not_has_right, ◌≡◌, refl, sym, ap, ◌∙◌, ◌≢◌,
  true, false, some, List, [], ◌∷◌, ◌++◌, arith, ◌==◌, length-append, update, update_at, update_ne,
  has, has_here, ne_of_has, ne_of_not_has, ne_head, not_has_tail, Distinct, Disjoint,
  Distinct-append_left, Distinct-append_right, Distinct-append_Disjoint, Distinct-append,
  if◌then◌else◌,
}
use cy_ph_os.Queue.{
  Ptr, null, Links, Queue, queue, get_prev, set_next, set_prev, size_inc, enqueue_before,
}
use cy_ph_os.Queue.Returns.{Returns, Returns-of}
use cy_ph_os.Queue.Chain.{
  first, last, Chain, IsQueue, SameOutside, has-last, last-append, first-append, Chain-ne_null,
  Chain-append, Chain-left, Chain-right, Chain-retarget, Chain-rebase,
}
use cy_ph_os.Queue.Unlink.{patch, patch_at, patch_same, last-ne, has-last_of_ne}

-- `n` is `m` with `x` linked between `p` and `y`.
pub record Inserted (m n : Links) (p x y : Ptr) : Type 0 where
  pub x_next : n.next x ≡ y
  pub x_prev : n.prev x ≡ p
  pub y_prev : n.prev y ≡ x
  pub p_next : p ≢ null → n.next p ≡ x
  pub nexts : (a : Ptr) → a ≢ x → (p ≢ null → a ≢ p) → n.next a ≡ m.next a
  pub prevs : (a : Ptr) → a ≢ x → a ≢ y → n.prev a ≡ m.prev a

module _ (m n : Links) (us : List Ptr) (x y : Ptr) (vs : List Ptr)
    (c : Chain m null (us ++ y ∷ vs) null) (d : Distinct (us ++ y ∷ vs)) (ne : x ≢ null)
    (out : has x (us ++ y ∷ vs) ≡ false) (ins : Inserted m n (last null us) x y) where
  x_not_us : has x us ≡ false
  x_not_us = not_has_left x us (y ∷ vs) out

  x_not_ys : has x (y ∷ vs) ≡ false
  x_not_ys = not_has_right x us (y ∷ vs) out

  apart : Disjoint us (y ∷ vs)
  apart = Distinct-append_Disjoint us (y ∷ vs) d

  ys_not_us : (a : Ptr) → has a (y ∷ vs) ≡ true → has a us ≡ false
  ys_not_us a h = elim (Bool-cases (has a us)) [
    | inl k ↦ absurd (false≢true (sym (apart a k) ∙ h))
    | inr k ↦ k
  ]

  front : Chain n null us x
  front =
      Chain-retarget m n null y x us (Chain-left m null null us (y ∷ vs) c)
        (Distinct-append_left us (y ∷ vs) d)
        (λ a h.
          ins.prevs a (ne_of_has a x us h x_not_us)
            (ne_of_not_has a y (y ∷ vs) (apart a h) (has_here y vs)))
        (λ a h e.
          ap n.next e
          ∙ ins.p_next
              (λ z. Chain-ne_null m null y a us (Chain-left m null null us (y ∷ vs) c) h (e ∙ z)))
        (λ a h e. ins.nexts a (ne_of_has a x us h x_not_us) (λ _. e))

  back : Chain n x (y ∷ vs) null
  back =
      Chain-rebase m n (last null us) x null (y ∷ vs) (Chain-right m null null us (y ∷ vs) c)
        (Distinct-append_right us (y ∷ vs) d)
        (λ a h.
          ins.nexts a (ne_of_has a x (y ∷ vs) h x_not_ys)
            (λ z. ne_of_not_has a (last null us) us (ys_not_us a h) (has-last_of_ne us z)))
        (λ a h e. ap n.prev e ∙ ins.y_prev)
        (λ a h e. ins.prevs a (ne_of_has a x (y ∷ vs) h x_not_ys) e)

  pub Inserted-Chain : Chain n null (us ++ x ∷ y ∷ vs) null
  Inserted-Chain = Chain-append n null null us (x ∷ y ∷ vs) front (ne, ins.x_prev, ins.x_next, back)

  pub Inserted-Distinct : Distinct (us ++ x ∷ y ∷ vs)
  Inserted-Distinct =
      Distinct-append us (x ∷ y ∷ vs) (Distinct-append_left us (y ∷ vs) d)
        (x_not_ys, Distinct-append_right us (y ∷ vs) d)
        (λ a h. not_has_cons a x (y ∷ vs) (ne_of_has a x us h x_not_us) (apart a h))

  pub Inserted-SameOutside : SameOutside (x ∷ us ++ y ∷ vs) m n
  Inserted-SameOutside a h =
      let tail = not_has_tail a x (us ++ y ∷ vs) h in
      let ne_x = ne_head a x (us ++ y ∷ vs) h in
      let not_us : has a us ≡ false = not_has_left a us (y ∷ vs) tail in
      let ne_y : a ≢ y = ne_head a y vs (not_has_right a us (y ∷ vs) tail) in
      (
        ins.nexts a ne_x (λ z. ne_of_not_has a (last null us) us not_us (has-last_of_ne us z)),
        ins.prevs a ne_x ne_y,
      )

-- A queue whose head and links have taken `x` in front of `y`.
pub Inserted-IsQueue :
    (m n : Links) (q : Queue) (h : Ptr) (us : List Ptr) (x y : Ptr) (vs : List Ptr)
    → IsQueue m q (us ++ y ∷ vs)
    → x ≢ null
    → has x (us ++ y ∷ vs) ≡ false
    → Inserted m n (last null us) x y
    → h ≡ first us x
    → IsQueue n (queue h q.tail (size_inc q.size)) (us ++ x ∷ y ∷ vs)
      × SameOutside (x ∷ us ++ y ∷ vs) m n
Inserted-IsQueue m n q h us x y vs is ne out ins eh = (
  record {
    head = eh ∙ sym (first-append us (x ∷ y ∷ vs) null);
    tail = is.tail ∙ last-append null us y vs ∙ sym (last-append null us x (y ∷ vs));
    size = omega (arith, is.size, length-append {0} us (y ∷ vs), length-append {0} us (x ∷ y ∷ vs));
    links = Inserted-Chain m n us x y vs is.links is.distinct ne out ins;
    distinct = Inserted-Distinct m n us x y vs is.links is.distinct ne out ins;
  },
  Inserted-SameOutside m n us x y vs is.links is.distinct ne out ins,
)

-- The links that both insertions leave.
abbrev inserted : Links → Ptr → Ptr → Ptr → Links
inserted m p x y = record {
  next = update (patch m.next p x) x y;
  prev = update (update m.prev x p) y x;
}

inserted-Inserted : (m : Links) (p x y : Ptr) → x ≢ y → p ≢ x → Inserted m (inserted m p x y) p x y
inserted-Inserted m p x y ne_y ne_p = record {
  x_next = update_at _ _ _ refl;
  x_prev = update_ne _ _ _ ne_y ∙ update_at _ _ _ refl;
  y_prev = update_at _ _ _ refl;
  p_next = λ z. update_ne _ _ _ ne_p ∙ patch_at m.next p x refl z;
  nexts = λ a h k. update_ne _ _ _ h ∙ patch_same m.next p x k;
  prevs = λ a h k. update_ne _ _ _ k ∙ update_ne _ _ _ h;
}

enqueue_before-run :
    (m : Links) (q : Queue) (p x y : Ptr)
    → m.prev y ≡ p
    → x ≢ null
    → y ≢ null
    → enqueue_before q x y m
      ≡ some (queue (if p == null then x else q.head) q.tail (size_inc q.size), inserted m p x y)
unfolding enqueue_before get_prev set_next set_prev patch
enqueue_before-run m q p x y e ne ne_y = ground arith

pub head_before :
    (m : Links) (us : List Ptr) (x y : Ptr) (vs : List Ptr) (h : Ptr)
    → Chain m null (us ++ y ∷ vs) null
    → h ≡ first (us ++ y ∷ vs) null
    → (if last null us == null then x else h) ≡ first us x
head_before m [] x y vs h c e = refl
head_before m (u ∷ us) x y vs h c e =
    let ne : last u us ≢ null =
      Chain-ne_null m null y (last u us) (u ∷ us) (Chain-left m null null (u ∷ us) (y ∷ vs) c)
        (has-last u us) in
    head_go (last u us) x u h ne e
  where
    head_go : (l x u h : Ptr) → l ≢ null → h ≡ u → (if l == null then x else h) ≡ u
    head_go l x u h ne e = ground arith

-- `enqueueBefore` returns for an element `y` of the queue and an `x` that is not in it and not
-- nullptr: it puts `x` directly in front of `y`, keeps all else in order, and touches nothing
-- outside the queue.
pub enqueue_before-IsQueue :
    (m : Links) (q : Queue) (us : List Ptr) (x y : Ptr) (vs : List Ptr)
    → IsQueue m q (us ++ y ∷ vs)
    → x ≢ null
    → has x (us ++ y ∷ vs) ≡ false
    → Returns
        (λ q' n. IsQueue n q' (us ++ x ∷ y ∷ vs) × SameOutside (x ∷ us ++ y ∷ vs) m n)
        (enqueue_before q x y m)
enqueue_before-IsQueue m q us x y vs is ne out =
    let c = is.links in
    let cy = Chain-right m null null us (y ∷ vs) c in
    let ne_y : x ≢ y = ne_head x y vs (not_has_right x us (y ∷ vs) out) in
    let ne_p : last null us ≢ x = λ e. last-ne us x ne (not_has_left x us (y ∷ vs) out) (sym e) in
    Returns-of _ (enqueue_before q x y m) _ _
      (enqueue_before-run m q (last null us) x y cy.1 ne cy.0)
      (Inserted-IsQueue m _ q _ us x y vs is ne out
        (inserted-Inserted m (last null us) x y ne_y ne_p)
        (head_before m us x y vs q.head c is.head))
