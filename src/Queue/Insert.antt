-- ===== src/Queue/Insert.antt =====
-- Queue.cc, `enqueueFast` and `enqueue`: insertion into a queue.
use cy_ph_os.Base.{
  ℕ, zero, suc, ◌<◌, ◌≡◌, refl, ap, ◌∙◌, ◌≢◌, false, Bool-cases, inl, inr, some, List, [], ◌∷◌,
  ◌++◌, arith, length, length-append, sym, update, update_at, update_ne, ne_of_has, ne_of_not_has,
  ne_head, not_has_tail, has, Distinct, Distinct-append,
}
use cy_ph_os.Queue.{
  Ptr, null, Links, Queue, queue, set_next, set_prev, size_inc, enqueue_fast, get_next, is_in,
  enqueue,
}
use cy_ph_os.Queue.Chain.{
  first, last, Chain, IsQueue, SameOutside, has-last, last-append, Chain-ne_null, Chain-append,
  Relinks, Chain-relink,
}
use cy_ph_os.Queue.Returns.{Returns, Returns-of}
use cy_ph_os.Queue.Model.{append_new}

enqueue_fast-nil :
    (m : Links) (q : Queue) (x : Ptr)
    → IsQueue m q []
    → x ≢ null
    → Returns (λ q' n. IsQueue n q' (x ∷ []) × SameOutside (x ∷ []) m n) (enqueue_fast q x m)
unfolding enqueue_fast set_next set_prev
enqueue_fast-nil m q x is ne =
    Returns-of _ (enqueue_fast q x m) (queue x x (size_inc q.size))
      (record { next = update m.next x null; prev = update m.prev x null }) (ground arith)
      (
        record {
          head = refl;
          tail = refl;
          size = omega (arith, is.size);
          links = (ne, update_at _ _ _ refl, update_at _ _ _ refl, tt);
          distinct = (refl, tt);
        },
        λ a h. (update_ne _ _ _ (ne_head a x [] h), update_ne _ _ _ (ne_head a x [] h)),
      )

-- The links after a nonempty queue with last element `t` has taken `x`.
abbrev appended : Links → Ptr → Ptr → Links
appended m t x = record { next = update (update m.next x null) t x; prev = update m.prev x t }

appended-Relinks :
    (m : Links) (z : Ptr) (zs : List Ptr) (x : Ptr)
    → Chain m null (z ∷ zs) null
    → has x (z ∷ zs) ≡ false
    → Relinks m (appended m (last z zs) x) null (z ∷ zs) x
appended-Relinks m z zs x c out = record {
  front = λ y h e. update_ne _ _ _ (ne_of_has y x (z ∷ zs) h out) ∙ ap m.prev e ∙ c.1;
  prevs = λ y h e. update_ne _ _ _ (ne_of_has y x (z ∷ zs) h out);
  back = λ y h e. update_at _ _ _ e;
  nexts = λ y h e. update_ne _ _ _ e ∙ update_ne _ _ _ (ne_of_has y x (z ∷ zs) h out);
}

appended-Chain :
    (m : Links) (z : Ptr) (zs : List Ptr) (x : Ptr)
    → Chain m null (z ∷ zs) null
    → Distinct (z ∷ zs)
    → has x (z ∷ zs) ≡ false
    → x ≢ null
    → Chain (appended m (last z zs) x) null ((z ∷ zs) ++ x ∷ []) null
appended-Chain m z zs x c d out ne =
    let n = appended m (last z zs) x in
    Chain-append n null null (z ∷ zs) (x ∷ [])
      (Chain-relink m n null null null x (z ∷ zs) c d (appended-Relinks m z zs x c out))
      (
        ne,
        update_at _ _ _ refl,
        update_ne _ _ _ (ne_of_not_has x (last z zs) (z ∷ zs) out (has-last z zs))
            ∙ update_at _ _ _ refl,
        tt,
      )

enqueue_fast-cons :
    (m : Links) (q : Queue) (z : Ptr) (zs : List Ptr) (x : Ptr)
    → IsQueue m q (z ∷ zs)
    → has x (z ∷ zs) ≡ false
    → x ≢ null
    → Returns
        (λ q' n. IsQueue n q' ((z ∷ zs) ++ x ∷ []) × SameOutside (x ∷ z ∷ zs) m n)
        (enqueue_fast q x m)
unfolding enqueue_fast set_next set_prev
enqueue_fast-cons m q z zs x is out ne =
    Returns-of _ (enqueue_fast q x m) (queue z x (size_inc q.size)) (appended m (last z zs) x)
      (ground (arith, Chain-ne_null m null null (last z zs) (z ∷ zs) is.links (has-last z zs)))
      (
        record {
          head = refl;
          tail = sym (last-append null (z ∷ zs) x []);
          size = omega (arith, is.size, length-append {0} zs (x ∷ []));
          links = appended-Chain m z zs x is.links is.distinct out ne;
          distinct = Distinct-append (z ∷ zs) (x ∷ []) is.distinct (refl, tt) (λ a h. ground arith);
        },
        λ a h. (
          update_ne _ _ _
                (ne_of_not_has a (last z zs) (z ∷ zs) (not_has_tail a x (z ∷ zs) h) (has-last z zs))
              ∙ update_ne _ _ _ (ne_head a x (z ∷ zs) h),
          update_ne _ _ _ (ne_head a x (z ∷ zs) h),
        ),
      )

-- Enqueueing at the end of a queue, whatever it holds.
pub enqueue_fast-IsQueue :
    (m : Links) (q : Queue) (xs : List Ptr) (x : Ptr)
    → IsQueue m q xs
    → has x xs ≡ false
    → x ≢ null
    → Returns (λ q' n. IsQueue n q' (xs ++ x ∷ []) × SameOutside (x ∷ xs) m n) (enqueue_fast q x m)
enqueue_fast-IsQueue m q [] x is out ne = enqueue_fast-nil m q x is ne
enqueue_fast-IsQueue m q (z ∷ zs) x is out ne = enqueue_fast-cons m q z zs x is out ne

is_in-has :
    (m : Links) (fuel : ℕ) (b : Ptr) (xs : List Ptr) (x : Ptr)
    → Chain m b xs null
    → length xs < fuel
    → is_in fuel (first xs null) x m ≡ some (has x xs, m)
unfolding is_in get_next
is_in-has m zero b xs x c h = absurd (omega arith)
is_in-has m (suc fuel) b [] x c h = refl
is_in-has m (suc fuel) b (y ∷ ys) x c h = ground (arith, is_in-has m fuel y ys x c.3)

-- On a queue that holds `xs`, with more fuel than elements, `enqueue` of an element that is not
-- nullptr returns: the queue holds `xs` as before if the element was in it, and else the element at
-- the end; nothing outside the queue is touched.
pub enqueue-IsQueue :
    (m : Links) (fuel : ℕ) (q : Queue) (xs : List Ptr) (x : Ptr)
    → IsQueue m q xs
    → x ≢ null
    → length xs < fuel
    → Returns
        (λ q' n. IsQueue n q' (append_new xs x) × SameOutside (x ∷ xs) m n)
        (enqueue fuel q x m)
unfolding enqueue
enqueue-IsQueue m fuel q xs x is ne h =
    let found : is_in fuel q.head x m ≡ some (has x xs, m) =
      rw is.head (is_in-has m fuel null xs x is.links h) in
    elim (Bool-cases (has x xs)) [
      | inl old ↦
          let run : enqueue fuel q x m ≡ some (q, m) = ground (arith, found) in
          rw (run, old) (is, λ a k. (refl, refl))
      | inr new ↦
          let run : enqueue fuel q x m ≡ enqueue_fast q x m = ground (arith, found) in
          rw (run, new) (enqueue_fast-IsQueue m q xs x is new ne)
    ]
