-- ===== src/EventQueue/Enqueue.antt =====
-- `EventPriorityQueue::enqueue` inserts by priority, behind the tasks of the same priority.
use mathlib.Core.List.{append-nil}
use cy_ph_os.Base.{
  ℕ, zero, suc, ◌<◌, ◌≡◌, refl, sym, ap, ◌∙◌, ◌≢◌, false, Bool-cases, inl, inr, some, List, [], ◌∷◌,
  ◌++◌, arith, leb, length, update, update_at, update_ne, has, ne_head, not_has_left, not_has_right,
}
use cy_ph_os.Queue.{
  Ptr, null, Links, Queue, queue, get_next, get_prev, set_next, set_prev, size_inc, enqueue_fast,
}
use cy_ph_os.Queue.Returns.{Returns, Returns-of}
use cy_ph_os.Queue.Chain.{
  first, last, Chain, IsQueue, SameOutside, Chain-right, Chain-left, Chain-ne_null, has-last,
}
use cy_ph_os.Queue.Insert.{enqueue_fast-IsQueue}
use cy_ph_os.Queue.Between.{Inserted, Inserted-IsQueue}
use cy_ph_os.Queue.Unlink.{last-ne}
use cy_ph_os.EventQueue.{seek, enqueue}
use cy_ph_os.EventQueue.Model.{insert_by}

tail_null : (m : Links) (q : Queue) (xs : List Ptr) → IsQueue m q xs → q.head ≡ null → q.tail ≡ null
tail_null m q [] is e = is.tail
tail_null m q (x ∷ xs) is e = absurd (is.links.0 (sym is.head ∙ e))

front-Inserted :
    (m : Links) (x y : Ptr)
    → x ≢ y
    → Inserted m
        (record { next = update m.next x y; prev = update (update m.prev y x) x null })
        null
        x
        y
front-Inserted m x y ne = record {
  x_next = update_at _ _ _ refl;
  x_prev = update_at _ _ _ refl;
  y_prev = update_ne _ _ _ (λ e. ne (sym e)) ∙ update_at _ _ _ refl;
  p_next = λ z. absurd (z refl);
  nexts = λ a h k. update_ne _ _ _ h;
  prevs = λ a h k. update_ne _ _ _ h ∙ update_ne _ _ _ k;
}

between-Inserted :
    (m : Links) (p x y : Ptr)
    → x ≢ y
    → p ≢ x
    → p ≢ null
    → Inserted m
        (record { next = update (update m.next x y) p x; prev = update (update m.prev x p) y x })
        p
        x
        y
between-Inserted m p x y ne_y ne_p ne = record {
  x_next = update_ne _ _ _ (λ e. ne_p (sym e)) ∙ update_at _ _ _ refl;
  x_prev = update_ne _ _ _ ne_y ∙ update_at _ _ _ refl;
  y_prev = update_at _ _ _ refl;
  p_next = λ z. update_at _ _ _ refl;
  nexts = λ a h k. update_ne _ _ _ (k ne) ∙ update_ne _ _ _ h;
  prevs = λ a h k. update_ne _ _ _ k ∙ update_ne _ _ _ h;
}

module _ (prio : Ptr → ℕ) where
  -- A list split where `enqueue` inserts `x`.
  record Place (x : Ptr) (xs : List Ptr) : Type 0 where
    before : List Ptr
    after : List Ptr
    whole : xs ≡ before ++ after
    inserted : insert_by prio x xs ≡ before ++ x ∷ after

  -- The search stops where the list splits, and reads only.
  place :
      (m : Links) (fuel : ℕ) (b : Ptr) (xs : List Ptr) (x : Ptr)
      → Chain m b xs null
      → length xs < fuel
      → (p : Place x xs) × (seek prio fuel (first xs null) (prio x) m
          ≡ some (first p.after null, m))
  unfolding insert_by seek get_next
  place m zero b xs x c h = absurd (omega arith)
  place m (suc fuel) b [] x c h =
      (record { before = []; after = []; whole = refl; inserted = refl }, refl)
  place m (suc fuel) b (y ∷ ys) x c h = elim (Bool-cases (leb (prio x) (prio y))) [
    | inl e ↦
        let (p, found) = place m fuel y ys x c.3 (omega arith) in
        (
          record {
            before = y ∷ p.before;
            after = p.after;
            whole = ap (λ l. y ∷ l) p.whole;
            inserted = rw e (ap (λ l. y ∷ l) p.inserted);
          },
          ground arith,
        )
    | inr e ↦ (record { before = []; after = y ∷ ys; whole = refl; inserted = rw e }, ground arith)
  ]

  append-run :
      (m : Links) (fuel : ℕ) (q : Queue) (x : Ptr)
      → x ≢ null
      → (q.head ≡ null → q.tail ≡ null)
      → seek prio fuel q.head (prio x) m ≡ some (null, m)
      → enqueue prio fuel q x m ≡ enqueue_fast q x m
  unfolding enqueue enqueue_fast
  append-run m fuel q x ne both found = ground arith

  front-run :
      (m : Links) (fuel : ℕ) (q : Queue) (x y : Ptr)
      → x ≢ null
      → y ≢ null
      → q.head ≡ y
      → seek prio fuel q.head (prio x) m ≡ some (y, m)
      → enqueue prio fuel q x m
        ≡ some (
          queue x q.tail (size_inc q.size),
          record { next = update m.next x y; prev = update (update m.prev y x) x null },
        )
  unfolding enqueue set_next set_prev
  front-run m fuel q x y ne ne_y e found = ground arith

  between-run :
      (m : Links) (fuel : ℕ) (q : Queue) (p x y : Ptr)
      → x ≢ null
      → y ≢ null
      → p ≢ null
      → q.head ≢ null
      → y ≢ q.head
      → m.prev y ≡ p
      → seek prio fuel q.head (prio x) m ≡ some (y, m)
      → enqueue prio fuel q x m
        ≡ some (
          queue q.head q.tail (size_inc q.size),
          record { next = update (update m.next x y) p x; prev = update (update m.prev x p) y x },
        )
  unfolding enqueue get_prev set_next set_prev
  between-run m fuel q p x y ne ne_y ne_p ne_h ne_yh e found =
      ground (arith, update_at m.prev x p {j = x} refl)

  enqueue_at :
      (m : Links) (fuel : ℕ) (q : Queue) (us ws : List Ptr) (x : Ptr)
      → IsQueue m q (us ++ ws)
      → x ≢ null
      → has x (us ++ ws) ≡ false
      → seek prio fuel q.head (prio x) m ≡ some (first ws null, m)
      → Returns
          (λ q' n. IsQueue n q' (us ++ x ∷ ws) × SameOutside (x ∷ us ++ ws) m n)
          (enqueue prio fuel q x m)
  enqueue_at m fuel q us [] x is ne out found =
      let run = append-run m fuel q x ne (tail_null m q (us ++ []) is) found in
      rw run (
        rw (append-nil us)
          (enqueue_fast-IsQueue m q us x (rw (append-nil us) at is) (rw (append-nil us) at out) ne))
  enqueue_at m fuel q [] (y ∷ ws) x is ne out found =
      Returns-of _ (enqueue prio fuel q x m) _ _
        (front-run m fuel q x y ne is.links.0 is.head found)
        (Inserted-IsQueue m _ q x [] x y ws is ne out (front-Inserted m x y (ne_head x y ws out))
          refl)
  enqueue_at m fuel q (u ∷ us) (y ∷ ws) x is ne out found =
      let c = is.links in
      let cy = Chain-right m null null (u ∷ us) (y ∷ ws) c in
      let ne_p : last u us ≢ null =
        Chain-ne_null m null y (last u us) (u ∷ us) (Chain-left m null null (u ∷ us) (y ∷ ws) c)
          (has-last u us) in
      let ne_y : x ≢ y = ne_head x y ws (not_has_right x (u ∷ us) (y ∷ ws) out) in
      let ne_px : last u us ≢ x =
        λ e. last-ne (u ∷ us) x ne (not_has_left x (u ∷ us) (y ∷ ws) out) (sym e) in
      let ne_yu : y ≢ u = λ e. ne_head u y ws (not_has_right u us (y ∷ ws) is.distinct.0) (sym e) in
      Returns-of _ (enqueue prio fuel q x m) _ _
        (between-run m fuel q (last u us) x y ne cy.0 ne_p (λ e. c.0 (sym is.head ∙ e))
          (λ e. ne_yu (e ∙ is.head)) cy.1 found)
        (Inserted-IsQueue m _ q q.head (u ∷ us) x y ws is ne out
          (between-Inserted m (last u us) x y ne_y ne_px ne_p) is.head)

  -- On a queue that holds `xs`, with more fuel than elements, `enqueue` of a task that is not in it
  -- and not nullptr returns; the queue then holds `insert_by prio x xs`, and no element outside the
  -- queue is touched.
  pub enqueue_by_priority-IsQueue :
      (m : Links) (fuel : ℕ) (q : Queue) (xs : List Ptr) (x : Ptr)
      → IsQueue m q xs
      → x ≢ null
      → has x xs ≡ false
      → length xs < fuel
      → Returns
          (λ q' n. IsQueue n q' (insert_by prio x xs) × SameOutside (x ∷ xs) m n)
          (enqueue prio fuel q x m)
  enqueue_by_priority-IsQueue m fuel q xs x is ne out h =
      let (p, found) = place m fuel null xs x is.links h in
      rw (p.inserted, p.whole)
        (enqueue_at m fuel q p.before p.after x (rw p.whole at is) ne (rw p.whole at out)
          (rw is.head found))
