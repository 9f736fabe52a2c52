-- ===== src/Queue/Remove.antt =====
-- `removeElementFromList`: the element leaves the list, the others keep their order.
use mathlib.Core.List.{append-nil}
use cy_ph_os.Base.{
  ◌≡◌, refl, ◌∙◌, ◌≢◌, false, List, [], ◌∷◌, ◌++◌, arith, some, ◌==◌, if◌then◌else◌, length-append,
  update, update_at, has, ne_of_has, ne_of_not_has, Distinct, Distinct-append_right,
}
use cy_ph_os.Queue.{
  Ptr, null, Links, Queue, queue, get_next, set_next, set_prev, size_dec, remove_element, take_head,
  dequeue_first,
}
use cy_ph_os.Queue.Returns.{Returns, Returns-of}
use cy_ph_os.Queue.Chain.{first, last, Chain, IsQueue, SameOutside, has-last, last-append}
use cy_ph_os.Queue.Unlink.{
  patch, remove_element-run, c_x, x_ne_p, x_ne_n, after-Chain, after-Distinct, head_lem,
  unlinked-SameOutside,
}

tail_lem :
    (q : Queue) (us : List Ptr) (x : Ptr) (vs : List Ptr)
    → Distinct (us ++ x ∷ vs)
    → q.tail ≡ last null (us ++ x ∷ vs)
    → (if q.tail == x then last null us else q.tail) ≡ last null (us ++ vs)
tail_lem q us x [] d e =
    let t : q.tail ≡ x = e ∙ last-append null us x [] in rw (append-nil us) (ground arith)
tail_lem q us x (v ∷ ws) d e =
    let t : q.tail ≡ last v ws = e ∙ last-append null us x (v ∷ ws) in
    let out : has x (v ∷ ws) ≡ false = (Distinct-append_right us (x ∷ v ∷ ws) d).0 in
    let ne : last v ws ≢ x = ne_of_has (last v ws) x (v ∷ ws) (has-last v ws) out in
    rw (last-append null us v ws) (ground (arith, t, ne))

-- `removeElementFromList` of an element `x` of the queue returns: it leaves the queue of the
-- others, in the same order, clears the links of `x`, and touches no element outside the queue.
pub remove_element-IsQueue :
    (m : Links) (q : Queue) (us : List Ptr) (x : Ptr) (vs : List Ptr)
    → IsQueue m q (us ++ x ∷ vs)
    → Returns
        (λ q' n.
          IsQueue n q' (us ++ vs)
          × (n.next x ≡ null)
          × (n.prev x ≡ null)
          × SameOutside (us ++ x ∷ vs) m n)
        (remove_element q x m)
remove_element-IsQueue m q us x vs is =
    let c = is.links in
    let d = is.distinct in
    let cx = c_x m us x vs c d in
    Returns-of _ (remove_element q x m) _ _
      (remove_element-run m q (last null us) x (first vs null) cx.1 cx.2 cx.0 (x_ne_p m us x vs c d)
        (x_ne_n m us x vs c d))
      (
        record {
          head = head_lem m us x vs c d q is.head;
          tail = tail_lem q us x vs d is.tail;
          size = omega (arith, is.size, length-append {0} us (x ∷ vs), length-append {0} us vs);
          links = after-Chain m us x vs c d;
          distinct = after-Distinct m us x vs c d;
        },
        update_at _ _ _ refl,
        update_at _ _ _ refl,
        unlinked-SameOutside m us x vs c d,
      )

-- `dequeueFirst` at the end of a queue.
nil_of_first :
    (m : Links) (b : Ptr) (vs : List Ptr) → Chain m b vs null → first vs null ≡ null → vs ≡ []
nil_of_first m b [] c e = refl
nil_of_first m b (v ∷ vs) c e = absurd (c.0 e)

take_next-run :
    (m : Links) (q : Queue) (x v t : Ptr)
    → q.head ≡ x
    → q.tail ≡ t
    → m.next x ≡ v
    → x ≢ null
    → x ≢ t
    → v ≢ null
    → take_head q m ≡ some (queue v t q.size, record m { prev = patch m.prev v null })
unfolding take_head get_next set_prev patch
take_next-run m q x v t eh et en ne ne_t v_ne = ground arith

take_head-run :
    (m : Links) (q : Queue) (x : Ptr) (vs : List Ptr)
    → q.head ≡ x
    → q.tail ≡ last x vs
    → m.next x ≡ first vs null
    → x ≢ null
    → has x vs ≡ false
    → (first vs null ≡ null → vs ≡ [])
    → take_head q m
      ≡ some (
        queue (first vs null) (last null vs) q.size,
        record m { prev = patch m.prev (first vs null) null },
      )
unfolding take_head get_next set_prev patch
take_head-run m q x [] eh et en ne out none_null = ground arith
take_head-run m q x (v ∷ ws) eh et en ne out none_null =
    let t : x ≢ last v ws = ne_of_not_has x (last v ws) (v ∷ ws) out (has-last v ws) in
    let v_ne : v ≢ null = λ e. cc (none_null e) in
    take_next-run m q x v (last v ws) eh et en ne t v_ne

dequeue_first-run :
    (m n : Links) (q q' : Queue) (x : Ptr)
    → q.head ≡ x
    → x ≢ null
    → take_head q m ≡ some (q', n)
    → dequeue_first q m
      ≡ some (
        (x, record q' { size = size_dec q'.size }),
        record { next = update n.next x null; prev = update n.prev x null },
      )
unfolding dequeue_first set_next set_prev
dequeue_first-run m n q q' x eh ne run = ground arith

pub dequeue_first-nil :
    (m : Links) (q : Queue) → IsQueue m q [] → dequeue_first q m ≡ some ((null, q), m)
unfolding dequeue_first
dequeue_first-nil m q is = ground arith

-- On a queue with a first element `dequeueFirst` returns it, with its links cleared, leaves the
-- queue of the rest, and touches nothing outside the queue.
pub dequeue_first-IsQueue :
    (m : Links) (q : Queue) (x : Ptr) (vs : List Ptr)
    → IsQueue m q (x ∷ vs)
    → Returns
        (λ (y, q') n.
          (y ≡ x)
          × IsQueue n q' vs
          × (n.next x ≡ null)
          × (n.prev x ≡ null)
          × SameOutside (x ∷ vs) m n)
        (dequeue_first q m)
unfolding patch
dequeue_first-IsQueue m q x vs is =
    let c = is.links in
    let d = is.distinct in
    Returns-of _ (dequeue_first q m) _ _
      (dequeue_first-run m _ q _ x is.head c.0
        (take_head-run m q x vs is.head is.tail c.2 c.0 d.0 (nil_of_first m x vs c.3)))
      (
        refl,
        record {
          head = refl;
          tail = refl;
          size = omega (arith, is.size);
          links = after-Chain m [] x vs c d;
          distinct = after-Distinct m [] x vs c d;
        },
        update_at _ _ _ refl,
        update_at _ _ _ refl,
        unlinked-SameOutside m [] x vs c d,
      )
