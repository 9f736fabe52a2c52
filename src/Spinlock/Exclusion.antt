-- ===== src/Spinlock/Exclusion.antt =====
-- The lock serves a line of processors, first come first served, and only the first of them holds it.
use cy_ph_os.Base.{
  ℕ, ◌+◌, ◌%◌, ◌^◌, ◌≤◌, ◌<◌, ◌≡◌, ◌≢◌, refl, sym, ap, ◌∙◌, ◌⊎◌, inl, inr, true, false, List, [],
  ◌∷◌, ◌++◌, arith, Bool-cases, has, length, length-append, update, update_at, update_ne, ◌==◌,
  eq_of_test, ne_of_test, Distinct-append, sum-update, ne_of_not_has, not_has_cons, ne_head,
  not_has_tail, not_has_left, has-append, has_here, has_there,
}
use cy_ph_os.Spinlock.{
  Stage, idle, waiting, holding, increment, Spinlock, take_ticket, pass, unlock, Step, takes,
  passes, unlocks, Reaches, start, step,
}
use cy_ph_os.Spinlock.Line.{InLine, InLine-update, InLine-append}
use cy_ph_os.Spinlock.Serves.{
  is_idle, is_holding, ticket, weight, Front, Serves, is_first, busy_head, idle_not_in, weight_busy,
  new_Serves,
}

-- What a step does to the line: a processor joins at the end, or the first one passes or leaves.
pub data Turn : List ℕ → List ℕ → Type 0 where
  joins : (cpu : ℕ) (q : List ℕ) → Turn q (q ++ cpu ∷ [])
  enters : (cpu : ℕ) (q : List ℕ) → Turn (cpu ∷ q) (cpu ∷ q)
  leaves : (cpu : ℕ) (q : List ℕ) → Turn (cpu ∷ q) q

Front-append :
    (stage : ℕ → Stage) (t cpu available : ℕ) (q : List ℕ)
    → t < 2 ^ 32
    → has cpu q ≡ false
    → available ≡ (t + length q) % 2 ^ 32
    → Front stage t q
    → Front (update stage cpu (waiting available)) t (q ++ cpu ∷ [])
Front-append stage t cpu available [] h out e f =
    let same : available ≡ t = omega arith in
    (inl (update_at stage cpu (waiting available) refl ∙ ap waiting same), tt)
Front-append stage t cpu available (c ∷ cs) h out e f =
    let ne : c ≢ cpu = λ x. ne_head cpu c cs out (sym x) in
    let new = waiting available in
    let same : available ≡ (increment t + length cs) % 2 ^ 32 = omega arith in
    (
      rw (update_ne stage cpu new ne) f.0,
      InLine-append (update stage cpu new) (increment t) cpu cs (omega arith)
          (InLine-update stage (increment t) cpu new cs (not_has_tail cpu c cs out) f.1)
          (update_at stage cpu new refl ∙ ap waiting same),
    )

at_last : (c cpu : ℕ) (q : List ℕ) → has c (q ++ cpu ∷ []) ≡ true → has c q ≡ false → c ≡ cpu
at_last c cpu q i b = ground (arith, has-append c q (cpu ∷ []))

alone : (a cpu : ℕ) (q : List ℕ) → has a q ≡ true → has cpu q ≡ false → has a (cpu ∷ []) ≡ false
alone a cpu q b out = not_has_cons a cpu [] (λ e. ne_of_not_has cpu a q out b (sym e)) refl

-- A processor that is idle joins the line.
joined :
    (n : ℕ) (s : Spinlock) (q : List ℕ) (cpu : ℕ)
    → cpu < n
    → n ≤ 2 ^ 32
    → Serves n s q
    → s.stage cpu ≡ idle
    → Serves n (take_ticket cpu s) (q ++ cpu ∷ [])
unfolding take_ticket
joined n s q cpu lt h r e =
    let out = idle_not_in n s q cpu h r e in
    let len : length (q ++ cpu ∷ []) ≡ length q + 1 = length-append q (cpu ∷ []) in
    let small = r.small in
    let next = r.next in
    let fits = r.fits in
    let sum = sum-update weight n s.stage cpu (waiting s.available) lt in
    let none_before : weight (s.stage cpu) ≡ 0 = ap weight e in
    record {
      front = Front-append s.stage s.active cpu s.available q r.small out r.next r.front;
      others = λ c o.
          update_ne s.stage cpu (waiting s.available)
            (ne_of_not_has c cpu (q ++ cpu ∷ []) o (last q))
          ∙ r.others c (not_has_left c q (cpu ∷ []) o);
      members = λ c i. elim (Bool-cases (has c q)) [
        | inl b ↦ r.members c b
        | inr b ↦ rw (at_last c cpu q i b) lt
      ];
      distinct = Distinct-append q (cpu ∷ []) r.distinct (refl, tt) (λ a b. alone a cpu q b out);
      next = rw len (omega arith);
      small = r.small;
      fits = rw len (omega arith);
    }
  where
    last : (xs : List ℕ) → has cpu (xs ++ cpu ∷ []) ≡ true
    last [] = has_here cpu []
    last (x ∷ xs) = has_there cpu x (xs ++ cpu ∷ []) (last xs)

-- The first of the line ends its loop.
passed :
    (n : ℕ) (s : Spinlock) (q : List ℕ) (cpu : ℕ)
    → cpu < n
    → Serves n s (cpu ∷ q)
    → Serves n (pass cpu s) (cpu ∷ q)
unfolding pass
passed n s q cpu lt r =
    let new = holding s.active in
    let sum = sum-update weight n s.stage cpu new lt in
    let busy = weight_busy (s.stage cpu) (busy_head s.stage s.active cpu q r.front) in
    let fits = r.fits in
    record {
      front = (
        inr (update_at s.stage cpu new refl),
        InLine-update s.stage (increment s.active) cpu new q r.distinct.0 r.front.1,
      );
      others = λ c o. update_ne s.stage cpu new (ne_head c cpu q o) ∙ r.others c o;
      members = r.members;
      distinct = r.distinct;
      next = r.next;
      small = r.small;
      fits = omega arith;
    }

-- The holder leaves, and the next of the line is at the front.
left :
    (n : ℕ) (s : Spinlock) (q : List ℕ) (cpu : ℕ)
    → cpu < n
    → Serves n s (cpu ∷ q)
    → Serves n (unlock cpu s) q
unfolding unlock
left n s q cpu lt r =
    let sum = sum-update weight n s.stage cpu idle lt in
    let busy = weight_busy (s.stage cpu) (busy_head s.stage s.active cpu q r.front) in
    let fits = r.fits in
    let next = r.next in
    let small = r.small in
    record {
      front =
          front_of q (InLine-update s.stage (increment s.active) cpu idle q r.distinct.0 r.front.1);
      others = λ c o. elim (Bool-cases (c == cpu)) [
        | inl e ↦ update_at s.stage cpu idle (eq_of_test c cpu e)
        | inr e ↦
            let ne = ne_of_test c cpu e in
            update_ne s.stage cpu idle ne ∙ r.others c (not_has_cons c cpu q ne o)
      ];
      members = λ c i. r.members c (has_there c cpu q i);
      distinct = r.distinct.1;
      next = omega arith;
      small = omega arith;
      fits = omega arith;
    }
  where
    front_of :
        (cs : List ℕ)
        → InLine (update s.stage cpu idle) (increment s.active) cs
        → Front (update s.stage cpu idle) (increment s.active) cs
    front_of [] l = tt
    front_of (c ∷ cs) l = (inl l.0, l.1)

-- With at most 2^32 processors, every step of a lock that serves the line `q` gives a lock that
-- serves a line to which a processor was added at the end, in which the first has passed, or from
-- which the first has left: the lock serves in the order of arrival.
pub Step-Turn :
    (n : ℕ) (s s' : Spinlock) (q : List ℕ)
    → n ≤ 2 ^ 32
    → Serves n s q
    → Step n s s'
    → (q' : List ℕ) × Turn q q' × Serves n s' q'
Step-Turn n s _ q h r (takes cpu _ lt e) = (q ++ cpu ∷ [], joins cpu q, joined n s q cpu lt h r e)
Step-Turn n s _ q h r (passes cpu _ lt e) =
    let (cs, at) = is_first n s q cpu h r (ap is_idle e) (inr (ap ticket e)) in
    (cpu ∷ cs, rw at (enters cpu cs), passed n s cs cpu lt (rw (← at) r))
Step-Turn n s _ q h r (unlocks cpu t _ lt e) =
    let (cs, at) = is_first n s q cpu h r (ap is_idle e) (inl (ap is_holding e)) in
    (cs, rw at (leaves cpu cs), left n s cs cpu lt (rw (← at) r))

Reaches-Serves : (n : ℕ) (s : Spinlock) → n ≤ 2 ^ 32 → Reaches n s → (q : List ℕ) × Serves n s q
Reaches-Serves n _ h start = ([], new_Serves n)
Reaches-Serves n s h (step s0 _ so_far one) =
    let (q, r) = Reaches-Serves n s0 h so_far in
    let (q', _, r') = Step-Turn n s0 s q h r one in (q', r')

-- With at most 2^32 processors that use `lock` and `unlock`, in every state that their steps reach,
-- two processors that hold the lock are the same.
pub Reaches-exclusion :
    (n : ℕ) (s : Spinlock) (c d t u : ℕ)
    → n ≤ 2 ^ 32
    → Reaches n s
    → s.stage c ≡ holding t
    → s.stage d ≡ holding u
    → c ≡ d
Reaches-exclusion n s c d t u h so_far ec ed =
    let (q, r) = Reaches-Serves n s h so_far in
    let (cs, at) = is_first n s q c h r (ap is_idle ec) (inl (ap is_holding ec)) in
    let (ds, at') = is_first n s q d h r (ap is_idle ed) (inl (ap is_holding ed)) in
    ap (head c) (sym at ∙ at')
  where
    head : ℕ → List ℕ → ℕ
    head z [] = z
    head z (x ∷ xs) = x

-- With at most 2^32 processors, in every state that their steps reach in which some processor is
-- not idle, there is a processor below `n` that holds the lock or waits with the ticket that is
-- served: the lock is never lost.
pub Reaches-turn :
    (n : ℕ) (s : Spinlock) (d : ℕ)
    → n ≤ 2 ^ 32
    → Reaches n s
    → s.stage d ≢ idle
    → (c : ℕ) × (c < n) × ((s.stage c ≡ waiting s.active) ⊎ (s.stage c ≡ holding s.active))
Reaches-turn n s d h so_far busy = let (q, r) = Reaches-Serves n s h so_far in first_of q r
  where
    first_of :
        (q : List ℕ)
        → Serves n s q
        → (c : ℕ) × (c < n) × ((s.stage c ≡ waiting s.active) ⊎ (s.stage c ≡ holding s.active))
    first_of [] r = absurd (busy (r.others d refl))
    first_of (c ∷ cs) r = (c, r.members c (has_here c cs), r.front.0)
