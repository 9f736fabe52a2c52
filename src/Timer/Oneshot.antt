-- ===== src/Timer/Oneshot.antt =====
-- GenericTimer.cc, `setOneshotEvent` and `cancelOneshotTimerEvent`: the times of the other events.
use native.Mathlib.Nat.{mod-eq_of_lt}
use cy_ph_os.Base.{
  ℕ, ◌+◌, ◌-◌, ◌%◌, ◌^◌, ◌≤◌, ◌<◌, ◌≡◌, refl, sym, ap, ◌∙◌, ◌≢◌, true, false, Bool-cases, inl, inr,
  List, [], ◌∷◌, arith, ◌==◌, ltb, has, Distinct, update, update_at, update_ne, ne_head,
  not_has_tail,
}
use cy_ph_os.Queue.{Ptr}
use cy_ph_os.Queue.Model.{without}
use cy_ph_os.Timer.{sub32, insert_oneshot, schedule_oneshot, pass_on}
use cy_ph_os.Timer.Schedule.{schedule, insert_due, drop_due, schedule-frame}

pub sub32_le : (a b : ℕ) → b ≤ a → a < 2 ^ 32 → sub32 a b ≡ a - b
sub32_le a b le lt = omega arith

-- The ticks until the last event is due.
unfoldable pub span : (Ptr → ℕ) → List Ptr → ℕ
span rem [] = 0
span rem (x ∷ xs) = rem x + span rem xs

insert_oneshot-before :
    (event required sum c : ℕ) (cs : List Ptr) (rem : Ptr → ℕ)
    → sum ≤ required
    → required < 2 ^ 32
    → sum + rem c < 2 ^ 32
    → ltb required (sum + rem c) ≡ true
    → insert_oneshot event required sum (c ∷ cs) rem
      ≡ (event ∷ c ∷ cs, update (update rem event (required - sum)) c (sum + rem c - required))
unfolding insert_oneshot
insert_oneshot-before event required sum c cs rem le lt small e =
    let whole : (sum + rem c) % 2 ^ 32 ≡ sum + rem c = mod-eq_of_lt small in
    let back : sub32 (sum + rem c) (rem c) ≡ sum = omega arith in
    let ticks : sub32 required sum ≡ required - sum = sub32_le required sum le lt in
    let more : required < sum + rem c = ground arith in
    let less : sub32 (rem c) (required - sum) ≡ sum + rem c - required = omega arith in
    rw (whole, back, ticks, less, e) refl

insert_oneshot-behind :
    (event required sum c : ℕ) (cs : List Ptr) (rem : Ptr → ℕ)
    → sum + rem c < 2 ^ 32
    → ltb required (sum + rem c) ≡ false
    → insert_oneshot event required sum (c ∷ cs) rem ≡ (
      c ∷ (insert_oneshot event required (sum + rem c) cs rem).0,
      (insert_oneshot event required (sum + rem c) cs rem).1,
    )
unfolding insert_oneshot
insert_oneshot-behind event required sum c cs rem small e =
    let whole : (sum + rem c) % 2 ^ 32 ≡ sum + rem c = mod-eq_of_lt small in rw (whole, e) refl

-- No event outside `event ∷ xs` gets other ticks.
insert_oneshot_other :
    (event required sum : ℕ) (xs : List Ptr) (rem : Ptr → ℕ) (a : Ptr)
    → a ≢ event
    → has a xs ≡ false
    → (insert_oneshot event required sum xs rem).1 a ≡ rem a
unfolding insert_oneshot
insert_oneshot_other event required sum [] rem a ne out = update_ne rem event _ ne
insert_oneshot_other event required sum (c ∷ cs) rem a ne out =
    elim (Bool-cases (ltb required ((sum + rem c) % 2 ^ 32))) [
      | inl e ↦
          rw e (update_ne (update rem event _) c _ (ne_head a c cs out) ∙ update_ne rem event _ ne)
      | inr e ↦ rw e (
          insert_oneshot_other event required ((sum + rem c) % 2 ^ 32) cs rem a ne
            (not_has_tail a c cs out))
    ]

insert_oneshot-nil :
    (event required sum : ℕ) (rem : Ptr → ℕ)
    → insert_oneshot event required sum [] rem ≡ (event ∷ [], update rem event (sub32 required sum))
unfolding insert_oneshot
insert_oneshot-nil event required sum rem = refl

-- The times once `event` stands in front of `c`.
schedule_before :
    (event required sum c : ℕ) (cs : List Ptr) (rem : Ptr → ℕ)
    → event ≢ c
    → has event cs ≡ false
    → has c cs ≡ false
    → sum ≤ required
    → required < sum + rem c
    → schedule
        (update (update rem event (required - sum)) c (sum + rem c - required))
        sum
        (event ∷ c ∷ cs)
      ≡ (event, required) ∷ (c, sum + rem c) ∷ schedule rem (sum + rem c) cs
unfolding schedule
schedule_before event required sum c cs rem ne out out_c le lt =
    let rem' = update rem event (required - sum) in
    let first : sum + update rem' c (sum + rem c - required) event ≡ required =
      ap (λ v. sum + v)
        (update_ne rem' c (sum + rem c - required) ne ∙ update_at rem event (required - sum) refl)
      ∙ omega arith in
    let second : required + update rem' c (sum + rem c - required) c ≡ sum + rem c =
      ap (λ v. required + v) (update_at rem' c (sum + rem c - required) refl) ∙ omega arith in
    let tail : schedule (update rem' c (sum + rem c - required)) (sum + rem c) cs
        ≡ schedule rem (sum + rem c) cs =
      schedule-frame rem' c (sum + rem c - required) (sum + rem c) cs out_c
      ∙ schedule-frame rem event (required - sum) (sum + rem c) cs out in
    rw (first, second, tail) refl

span_bound :
    (rem : Ptr → ℕ) (sum c : ℕ) (cs : List Ptr)
    → sum + span rem (c ∷ cs) < 2 ^ 32
    → sum + rem c + span rem cs < 2 ^ 32
unfolding span
span_bound rem sum c cs h = omega arith

insert_oneshot-insert_due :
    (event required sum : ℕ) (xs : List Ptr) (rem : Ptr → ℕ)
    → Distinct xs
    → has event xs ≡ false
    → sum ≤ required
    → required < 2 ^ 32
    → sum + span rem xs < 2 ^ 32
    → schedule
        (insert_oneshot event required sum xs rem).1
        sum
        (insert_oneshot event required sum xs rem).0
      ≡ insert_due event required (schedule rem sum xs)
unfolding schedule insert_due
insert_oneshot-insert_due event required sum [] rem d out le lt small =
    let here : sum + update rem event (sub32 required sum) event ≡ required =
      ap (λ v. sum + v) (update_at rem event (sub32 required sum) refl)
      ∙ omega (arith, sub32_le required sum le lt) in
    rw (insert_oneshot-nil event required sum rem, here) refl
insert_oneshot-insert_due event required sum (c ∷ cs) rem d out le lt small =
    let bound : sum + rem c + span rem cs < 2 ^ 32 = span_bound rem sum c cs small in
    let ne : event ≢ c = ne_head event c cs out in
    let out' : has event cs ≡ false = not_has_tail event c cs out in
    elim (Bool-cases (ltb required (sum + rem c))) [
      | inl e ↦
          rw (insert_oneshot-before event required sum c cs rem le lt (omega arith) e, e)
            (schedule_before event required sum c cs rem ne out' d.0 le (ground arith))
      | inr e ↦
          let same : (insert_oneshot event required (sum + rem c) cs rem).1 c ≡ rem c =
            insert_oneshot_other event required (sum + rem c) cs rem c (λ z. ne (sym z)) d.0 in
          let ih =
            insert_oneshot-insert_due event required (sum + rem c) cs rem d.1 out' (ground arith) lt
              bound in
          rw (insert_oneshot-behind event required sum c cs rem (omega arith) e, e, same)
            (ap (λ ys. (c, sum + rem c) ∷ ys) ih)
    ]

alone :
    (event required : ℕ) (rem : Ptr → ℕ)
    → schedule (update rem event required) 0 (event ∷ [])
      ≡ insert_due event required (schedule rem 0 [])
unfolding schedule insert_due
alone event required rem =
    let here : 0 + update rem event required event ≡ required =
      omega (arith, update_at rem event required refl) in
    rw here refl

-- For a queue without repetition that does not hold the event, fewer than 2^32 ticks for the event
-- and fewer than 2^32 in all, `setOneshotEvent` makes the event due in `required` ticks, puts it
-- behind all that are due before it or with it, and every other event stays due at the same time,
-- in the same order.
pub schedule_oneshot-insert_due :
    (event required : ℕ) (xs : List Ptr) (rem : Ptr → ℕ)
    → Distinct xs
    → has event xs ≡ false
    → required < 2 ^ 32
    → span rem xs < 2 ^ 32
    → schedule
        (schedule_oneshot event required xs rem).1
        0
        (schedule_oneshot event required xs rem).0
      ≡ insert_due event required (schedule rem 0 xs)
unfolding schedule_oneshot
schedule_oneshot-insert_due event required [] rem d out lt small = alone event required rem
schedule_oneshot-insert_due event required (x ∷ xs) rem d out lt small =
    insert_oneshot-insert_due event required 0 (x ∷ xs) rem d out (omega arith) lt (omega arith)

pass_on-hit :
    (x y z : ℕ) (zs : List Ptr) (rem : Ptr → ℕ)
    → (x == y) ≡ true
    → pass_on x (y ∷ z ∷ zs) rem ≡ update rem z ((rem z + rem y) % 2 ^ 32)
unfolding pass_on
pass_on-hit x y z zs rem e = rw e refl

pass_on-miss :
    (x y : ℕ) (ys : List Ptr) (rem : Ptr → ℕ)
    → (x == y) ≡ false
    → pass_on x (y ∷ ys) rem ≡ pass_on x ys rem
unfolding pass_on
pass_on-miss x y [] rem e = refl
pass_on-miss x y (z ∷ zs) rem e = rw e refl

pass_on_other :
    (x : ℕ) (xs : List Ptr) (rem : Ptr → ℕ) (a : Ptr)
    → has a xs ≡ false
    → pass_on x xs rem a ≡ rem a
unfolding pass_on
pass_on_other x [] rem a out = refl
pass_on_other x (y ∷ []) rem a out = refl
pass_on_other x (y ∷ z ∷ zs) rem a out =
    let tail : has a (z ∷ zs) ≡ false = not_has_tail a y (z ∷ zs) out in
    elim (Bool-cases (x == y)) [
      | inl e ↦ rw e (update_ne rem z _ (ne_head a z zs tail))
      | inr e ↦ rw e (pass_on_other x (z ∷ zs) rem a tail)
    ]

removed :
    (x sum y : ℕ) (ys : List Ptr) (rem : Ptr → ℕ)
    → (x == y) ≡ true
    → Distinct ys
    → sum + rem y + span rem ys < 2 ^ 32
    → schedule (pass_on x (y ∷ ys) rem) sum ys ≡ schedule rem (sum + rem y) ys
unfolding schedule span
removed x sum y [] rem e d small = refl
removed x sum y (z ∷ zs) rem e d small =
    let v = (rem z + rem y) % 2 ^ 32 in
    let whole : v ≡ rem z + rem y = mod-eq_of_lt (omega arith) in
    let here : sum + update rem z v z ≡ sum + rem y + rem z =
      ap (λ k. sum + k) (update_at rem z v refl ∙ whole) ∙ omega arith in
    ap (λ f. schedule f sum (z ∷ zs)) (pass_on-hit x y z zs rem e)
    ∙ rw (here, schedule-frame rem z v (sum + rem y + rem z) zs d.0) refl

-- On a queue without repetition and with fewer than 2^32 ticks in all, `cancelOneshotTimerEvent`
-- leaves every other event due at the same time, in the same order.
pub pass_on-drop_due :
    (x sum : ℕ) (xs : List Ptr) (rem : Ptr → ℕ)
    → Distinct xs
    → sum + span rem xs < 2 ^ 32
    → schedule (pass_on x xs rem) sum (without x xs) ≡ drop_due x (schedule rem sum xs)
unfolding schedule drop_due
pass_on-drop_due x sum [] rem d small = refl
pass_on-drop_due x sum (y ∷ ys) rem d small = elim (Bool-cases (x == y)) [
  | inl e ↦ rw e (removed x sum y ys rem e d.1 (span_bound rem sum y ys small))
  | inr e ↦
      let same : pass_on x ys rem y ≡ rem y = pass_on_other x ys rem y d.0 in
      rw e (
        ap (λ f. schedule f sum (y ∷ without x ys)) (pass_on-miss x y ys rem e)
        ∙ rw same (
            ap (λ zs. (y, sum + rem y) ∷ zs)
              (pass_on-drop_due x (sum + rem y) ys rem d.1 (span_bound rem sum y ys small))))
]
