-- ===== src/Can/Receive/Pool.antt =====
-- Which events are told of a message, as components register and give back events.
use mathlib.Core.Bool.{true≢false}
use cy_ph_os.Base.{
  ℕ, ◌+◌, ◌≡◌, refl, sym, ◌∙◌, ap, true, false, ◌==◌, if◌then◌else◌, arith, Bool-cases, inl, inr,
  List, [], ◌∷◌, ◌++◌, has, count, test_of_ne, eq_of_test, update, update_at, update_ne,
  count-append,
}
use cy_ph_os.Queue.{Ptr}
use cy_ph_os.Queue.Model.{append_new, without}
use cy_ph_os.Can.Receive.{CanEvents, activate_can_event, deactivate_can_event}
use cy_ph_os.Can.Receive.Deliver.{subscribed}

subscribed-append :
    (ids : Ptr → ℕ) (id : ℕ) (xs ys : List Ptr)
    → subscribed ids id (xs ++ ys) ≡ subscribed ids id xs ++ subscribed ids id ys
subscribed-append ids id [] ys = refl
subscribed-append ids id (x ∷ xs) ys = elim (Bool-cases (ids x == id)) [
  | inl e ↦ rw e (ap (λ l. x ∷ l) (subscribed-append ids id xs ys))
  | inr e ↦ rw e (subscribed-append ids id xs ys)
]

-- An event that is not in the list may change its identifier.
subscribed-update :
    (ids : Ptr → ℕ) (id v : ℕ) (event : Ptr) (xs : List Ptr)
    → has event xs ≡ false
    → subscribed (update ids event v) id xs ≡ subscribed ids id xs
subscribed-update ids id v event [] out = refl
subscribed-update ids id v event (x ∷ xs) out =
    let same : update ids event v x ≡ ids x = update_ne ids event v (λ e. ground arith) in
    let rest = subscribed-update ids id v event xs (ground arith) in rw (same, rest) refl

-- An event with another identifier is not told.
without-subscribed :
    (ids : Ptr → ℕ) (id : ℕ) (event : Ptr) (xs : List Ptr)
    → (ids event == id) ≡ false
    → without event (subscribed ids id xs) ≡ subscribed ids id xs
without-subscribed ids id event [] other = refl
without-subscribed ids id event (x ∷ xs) other = elim (Bool-cases (ids x == id)) [
  | inr e ↦ rw e (without-subscribed ids id event xs other)
  | inl e ↦
      (let differ : (event == x) ≡ false =
          test_of_ne event x
            (λ same. true≢false (sym e ∙ ap (λ p. ids p == id) (sym same) ∙ other)) in
        rw e (rw differ (ap (λ l. x ∷ l) (without-subscribed ids id event xs other))))
]

subscribed-without :
    (ids : Ptr → ℕ) (id : ℕ) (event : Ptr) (xs : List Ptr)
    → subscribed ids id (without event xs) ≡ without event (subscribed ids id xs)
subscribed-without ids id event [] = refl
subscribed-without ids id event (x ∷ xs) = elim (Bool-cases (event == x)) [
  | inl e ↦ elim (Bool-cases (ids x == id)) [
    | inl k ↦ rw (e, k) (rw e refl)
    | inr k ↦
        (let same : (ids event == id) ≡ false = ap (λ p. ids p == id) (eq_of_test event x e) ∙ k in
          rw (e, k) (sym (without-subscribed ids id event xs same)))
  ]
  | inr e ↦ elim (Bool-cases (ids x == id)) [
    | inl k ↦ rw (e, k) (rw e (ap (λ l. x ∷ l) (subscribed-without ids id event xs)))
    | inr k ↦ rw (e, k) ((subscribed-without ids id event xs))
  ]
]

-- The events of the driver, each once: in use or in the pool.
abbrev pub all_events : CanEvents → List Ptr
all_events c = c.registered ++ c.unregistered

count-without :
    (a x : ℕ) (xs : List ℕ)
    → has x xs ≡ true
    → count a xs ≡ count a (without x xs) + (if a == x then 1 else 0)
count-without a x [] h = absurd (true≢false (sym h))
count-without a x (y ∷ ys) h = elim (Bool-cases (x == y)) [
  | inl e ↦ ground arith
  | inr e ↦ (let rest = count-without a x ys (ground arith) in rw e (omega (arith, rest)))
]

append_new_lem : (xs : List ℕ) (x : ℕ) → has x xs ≡ false → append_new xs x ≡ xs ++ x ∷ []
append_new_lem xs x out = rw out refl

-- Registering: with an event in the pool, which is not registered, `activateCANEvent` gives the first
-- of the pool; it is told of its identifier, after the others, who are told of what they were; and
-- the driver has the same events as before.
pub activate_can_event-subscribed :
    (id : ℕ) (event : Ptr) (rest : List Ptr) (c : CanEvents)
    → c.unregistered ≡ event ∷ rest
    → has event c.registered ≡ false
    → ((activate_can_event id c).0 ≡ event)
      × ((id' : ℕ)
          → subscribed
              (activate_can_event id c).1.message_id
              id'
              (activate_can_event id c).1.registered
            ≡ subscribed c.message_id id' c.registered ++ (if id == id' then event ∷ [] else []))
      × ((a : Ptr) → count a (all_events (activate_can_event id c).1) ≡ count a (all_events c))
unfolding activate_can_event
activate_can_event-subscribed id event rest c pool out =
    let ids = update c.message_id event id in
    rw pool (
      refl,
      λ id'.
          let new : subscribed ids id' (event ∷ []) ≡ (if id == id' then event ∷ [] else []) =
            rw (update_at c.message_id event id refl) refl in
          ap (subscribed ids id') (append_new_lem c.registered event out)
          ∙ subscribed-append ids id' c.registered (event ∷ [])
          ∙ ap (λ l. l ++ subscribed ids id' (event ∷ []))
              (subscribed-update c.message_id id' id event c.registered out)
          ∙ ap (λ l. subscribed c.message_id id' c.registered ++ l) new,
      λ a.
          let moved = count-append a (c.registered ++ event ∷ []) rest in
          let first = count-append a c.registered (event ∷ []) in
          let before = count-append a c.registered (event ∷ rest) in
          ap (λ l. count a (l ++ rest)) (append_new_lem c.registered event out)
          ∙ omega (arith, moved, first, before),
    )

-- Giving back: `deactivateCANEvent` of a registered event that is not in the pool takes it out of
-- those that are told of its identifier, keeps the others in order, and the driver has the same
-- events as before.
deactivate_can_event-subscribed :
    (event : Ptr) (c : CanEvents)
    → has event c.registered ≡ true
    → has event c.unregistered ≡ false
    → ((id : ℕ)
        → subscribed
            (deactivate_can_event event c).message_id
            id
            (deactivate_can_event event c).registered
          ≡ without event (subscribed c.message_id id c.registered))
      × ((a : Ptr) → count a (all_events (deactivate_can_event event c)) ≡ count a (all_events c))
unfolding deactivate_can_event
deactivate_can_event-subscribed event c inside out = (
  λ id. subscribed-without c.message_id id event c.registered,
  λ a.
      let left = count-without a event c.registered inside in
      let before = count-append a c.registered c.unregistered in
      let moved = count-append a (without event c.registered) (c.unregistered ++ event ∷ []) in
      let last = count-append a c.unregistered (event ∷ []) in
      ap (λ l. count a (without event c.registered ++ l)) (append_new_lem c.unregistered event out)
      ∙ omega (arith, left, before, moved, last),
)
