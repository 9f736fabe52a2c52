-- ===== src/Timer/Schedule.antt =====
-- When the oneshot events of a list are due.
use cy_ph_os.Base.{
  ℕ, ◌+◌, ◌<◌, ◌≡◌, refl, sym, false, List, [], ◌∷◌, arith, ◌==◌, ltb, if◌then◌else◌, has, update,
  update_ne, ne_head, not_has_tail,
}
use cy_ph_os.Queue.{Ptr}

-- Each event with the ticks until it is due, `sum` ticks from the first one's predecessor.
unfoldable pub schedule : (Ptr → ℕ) → ℕ → List Ptr → List (Ptr × ℕ)
schedule rem sum [] = []
schedule rem sum (x ∷ xs) = (x, sum + rem x) ∷ schedule rem (sum + rem x) xs

-- A new entry: behind those that are due before it or with it.
unfoldable pub insert_due : Ptr → ℕ → List (Ptr × ℕ) → List (Ptr × ℕ)
insert_due e due [] = (e, due) ∷ []
insert_due e due ((c, d) ∷ rest) =
    if ltb due d then (e, due) ∷ (c, d) ∷ rest else (c, d) ∷ insert_due e due rest

unfoldable pub drop_due : Ptr → List (Ptr × ℕ) → List (Ptr × ℕ)
drop_due x [] = []
drop_due x ((c, d) ∷ rest) = if x == c then rest else (c, d) ∷ drop_due x rest

-- The events that are due at the same time.
unfoldable pub due_at : ℕ → List Ptr → List (Ptr × ℕ)
due_at d [] = []
due_at d (x ∷ xs) = (x, d) ∷ due_at d xs

unfoldable pub one_later : List (Ptr × ℕ) → List (Ptr × ℕ)
one_later [] = []
one_later ((c, d) ∷ rest) = (c, d + 1) ∷ one_later rest

-- Nothing of it is due now.
unfoldable pub NoneDue : List (Ptr × ℕ) → Type 0
NoneDue [] = Unit
NoneDue ((c, d) ∷ rest) = (0 < d) × NoneDue rest

pub schedule-frame :
    (rem : Ptr → ℕ) (x v sum : ℕ) (xs : List Ptr)
    → has x xs ≡ false
    → schedule (update rem x v) sum xs ≡ schedule rem sum xs
unfolding schedule
schedule-frame rem x v sum [] out = refl
schedule-frame rem x v sum (y ∷ ys) out =
    rw
      (
        update_ne rem x v (λ e. ne_head x y ys out (sym e)),
        schedule-frame rem x v (sum + rem y) ys (not_has_tail x y ys out),
      )
      refl

pub schedule-one_later :
    (rem : Ptr → ℕ) (sum : ℕ) (xs : List Ptr)
    → schedule rem (sum + 1) xs ≡ one_later (schedule rem sum xs)
unfolding schedule one_later
schedule-one_later rem sum [] = refl
schedule-one_later rem sum (x ∷ xs) =
    let e : sum + 1 + rem x ≡ sum + rem x + 1 = omega arith in
    rw (e, schedule-one_later rem (sum + rem x) xs) refl

pub schedule-NoneDue :
    (rem : Ptr → ℕ) (sum : ℕ) (xs : List Ptr) → 0 < sum → NoneDue (schedule rem sum xs)
unfolding schedule NoneDue
schedule-NoneDue rem sum [] pos = tt
schedule-NoneDue rem sum (x ∷ xs) pos =
    let more : 0 < sum + rem x = omega arith in (more, schedule-NoneDue rem (sum + rem x) xs more)
