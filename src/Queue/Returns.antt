-- ===== src/Queue/Returns.antt =====
-- Total correctness of a run over the links: no fault, enough fuel, and a postcondition.
use cy_ph_os.Base.{◌≡◌, Option, none, some}
use cy_ph_os.Queue.{Links, M, and_then}

abbrev pub Returns : {A : Type 0} → (A → Links → Type 0) → Option (A × Links) → Type 0
Returns P none = ⊥
Returns P (some (a, m)) = P a m

pub Returns-of :
    {A : Type 0} (P : A → Links → Type 0) (r : Option (A × Links)) (a : A) (m : Links)
    → r ≡ some (a, m)
    → P a m
    → Returns P r
Returns-of P r a m e h = rw e h

pub Returns-bind :
    {A B : Type 0} (P : A → Links → Type 0) (Q : B → Links → Type 0) (r : Option (A × Links))
    (k : A → M B)
    → Returns P r
    → ((a : A) (m : Links) → P a m → Returns Q (k a m))
    → Returns Q (and_then r k)
Returns-bind P Q none k p next = absurd p
Returns-bind P Q (some (a, m)) k p next = next a m p

pub Returns-mono :
    {A : Type 0} (P Q : A → Links → Type 0) (r : Option (A × Links))
    → Returns P r
    → ((a : A) (m : Links) → P a m → Q a m)
    → Returns Q r
Returns-mono P Q none p weaken = absurd p
Returns-mono P Q (some (a, m)) p weaken = weaken a m p
