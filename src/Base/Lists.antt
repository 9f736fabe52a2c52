-- ===== src/Base/Lists.antt =====
-- Lists measured by native numbers, membership of a number as a test, and lists without repetition.
use Prim.Native.Nat.{ℕ, zero, suc, ◌+◌, ◌<◌, ◌≤◌}
use mathlib.Core.Path.{◌≡◌, refl, sym, ap, ◌∙◌, fun_ext}
use mathlib.Core.Logic.{◌≢◌, inl, inr}
use mathlib.Core.Bool.{Bool, true, false, ◌||◌, or_assoc}
use mathlib.Core.List.{List, [], ◌∷◌, ◌++◌}
use mathlib.Core.Option.{Option, none, some}
use native.Mathlib.Omega.{arith}
use cy_ph_os.Base.Tests.{◌==◌, if◌then◌else◌, Bool-cases}

module _ {ℓ} {A : Type ℓ} where
  abbrev pub length : List A → ℕ
  length [] = 0
  length (x ∷ xs) = suc (length xs)

  abbrev pub get_elem? : List A → ℕ → Option A
  get_elem? [] i = none
  get_elem? (x ∷ xs) zero = some x
  get_elem? (x ∷ xs) (suc i) = get_elem? xs i

  pub length-append : (xs ys : List A) → length (xs ++ ys) ≡ length xs + length ys
  length-append [] ys = omega arith
  length-append (x ∷ xs) ys = omega (arith, length-append xs ys)

  -- A family changed at one index.
  unfoldable pub update : (ℕ → A) → ℕ → A → ℕ → A
  update f i a j = if j == i then a else f j

  pub update_at : (f : ℕ → A) (i : ℕ) (a : A) {j : ℕ} → j ≡ i → update f i a j ≡ a
  unfolding update
  update_at f i a e = ground arith

  pub update_ne : (f : ℕ → A) (i : ℕ) (a : A) {j : ℕ} → j ≢ i → update f i a j ≡ f j
  unfolding update
  update_ne f i a h = ground arith

-- Writing what is there already changes nothing.
pub update_self {ℓ} : {A : Type ℓ} (f : ℕ → A) (i : ℕ) → update f i (f i) ≡ f
unfolding update
update_self f i = fun_ext λ j. ground arith

-- The weights of a family, added up over the indices below a bound.
module _ {ℓ} {A : Type ℓ} (w : A → ℕ) where
  abbrev pub sum_below : ℕ → (ℕ → A) → ℕ
  sum_below zero g = 0
  sum_below (suc k) g = w (g k) + sum_below k g

  sum-update_outside :
      (k : ℕ) (g : ℕ → A) (j : ℕ) (b : A) → k ≤ j → sum_below k (update g j b) ≡ sum_below k g
  unfolding update
  sum-update_outside zero g j b out = refl
  sum-update_outside (suc k) g j b out = ground (arith, sum-update_outside k g j b)

  -- A change at one index exchanges the old weight for the new one.
  pub sum-update :
      (k : ℕ) (g : ℕ → A) (j : ℕ) (b : A)
      → j < k
      → w (g j) + sum_below k (update g j b) ≡ w b + sum_below k g
  unfolding update
  sum-update zero g j b below = absurd (omega arith)
  sum-update (suc k) g j b below = elim (Bool-cases (k == j)) [
    | inl last ↦ ground (arith, sum-update_outside k g j b)
    | inr before ↦ ground (arith, sum-update k g j b)
  ]

abbrev pub has : ℕ → List ℕ → Bool
has a [] = false
has a (x ∷ xs) = (a == x) || has a xs

-- How often a number occurs.
abbrev pub count : ℕ → List ℕ → ℕ
count a [] = 0
count a (x ∷ xs) = (if a == x then 1 else 0) + count a xs

pub count-append :
    (a : ℕ) (front back : List ℕ) → count a (front ++ back) ≡ count a front + count a back
count-append a [] back = omega arith
count-append a (b ∷ rest) back = omega (arith, count-append a rest back)

pub count-eq-zero : (a : ℕ) (xs : List ℕ) → has a xs ≡ false → count a xs ≡ 0
count-eq-zero a [] h = refl
count-eq-zero a (x ∷ xs) h = ground (arith, count-eq-zero a xs)

pub not_has_of_count : (a : ℕ) (xs : List ℕ) → count a xs ≡ 0 → has a xs ≡ false
not_has_of_count a [] h = refl
not_has_of_count a (x ∷ xs) h = ground (arith, not_has_of_count a xs)

abbrev pub Distinct : List ℕ → Type 0
Distinct [] = Unit
Distinct (x ∷ xs) = (has x xs ≡ false) × Distinct xs

abbrev pub Disjoint : List ℕ → List ℕ → Type 0
Disjoint xs ys = (a : ℕ) → has a xs ≡ true → has a ys ≡ false

pub ne_of_has : (x y : ℕ) (xs : List ℕ) → has x xs ≡ true → has y xs ≡ false → x ≢ y
ne_of_has x y xs h k e = cc (sym h ∙ ap (λ a. has a xs) e ∙ k)

pub has_here : (x : ℕ) (xs : List ℕ) → has x (x ∷ xs) ≡ true
has_here x xs = ground arith

pub has_there : (y x : ℕ) (xs : List ℕ) → has y xs ≡ true → has y (x ∷ xs) ≡ true
has_there y x xs h = ground arith

pub ne_head : (y x : ℕ) (xs : List ℕ) → has y (x ∷ xs) ≡ false → y ≢ x
ne_head y x xs h = ground arith

pub not_has_tail : (y x : ℕ) (xs : List ℕ) → has y (x ∷ xs) ≡ false → has y xs ≡ false
not_has_tail y x xs h = ground arith

pub not_has_cons : (y x : ℕ) (xs : List ℕ) → y ≢ x → has y xs ≡ false → has y (x ∷ xs) ≡ false
not_has_cons y x xs ne h = ground arith

pub ne_of_not_has : (x y : ℕ) (xs : List ℕ) → has x xs ≡ false → has y xs ≡ true → x ≢ y
ne_of_not_has x y xs h k e = ne_of_has y x xs k h (sym e)

pub has-append : (b : ℕ) (front back : List ℕ) → has b (front ++ back) ≡ (has b front || has b back)
has-append b [] back = refl
has-append b (first ∷ rest) back = simp (has-append b rest back, or_assoc)

pub not_has_left : (a : ℕ) (xs ys : List ℕ) → has a (xs ++ ys) ≡ false → has a xs ≡ false
not_has_left a xs ys h = ground (arith, has-append a xs ys)

pub not_has_right : (a : ℕ) (xs ys : List ℕ) → has a (xs ++ ys) ≡ false → has a ys ≡ false
not_has_right a xs ys h = ground (arith, has-append a xs ys)

pub Distinct-append_left : (xs ys : List ℕ) → Distinct (xs ++ ys) → Distinct xs
Distinct-append_left [] ys d = tt
Distinct-append_left (x ∷ xs) ys d =
    (ground (arith, has-append x xs ys), Distinct-append_left xs ys d.1)

pub Distinct-append_right : (xs ys : List ℕ) → Distinct (xs ++ ys) → Distinct ys
Distinct-append_right [] ys d = d
Distinct-append_right (x ∷ xs) ys d = Distinct-append_right xs ys d.1

pub Distinct-append_Disjoint : (xs ys : List ℕ) → Distinct (xs ++ ys) → Disjoint xs ys
Distinct-append_Disjoint [] ys d a h = cc
Distinct-append_Disjoint (x ∷ xs) ys d a h =
    ground (arith, has-append x xs ys, Distinct-append_Disjoint xs ys d.1 a)

pub Distinct-append :
    (xs ys : List ℕ) → Distinct xs → Distinct ys → Disjoint xs ys → Distinct (xs ++ ys)
Distinct-append [] ys dx dy apart = dy
Distinct-append (x ∷ xs) ys dx dy apart = (
  ground (arith, has-append x xs ys, apart x),
  Distinct-append xs ys dx.1 dy (λ a h. ground (arith, apart a)),
)

-- A sum that is 0 has no weight below the bound.
pub weight_of_zero_sum :
    {A : Type 0} (w : A → ℕ) (k : ℕ) (g : ℕ → A) (j : ℕ) → sum_below w k g ≡ 0 → j < k → w (g j) ≡ 0
weight_of_zero_sum w zero g j h below = absurd (omega arith)
weight_of_zero_sum w (suc k) g j h below = elim (Bool-cases (j == k)) [
  | inl last ↦ ground arith
  | inr before ↦ weight_of_zero_sum w k g j (omega arith) (ground arith)
]
