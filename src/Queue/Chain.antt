-- ===== src/Queue/Chain.antt =====
-- The shape of a queue in memory: the elements of a list, linked both ways.
use cy_ph_os.Base.{
  ◌%◌, ◌^◌, ◌≡◌, refl, sym, ap, ◌∙◌, ◌≢◌, true, false, List, [], ◌∷◌, ◌++◌, arith, length, has,
  Distinct,
}
use cy_ph_os.Queue.{Ptr, null, Links, Queue}

abbrev pub first : List Ptr → Ptr → Ptr
first [] a = a
first (x ∷ xs) a = x

abbrev pub last : Ptr → List Ptr → Ptr
last b [] = b
last b (x ∷ xs) = last x xs

-- From `b` to `a` through `xs`: each element points at its neighbours.
abbrev pub Chain : Links → Ptr → List Ptr → Ptr → Type 0
Chain m b [] a = Unit
Chain m b (x ∷ xs) a = (x ≢ null) × (m.prev x ≡ b) × (m.next x ≡ first xs a) × Chain m x xs a

-- The queue `q` holds the elements `xs`, first to last.
pub record IsQueue (m : Links) (q : Queue) (xs : List Ptr) : Type 0 where
  pub head : q.head ≡ first xs null
  pub tail : q.tail ≡ last null xs
  pub size : q.size ≡ length xs % 2 ^ 32
  pub links : Chain m null xs null
  pub distinct : Distinct xs

-- `n` differs from `m` at most in the fields of `xs`.
abbrev pub SameOutside : List Ptr → Links → Links → Type 0
SameOutside xs m n = (a : Ptr) → has a xs ≡ false → (n.next a ≡ m.next a) × (n.prev a ≡ m.prev a)

==_here : (x : Ptr) → has x (x ∷ []) ≡ true
==_here x = ground arith

pub has-last : (x : Ptr) (xs : List Ptr) → has (last x xs) (x ∷ xs) ≡ true
has-last x [] = ground arith
has-last x (y ∷ ys) = ground (arith, has-last y ys)

pub last-append :
    (b : Ptr) (xs : List Ptr) (y : Ptr) (ys : List Ptr) → last b (xs ++ y ∷ ys) ≡ last y ys
last-append b [] y ys = refl
last-append b (x ∷ xs) y ys = last-append x xs y ys

pub first-append : (xs ys : List Ptr) (a : Ptr) → first (xs ++ ys) a ≡ first xs (first ys a)
first-append [] ys a = refl
first-append (x ∷ xs) ys a = refl

module _ (m : Links) where
  pub Chain-ne_null : (b a x : Ptr) (xs : List Ptr) → Chain m b xs a → has x xs ≡ true → x ≢ null
  Chain-ne_null b a x [] c h = cc
  Chain-ne_null b a x (y ∷ ys) c h = ground (arith, Chain-ne_null y a x ys c.3)

  pub Chain-append :
      (b a : Ptr) (xs ys : List Ptr)
      → Chain m b xs (first ys a)
      → Chain m (last b xs) ys a
      → Chain m b (xs ++ ys) a
  Chain-append b a [] ys c d = d
  Chain-append b a (x ∷ xs) ys c d =
      (c.0, c.1, c.2 ∙ sym (first-append xs ys a), Chain-append x a xs ys c.3 d)

  pub Chain-left :
      (b a : Ptr) (xs ys : List Ptr) → Chain m b (xs ++ ys) a → Chain m b xs (first ys a)
  Chain-left b a [] ys c = tt
  Chain-left b a (x ∷ xs) ys c = (c.0, c.1, c.2 ∙ first-append xs ys a, Chain-left x a xs ys c.3)

  pub Chain-right :
      (b a : Ptr) (xs ys : List Ptr) → Chain m b (xs ++ ys) a → Chain m (last b xs) ys a
  Chain-right b a [] ys c = c
  Chain-right b a (x ∷ xs) ys c = Chain-right x a xs ys c.3

  -- What a relinking may change: the first element's back pointer, the last one's next pointer.
  pub record Relinks (n : Links) (b' : Ptr) (xs : List Ptr) (a' : Ptr) : Type 0 where
    pub front : (y : Ptr) → has y xs ≡ true → y ≡ first xs null → n.prev y ≡ b'
    pub prevs : (y : Ptr) → has y xs ≡ true → y ≢ first xs null → n.prev y ≡ m.prev y
    pub back : (y : Ptr) → has y xs ≡ true → y ≡ last null xs → n.next y ≡ a'
    pub nexts : (y : Ptr) → has y xs ≡ true → y ≢ last null xs → n.next y ≡ m.next y

  first-ne-last : (x z : Ptr) (zs : List Ptr) → has x (z ∷ zs) ≡ false → x ≢ last z zs
  first-ne-last x z zs out e = ground (arith, has-last z zs)

  Relinks-tail :
      (n : Links) (b b' a' x z : Ptr) (zs : List Ptr)
      → Distinct (x ∷ z ∷ zs)
      → m.prev z ≡ x
      → Relinks n b' (x ∷ z ∷ zs) a'
      → Relinks n x (z ∷ zs) a'
  Relinks-tail n b b' a' x z zs d e r = record {
    front = λ y h i. r.prevs y (ground arith) (ground arith) ∙ ap m.prev i ∙ e;
    prevs = λ y h i. r.prevs y (ground arith) (ground arith);
    back = λ y h i. r.back y (ground arith) i;
    nexts = λ y h i. r.nexts y (ground arith) i;
  }

  pub Chain-relink :
      (n : Links) (b a b' a' : Ptr) (xs : List Ptr)
      → Chain m b xs a
      → Distinct xs
      → Relinks n b' xs a'
      → Chain n b' xs a'
  Chain-relink n b a b' a' [] c d r = tt
  Chain-relink n b a b' a' (x ∷ []) c d r =
      (c.0, r.front x (==_here x) refl, r.back x (==_here x) refl, tt)
  Chain-relink n b a b' a' (x ∷ z ∷ zs) c d r = (
    c.0,
    r.front x (ground arith) refl,
    r.nexts x (ground arith) (first-ne-last x z zs d.0) ∙ c.2,
    Chain-relink n x a x a' (z ∷ zs) c.3 d.1 (Relinks-tail n b b' a' x z zs d c.3.1 r),
  )

  Chain-first_prev :
      (b a y : Ptr) (xs : List Ptr)
      → Chain m b xs a
      → has y xs ≡ true
      → y ≡ first xs null
      → m.prev y ≡ b
  Chain-first_prev b a y [] c h e = cc
  Chain-first_prev b a y (x ∷ xs) c h e = ap m.prev e ∙ c.1

  Chain-last_next :
      (b a y : Ptr) (xs : List Ptr)
      → Chain m b xs a
      → has y xs ≡ true
      → y ≡ last null xs
      → m.next y ≡ a
  Chain-last_next b a y [] c h e = cc
  Chain-last_next b a y (x ∷ []) c h e = ap m.next e ∙ c.2
  Chain-last_next b a y (x ∷ z ∷ zs) c h e =
      Chain-last_next x a y (z ∷ zs) c.3 (ap (λ k. has k (z ∷ zs)) e ∙ has-last z zs) e

  -- The last element is pointed at `a'`, and nothing else in the chain changes.
  pub Chain-retarget :
      (n : Links) (b a a' : Ptr) (xs : List Ptr)
      → Chain m b xs a
      → Distinct xs
      → ((y : Ptr) → has y xs ≡ true → n.prev y ≡ m.prev y)
      → ((y : Ptr) → has y xs ≡ true → y ≡ last null xs → n.next y ≡ a')
      → ((y : Ptr) → has y xs ≡ true → y ≢ last null xs → n.next y ≡ m.next y)
      → Chain n b xs a'
  Chain-retarget n b a a' xs c d prevs back nexts = Chain-relink n b a b a' xs c d (record {
    front = λ y h e. prevs y h ∙ Chain-first_prev b a y xs c h e;
    prevs = λ y h e. prevs y h;
    back = back;
    nexts = nexts;
  })

  -- The first element is pointed back at `b'`, and nothing else in the chain changes.
  pub Chain-rebase :
      (n : Links) (b b' a : Ptr) (xs : List Ptr)
      → Chain m b xs a
      → Distinct xs
      → ((y : Ptr) → has y xs ≡ true → n.next y ≡ m.next y)
      → ((y : Ptr) → has y xs ≡ true → y ≡ first xs null → n.prev y ≡ b')
      → ((y : Ptr) → has y xs ≡ true → y ≢ first xs null → n.prev y ≡ m.prev y)
      → Chain n b' xs a
  Chain-rebase n b b' a xs c d nexts front prevs = Chain-relink n b a b' a xs c d (record {
    front = front;
    prevs = prevs;
    back = λ y h e. nexts y h ∙ Chain-last_next b a y xs c h e;
    nexts = λ y h e. nexts y h;
  })

  -- A chain survives any change that spares its elements.
  pub Chain-frame :
      (n : Links) (b a : Ptr) (xs : List Ptr)
      → Chain m b xs a
      → ((y : Ptr) → has y xs ≡ true → (n.next y ≡ m.next y) × (n.prev y ≡ m.prev y))
      → Chain n b xs a
  Chain-frame n b a [] c same = tt
  Chain-frame n b a (x ∷ xs) c same = (
    c.0,
    (same x (ground arith)).1 ∙ c.1,
    (same x (ground arith)).0 ∙ c.2,
    Chain-frame n x a xs c.3 λ y h. same y (ground arith),
  )
