-- ===== src/Queue/Unlink.antt =====
-- The pointer writes of `removeElementFromList`, and the chain that they leave.
use mathlib.Core.Bool.{false≢true}
use cy_ph_os.Base.{
  Bool-cases, inl, inr, ◌≡◌, refl, sym, ◌∙◌, ◌≢◌, true, false, List, [], ◌∷◌, ◌++◌, arith, some,
  ◌==◌, if◌then◌else◌, update, update_ne, has, has-append, has_here, ne_of_has, ne_of_not_has,
  ne_head, not_has_tail, Distinct, Disjoint, Distinct-append_left, Distinct-append_right,
  Distinct-append_Disjoint, Distinct-append,
}
use cy_ph_os.Queue.{
  Ptr, null, Links, Queue, queue, get_next, get_prev, set_next, set_prev, size_dec, remove_element,
}
use cy_ph_os.Queue.Chain.{
  first, last, Chain, SameOutside, has-last, Chain-ne_null, Chain-append, Chain-left, Chain-right,
  Chain-retarget, Chain-rebase,
}

-- A write through `p` that is skipped at nullptr.
unfoldable pub patch : (Ptr → Ptr) → Ptr → Ptr → Ptr → Ptr
patch f p v = if p == null then f else update f p v

pub patch_ne : (f : Ptr → Ptr) (p v : Ptr) {y : Ptr} → y ≢ p → patch f p v y ≡ f y
unfolding patch update
patch_ne f p v h = ground arith

pub patch_at : (f : Ptr → Ptr) (p v : Ptr) {y : Ptr} → y ≡ p → y ≢ null → patch f p v y ≡ v
unfolding patch update
patch_at f p v h e = ground arith

pub patch_same : (f : Ptr → Ptr) (p v : Ptr) {y : Ptr} → (p ≢ null → y ≢ p) → patch f p v y ≡ f y
unfolding patch
patch_same f p v {y} h = elim (Bool-cases (p == null)) [
  | inl e ↦ rw (e, patch) refl
  | inr e ↦ patch_ne f p v (h (ground arith))
]

-- The links after `x`, between `p` and `n`, has left.
abbrev pub unlinked : Links → Ptr → Ptr → Ptr → Links
unlinked m p x n = record {
  next = update (patch m.next p n) x null;
  prev = update (patch m.prev n p) x null;
}

pub remove_element-run :
    (m : Links) (q : Queue) (p x n : Ptr)
    → m.prev x ≡ p
    → m.next x ≡ n
    → x ≢ null
    → x ≢ p
    → x ≢ n
    → remove_element q x m
      ≡ some (
        queue
            (if q.head == x then n else q.head)
            (if q.tail == x then p else q.tail)
            (size_dec q.size),
        unlinked m p x n,
      )
unfolding remove_element get_next get_prev set_next set_prev patch
remove_element-run m q p x n ep en ne ne_p ne_n =
    ground (arith, update_ne m.next p n ne_p, update_ne m.prev n p ne_n)

first-ne : (vs : List Ptr) (y : Ptr) → y ≢ null → has y vs ≡ false → y ≢ first vs null
first-ne [] y ne h = ne
first-ne (v ∷ vs) y ne h = ne_of_not_has y v (v ∷ vs) h (has_here v vs)

pub last-ne : (us : List Ptr) (y : Ptr) → y ≢ null → has y us ≡ false → y ≢ last null us
last-ne [] y ne h = ne
last-ne (u ∷ us) y ne h = ne_of_not_has y (last u us) (u ∷ us) h (has-last u us)

pub has-last_of_ne : (us : List Ptr) → last null us ≢ null → has (last null us) us ≡ true
has-last_of_ne [] ne = absurd (ne refl)
has-last_of_ne (u ∷ us) ne = has-last u us

pub has-first_of_ne : (vs : List Ptr) → first vs null ≢ null → has (first vs null) vs ≡ true
has-first_of_ne [] ne = absurd (ne refl)
has-first_of_ne (v ∷ vs) ne = has_here v vs

-- A queue that holds `us`, then `x`, then `vs`.
module _ (m : Links) (us : List Ptr) (x : Ptr) (vs : List Ptr)
    (c : Chain m null (us ++ x ∷ vs) null) (d : Distinct (us ++ x ∷ vs)) where
  abbrev pub p : Ptr
  p = last null us

  abbrev pub n : Ptr
  n = first vs null

  abbrev pub after : Links
  after = unlinked m p x n

  c_us : Chain m null us x
  c_us = Chain-left m null null us (x ∷ vs) c

  pub c_x : Chain m p (x ∷ vs) null
  c_x = Chain-right m null null us (x ∷ vs) c

  d_us : Distinct us
  d_us = Distinct-append_left us (x ∷ vs) d

  d_x : Distinct (x ∷ vs)
  d_x = Distinct-append_right us (x ∷ vs) d

  apart : Disjoint us (x ∷ vs)
  apart = Distinct-append_Disjoint us (x ∷ vs) d

  us_ne_null : (y : Ptr) → has y us ≡ true → y ≢ null
  us_ne_null y h = Chain-ne_null m null x y us c_us h

  vs_ne_null : (y : Ptr) → has y vs ≡ true → y ≢ null
  vs_ne_null y h = Chain-ne_null m x null y vs c_x.3 h

  us_ne : (y : Ptr) → has y us ≡ true → y ≢ x
  us_ne y h = ne_of_not_has y x (x ∷ vs) (apart y h) (has_here x vs)

  us_not_vs : (y : Ptr) → has y us ≡ true → has y vs ≡ false
  us_not_vs y h = ground (arith, apart y h)

  vs_not_us : (y : Ptr) → has y vs ≡ true → has y us ≡ false
  vs_not_us y h = elim (Bool-cases (has y us)) [
    | inl k ↦ absurd (false≢true (sym (us_not_vs y k) ∙ h))
    | inr k ↦ k
  ]

  x_not_us : has x us ≡ false
  x_not_us = elim (Bool-cases (has x us)) [ inl k ↦ absurd (us_ne x k refl) | inr k ↦ k ]

  pub x_ne_p : x ≢ p
  x_ne_p = last-ne us x c_x.0 x_not_us

  pub x_ne_n : x ≢ n
  x_ne_n = first-ne vs x c_x.0 d_x.0

  after-us : Chain after null us n
  after-us =
      Chain-retarget m after null x n us c_us d_us
        (λ y h.
          update_ne _ _ _ (us_ne y h)
          ∙ patch_ne m.prev n p (first-ne vs y (us_ne_null y h) (us_not_vs y h)))
        (λ y h e. update_ne _ _ _ (us_ne y h) ∙ patch_at m.next p n e (us_ne_null y h))
        (λ y h e. update_ne _ _ _ (us_ne y h) ∙ patch_ne m.next p n e)

  after-vs : Chain after p vs null
  after-vs =
      Chain-rebase m after x p null vs c_x.3 d_x.1
        (λ y h.
          update_ne _ _ _ (ne_of_has y x vs h d_x.0)
          ∙ patch_ne m.next p n (last-ne us y (vs_ne_null y h) (vs_not_us y h)))
        (λ y h e.
          update_ne _ _ _ (ne_of_has y x vs h d_x.0) ∙ patch_at m.prev n p e (vs_ne_null y h))
        (λ y h e. update_ne _ _ _ (ne_of_has y x vs h d_x.0) ∙ patch_ne m.prev n p e)

  pub after-Chain : Chain after null (us ++ vs) null
  after-Chain = Chain-append after null null us vs after-us after-vs

  pub after-Distinct : Distinct (us ++ vs)
  after-Distinct = Distinct-append us vs d_us d_x.1 us_not_vs

  pub head_lem :
      (q : Queue)
      → q.head ≡ first (us ++ x ∷ vs) null
      → (if q.head == x then n else q.head) ≡ first (us ++ vs) null
  head_lem q e = rw e (go us us_ne)
    where
      go :
          (ws : List Ptr)
          → ((y : Ptr) → has y ws ≡ true → y ≢ x)
          → (if first (ws ++ x ∷ vs) null == x then n else first (ws ++ x ∷ vs) null)
            ≡ first (ws ++ vs) null
      go [] h = ground arith
      go (w ∷ ws) h = ground (arith, h w (has_here w ws))

  pub unlinked-SameOutside : SameOutside (us ++ x ∷ vs) m after
  unlinked-SameOutside a h =
      let h_us : has a us ≡ false = ground (arith, has-append a us (x ∷ vs)) in
      let h_x : has a (x ∷ vs) ≡ false = ground (arith, has-append a us (x ∷ vs)) in
      (
        update_ne _ _ _ (ne_head a x vs h_x)
            ∙ patch_same m.next p n (λ e. ne_of_not_has a p us h_us (has-last_of_ne us e)),
        update_ne _ _ _ (ne_head a x vs h_x)
            ∙ patch_same m.prev n p
                (λ e. ne_of_not_has a n vs (not_has_tail a x vs h_x) (has-first_of_ne vs e)),
      )
