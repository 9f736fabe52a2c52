-- ===== src/StackPool/Held.antt =====
-- StackPool.cc against `pStackPointers` of EventHandler.cc: used stacks and the processors that hold
-- them.
use mathlib.Core.Bool.{false≢true}
use cy_ph_os.Base.{
  ℕ, zero, suc, ◌<◌, ◌≤◌, ◌≡◌, refl, sym, ap, ◌∙◌, ◌≢◌, inl, inr, Bool, true, false, Bool-cases,
  arith, ◌==◌, if◌then◌else◌, update, update_at, update_ne, sum_below, sum-update, eq_of_test,
  ne_of_test,
}
use cy_ph_os.Queue.{Ptr, null}
use cy_ph_os.StackPool.{StackPool, stack_address, set_stack_free}
use cy_ph_os.StackPool.Search.{set_stack_free-stack_address}

-- Some stack of the pool is free.
abbrev pub HasStack : ℕ → StackPool → Type 0
HasStack n p = (p.pointer < n) × ((i : ℕ) × (i < n) × (p.used i ≡ false))

abbrev pub taken : Bool → ℕ
taken b = if b then 1 else 0

abbrev pub in_use : Ptr → ℕ
in_use sp = if sp == null then 0 else 1

-- Every processor that has a stack has one of the pool's, which is marked used, no two have the same,
-- and no others are marked.
abbrev pub IsHeld : ℕ → ℕ → StackPool → (ℕ → Ptr) → Type 0
IsHeld n base p sps =
    (p.pointer < n)
    × ((c : ℕ)
        → c < n
        → sps c ≢ null
        → (i : ℕ) × (i < n) × (sps c ≡ stack_address base i) × (p.used i ≡ true))
    × ((c d : ℕ) → c < n → d < n → c ≢ d → sps c ≢ null → sps c ≢ sps d)
    × (sum_below taken n p.used ≡ sum_below in_use n sps)

in_use_bound : (n : ℕ) (sps : ℕ → Ptr) → sum_below in_use n sps ≤ n
in_use_bound zero sps = omega arith
in_use_bound (suc n) sps = ground (arith, in_use_bound n sps)

in_use_lt : (n cpu : ℕ) (sps : ℕ → Ptr) → cpu < n → sps cpu ≡ null → sum_below in_use n sps < n
in_use_lt zero cpu sps lt e = absurd (omega arith)
in_use_lt (suc n) cpu sps lt e = elim (Bool-cases (cpu == n)) [
  | inl h ↦
      let e' : sps n ≡ null = ap sps (sym (eq_of_test cpu n h)) ∙ e in
      ground (arith, in_use_bound n sps)
  | inr h ↦ ground (arith, in_use_lt n cpu sps (ground arith) e)
]

free_of_total :
    (n : ℕ) (used : ℕ → Bool) → sum_below taken n used < n → (i : ℕ) × (i < n) × (used i ≡ false)
free_of_total zero used h = absurd (omega arith)
free_of_total (suc n) used h = elim (Bool-cases (used n)) [
  | inl e ↦
      let less : sum_below taken n used < n = ground arith in
      let (i, lt, free) = free_of_total n used less in (i, omega arith, free)
  | inr e ↦ (n, omega arith, e)
]

-- A processor without a stack finds one.
pub IsHeld-HasStack :
    (n base cpu : ℕ) (p : StackPool) (sps : ℕ → Ptr)
    → IsHeld n base p sps
    → cpu < n
    → sps cpu ≡ null
    → HasStack n p
IsHeld-HasStack n base cpu p sps (lt, own, apart, sum) hc e =
    (lt, free_of_total n p.used (rw sum (in_use_lt n cpu sps hc e)))

stack_address_ne : (base i j : ℕ) → i ≢ j → stack_address base i ≢ stack_address base j
stack_address_ne base i j ne e = ne (omega arith)

pub stack_address_ne_null : (base i : ℕ) → stack_address base i ≢ null
stack_address_ne_null base i e = omega arith

-- A processor takes the free stack `k`.
pub IsHeld-take :
    (n base cpu k : ℕ) (p : StackPool) (sps : ℕ → Ptr)
    → IsHeld n base p sps
    → cpu < n
    → sps cpu ≡ null
    → k < n
    → p.used k ≡ false
    → IsHeld n base
        (record { used = update p.used k true; pointer = k })
        (update sps cpu (stack_address base k))
IsHeld-take n base cpu k p sps (lt, own, apart, sum) hc e hk free =
    let old : (c : ℕ)
        → c < n
        → sps c ≢ null
        → (i : ℕ) × (i < n) × (sps c ≡ stack_address base i) × (p.used i ≡ true) × (i ≢ k) =
      λ c h ne.
        let (i, hi, at, used) = own c h ne in
        (i, hi, at, used, λ z. false≢true (sym free ∙ ap p.used (sym z) ∙ used)) in
    let new : (c : ℕ) → c < n → sps c ≢ null → sps c ≢ stack_address base k = λ c h ne z.
      let (i, hi, at, used, away) = old c h ne in stack_address_ne base i k away (sym at ∙ z) in
    (
      hk,
      (λ c h ne. elim (Bool-cases (c == cpu)) [
        | inl z ↦ (
          k,
          hk,
          update_at sps cpu (stack_address base k) (eq_of_test c cpu z),
          update_at p.used k true refl,
        )
        | inr z ↦
            let same : update sps cpu (stack_address base k) c ≡ sps c =
              update_ne sps cpu (stack_address base k) (ne_of_test c cpu z) in
            let (i, hi, at, used, away) = old c h (λ y. ne (same ∙ y)) in
            (i, hi, same ∙ at, update_ne p.used k true away ∙ used)
      ]),
      (λ c d h h' cd ne. elim (Bool-cases (c == cpu)) [
        | inl z ↦
            let here : update sps cpu (stack_address base k) c ≡ stack_address base k =
              update_at sps cpu (stack_address base k) (eq_of_test c cpu z) in
            let there : update sps cpu (stack_address base k) d ≡ sps d =
              update_ne sps cpu (stack_address base k) (λ y. cd (eq_of_test c cpu z ∙ sym y)) in
            rw (here, there)
              (λ y. elim (Bool-cases (sps d == null)) [
                | inl v ↦ stack_address_ne_null base k (y ∙ eq_of_test (sps d) null v)
                | inr v ↦ new d h' (ne_of_test (sps d) null v) (sym y)
              ])
        | inr z ↦
            let same : update sps cpu (stack_address base k) c ≡ sps c =
              update_ne sps cpu (stack_address base k) (ne_of_test c cpu z) in
            elim (Bool-cases (d == cpu)) [
              | inl v ↦
                  let here : update sps cpu (stack_address base k) d ≡ stack_address base k =
                    update_at sps cpu (stack_address base k) (eq_of_test d cpu v) in
                  rw (same, here) (new c h (λ y. ne (same ∙ y)))
              | inr v ↦
                  let same' : update sps cpu (stack_address base k) d ≡ sps d =
                    update_ne sps cpu (stack_address base k) (ne_of_test d cpu v) in
                  rw (same, same') (apart c d h h' cd (λ y. ne (same ∙ y)))
            ]
      ]),
      take_sum n cpu k (stack_address base k) p.used sps hc hk free e (stack_address_ne_null base k)
          sum,
    )
  where
    take_sum :
        (n cpu k : ℕ) (sp : Ptr) (used : ℕ → Bool) (sps : ℕ → Ptr)
        → cpu < n
        → k < n
        → used k ≡ false
        → sps cpu ≡ null
        → sp ≢ null
        → sum_below taken n used ≡ sum_below in_use n sps
        → sum_below taken n (update used k true) ≡ sum_below in_use n (update sps cpu sp)
    take_sum n cpu k sp used sps hc hk free e ne sum =
        ground (arith, sum-update taken n used k true hk, sum-update in_use n sps cpu sp hc)

-- A processor gives its stack back.
pub IsHeld-release :
    (n base cpu : ℕ) (p : StackPool) (sps : ℕ → Ptr)
    → IsHeld n base p sps
    → cpu < n
    → sps cpu ≢ null
    → IsHeld n base (set_stack_free n base (sps cpu) p) (update sps cpu null)
IsHeld-release n base cpu p sps (lt, own, apart, sum) hc ne =
    let (k, hk, at, marked) = own cpu hc ne in
    let away : (c : ℕ)
        → update sps cpu null c ≢ null
        → (c ≢ cpu) × (update sps cpu null c ≡ sps c) =
      λ c z.
        let nc : c ≢ cpu = λ y. z (update_at sps cpu null y) in (nc, update_ne sps cpu null nc) in
    rw (at, set_stack_free-stack_address n base k p hk)
      (
        lt,
        (λ c h z.
            let (nc, same) = away c z in
            let (i, hi, at', used) = own c h (λ y. z (same ∙ y)) in
            let nk : i ≢ k = λ y.
              apart c cpu h hc nc (λ y'. z (same ∙ y'))
                (at' ∙ ap (stack_address base) y ∙ sym at) in
            (i, hi, same ∙ at', update_ne p.used k false nk ∙ used)),
        (λ c d h h' cd z.
            let (nc, same) = away c z in
            elim (Bool-cases (d == cpu)) [
              | inl v ↦ rw (update_at sps cpu null (eq_of_test d cpu v)) z
              | inr v ↦
                  rw (same, update_ne sps cpu null (ne_of_test d cpu v))
                    (apart c d h h' cd (λ y. z (same ∙ y)))
            ]),
        release_sum n cpu k p.used sps hc hk marked ne sum,
      )
  where
    release_sum :
        (n cpu k : ℕ) (used : ℕ → Bool) (sps : ℕ → Ptr)
        → cpu < n
        → k < n
        → used k ≡ true
        → sps cpu ≢ null
        → sum_below taken n used ≡ sum_below in_use n sps
        → sum_below taken n (update used k false) ≡ sum_below in_use n (update sps cpu null)
    release_sum n cpu k used sps hc hk marked ne sum =
        ground (arith, sum-update taken n used k false hk, sum-update in_use n sps cpu null hc)
