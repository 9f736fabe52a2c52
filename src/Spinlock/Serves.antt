-- ===== src/Spinlock/Serves.antt =====
-- The line that a lock serves, and who is the first of it.
use mathlib.Core.Bool.{true≢false}
use cy_ph_os.Base.{
  ℕ, zero, suc, ◌+◌, ◌%◌, ◌^◌, ◌≤◌, ◌<◌, ◌≡◌, refl, sym, ap, ◌∙◌, ◌⊎◌, inl, inr, Bool, true, false,
  List, [], ◌∷◌, arith, Bool-cases, has, length, ◌==◌, eq_of_test, ne_of_test, Distinct, sum_below,
  not_has_cons,
}
use cy_ph_os.Spinlock.{Stage, idle, waiting, holding, increment, Spinlock, new_spinlock}
use cy_ph_os.Spinlock.Line.{InLine, InLine-has}

abbrev pub is_idle : Stage → Bool
is_idle idle = true
is_idle (waiting t) = false
is_idle (holding t) = false

abbrev pub is_holding : Stage → Bool
is_holding idle = false
is_holding (waiting t) = false
is_holding (holding t) = true

abbrev pub ticket : Stage → ℕ
ticket idle = 0
ticket (waiting t) = t
ticket (holding t) = t

abbrev pub weight : Stage → ℕ
weight idle = 0
weight (waiting t) = 1
weight (holding t) = 1

abbrev pub Front : (ℕ → Stage) → ℕ → List ℕ → Type 0
Front stage t [] = Unit
Front stage t (c ∷ cs) =
    ((stage c ≡ waiting t) ⊎ (stage c ≡ holding t)) × InLine stage (increment t) cs

-- The lock of `n` processors has the line `q`.
pub record Serves (n : ℕ) (s : Spinlock) (q : List ℕ) : Type 0 where
  pub front : Front s.stage s.active q
  pub others : (c : ℕ) → has c q ≡ false → s.stage c ≡ idle
  pub members : (c : ℕ) → has c q ≡ true → c < n
  pub distinct : Distinct q
  pub next : s.available ≡ (s.active + length q) % 2 ^ 32
  pub small : s.active < 2 ^ 32
  pub fits : sum_below weight n s.stage ≡ length q

sum_below-le : (n : ℕ) (f : ℕ → Stage) → sum_below weight n f ≤ n
sum_below-le zero f = omega arith
sum_below-le (suc n) f = let rest = sum_below-le n f in let one = weight-le (f n) in omega arith
  where
    weight-le : (s : Stage) → weight s ≤ 1
    weight-le idle = omega arith
    weight-le (waiting t) = omega arith
    weight-le (holding t) = omega arith

-- Where a processor that is not idle stands.
place :
    (n : ℕ) (s : Spinlock) (c : ℕ) (cs : List ℕ) (cpu : ℕ)
    → n ≤ 2 ^ 32
    → Serves n s (c ∷ cs)
    → has cpu cs ≡ true
    → (i : ℕ) × (0 < i) × (i < 2 ^ 32) × (s.stage cpu ≡ waiting ((s.active + i) % 2 ^ 32))
place n s c cs cpu h r e =
    let small = r.small in
    let (i, lt, at) = InLine-has s.stage (increment s.active) cpu cs (omega arith) r.front.1 e in
    let same : (increment s.active + i) % 2 ^ 32 ≡ (s.active + suc i) % 2 ^ 32 = omega arith in
    let le = sum_below-le n s.stage in
    let fits = r.fits in (suc i, omega arith, omega arith, at ∙ ap waiting same)

-- A processor that holds the lock, or whose turn it is, is the first of the line.
pub is_first :
    (n : ℕ) (s : Spinlock) (q : List ℕ) (cpu : ℕ)
    → n ≤ 2 ^ 32
    → Serves n s q
    → is_idle (s.stage cpu) ≡ false
    → (is_holding (s.stage cpu) ≡ true) ⊎ (ticket (s.stage cpu) ≡ s.active)
    → (cs : List ℕ) × (q ≡ cpu ∷ cs)
is_first n s [] cpu h r e turn = absurd (true≢false (sym (ap is_idle (r.others cpu refl)) ∙ e))
is_first n s (c ∷ cs) cpu h r e turn = elim (Bool-cases (cpu == c)) [
  | inl here ↦ (cs, ap (λ x. x ∷ cs) (sym (eq_of_test cpu c here)))
  | inr ne ↦ elim (Bool-cases (has cpu cs)) [
    | inr out ↦ absurd (
        true≢false
          (sym (ap is_idle (r.others cpu (not_has_cons cpu c cs (ne_of_test cpu c ne) out))) ∙ e))
    | inl in_tail ↦
        let (i, pos, lt, at) = place n s c cs cpu h r in_tail in
        let small = r.small in
        elim turn [
          | inl held ↦ absurd (true≢false (sym held ∙ ap is_holding at))
          | inr mine ↦
              let same : (s.active + i) % 2 ^ 32 ≡ s.active = sym (ap ticket at) ∙ mine in
              absurd (omega arith)
        ]
  ]
]

pub busy_head :
    (stage : ℕ → Stage) (t c : ℕ) (cs : List ℕ) → Front stage t (c ∷ cs) → is_idle (stage c) ≡ false
busy_head stage t c cs f = elim f.0 [ inl e ↦ ap is_idle e | inr e ↦ ap is_idle e ]

pub idle_not_in :
    (n : ℕ) (s : Spinlock) (q : List ℕ) (cpu : ℕ)
    → n ≤ 2 ^ 32
    → Serves n s q
    → s.stage cpu ≡ idle
    → has cpu q ≡ false
idle_not_in n s [] cpu h r e = refl
idle_not_in n s (c ∷ cs) cpu h r e = elim (Bool-cases (cpu == c)) [
  | inl here ↦ absurd (
      true≢false (
        ap is_idle (sym e ∙ ap s.stage (eq_of_test cpu c here))
        ∙ busy_head s.stage s.active c cs r.front))
  | inr ne ↦ elim (Bool-cases (has cpu cs)) [
    | inr out ↦ not_has_cons cpu c cs (ne_of_test cpu c ne) out
    | inl in_tail ↦
        let (i, pos, lt, at) = place n s c cs cpu h r in_tail in
        absurd (true≢false (ap is_idle (sym e ∙ at)))
  ]
]

pub weight_busy : (s : Stage) → is_idle s ≡ false → weight s ≡ 1
weight_busy idle e = absurd (true≢false e)
weight_busy (waiting t) e = refl
weight_busy (holding t) e = refl

pub new_Serves : (n : ℕ) → Serves n new_spinlock []
new_Serves n = record {
  front = tt;
  others = λ c o. refl;
  members = λ c i. absurd (true≢false (sym i));
  distinct = tt;
  next = refl;
  small = omega arith;
  fits = nothing n;
}
  where
    nothing : (k : ℕ) → sum_below weight k (λ cpu. idle) ≡ 0
    nothing zero = refl
    nothing (suc k) = let rest = nothing k in omega arith
