-- ===== src/Spinlock/Line.antt =====
-- The line that the tickets stand for.
use mathlib.Core.Bool.{true≢false}
use cy_ph_os.Base.{
  ℕ, suc, ◌+◌, ◌%◌, ◌^◌, ◌<◌, ◌≡◌, ◌≢◌, refl, sym, ap, ◌∙◌, inl, inr, true, false, List, [], ◌∷◌,
  ◌++◌, arith, Bool-cases, has, length, update, update_ne, ne_head, not_has_tail, ◌==◌, eq_of_test,
}
use cy_ph_os.Spinlock.{Stage, waiting, increment}

-- The processors of a list wait for the tickets from `t` on.
abbrev pub InLine : (ℕ → Stage) → ℕ → List ℕ → Type 0
InLine stage t [] = Unit
InLine stage t (c ∷ cs) = (stage c ≡ waiting t) × InLine stage (increment t) cs

-- A change at a processor that is not in the line leaves the line as it is.
pub InLine-update :
    (stage : ℕ → Stage) (t cpu : ℕ) (new : Stage) (q : List ℕ)
    → has cpu q ≡ false
    → InLine stage t q
    → InLine (update stage cpu new) t q
InLine-update stage t cpu new [] h l = l
InLine-update stage t cpu new (c ∷ cs) h l =
    let ne : c ≢ cpu = λ e. ne_head cpu c cs h (sym e) in
    (
      update_ne stage cpu new ne ∙ l.0,
      InLine-update stage (increment t) cpu new cs (not_has_tail cpu c cs h) l.1,
    )

pub InLine-append :
    (stage : ℕ → Stage) (t cpu : ℕ) (q : List ℕ)
    → t < 2 ^ 32
    → InLine stage t q
    → stage cpu ≡ waiting ((t + length q) % 2 ^ 32)
    → InLine stage t (q ++ cpu ∷ [])
InLine-append stage t cpu [] h l e =
    let same : (t + 0) % 2 ^ 32 ≡ t = omega arith in (e ∙ ap waiting same, tt)
InLine-append stage t cpu (c ∷ cs) h l e =
    let same : (t + suc (length cs)) % 2 ^ 32 ≡ (increment t + length cs) % 2 ^ 32 = omega arith in
    (l.0, InLine-append stage (increment t) cpu cs (omega arith) l.1 (e ∙ ap waiting same))

-- The ticket of a processor in the line is its place.
pub InLine-has :
    (stage : ℕ → Stage) (t cpu : ℕ) (q : List ℕ)
    → t < 2 ^ 32
    → InLine stage t q
    → has cpu q ≡ true
    → (i : ℕ) × (i < length q) × (stage cpu ≡ waiting ((t + i) % 2 ^ 32))
InLine-has stage t cpu [] b l h = absurd (true≢false (sym h))
InLine-has stage t cpu (c ∷ cs) b l h = elim (Bool-cases (cpu == c)) [
  | inl e ↦
      let same : (t + 0) % 2 ^ 32 ≡ t = omega arith in
      (0, omega arith, rw (eq_of_test cpu c e, same) l.0)
  | inr e ↦
      let (i, lt, at) =
        InLine-has stage (increment t) cpu cs (omega arith) l.1 (sym (has_skip cpu c cs e) ∙ h) in
      let same : (increment t + i) % 2 ^ 32 ≡ (t + suc i) % 2 ^ 32 = omega arith in
      (suc i, omega arith, at ∙ ap waiting same)
]
  where
    has_skip : (x c : ℕ) (cs : List ℕ) → (x == c) ≡ false → has x (c ∷ cs) ≡ has x cs
    has_skip x c cs e = rw e refl
