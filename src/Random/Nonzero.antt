-- ===== src/Random/Nonzero.antt =====
-- The state 0, in which both generators would stay for ever, is never reached.
use Prim.Native.Nat.{bit_and, bit_xor}
use cy_ph_os.Base.{
  ℕ, zero, suc, ◌*◌, ◌/◌, ◌%◌, ◌^◌, ◌<◌, ◌≡◌, ◌≢◌, refl, arith, Bool-cases, inl, inr, ◌==◌,
  eq_of_test, ne_of_test, List, [], ◌∷◌,
}
use cy_ph_os.Random.{
  first_state, nibble_parity, parity_even_bit, get_byte, polynom, feedback, shift_in, shift_times,
  random8, random32, srandom32,
}
use cy_ph_os.Random.Xor.{bit_xor_zero, bit_xor-lt}

-- A state of 32 bits that is not 0.
abbrev pub IsSeeded : ℕ → Type 0
IsSeeded state = (0 < state) × (state < 2 ^ 32)

-- A word and what it is mixed with differ, so that the mix is not 0.
mixed-IsSeeded : (x y : ℕ) → IsSeeded x → y < 2 ^ 32 → x ≢ y → IsSeeded (bit_xor x y)
mixed-IsSeeded x y seeded lt ne =
    let small = bit_xor-lt 32 x y seeded.1 lt in
    elim (Bool-cases (bit_xor x y == 0)) [
      | inl e ↦ absurd (ne (bit_xor_zero x y (eq_of_test (bit_xor x y) 0 e)))
      | inr e ↦ (let other = ne_of_test (bit_xor x y) 0 e in (omega (arith, other), small))
    ]

pub random32-IsSeeded : (state : ℕ) → IsSeeded state → IsSeeded (random32 state).1
unfolding random32
random32-IsSeeded state seeded =
    let first =
      mixed-IsSeeded state (state * 2 ^ 13 % 2 ^ 32) seeded (omega arith)
        (λ e. absurd (omega (arith, seeded.0, seeded.1, e))) in
    let x1 = bit_xor state (state * 2 ^ 13 % 2 ^ 32) in
    let second =
      mixed-IsSeeded x1 (x1 / 2 ^ 17) first (omega (arith, first.1))
        (λ e. absurd (omega (arith, first.0, first.1, e))) in
    let x2 = bit_xor x1 (x1 / 2 ^ 17) in
    mixed-IsSeeded x2 (x2 * 2 ^ 5 % 2 ^ 32) second (omega arith)
      (λ e. absurd (omega (arith, second.0, second.1, e)))

nibble_parity-lt : (n : ℕ) → nibble_parity n < 2
nibble_parity-lt n = ground arith

parity_even_bit-lt : (p : ℕ) → parity_even_bit p < 2
parity_even_bit-lt p =
    bit_xor-lt 1 (nibble_parity (p / 2 ^ 4)) (nibble_parity (bit_and 4 0xF))
      (nibble_parity-lt (p / 2 ^ 4)) (nibble_parity-lt (bit_and 4 0xF))

feedback-lt : (t : ℕ) → feedback t < 2
feedback-lt t =
    let p : (n : ℕ) → parity_even_bit (get_byte t n) < 2 ^ 1 =
      λ n. parity_even_bit-lt (get_byte t n) in
    bit_xor-lt 1 _ _ (bit_xor-lt 1 _ _ (bit_xor-lt 1 _ _ (p 0) (p 1)) (p 2)) (p 3)

-- The state with only the highest bit puts in a one.
feedback_of_top : feedback (bit_and (2 ^ 31) polynom) ≡ 1
feedback_of_top = refl

shift_in-IsSeeded : (state : ℕ) → IsSeeded state → IsSeeded (shift_in state)
unfolding shift_in
shift_in-IsSeeded state seeded =
    let bit = feedback-lt (bit_and state polynom) in
    elim (Bool-cases (state == 2 ^ 31)) [
      | inl e ↦ rw (eq_of_test state (2 ^ 31) e) (rw feedback_of_top (omega arith, omega arith))
      | inr e ↦
          let other = ne_of_test state (2 ^ 31) e in
          (omega (arith, seeded.0, seeded.1, other), omega (arith, seeded.1, bit))
    ]

shift_times-IsSeeded : (rounds state : ℕ) → IsSeeded state → IsSeeded (shift_times rounds state)
unfolding shift_times
shift_times-IsSeeded zero state seeded = seeded
shift_times-IsSeeded (suc rounds) state seeded =
    shift_times-IsSeeded rounds (shift_in state) (shift_in-IsSeeded state seeded)

random8-IsSeeded : (state : ℕ) → IsSeeded state → IsSeeded (random8 state).1
unfolding random8
random8-IsSeeded state seeded = shift_times-IsSeeded 8 state seeded

-- The calls of a component.
pub data Call : Type 0 where
  byte : Call
  word : Call
  seed : ℕ → Call

abbrev pub run_call : Call → ℕ → ℕ
run_call byte state = (random8 state).1
run_call word state = (random32 state).1
run_call (seed value) state = srandom32 (value % 2 ^ 32) state

abbrev pub run_calls : List Call → ℕ → ℕ
run_calls [] state = state
run_calls (call ∷ calls) state = run_calls calls (run_call call state)

run_call-IsSeeded : (call : Call) (state : ℕ) → IsSeeded state → IsSeeded (run_call call state)
unfolding srandom32
run_call-IsSeeded byte state seeded = random8-IsSeeded state seeded
run_call-IsSeeded word state seeded = random32-IsSeeded state seeded
run_call-IsSeeded (seed value) state seeded = elim (Bool-cases (value % 2 ^ 32 == 0)) [
  | inl e ↦ rw e seeded
  | inr e ↦
      (let other = ne_of_test (value % 2 ^ 32) 0 e in rw e (omega (arith, other), omega arith))
]

-- After any sequence of calls of `random8`, `random32` and `srandom32`, from a state of 32 bits that is
-- not 0, as the constructor's is, the state is again one of 32 bits that is not 0: the generators never
-- get stuck at 0, where every number that they give would be 0.
pub run_calls-IsSeeded :
    (calls : List Call) (state : ℕ)
    → IsSeeded state
    → IsSeeded first_state × IsSeeded (run_calls calls state)
run_calls-IsSeeded [] state seeded = ((omega arith, omega arith), seeded)
run_calls-IsSeeded (call ∷ calls) state seeded =
    run_calls-IsSeeded calls (run_call call state) (run_call-IsSeeded call state seeded)
