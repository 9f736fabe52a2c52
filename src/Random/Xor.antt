-- ===== src/Random/Xor.antt =====
-- Facts about the exclusive or of two words.
use Prim.Native.Nat.{bit_xor, digits, differ, bit_xor-bitwise}
use cy_ph_os.Base.{ℕ, zero, suc, ◌*◌, ◌/◌, ◌%◌, ◌^◌, ◌≤◌, ◌<◌, ◌≡◌, sym, ◌∙◌, arith}

differ_zero : (x y : ℕ) → differ x y ≡ 0 → x ≡ y
differ_zero zero y e = sym e
differ_zero (suc x) zero e = e
differ_zero (suc x) (suc y) e = omega (arith, differ_zero x y e)

differ_small : (x y : ℕ) → x < 2 → y < 2 → differ x y < 2
differ_small zero y lt lt' = lt'
differ_small (suc x) zero lt lt' = lt
differ_small (suc x) (suc y) lt lt' = differ_small x y (omega arith) (omega arith)

abbrev xor_digits : ℕ → ℕ → ℕ → ℕ
xor_digits n a b = digits (λ b. b) differ n a b

xor_digits_zero : (n a b : ℕ) → a ≤ n → xor_digits n a b ≡ 0 → a ≡ b
xor_digits_zero zero a b le e = omega (arith, e)
xor_digits_zero (suc n) zero b le e = sym e
xor_digits_zero (suc n) (suc a) b le e =
    let low = differ_zero (suc a % 2) (b % 2) (omega arith) in
    let high = xor_digits_zero n (suc a / 2) (b / 2) (omega arith) (omega arith) in omega arith

xor_digits_small : (w n a b : ℕ) → a ≤ n → a < 2 ^ w → b < 2 ^ w → xor_digits n a b < 2 ^ w
xor_digits_small w zero a b le lt lt' = lt'
xor_digits_small w (suc n) zero b le lt lt' = lt'
xor_digits_small zero (suc n) (suc a) b le lt lt' = absurd (omega arith)
xor_digits_small (suc w) (suc n) (suc a) b le lt lt' =
    let twice : 2 ^ suc w ≡ 2 * 2 ^ w = grind arith in
    let high = xor_digits_small w n (suc a / 2) (b / 2) (omega arith) (omega arith) (omega arith) in
    let low = differ_small (suc a % 2) (b % 2) (omega arith) (omega arith) in omega arith

-- Only equal numbers have the exclusive or 0.
pub bit_xor_zero : (a b : ℕ) → bit_xor a b ≡ 0 → a ≡ b
bit_xor_zero a b e = xor_digits_zero a a b (omega arith) (sym (bit_xor-bitwise a b) ∙ e)

pub bit_xor-lt : (w a b : ℕ) → a < 2 ^ w → b < 2 ^ w → bit_xor a b < 2 ^ w
bit_xor-lt w a b lt lt' =
    let small = xor_digits_small w a a b (omega arith) lt lt' in
    omega (arith, small, bit_xor-bitwise a b)
