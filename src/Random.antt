-- ===== src/Random.antt =====
-- common/RandomGenerator.cc: the two generators on the 32-bit state mState.
pub mod Nonzero
pub mod Xor
use Prim.Native.Nat.{bit_and, bit_xor}
use cy_ph_os.Base.{ℕ, zero, suc, ◌+◌, ◌*◌, ◌/◌, ◌%◌, ◌^◌, List, [], ◌∷◌, ◌==◌, if◌then◌else◌}

-- The constructor's state.
abbrev pub first_state : ℕ
first_state = 0xBADC0FFE

-- nibble_parity_table; an index out of the table does not occur.
abbrev pub nibble_parity : ℕ → ℕ
nibble_parity n =
    if n == 1
    then 1
    else (if n == 2
        then 1
        else (if n == 4
            then 1
            else (if n == 7
                then 1
                else (if n == 8
                    then 1
                    else (if n == 11
                        then 1
                        else (if n == 13 then 1 else (if n == 14 then 1 else 0)))))))

-- `parity_even_bit`, with the second nibble as it is written there: `4 & 0xf`.
abbrev pub parity_even_bit : ℕ → ℕ
parity_even_bit p = bit_xor (nibble_parity (p / 2 ^ 4)) (nibble_parity (bit_and 4 0xF))

abbrev pub polynom : ℕ
polynom = 0x80802301

-- GET_BYTE_FROM_INT
abbrev pub get_byte : ℕ → ℕ → ℕ
get_byte input n = input / 2 ^ (8 * n) % 2 ^ 8

-- The bit that the loop of `random8` puts in: one or the other, and `|` adds it to an even number.
abbrev pub feedback : ℕ → ℕ
feedback t =
    bit_xor
      (bit_xor (bit_xor (parity_even_bit (get_byte t 0)) (parity_even_bit (get_byte t 1)))
        (parity_even_bit (get_byte t 2)))
      (parity_even_bit (get_byte t 3))

unfoldable pub shift_in : ℕ → ℕ
shift_in state = state * 2 % 2 ^ 32 + feedback (bit_and state polynom)

unfoldable pub shift_times : ℕ → ℕ → ℕ
shift_times zero state = state
shift_times (suc rounds) state = shift_times rounds (shift_in state)

-- `random8`: the byte and the new state.
unfoldable pub random8 : ℕ → ℕ × ℕ
random8 state = let next = shift_times 8 state in (next % 2 ^ 8, next)

-- `random32`: the word and the new state.
unfoldable pub random32 : ℕ → ℕ × ℕ
random32 state =
    let x1 = bit_xor state (state * 2 ^ 13 % 2 ^ 32) in
    let x2 = bit_xor x1 (x1 / 2 ^ 17) in let x3 = bit_xor x2 (x2 * 2 ^ 5 % 2 ^ 32) in (x3, x3)

unfoldable pub srandom32 : ℕ → ℕ → ℕ
srandom32 seed state = if seed == 0 then state else seed
