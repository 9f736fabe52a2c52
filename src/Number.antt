-- ===== src/Number.antt =====
-- common/OutputStream.cc and driver/ConsoleBuffer.cc, `operator <<(uint64_t)`: both print a number by
-- the same loops, each by a `putc` of its own, which is the parameter `put` on the state `S`.
pub mod Power
pub mod Grow
pub mod RoundTrip
use cy_ph_os.Base.{
  ℕ, zero, suc, ◌+◌, ◌-◌, ◌*◌, ◌/◌, ◌%◌, ◌^◌, Bool, Option, none, some, List, [], ◌∷◌, ◌==◌, ltb,
  leb, if◌then◌else◌,
}

-- `for (div = 1; ival / div >= mBase; div *= mBase)`; `none` is a lack of fuel.
unfoldable pub grow : ℕ → ℕ → ℕ → ℕ → Option ℕ
grow zero base ival div = none
grow (suc fuel) base ival div =
    let rest = grow fuel base ival (div * base % 2 ^ 64) in
    if leb base (ival / div) then rest else some div

-- The character of a digit, where `digit` is a char.
abbrev pub digit_char : ℕ → ℕ
digit_char digit = if ltb digit 10 then b'0' + digit else b'a' + digit - 10

module _ {S : Type 0} (put : ℕ → S → S) where
  -- `for (; div > 0; div /= mBase)`; `none` is a lack of fuel.
  unfoldable pub put_digits : ℕ → ℕ → ℕ → ℕ → S → Option S
  put_digits zero base ival div s = none
  put_digits (suc fuel) base ival div s =
      let rest =
        put_digits fuel base (ival % div) (div / base) (put (digit_char (ival / div % 2 ^ 8)) s) in
      if div == 0 then some s else rest

  -- The mark of the base.
  unfoldable pub put_prefix : ℕ → S → S
  put_prefix base s =
      if base == 8 then put b'0' s else (if base == 16 then put b'x' (put b'0' s) else s)

  -- `operator <<(uint64_t)`; 65 rounds are enough for 64 bits.
  unfoldable pub put_number : ℕ → ℕ → S → Option S
  put_number base ival s = elim (grow 65 base ival 1) [
    | none ↦ none
    | some div ↦ put_digits 65 base ival div (put_prefix base s)
  ]

  -- `operator <<(int64_t)`, of a word in two's complement; the negated word wraps.
  unfoldable pub put_signed : ℕ → ℕ → S → Option S
  put_signed base ival s =
      if leb (2 ^ 63) ival
      then put_number base ((2 ^ 64 - ival) % 2 ^ 64) (put b'-' s)
      else put_number base ival s

  -- `operator <<(const char*)`, of the characters before the null.
  unfoldable pub put_string : List ℕ → S → S
  put_string [] s = s
  put_string (c ∷ cs) s = put_string cs (put c s)

-- The conversion of `int16_t` or `int32_t`, a word of `w` bits, to `int64_t`.
abbrev pub sign_extend : ℕ → ℕ → ℕ
sign_extend w ival = if leb (2 ^ (w - 1)) ival then 2 ^ 64 - 2 ^ w + ival else ival
