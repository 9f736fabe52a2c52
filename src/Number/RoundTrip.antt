-- ===== src/Number/RoundTrip.antt =====
-- What a printed number is as a list of characters, and reading it back.
use native.Mathlib.Nat.{mod-lt, mod-eq_of_lt, div-eq_of_lt, div-lt_iff_lt-mul, div-add-mod}
use cy_ph_os.Base.{
  ℕ, zero, suc, ◌+◌, ◌-◌, ◌*◌, ◌/◌, ◌%◌, ◌^◌, ◌≤◌, ◌<◌, ◌≡◌, refl, sym, ap, ◌∙◌, inl, inr,
  Bool-cases, false, some, List, [], ◌∷◌, ◌++◌, ◌==◌, arith, ltb, leb, if◌then◌else◌, length,
}
use cy_ph_os.Number.{digit_char, put_digits, put_string, put_number, put_signed, put_prefix}
use cy_ph_os.Number.Power.{pow, pow-pos, pow-suc-div, exponent-lt}
use cy_ph_os.Number.Grow.{Top, grow-ends}

-- The digits of `v`, the digit of the power `k` first.
unfoldable pub chars : ℕ → ℕ → ℕ → List ℕ
chars base zero v = digit_char v ∷ []
chars base (suc k) v = digit_char (v / pow base (suc k)) ∷ chars base k (v % pow base (suc k))

-- What a digit's character stands for.
abbrev pub digit_of : ℕ → ℕ
digit_of c = if ltb c b'a' then c - b'0' else c - b'a' + 10

-- The number that a list of characters stands for, after `acc`.
unfoldable pub value : ℕ → ℕ → List ℕ → ℕ
value base acc [] = acc
value base acc (c ∷ cs) = value base (acc * base + digit_of c) cs

digit_of-digit_char : (d : ℕ) → d < 36 → digit_of (digit_char d) ≡ d
digit_of-digit_char d h = ground arith

rest_lt : (v p base : ℕ) → 0 < p → v < base * p → v / p < base
rest_lt v p base hp h = (div-lt_iff_lt-mul hp).1 h

horner : (a base v p : ℕ) → (a * base + v / p) * p + v % p ≡ a * (base * p) + v
horner a base v p = grind (arith, div-add-mod v p)

pub value-chars :
    (base k v acc : ℕ)
    → 2 ≤ base
    → base ≤ 36
    → v < base * pow base k
    → value base acc (chars base k v) ≡ acc * (base * pow base k) + v
unfolding value chars pow
value-chars base zero v acc h2 h h' =
    let same = digit_of-digit_char v (omega arith) in rw same (omega arith)
value-chars base (suc k) v acc h2 h h' =
    let pos : 0 < pow base (suc k) = pow-pos base (suc k) (omega arith) in
    let digit : v / pow base (suc k) < base = rest_lt v (pow base (suc k)) base pos h' in
    let same = digit_of-digit_char (v / pow base (suc k)) (omega arith) in
    let below : v % pow base (suc k) < pow base (suc k) = mod-lt v pos in
    let rest =
      value-chars base k (v % pow base (suc k)) (acc * base + v / pow base (suc k)) h2 h below in
    ap (λ d. value base (acc * base + d) (chars base k (v % pow base (suc k)))) same
    ∙ rest
    ∙ horner acc base v (pow base (suc k))

length-chars : (base k v : ℕ) → length (chars base k v) ≡ suc k
unfolding chars
length-chars base zero v = refl
length-chars base (suc k) v = ap suc (length-chars base k (v % pow base (suc k)))

exponent : (base v k : ℕ) → 2 ≤ base → v < 2 ^ 64 → Top base v k → k < 64
exponent base v k h hv top = elim top.reached [
  | inl e ↦ omega arith
  | inr le ↦ exponent-lt base k h (omega arith)
]

-- The characters that mark a number's base.
unfoldable pub mark : ℕ → List ℕ
mark base = if base == 8 then b'0' ∷ [] else (if base == 16 then b'0' ∷ b'x' ∷ [] else [])

-- The sign and the magnitude of a word in two's complement.
abbrev pub minus : ℕ → List ℕ
minus ival = if leb (2 ^ 63) ival then b'-' ∷ [] else []

abbrev pub magnitude : ℕ → ℕ
magnitude ival = if leb (2 ^ 63) ival then 2 ^ 64 - ival else ival

module _ {S : Type 0} (put : ℕ → S → S) where
  digits_stop : (fuel base v : ℕ) (s : S) → put_digits put (suc fuel) base v 0 s ≡ some s
  unfolding put_digits
  digits_stop fuel base v s = refl

  digits_next :
      (fuel base v d : ℕ) (s : S)
      → 0 < d
      → v / d < 256
      → put_digits put (suc fuel) base v d s
        ≡ put_digits put fuel base (v % d) (d / base) (put (digit_char (v / d)) s)
  unfolding put_digits
  digits_next fuel base v d s pos h =
      let e : (d == 0) ≡ false = ground arith in
      let same : v / d % 2 ^ 8 ≡ v / d = mod-eq_of_lt h in rw (e, same)

  digits-chars :
      (k f base v : ℕ) (s : S)
      → 2 ≤ base
      → base ≤ 36
      → v < base * pow base k
      → k ≤ f
      → put_digits put (suc (suc f)) base v (pow base k) s
        ≡ some (put_string put (chars base k v) s)
  unfolding pow chars put_string
  digits-chars zero f base v s h2 h lt le =
      let one : v / 1 < 256 = omega arith in
      let same : v / 1 ≡ v = omega arith in
      let none_left : 1 / base ≡ 0 = div-eq_of_lt h2 in
      digits_next (suc f) base v 1 s (omega arith) one
      ∙ rw (same, none_left) (digits_stop f base (v % 1) (put (digit_char v) s))
  digits-chars (suc k) zero base v s h2 h lt le = absurd (omega arith)
  digits-chars (suc k) (suc f) base v s h2 h lt le =
      let pos : 0 < pow base (suc k) = pow-pos base (suc k) (omega arith) in
      let digit : v / pow base (suc k) < base = rest_lt v (pow base (suc k)) base pos lt in
      let below : v % pow base (suc k) < pow base (suc k) = mod-lt v pos in
      digits_next (suc (suc f)) base v (pow base (suc k)) s pos (omega arith)
      ∙ rw (pow-suc-div base k (omega arith)) (
          digits-chars k f base (v % pow base (suc k)) (put (digit_char (v / pow base (suc k))) s)
            h2 h below (omega arith))

  put_prefix-mark : (base : ℕ) (s : S) → put_prefix put base s ≡ put_string put (mark base) s
  unfolding put_prefix put_string mark
  put_prefix-mark base s = elim (Bool-cases (base == 8)) [
    | inl e ↦ rw e refl
    | inr e ↦ rw e (elim (Bool-cases (base == 16)) [ inl e' ↦ rw e' refl | inr e' ↦ rw e' refl ])
  ]

  put_string-append :
      (cs ds : List ℕ) (s : S)
      → put_string put (cs ++ ds) s ≡ put_string put ds (put_string put cs s)
  unfolding put_string
  put_string-append [] ds s = refl
  put_string-append (c ∷ cs) ds s = put_string-append cs ds (put c s)

  -- A number is put as the mark of its base and at most 64 digits that stand for it.
  pub put_number-value :
      (base v : ℕ) (s : S)
      → 2 ≤ base
      → base ≤ 36
      → v < 2 ^ 64
      → (cs : List ℕ) × (put_number put base v s ≡ some (put_string put (mark base ++ cs) s))
        × (value base 0 cs ≡ v)
        × (length cs ≤ 64)
  unfolding put_number
  put_number-value base v s h2 h hv =
      let (k, run, top) = grow-ends base v h2 hv in
      let small = exponent base v k h2 hv top in
      let pos : 0 < pow base k = pow-pos base k (omega arith) in
      let below : v < base * pow base k = (div-lt_iff_lt-mul pos).0 top.below in
      (
        chars base k v,
        rw (put_number, run)
            (digits-chars k 63 base v (put_prefix put base s) h2 h below (omega arith)
              ∙ ap (λ t. some (put_string put (chars base k v) t)) (put_prefix-mark base s)
              ∙ ap some (sym (put_string-append (mark base) (chars base k v) s))),
        value-chars base k v 0 h2 h below ∙ omega arith,
        rw (length-chars base k v) (omega arith),
      )

  -- The same of a word in two's complement: a negative one has a minus sign and its magnitude.
  pub put_signed-value :
      (base ival : ℕ) (s : S)
      → 2 ≤ base
      → base ≤ 36
      → ival < 2 ^ 64
      → (cs : List ℕ) × (put_signed put base ival s
          ≡ some (put_string put (minus ival ++ (mark base ++ cs)) s))
        × (value base 0 cs ≡ magnitude ival)
        × (length cs ≤ 64)
  unfolding put_signed put_string
  put_signed-value base ival s h2 h hv = elim (Bool-cases (leb (2 ^ 63) ival)) [
    | inl e ↦
        let small : 2 ^ 64 - ival < 2 ^ 64 = ground arith in
        let same : (2 ^ 64 - ival) % 2 ^ 64 ≡ 2 ^ 64 - ival = mod-eq_of_lt small in
        rw (e, same) (put_number-value base (2 ^ 64 - ival) (put b'-' s) h2 h small)
    | inr e ↦ rw e (put_number-value base ival s h2 h hv)
  ]
