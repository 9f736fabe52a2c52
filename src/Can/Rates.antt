-- ===== src/Can/Rates.antt =====
-- `configRate`: the registers of the bit timing for a speed and a clock.
use mathlib.Core.Bool.{true≢false}
use mathlib.Core.Option.{some-injective}
use cy_ph_os.Base.{
  ℕ, zero, suc, ◌+◌, ◌*◌, ◌/◌, ◌%◌, ◌≡◌, ◌≢◌, refl, sym, ap, ◌∙◌, Bool, true, false, ◌&&◌, ◌||◌,
  Option, some, none, List, [], ◌∷◌, if◌then◌else◌, ◌==◌, Bool-cases, inl, inr, ◌⊎◌, eq_of_test,
  ne_of_test,
}
use cy_ph_os.Can.{write_register, ok, wrong_parameter}

-- CNF1, CNF2 and CNF3 for a speed.
pub record Cnf : Type 0 where
  pub speed : ℕ
  pub cnf1 : ℕ
  pub cnf2 : ℕ
  pub cnf3 : ℕ

abbrev pub cnf : ℕ → ℕ → ℕ → ℕ → Cnf
cnf speed c1 c2 c3 = record { speed = speed; cnf1 = c1; cnf2 = c2; cnf3 = c3 }

abbrev pub rates_8mhz : List Cnf
rates_8mhz =
    cnf 1 0x1F 0xBF 0x87
    ∷ cnf 2 0x0F 0xBF 0x87
    ∷ cnf 3 0x07 0xBF 0x87
    ∷ cnf 4 0x07 0xA4 0x84
    ∷ cnf 5 0x47 0xE2 0x85
    ∷ cnf 6 0x03 0xBF 0x87
    ∷ cnf 7 0x03 0xB4 0x86
    ∷ cnf 8 0x01 0xBF 0x87
    ∷ cnf 9 0x01 0xB4 0x86
    ∷ cnf 10 0x01 0xB1 0x85
    ∷ cnf 11 0x00 0xB4 0x86
    ∷ cnf 12 0x00 0xB1 0x85
    ∷ cnf 13 0x00 0x90 0x82
    ∷ cnf 14 0x00 0x80 0x80
    ∷ []

-- CAN_50KBPS leaves cfg1 as it was set before the switch.
abbrev pub rates_16mhz : List Cnf
rates_16mhz =
    cnf 1 0x3F 0xFF 0x87
    ∷ cnf 2 0x1F 0xFF 0x87
    ∷ cnf 3 0x0F 0xFF 0x87
    ∷ cnf 5 0x4E 0xF1 0x85
    ∷ cnf 6 0x07 0xFF 0x87
    ∷ cnf 7 0x1F 0xFA 0x87
    ∷ cnf 8 0x03 0xFF 0x87
    ∷ cnf 9 0x03 0xFA 0x87
    ∷ cnf 10 0x03 0xF0 0x86
    ∷ cnf 11 0x01 0xFA 0x87
    ∷ cnf 12 0x41 0xF1 0x85
    ∷ cnf 13 0x00 0xF0 0x86
    ∷ cnf 14 0x00 0xD0 0x82
    ∷ []

abbrev pub rates_20mhz : List Cnf
rates_20mhz =
    cnf 6 0x09 0xFF 0x87
    ∷ cnf 7 0x09 0xFA 0x87
    ∷ cnf 8 0x04 0xFF 0x87
    ∷ cnf 9 0x04 0xFA 0x87
    ∷ cnf 10 0x03 0xFA 0x87
    ∷ cnf 11 0x01 0xFF 0x87
    ∷ cnf 12 0x41 0xFB 0x86
    ∷ cnf 13 0x00 0xFA 0x87
    ∷ cnf 14 0x00 0xD9 0x82
    ∷ []

unfoldable pub lookup_rate : ℕ → List Cnf → Option Cnf
lookup_rate speed [] = none
lookup_rate speed (c ∷ cs) =
    let rest = lookup_rate speed cs in if c.speed == speed then some c else rest

-- MCP_20MHZ is 0, MCP_16MHZ is 1 and MCP_8MHZ is 2.
unfoldable pub rate_config : ℕ → ℕ → Option Cnf
rate_config speed clock =
    if clock == 2
    then lookup_rate speed rates_8mhz
    else (if clock == 1
        then lookup_rate speed rates_16mhz
        else (if clock == 0 then lookup_rate speed rates_20mhz else none))

module _ {S : Type 0} (transfer : ℕ → ℕ → S → Option ℕ × S) where
  unfoldable pub config_rate : ℕ → ℕ → S → ℕ × S
  config_rate speed clock s = elim (rate_config speed clock) [
    | none ↦ (wrong_parameter, s)
    | some c ↦ (
      ok,
      write_register transfer 0x28 c.cnf3
          (write_register transfer 0x29 c.cnf2 (write_register transfer 0x2A c.cnf1 s)),
    )
  ]

-- The controller's bit time in periods of its oscillator: the prescaler of CNF1, and the quanta of the
-- synchronisation, propagation and phase segments.
abbrev pub bit_time : Cnf → ℕ
bit_time c =
    2 * (c.cnf1 % 64 + 1) * (1 + (c.cnf2 % 8 + 1) + (c.cnf2 / 8 % 8 + 1) + (c.cnf3 % 8 + 1))

-- The oscillator's periods in three seconds.
abbrev pub periods : ℕ → ℕ
periods clock = if clock == 2 then 24000000 else (if clock == 1 then 48000000 else 60000000)

-- The bits that a speed sends in three seconds.
abbrev pub bits : List ℕ
bits =
    12288 ∷ 15000 ∷ 30000 ∷ 60000 ∷ 93750 ∷ 100000 ∷ 120000 ∷ 150000 ∷ 240000 ∷ 300000 ∷ 375000
    ∷ 600000 ∷ 750000 ∷ 1500000 ∷ 3000000 ∷ []

abbrev pub bits_of : ℕ → List ℕ → ℕ
bits_of speed [] = 0
bits_of zero (b ∷ bs) = b
bits_of (suc speed) (b ∷ bs) = bits_of speed bs

abbrev exact : ℕ → Cnf → Bool
exact clock c = bit_time c * bits_of c.speed bits == periods clock

abbrev all_exact : ℕ → ℕ → List Cnf → Bool
all_exact clock but [] = true
all_exact clock but (c ∷ cs) = ((c.speed == but) || exact clock c) && all_exact clock but cs

abbrev is_none : Option Cnf → Bool
is_none none = true
is_none (some c) = false

rest_of : (a b : Bool) → (a && b) ≡ true → b ≡ true
rest_of true b h = h
rest_of false b h = absurd (true≢false (sym h))

exact_of : (n but : ℕ) (a b : Bool) → n ≢ but → (((n == but) || a) && b) ≡ true → a ≡ true
exact_of n but true b ne h = refl
exact_of n but false b ne h = elim (Bool-cases (n == but)) [
  | inl e ↦ absurd (ne (eq_of_test n but e))
  | inr e ↦ absurd (true≢false (sym (rw e at h)))
]

lookup-exact :
    (clock but speed : ℕ) (cs : List Cnf) (c : Cnf)
    → all_exact clock but cs ≡ true
    → lookup_rate speed cs ≡ some c
    → (speed ≢ but)
    → bit_time c * bits_of speed bits ≡ periods clock
unfolding lookup_rate
lookup-exact clock but speed [] c h e ne = absurd (true≢false (ap is_none e))
lookup-exact clock but speed (d ∷ cs) c h e ne = elim (Bool-cases (d.speed == speed)) [
  | inl t ↦
      let same : d ≡ c = some-injective d c (rw t at e) in
      let at = eq_of_test d.speed speed t in
      let fine : (bit_time d * bits_of d.speed bits == periods clock) ≡ true =
        exact_of d.speed but (exact clock d) (all_exact clock but cs) (λ e'. ne (sym at ∙ e')) h in
      rw (← same, ← at) (eq_of_test (bit_time d * bits_of d.speed bits) (periods clock) fine)
  | inr t ↦
      lookup-exact clock but speed cs c
        (rest_of ((d.speed == but) || exact clock d) (all_exact clock but cs) h) (rw t at e) ne
]

lookup_none_8mhz : lookup_rate 0 rates_8mhz ≡ none
unfolding lookup_rate
lookup_none_8mhz = refl

lookup_none_20mhz : lookup_rate 0 rates_20mhz ≡ none
unfolding lookup_rate
lookup_none_20mhz = refl

-- A table that has no exception, and nothing for CAN_4K096BPS.
always :
    (clock speed : ℕ) (cs : List Cnf) (c : Cnf)
    → all_exact clock 0 cs ≡ true
    → lookup_rate 0 cs ≡ none
    → lookup_rate speed cs ≡ some c
    → bit_time c * bits_of speed bits ≡ periods clock
always clock speed cs c h out e = elim (Bool-cases (speed == 0)) [
  | inl t ↦
      let z = eq_of_test speed 0 t in
      absurd (true≢false (ap is_none (sym out ∙ ap (λ n. lookup_rate n cs) (sym z) ∙ e)))
  | inr t ↦ lookup-exact clock 0 speed cs c h e (ne_of_test speed 0 t)
]

-- Whenever `configRate` has a configuration for a speed and a clock, other than 50 kbit/s at 16
-- MHz, the bit time of the registers that it writes is exactly the one of that speed: the bit time
-- times the bits of three seconds is the number of the oscillator's periods in three seconds.
pub rate_config-bit_time :
    (speed clock : ℕ) (c : Cnf)
    → rate_config speed clock ≡ some c
    → (clock ≡ 1) × (speed ≡ 7) ⊎ (bit_time c * bits_of speed bits ≡ periods clock)
unfolding rate_config
rate_config-bit_time speed clock c e = elim (Bool-cases (clock == 2)) [
  | inl t ↦
      inr (
        rw (eq_of_test clock 2 t) (always 2 speed rates_8mhz c refl (lookup_none_8mhz) (rw t at e)))
  | inr t ↦ elim (Bool-cases (clock == 1)) [
    | inl t1 ↦ elim (Bool-cases (speed == 7)) [
      | inl t7 ↦ inl (eq_of_test clock 1 t1, eq_of_test speed 7 t7)
      | inr t7 ↦ inr (
          rw (eq_of_test clock 1 t1)
            (lookup-exact 1 7 speed rates_16mhz c refl (rw (t, t1) at e) (ne_of_test speed 7 t7)))
    ]
    | inr t1 ↦ elim (Bool-cases (clock == 0)) [
      | inl t0 ↦ inr (
          rw (eq_of_test clock 0 t0)
            (always 0 speed rates_20mhz c refl lookup_none_20mhz (rw (t, t1, t0) at e)))
      | inr t0 ↦ absurd (true≢false (ap is_none (rw (t, t1, t0) at e)))
    ]
  ]
]
