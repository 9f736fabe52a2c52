-- ===== src/Examples/Controllers.antt =====
-- The CAN controller at concrete inputs: a controller whose registers keep what is written.
use native.Mathlib.Nat.{mod-eq_of_lt}
use cy_ph_os.Base.{
  ℕ, ◌*◌, ◌/◌, ◌%◌, ◌^◌, ◌<◌, ◌≡◌, ◌⊎◌, refl, ◌∙◌, ◌≢◌, ==_refl, test_of_ne, ◌+◌, inl, inr, true,
  false, Option, some, none, arith, if◌then◌else◌, ◌==◌, update, update_at, update_ne, Bool-cases,
  eq_of_test, ne_of_test,
}
use cy_ph_os.Can.{
  read_word, write_word, tx_registers, load_tx_buffer, bit, ok, wrong_parameter, tx_buffer_busy,
}
use cy_ph_os.Can.Controller.{IsPlain, IsMcp2515, after}
use cy_ph_os.Can.Registers.{pending}
use cy_ph_os.Can.Load.{InRange, Filled, load_tx_buffer-Filled}
use cy_ph_os.Can.Rates.{
  Cnf, cnf, rate_config, rate_config-bit_time, bit_time, bits_of, bits, periods,
}

abbrev pub simulated : ℕ → ℕ → (ℕ → ℕ) → Option ℕ × (ℕ → ℕ)
simulated length word s =
    if word / 2 ^ 16 == 3
    then (some (s (word / 2 ^ 8 % 2 ^ 8) % 256), s)
    else (if word / 2 ^ 16 == 2
        then (none, update s (word / 2 ^ 8 % 2 ^ 8) (word % 2 ^ 8))
        else (some 0, s))

pub simulated_read :
    (s : ℕ → ℕ) (a : ℕ) → a < 256 → simulated 24 (read_word a) s ≡ (some (s a % 256), s)
simulated_read s a h =
    let op : read_word a / 2 ^ 16 ≡ 3 = omega arith in
    let at : read_word a / 2 ^ 8 % 2 ^ 8 ≡ a = omega arith in rw (op, at) refl

pub simulated_write :
    (s : ℕ → ℕ) (a d b : ℕ)
    → a < 256
    → d < 256
    → (simulated 24 (write_word a d) s).1 b % 256 ≡ (if b == a then d else s b % 256)
simulated_write s a d b h h' =
    let op : write_word a d / 2 ^ 16 ≡ 2 = omega arith in
    let at : write_word a d / 2 ^ 8 % 2 ^ 8 ≡ a = omega arith in
    let byte : write_word a d % 2 ^ 8 ≡ d = omega arith in
    rw (op, at, byte)
      (elim (Bool-cases (b == a)) [
        | inl e ↦ rw (e, update_at s a d (eq_of_test b a e)) (mod-eq_of_lt h')
        | inr e ↦ rw (e, update_ne s a d (ne_of_test b a e)) refl
      ])

pub simulated_at :
    (s : ℕ → ℕ) (a d : ℕ) → IsPlain a → d < 256 → (simulated 24 (write_word a d) s).1 a % 256 ≡ d
simulated_at s a d plain h = simulated_write s a d a (omega arith) h ∙ rw (==_refl a) refl

pub simulated_ne :
    (s : ℕ → ℕ) (a d b : ℕ)
    → IsPlain a
    → d < 256
    → b ≢ a
    → (simulated 24 (write_word a d) s).1 b % 256 ≡ s b % 256
simulated_ne s a d b plain h ne =
    simulated_write s a d b (omega arith) h ∙ rw (test_of_ne b a ne) refl

pub bit_zero : (k : ℕ) → bit k 0 ≡ false
bit_zero k = ground arith

abbrev pub simulated_chip : IsMcp2515 simulated
simulated_chip = record {
  register = λ s a. s a % 256;
  status = λ s. 0;
  polled = λ s. s;
  writable = λ s a. true;
  kept = λ a d. d;
  byte = λ s a. omega arith;
  status-lt = λ s. omega arith;
  reads = simulated_read;
  writes = λ s a d plain h free. simulated_at s a d plain h;
  keeps_others = λ s a d b plain plain' h ne. simulated_ne s a d b plain h ne;
  still_writable = λ s a d b plain aside h free. refl;
  configured = λ s a mode lt plain. refl;
  idle = λ s n i h h' free. refl;
  rests = λ s n h free. bit_zero (2 + 2 * n);
  answers = λ s. refl;
  keeps_sidh = λ n d h h'. refl;
  keeps_sidl = λ n d h h'. refl;
  keeps_length = λ n d h h'. omega arith;
  keeps_data = λ n i d h h' h''. refl;
}

abbrev registers : ℕ → ℕ
registers = λ a. 0

abbrev message : ℕ → ℕ
message = λ j. 7

load_tx_buffer-Filled_example :
    ((InRange 1 8 0x123 → ⊥)
      × (load_tx_buffer simulated 1 message 8 0x123 registers ≡ (wrong_parameter, registers)))
    ⊎ (InRange 1 8 0x123
        × ((((k : ℕ)
                → k < 51
                → pending simulated simulated_chip (tx_registers 1).txreq k registers ≡ true)
              × (load_tx_buffer simulated 1 message 8 0x123 registers
                  ≡ (tx_buffer_busy, after simulated simulated_chip 51 registers)))
            ⊎ ((k : ℕ) × (k < 51)
                × (pending simulated simulated_chip (tx_registers 1).txreq k registers ≡ false)
                × ((load_tx_buffer simulated 1 message 8 0x123 registers).0 ≡ ok)
                × Filled simulated simulated_chip
                    (tx_registers 1)
                    message
                    8
                    0x123
                    (load_tx_buffer simulated 1 message 8 0x123 registers).1)))
load_tx_buffer-Filled_example =
    load_tx_buffer-Filled simulated simulated_chip 1 message 8 0x123 registers (λ j. omega arith)

abbrev half_megabit : Cnf
half_megabit = cnf 13 0x00 0x90 0x82

half_megabit_config : rate_config 13 2 ≡ some half_megabit
unfolding rate_config cy_ph_os.Can.Rates.lookup_rate
half_megabit_config = refl

rate_config-bit_time_example :
    (◌≡◌ {A = ℕ} 2 1) × (◌≡◌ {A = ℕ} 13 7) ⊎ (bit_time half_megabit * bits_of 13 bits ≡ periods 2)
rate_config-bit_time_example = rate_config-bit_time 13 2 half_megabit half_megabit_config
