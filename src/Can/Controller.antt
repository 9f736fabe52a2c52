-- ===== src/Can/Controller.antt =====
-- What the driver relies on of the controller: its registers, what may be written when, and that it
-- answers.
use cy_ph_os.Base.{
  ℕ, zero, suc, ◌+◌, ◌*◌, ◌/◌, ◌%◌, ◌^◌, ◌<◌, ◌≤◌, ◌≡◌, ◌≢◌, ◌⊎◌, refl, Bool, true, false, Option,
  some,
}
use cy_ph_os.Can.{read_word, write_word, bit}

-- The address of a register that stands in the register file once: the columns 0xE and 0xF have the
-- CANSTAT and the CANCTRL register in every row.
abbrev pub IsPlain : ℕ → Type 0
IsPlain a = (a < 0x80) × (a % 16 < 14)

-- `register s a` is the register `a`, `status s` the status of the transmit and receive buffers and
-- `polled s` the controller after it was asked for it: transmissions may have ended. A register that
-- is writable keeps of a byte what it implements: `kept a d`.
pub record IsMcp2515 {S : Type 0} (transfer : ℕ → ℕ → S → Option ℕ × S) : Type 0 where
  pub register : S → ℕ → ℕ
  pub status : S → ℕ
  pub polled : S → S
  pub writable : S → ℕ → Bool
  pub kept : ℕ → ℕ → ℕ
  pub byte : (s : S) (a : ℕ) → register s a < 256
  pub status-lt : (s : S) → status s < 256
  pub reads : (s : S) (a : ℕ) → a < 256 → transfer 24 (read_word a) s ≡ (some (register s a), s)
  pub writes :
      (s : S) (a d : ℕ)
      → IsPlain a
      → d < 256
      → writable s a ≡ true
      → register (transfer 24 (write_word a d) s).1 a ≡ kept a d
  pub keeps_others :
      (s : S) (a d b : ℕ)
      → IsPlain a
      → IsPlain b
      → d < 256
      → b ≢ a
      → register (transfer 24 (write_word a d) s).1 b ≡ register s b
  -- Only a write of CANCTRL or of a TXBnCTRL closes registers.
  pub still_writable :
      (s : S) (a d b : ℕ)
      → IsPlain a
      → (a < 0x30) ⊎ (0 < a % 16)
      → d < 256
      → writable s b ≡ true
      → writable (transfer 24 (write_word a d) s).1 b ≡ true
  -- The filters and masks are open in the configuration mode, which CANSTAT tells.
  pub configured :
      (s : S) (a : ℕ) → register s 0x0E / 32 ≡ 4 → a < 0x28 → IsPlain a → writable s a ≡ true
  -- The registers TXBnSIDH to TXBnD7 are open while the buffer is not pending.
  pub idle :
      (s : S) (n i : ℕ)
      → n < 3
      → i < 13
      → bit (2 + 2 * n) (status s) ≡ false
      → writable s (0x31 + 0x10 * n + i) ≡ true
  pub answers :
      (s : S) → transfer 24 (0xA0 * 2 ^ 16) s ≡ (some (status s * 256 + status s), polled s)
  -- A buffer becomes pending on request only.
  pub rests :
      (s : S) (n : ℕ)
      → n < 3
      → bit (2 + 2 * n) (status s) ≡ false
      → bit (2 + 2 * n) (status (polled s)) ≡ false
  -- TXBnSIDH and TXBnDm keep the whole byte, TXBnSIDL the bits of the identifier, TXBnDLC the length.
  pub keeps_sidh : (n d : ℕ) → n < 3 → d < 256 → kept (0x31 + 0x10 * n) d ≡ d
  pub keeps_sidl : (n d : ℕ) → n < 3 → d < 256 → kept (0x32 + 0x10 * n) d / 32 ≡ d / 32
  pub keeps_length : (n d : ℕ) → n < 3 → d ≤ 8 → kept (0x35 + 0x10 * n) d % 16 ≡ d
  pub keeps_data : (n i d : ℕ) → n < 3 → i < 8 → d < 256 → kept (0x36 + 0x10 * n + i) d ≡ d

module _ {S : Type 0} (transfer : ℕ → ℕ → S → Option ℕ × S) (chip : IsMcp2515 transfer) where
  -- The controller after it was asked for its status so many times.
  unfoldable pub after : ℕ → S → S
  after zero s = s
  after (suc k) s = after k (chip.polled s)

  pub after_suc : (k : ℕ) (s : S) → after (suc k) s ≡ chip.polled (after k s)
  unfolding after
  after_suc zero s = refl
  after_suc (suc k) s = after_suc k (chip.polled s)
