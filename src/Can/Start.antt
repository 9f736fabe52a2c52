-- ===== src/Can/Start.antt =====
-- arch/armv7/imx6/driver/MCP2515SPI.cc: how the controller is started.
use cy_ph_os.Base.{ℕ, Bool, true, Option}
use cy_ph_os.Can.{write_register, bit_modify}
use cy_ph_os.Can.Modes.{set_mode, set_filter, set_mask}
use cy_ph_os.Can.Rates.{config_rate}

-- What `start` leaves: the members `mode` and `canInitialised`, and the controller.
pub record Started (S : Type 0) : Type 0 where
  pub mode : ℕ
  pub can_initialised : Bool
  pub chip : S

module _ {S : Type 0} (transfer : ℕ → ℕ → S → Option ℕ × S) where
  -- `resetController`: 500 kbit/s at 8 MHz; it goes on when the mode is not reached.
  unfoldable pub reset_controller : ℕ → S → ℕ × S
  reset_controller mode s =
      let s1 = (transfer 8 0xC0 s).1 in
      let s2 = bit_modify transfer 0x2C 0x1 0 s1 in
      let s3 = bit_modify transfer 0x2C 0x2 0 s2 in
      let configured = set_mode transfer 4 mode s3 in
      (configured.1, (config_rate transfer 13 2 configured.2).1)

  -- The calls of `setFilter` and `setMask` that reset the filters and masks.
  unfoldable pub reset_filters : S → S
  reset_filters s =
      let s1 = (set_filter transfer 1 0 (set_filter transfer 0 0 s).1).1 in
      let s2 = (set_filter transfer 3 0 (set_filter transfer 2 0 s1).1).1 in
      let s3 = (set_filter transfer 5 0 (set_filter transfer 4 0 s2).1).1 in
      (set_mask transfer 1 0 (set_mask transfer 0 0 s3).1).1

  -- The trigger `start`, up to the subscription of the interrupt.
  unfoldable pub start : ℕ → S → Started S
  start mode s =
      let (mode1, s1) = reset_controller mode s in
      let configured = set_mode transfer 4 mode1 s1 in
      let s2 = (config_rate transfer 13 2 configured.2).1 in
      let s3 = reset_filters s2 in
      let s4 = (set_filter transfer 0 0x7FF s3).1 in
      let s5 = write_register transfer 0x2B 0x3 s4 in
      let normal = set_mode transfer 0 configured.1 s5 in
      record { mode = normal.1; can_initialised = true; chip = normal.2 }
