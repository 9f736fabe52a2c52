-- ===== src/Can/Modes.antt =====
-- arch/armv7/imx6/driver/MCP2515SPI.cc: modes, filters and masks.
pub mod Filters
use cy_ph_os.Base.{
  ℕ, zero, suc, ◌+◌, ◌*◌, ◌/◌, ◌%◌, ◌^◌, Bool, true, false, ◌||◌, Option, none, some, ◌==◌, ltb,
  if◌then◌else◌,
}
use cy_ph_os.Can.{
  ok, wrong_parameter, crc_fail, not_answering, read_register, write_register, bit_modify,
  with_low_id,
}

-- The registers of a filter: their addresses do not follow one another.
abbrev pub filter_sidh : ℕ → ℕ
filter_sidh filterid = if ltb filterid 3 then 4 * filterid else 4 * filterid + 4

abbrev pub filter_sidl : ℕ → ℕ
filter_sidl filterid = filter_sidh filterid + 1

abbrev pub mask_sidh : ℕ → ℕ
mask_sidh maskid = if maskid == 0 then 0x20 else 0x24

abbrev pub mask_sidl : ℕ → ℕ
mask_sidl maskid = if maskid == 0 then 0x21 else 0x25

abbrev pub rx_control : ℕ → ℕ
rx_control buffer = if buffer == 0 then 0x60 else 0x70

module _ {S : Type 0} (transfer : ℕ → ℕ → S → Option ℕ × S) where
  unfoldable pub get_mode : S → ℕ × S
  get_mode s = let r = read_register transfer 0x0E s in (r.0 / 2 ^ 5, r.1)

  -- `while (getMode() != newMode)`, with so many rounds before it gives up.
  unfoldable pub await_mode : ℕ → ℕ → S → Bool × S
  await_mode zero new_mode s = (false, s)
  await_mode (suc rounds) new_mode s =
      let r = get_mode s in
      let rest = await_mode rounds new_mode r.1 in if r.0 == new_mode then (true, r.1) else rest

  -- `setMode`: the result, the member `mode` and the controller; it gives up after 10001 rounds.
  unfoldable pub set_mode : ℕ → ℕ → S → ℕ × ℕ × S
  set_mode new_mode mode s =
      let w = await_mode 10001 new_mode (bit_modify transfer 0x0F 0xE0 (new_mode * 2 ^ 5) s) in
      if ltb 4 new_mode
      then (wrong_parameter, mode, s)
      else (if w.0 then (ok, new_mode, w.1) else (not_answering, mode, w.1))

  -- `setFilter`: `(filterl & 0x1f | filter << 5) & ~(1 << 3)` is as for the identifier of a message.
  unfoldable pub set_filter : ℕ → ℕ → S → ℕ × S
  set_filter filterid filter s =
      let r = read_register transfer (filter_sidl filterid) s in
      let s1 = write_register transfer (filter_sidh filterid) (filter / 8) r.1 in
      let s2 = write_register transfer (filter_sidl filterid) (with_low_id r.0 filter) s1 in
      let rxctrl = 2 ^ 5 + filterid in
      let s3 = write_register transfer (if ltb filterid 2 then 0x60 else 0x70) rxctrl s2 in
      if ltb 5 filterid || ltb 0x7ff filter then (wrong_parameter, s) else (ok, s3)

  unfoldable pub set_mask : ℕ → ℕ → S → ℕ × S
  set_mask maskid mask s =
      let r = read_register transfer (mask_sidl maskid) s in
      let s1 = write_register transfer (mask_sidh maskid) (mask / 8) r.1 in
      let s2 = write_register transfer (mask_sidl maskid) (r.0 % 2 ^ 5 + mask % 8 * 2 ^ 5) s1 in
      if ltb 1 maskid || ltb 0x7ff mask then (wrong_parameter, s) else (ok, s2)

  unfoldable pub set_rx_mode : ℕ → ℕ → S → ℕ × S
  set_rx_mode buffer rxmode s =
      let s1 = bit_modify transfer (rx_control buffer) 0x60 (rxmode * 2 ^ 5) s in
      let r = read_register transfer (rx_control buffer) s1 in
      if ltb 4 rxmode || ltb 1 buffer
      then (wrong_parameter, s)
      else (if r.0 / 2 ^ 5 == rxmode then (ok, r.1) else (crc_fail, r.1))
