-- ===== src/Can.antt =====
-- arch/armv7/imx6/driver/MCP2515SPI.cc and its header: the driver of the CAN controller MCP2515. The
-- parameter `transfer` sends a word of so many bits over the SPI bus and gives what came back, or
-- `none` when nothing did: `writeOutputBuffer` and `readInputBuffer`.
pub mod Controller
pub mod Registers
pub mod Load
pub mod Modes
pub mod Rates
pub mod Start
pub mod Receive
use cy_ph_os.Base.{
  ℕ, zero, suc, ◌+◌, ◌*◌, ◌/◌, ◌%◌, ◌^◌, Bool, true, false, ◌||◌, Option, none, some, ◌==◌, ltb,
  if◌then◌else◌,
}

-- MCP2515_OK and the errors.
abbrev pub ok : ℕ
ok = 0

abbrev pub tx_buffer_busy : ℕ
tx_buffer_busy = 2

abbrev pub wrong_parameter : ℕ
wrong_parameter = 3

abbrev pub crc_fail : ℕ
crc_fail = 4

abbrev pub not_answering : ℕ
not_answering = 5

-- The words of the instructions READ, WRITE, BIT_MODIFY and REQUEST_TO_SEND.
abbrev pub read_word : ℕ → ℕ
read_word address = 3 * 2 ^ 16 + address * 2 ^ 8

abbrev pub write_word : ℕ → ℕ → ℕ
write_word address byte = 2 * 2 ^ 16 + address * 2 ^ 8 + byte

abbrev pub bit_modify_word : ℕ → ℕ → ℕ → ℕ
bit_modify_word address mask byte = 5 * 2 ^ 24 + address * 2 ^ 16 + mask * 2 ^ 8 + byte

abbrev pub send_word : ℕ → ℕ → ℕ → ℕ
send_word buffer0 buffer1 buffer2 = 128 + buffer2 * 4 + buffer1 * 2 + buffer0

-- Bit `k` of a number.
abbrev pub bit : ℕ → ℕ → Bool
bit k n = n / 2 ^ k % 2 == 1

-- The registers of a transmit buffer, and the bit that says in the status that it is pending.
pub record TxRegisters : Type 0 where
  pub data_register : ℕ
  pub sidh_register : ℕ
  pub sidl_register : ℕ
  pub dlc_register : ℕ
  pub txreq : ℕ

abbrev pub tx_registers : ℕ → TxRegisters
tx_registers buffer =
    if buffer == 0
    then record {
      data_register = 0x36;
      sidh_register = 0x31;
      sidl_register = 0x32;
      dlc_register = 0x35;
      txreq = 2;
    }
    else (if buffer == 1
        then record {
          data_register = 0x46;
          sidh_register = 0x41;
          sidl_register = 0x42;
          dlc_register = 0x45;
          txreq = 4;
        }
        else record {
          data_register = 0x56;
          sidh_register = 0x51;
          sidl_register = 0x52;
          dlc_register = 0x55;
          txreq = 6;
        })

-- `(regVal & 0x17) | (messageID << 5)`, of the low three bits of the identifier.
abbrev pub with_low_id : ℕ → ℕ → ℕ
with_low_id reg_val id = reg_val % 8 + reg_val / 16 % 2 * 16 + id % 8 * 32

module _ {S : Type 0} (transfer : ℕ → ℕ → S → Option ℕ × S) where
  unfoldable pub read_register : ℕ → S → ℕ × S
  read_register address s =
      let r = transfer 24 (read_word address) s in (elim r.0 [ none ↦ 0 | some v ↦ v % 2 ^ 8 ], r.1)

  unfoldable pub write_register : ℕ → ℕ → S → S
  write_register address byte s = (transfer 24 (write_word address byte) s).1

  unfoldable pub bit_modify : ℕ → ℕ → ℕ → S → S
  bit_modify address mask byte s = (transfer 32 (bit_modify_word address mask byte) s).1

  -- `readStatus` and `rxStatus`: the controller sends the status twice.
  unfoldable pub checked_status : Option ℕ → ℕ
  checked_status none = not_answering
  checked_status (some v) = if v % 2 ^ 8 == v / 2 ^ 8 % 2 ^ 8 then v / 2 ^ 8 % 2 ^ 8 else crc_fail

  unfoldable pub read_status : S → ℕ × S
  read_status s = let r = transfer 24 (0xA0 * 2 ^ 16) s in (checked_status r.0, r.1)

  unfoldable pub rx_status : S → ℕ × S
  rx_status s = let r = transfer 24 (0xB0 * 2 ^ 16) s in (checked_status r.0, r.1)

  -- `while (readStatus() & txreq)`, with so many rounds before it gives up.
  unfoldable pub wait_ready : ℕ → ℕ → S → Bool × S
  wait_ready zero txreq s = (false, s)
  wait_ready (suc rounds) txreq s =
      let r = read_status s in
      let rest = wait_ready rounds txreq r.1 in if bit txreq r.0 then rest else (true, r.1)

  unfoldable pub write_bytes : ℕ → ℕ → ℕ → (ℕ → ℕ) → S → S
  write_bytes zero i register message s = s
  write_bytes (suc rest) i register message s =
      write_bytes rest (suc i) register message (write_register (register + i) (message i) s)

  unfoldable pub fill_tx_buffer : TxRegisters → (ℕ → ℕ) → ℕ → ℕ → S → S
  fill_tx_buffer t message data_length id s =
      let s1 = write_register t.sidh_register (id / 8) s in
      let r = read_register t.sidl_register s1 in
      let s2 = write_register t.sidl_register (with_low_id r.0 id) r.1 in
      let s3 = write_register t.dlc_register data_length s2 in
      write_bytes data_length 0 t.data_register message s3

  -- `loadTxBuffer`; it gives up in the 51st round.
  unfoldable pub load_tx_buffer : ℕ → (ℕ → ℕ) → ℕ → ℕ → S → ℕ × S
  load_tx_buffer buffer message data_length id s =
      let t = tx_registers buffer in
      let w = wait_ready 51 t.txreq s in
      if (ltb 2 buffer || ltb 8 data_length) || ((data_length == 0) || ltb 0x7ff id)
      then (wrong_parameter, s)
      else (if w.0
          then (ok, fill_tx_buffer t message data_length id w.1)
          else (tx_buffer_busy, w.1))

  unfoldable pub request_to_send : ℕ → ℕ → ℕ → S → ℕ × S
  request_to_send buffer0 buffer1 buffer2 s =
      if ltb 1 buffer0 || (ltb 1 buffer1 || ltb 1 buffer2)
      then (wrong_parameter, s)
      else (ok, (transfer 8 (send_word buffer0 buffer1 buffer2) s).1)

  -- `triggerFunc_sendMessageFromMemory` once the controller is initialised: the buffers in turn.
  unfoldable pub send_message : ℕ → (ℕ → ℕ) → ℕ → ℕ → S → ℕ × S
  send_message use_buffer message data_length id s =
      let loaded = (load_tx_buffer use_buffer message data_length id s).1 in
      let sent =
        (if use_buffer == 0
          then request_to_send 1 0 0 loaded
          else (if use_buffer == 1
              then request_to_send 0 1 0 loaded
              else (if use_buffer == 2 then request_to_send 0 0 1 loaded else (ok, loaded)))).1 in
      ((use_buffer + 1) % 3, sent)

  -- `receivedMessageID`: 0 stands for no message.
  unfoldable pub received_message_id : ℕ → S → ℕ × S
  received_message_id buffer s =
      let st = rx_status s in
      let sidh = if buffer == 0 then 0x61 else 0x71 in
      let sidl = if buffer == 0 then 0x62 else 0x72 in
      let high = read_register sidh st.1 in
      let low = read_register sidl high.1 in
      if ltb 1 buffer
      then (0, s)
      else (if bit (if buffer == 0 then 6 else 7) st.0
          then (high.0 * 8 + low.0 / 32, low.1)
          else (0, st.1))

  unfoldable pub get_rx_data_length : ℕ → S → ℕ × S
  get_rx_data_length buffer s =
      let r = read_register (if buffer == 0 then 0x65 else 0x75) s in
      if ltb 1 buffer then (0, s) else (r.0 % 16, r.1)
