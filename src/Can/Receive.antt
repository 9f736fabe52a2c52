-- ===== src/Can/Receive.antt =====
-- arch/armv7/imx6/driver/MCP2515SPI.cc: messages that arrive. The queues of events are the lists that
-- they hold; an event that is triggered is output with its argument, the line of the message.
pub mod Bytes
pub mod Deliver
pub mod Pool
use cy_ph_os.Base.{
  ℕ, zero, suc, ◌+◌, ◌-◌, ◌*◌, ◌/◌, ◌%◌, ◌^◌, Bool, true, false, ◌||◌, Option, none, some, ◌==◌,
  ltb, List, [], ◌∷◌, ◌++◌, has, if◌then◌else◌, update,
}
use cy_ph_os.Queue.{Ptr, null}
use cy_ph_os.Queue.Model.{append_new, without}
use cy_ph_os.CanBuffer.{CanBuffer, Message, enter_msg, read_msg}
use cy_ph_os.Can.{
  ok, wrong_parameter, read_register, bit_modify, rx_status, received_message_id,
  get_rx_data_length, bit, write_register, send_message,
}

-- mRegisteredEvents, mUnregisteredEvents and the messageID of the events.
pub record CanEvents : Type 0 where
  pub registered : List Ptr
  pub unregistered : List Ptr
  pub message_id : Ptr → ℕ

-- `activateCANEvent`; null when the pool is empty.
unfoldable pub activate_can_event : ℕ → CanEvents → Ptr × CanEvents
activate_can_event id c = elim c.unregistered [
  | [] ↦ (null, c)
  | event ∷ rest ↦ (
    event,
    record {
      registered = append_new c.registered event;
      unregistered = rest;
      message_id = update c.message_id event id;
    },
  )
]

unfoldable pub deactivate_can_event : Ptr → CanEvents → CanEvents
deactivate_can_event event c = record c {
  registered = without event c.registered;
  unregistered = append_new c.unregistered event;
}

-- An event and the argument that it is triggered with.
abbrev pub Triggered : Type 0
Triggered = Ptr × ℕ

-- `uint32_t line`, of the int that `enterMsg` gives.
abbrev pub line_word : Option ℕ → ℕ
line_word none = 2 ^ 32 - 1
line_word (some n) = n

module _ {S : Type 0} (transfer : ℕ → ℕ → S → Option ℕ × S) where
  -- The loop of `receive`.
  unfoldable pub read_bytes : ℕ → ℕ → ℕ → (ℕ → ℕ) → S → (ℕ → ℕ) × S
  read_bytes zero i register message s = (message, s)
  read_bytes (suc rest) i register message s =
      let r = read_register transfer (register + i) s in
      read_bytes rest (suc i) register (update message i r.0) r.1

  unfoldable pub receive : ℕ → (ℕ → ℕ) → ℕ → S → ℕ × (ℕ → ℕ) × S
  receive buffer message data_length s =
      let rxbndm = if buffer == 0 then 0x66 else 0x76 in
      let read = read_bytes data_length 0 rxbndm message s in
      let cleared = bit_modify transfer 0x2C (if buffer == 0 then 1 else 2) 0 read.1 in
      if ltb 1 buffer || (ltb 8 data_length || (data_length == 0))
      then (wrong_parameter, message, s)
      else (ok, read.0, cleared)

  -- What `emitCANEvent` leaves: the events that it triggers, the messages and the controller.
  pub record Emission : Type 0 where
    pub success : Bool
    pub triggered : List Triggered
    pub messages : CanBuffer
    pub chip : S

  -- `emitCANEvent`, from the array `buffer` on the stack and the events that are left; `none` is a
  -- lack of fuel in `enterMsg`.
  unfoldable pub emit_can_event :
      List Ptr → (Ptr → ℕ) → ℕ → ℕ → (ℕ → ℕ) → CanBuffer → S → Option Emission
  emit_can_event [] ids message_id buffer_id buffer b s =
      some (record { success = false; triggered = []; messages = b; chip = s })
  emit_can_event (event ∷ events) ids message_id buffer_id buffer b s =
      let passed = emit_can_event events ids message_id buffer_id buffer b s in
      let data_length = get_rx_data_length transfer buffer_id s in
      let received = receive buffer_id buffer data_length.0 data_length.1 in
      let entered = enter_msg received.1 data_length.0 message_id b in
      if ids event == message_id
      then elim entered [
        | none ↦ none
        | some l ↦ elim (emit_can_event events ids message_id buffer_id received.1 l.1 received.2) [
          | none ↦ none
          | some rest ↦
              some (record rest {
                success = true;
                triggered = (event, line_word l.0) ∷ rest.triggered;
              })
        ]
      ]
      else passed

  -- One buffer in a round of the loops of the interrupt and of the periodic task; `buffer` is what
  -- stands on the stack.
  unfoldable pub check_buffer :
      CanEvents → ℕ → (ℕ → ℕ) → CanBuffer → S → Option (List Triggered × CanBuffer × S)
  check_buffer c buffer_id buffer b s =
      let id = received_message_id transfer buffer_id s in
      if id.0 == 0
      then some ([], b, id.1)
      else elim (emit_can_event c.registered c.message_id id.0 buffer_id buffer b id.1) [
        | none ↦ none
        | some e ↦ some (
          e.triggered,
          e.messages,
          bit_modify transfer 0x2C (if buffer_id == 0 then 1 else 2) 0 e.chip,
        )
      ]

  unfoldable pub check_round :
      CanEvents → (ℕ → ℕ) → CanBuffer → S → Option (List Triggered × CanBuffer × S)
  check_round c buffer b s = elim (check_buffer c 0 buffer b s) [
    | none ↦ none
    | some first ↦ elim (check_buffer c 1 buffer first.1 first.2) [
      | none ↦ none
      | some second ↦ some (first.0 ++ second.0, second.1, second.2)
    ]
  ]

  -- The loop of the interrupt and of the periodic task, from the status that was read last: rounds as
  -- long as a buffer is full.
  unfoldable pub poll :
      ℕ → CanEvents → (ℕ → ℕ) → ℕ → CanBuffer → S → Option (List Triggered × CanBuffer × S)
  poll zero c buffer status b s = none
  poll (suc fuel) c buffer status b s =
      if bit 6 status || bit 7 status
      then elim (check_round c buffer b s) [
        | none ↦ none
        | some done ↦
            let next = rx_status transfer done.2 in
            elim (poll fuel c buffer next.0 done.1 next.1) [
              | none ↦ none
              | some rest ↦ some (done.0 ++ rest.0, rest.1, rest.2)
            ]
      ]
      else some ([], b, s)

  -- The trigger `interrupt`.
  unfoldable pub interrupt :
      ℕ → CanEvents → (ℕ → ℕ) → CanBuffer → S → Option (List Triggered × CanBuffer × S)
  interrupt fuel c buffer b s =
      let status = rx_status transfer s in poll fuel c buffer status.0 b status.1

  -- The trigger `PeriodicTask`: the error counters are reset first, and the status is read once more
  -- for the output. The GPIO pin is only printed.
  unfoldable pub periodic_task :
      ℕ → CanEvents → (ℕ → ℕ) → CanBuffer → S → Option (List Triggered × CanBuffer × S)
  periodic_task fuel c buffer b s =
      let status = rx_status transfer s in
      let tx_error = read_register transfer 0x1C status.1 in
      let rx_error = read_register transfer 0x1D tx_error.1 in
      let s1 = write_register transfer 0x1C 0 rx_error.1 in
      let s2 = write_register transfer 0x1D 0 s1 in
      let printed = rx_status transfer s2 in poll fuel c buffer status.0 b printed.1

  -- The trigger `sendMessage`: a message that a component has left in the transmit buffer.
  unfoldable pub send_from_buffer : ℕ → (ℕ → ℕ) → Bool → ℕ → CanBuffer → S → ℕ × CanBuffer × S
  send_from_buffer arg array can_initialised use_buffer b s =
      let r = read_msg (arg % 2 ^ 8) array b in
      elim r.0 [
        | none ↦ (use_buffer, r.1, s)
        | some m ↦
            let sent = send_message transfer use_buffer m.bytes m.length m.id s in
            if can_initialised then (sent.0, r.1, sent.1) else (use_buffer, r.1, s)
      ]
