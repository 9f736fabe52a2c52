-- ===== src/Can/Receive/Deliver.antt =====
-- `emitCANEvent`: who is told of a message, and with what.
use cy_ph_os.Base.{
  ℕ, ◌%◌, ◌<◌, ◌≤◌, ◌≡◌, ◌≢◌, refl, ◌∙◌, ap, Bool, true, false, not, Option, none, some,
  if◌then◌else◌, ◌==◌, arith, Bool-cases, inl, inr, List, [], ◌∷◌, map,
}
use cy_ph_os.Queue.{Ptr}
use cy_ph_os.Ring.Search.{Found}
use cy_ph_os.CanBuffer.{CanBuffer, line_count, enter_msg}
use cy_ph_os.CanBuffer.Messages.{ReadBack, enter_msg-ReadBack}
use cy_ph_os.Can.{get_rx_data_length}
use cy_ph_os.Can.Controller.{IsMcp2515}
use cy_ph_os.Can.Receive.{Triggered, line_word, receive, Emission, emit_can_event}
use cy_ph_os.Can.Receive.Bytes.{
  ClearsFlags, IsReceived, data_register, length_register, get_rx_data_length_lem, receive_lem,
}

-- The registered events that have the identifier, in order.
abbrev pub subscribed : (Ptr → ℕ) → ℕ → List Ptr → List Ptr
subscribed ids id [] = []
subscribed ids id (event ∷ events) =
    if ids event == id then event ∷ subscribed ids id events else subscribed ids id events

abbrev pub is_empty : List Ptr → Bool
is_empty [] = true
is_empty (event ∷ events) = false

-- The message is entered once for each event that is triggered, each time in a line that was free or,
-- when all were used, in the one entered last; at the line, which is the argument of the event,
-- `readMsg` into `array` gives the bytes, the length and the identifier.
abbrev pub Delivered : (ℕ → ℕ) → ℕ → ℕ → (ℕ → ℕ) → CanBuffer → List Triggered → CanBuffer → Type 0
Delivered bytes data_length id array b [] b' = b' ≡ b
Delivered bytes data_length id array b (told ∷ rest) b' =
    (b1 : CanBuffer) × Found line_count (λ j. (b.lines j).is_used) b.write_position told.1
    × ((j : ℕ) → j ≢ told.1 → b1.lines j ≡ b.lines j)
    × ReadBack bytes data_length id told.1 array b1
    × Delivered bytes data_length id array b1 rest b'

-- A message that is read back is the one that another array has, as far as it goes.
ReadBack-same :
    (bytes bytes' : ℕ → ℕ) (data_length id n : ℕ) (array : ℕ → ℕ) (b : CanBuffer)
    → ((j : ℕ) → j < data_length → bytes j ≡ bytes' j)
    → ReadBack bytes data_length id n array b
    → ReadBack bytes' data_length id n array b
ReadBack-same bytes bytes' data_length id n array b same back = record {
  read = back.read;
  left = back.left;
  run = back.run;
  bytes = λ j lt. back.bytes j lt ∙ same j lt;
  length = back.length;
  id = back.id;
  freed = back.freed;
}

module _ {S : Type 0} (transfer : ℕ → ℕ → S → Option ℕ × S) (chip : IsMcp2515 transfer)
    (flags : ClearsFlags transfer chip) where
  -- The receive buffers are as before.
  abbrev pub SameBuffers : S → S → Type 0
  SameBuffers s s' = (a : ℕ) → IsReceived a → chip.register s' a ≡ chip.register s a

  -- The buffer of the controller has the message.
  abbrev pub Holds : ℕ → (ℕ → ℕ) → ℕ → S → Type 0
  Holds buffer_id bytes data_length s =
      (chip.register s (length_register buffer_id) % 16 ≡ data_length)
      × ((j : ℕ) → j < data_length → chip.register s (data_register buffer_id j) ≡ bytes j)

  length-IsReceived : (buffer_id : ℕ) → buffer_id < 2 → IsReceived (length_register buffer_id)
  length-IsReceived buffer_id lt = elim (Bool-cases (buffer_id == 0)) [
    | inl e ↦ rw e (omega arith, omega arith, omega arith, omega arith)
    | inr e ↦ rw e (omega arith, omega arith, omega arith, omega arith)
  ]

  data-IsReceived :
      (buffer_id j : ℕ) → buffer_id < 2 → j < 8 → IsReceived (data_register buffer_id j)
  data-IsReceived buffer_id j lt below = elim (Bool-cases (buffer_id == 0)) [
    | inl e ↦ rw e (omega arith, omega arith, omega arith, omega arith)
    | inr e ↦ rw e (omega arith, omega arith, omega arith, omega arith)
  ]

  Holds-SameBuffers :
      (buffer_id : ℕ) (bytes : ℕ → ℕ) (data_length : ℕ) (s s' : S)
      → buffer_id < 2
      → data_length ≤ 8
      → SameBuffers s s'
      → Holds buffer_id bytes data_length s
      → Holds buffer_id bytes data_length s'
  Holds-SameBuffers buffer_id bytes data_length s s' id_lt le same holds =
      let received : IsReceived (length_register buffer_id) = length-IsReceived buffer_id id_lt in
      (
        ap (λ v. v % 16) (same (length_register buffer_id) received) ∙ holds.0,
        λ j lt.
            same (data_register buffer_id j) (data-IsReceived buffer_id j id_lt (omega arith))
            ∙ holds.1 j lt,
      )

  -- What `emitCANEvent` does for the events that are left.
  abbrev pub Emits :
      List Ptr → (Ptr → ℕ) → ℕ → ℕ → (ℕ → ℕ) → ℕ → (ℕ → ℕ) → (ℕ → ℕ) → CanBuffer → S → Type 0
  Emits events ids id buffer_id bytes data_length stack array b s =
      (e : Emission transfer) × (emit_can_event transfer events ids id buffer_id stack b s ≡ some e)
      × (e.success ≡ not (is_empty (subscribed ids id events)))
      × (map (λ told. told.0) e.triggered ≡ subscribed ids id events)
      × Delivered bytes data_length id array b e.triggered e.messages
      × SameBuffers s e.chip

  -- An event that has the identifier, in terms of what the calls give.
  abbrev told_step :
      List Ptr → (Ptr → ℕ) → ℕ → ℕ → Ptr → (ℕ → ℕ) → CanBuffer → ℕ × S → Option (Emission transfer)
  told_step events ids id buffer_id event stack b len =
      elim (enter_msg (receive transfer buffer_id stack len.0 len.1).1 len.0 id b) [
        | none ↦ none
        | some l ↦
            elim (emit_can_event transfer events ids id buffer_id
              (receive transfer buffer_id stack len.0 len.1).1 l.1
              (receive transfer buffer_id stack len.0 len.1).2) [
                | none ↦ none
                | some rest ↦ some (record rest {
                  success = true;
                  triggered = (event, line_word l.0) ∷ rest.triggered;
                })
              ]
      ]

  emit_step :
      (events : List Ptr) (ids : Ptr → ℕ) (id buffer_id : ℕ) (event : Ptr) (data_length n : ℕ)
      (stack : ℕ → ℕ) (b b1 : CanBuffer) (s : S) (out : Emission transfer)
      → (ids event == id) ≡ true
      → get_rx_data_length transfer buffer_id s ≡ (data_length, s)
      → enter_msg (receive transfer buffer_id stack data_length s).1 data_length id b
        ≡ some (some n, b1)
      → emit_can_event transfer events ids id buffer_id
          (receive transfer buffer_id stack data_length s).1
          b1
          (receive transfer buffer_id stack data_length s).2
        ≡ some out
      → emit_can_event transfer (event ∷ events) ids id buffer_id stack b s
        ≡ some (record out { success = true; triggered = (event, n) ∷ out.triggered })
  unfolding emit_can_event
  emit_step events ids id buffer_id event data_length n stack b b1 s out e len enter run = rw e (
      ap (told_step events ids id buffer_id event stack b) len
      ∙ rw (told_step, enter) (rw run refl))

  emits :
      (events : List Ptr) (ids : Ptr → ℕ) (id buffer_id : ℕ) (bytes : ℕ → ℕ) (data_length : ℕ)
      (stack array : ℕ → ℕ) (b : CanBuffer) (s : S)
      → buffer_id < 2
      → 0 < data_length
      → data_length ≤ 8
      → Holds buffer_id bytes data_length s
      → b.write_position < line_count
      → Emits events ids id buffer_id bytes data_length stack array b s
  unfolding emit_can_event
  emits [] ids id buffer_id bytes data_length stack array b s lt pos le holds inside =
      (_, refl, refl, refl, refl, λ a ne. refl)
  emits (event ∷ events) ids id buffer_id bytes data_length stack array b s lt pos le holds inside =
      elim (Bool-cases (ids event == id)) [
        | inr e ↦
            (let (out, run, told, list, delivered, regs) =
                emits events ids id buffer_id bytes data_length stack array b s lt pos le holds
                  inside in
              (out, rw e run, rw e told, rw e list, delivered, regs))
        | inl e ↦
            (let got = receive transfer buffer_id stack data_length s in
              let (read, same) =
                receive_lem transfer chip buffer_id stack data_length s flags lt pos le in
              elim (enter_msg-ReadBack got.1 data_length id array b inside) [
                | inl long ↦ absurd (omega (arith, long.0))
                | inr entered ↦
                    let (n, b1, enter, found, at, others, back) = entered.1 in
                    let inside' : b1.write_position < line_count = omega (arith, at, found.0) in
                    let (out, run, told, list, delivered, regs) =
                      emits events ids id buffer_id bytes data_length got.1 array b1 got.2 lt pos le
                        (Holds-SameBuffers buffer_id bytes data_length s got.2 lt le same holds)
                        inside' in
                    let len : get_rx_data_length transfer buffer_id s ≡ (data_length, s) =
                      get_rx_data_length_lem transfer chip buffer_id s lt
                      ∙ ap (λ l. (l, s)) holds.0 in
                    let next : Emission transfer = record out {
                      success = true;
                      triggered = (event, n) ∷ out.triggered;
                    } in
                    (
                      next,
                      emit_step events ids id buffer_id event data_length n stack b b1 s out e len
                          enter run,
                      rw e refl,
                      rw e (ap (λ l. event ∷ l) list),
                      (
                        b1,
                        found,
                        others,
                        ReadBack-same got.1 bytes data_length id n array b1
                            (λ j below. read j below ∙ holds.1 j below) back,
                        delivered,
                      ),
                      λ a ne. regs a ne ∙ same a ne,
                    )
              ])
      ]

  -- With a controller whose receive buffer holds a message of 1 to 8 bytes, and a write position of
  -- the messages below 10: `emitCANEvent` returns, true exactly if an event with the identifier is
  -- registered. It triggers the registered events with the identifier, each once and in order, and
  -- enters the message for each of them in a line where `readMsg` gives the bytes of the buffer, the
  -- length and the identifier; the receive buffers keep their bytes.
  pub emit_can_event-Delivered :
      (events : List Ptr) (ids : Ptr → ℕ) (id buffer_id : ℕ) (stack array : ℕ → ℕ) (b : CanBuffer)
      (s : S)
      → buffer_id < 2
      → 0 < chip.register s (length_register buffer_id) % 16
      → chip.register s (length_register buffer_id) % 16 ≤ 8
      → b.write_position < line_count
      → Emits events ids id buffer_id
          (λ j. chip.register s (data_register buffer_id j))
          (chip.register s (length_register buffer_id) % 16)
          stack
          array
          b
          s
  emit_can_event-Delivered events ids id buffer_id stack array b s lt pos le inside =
      emits events ids id buffer_id (λ j. chip.register s (data_register buffer_id j))
        (chip.register s (length_register buffer_id) % 16) stack array b s lt pos le
        (refl, λ j below. refl) inside
