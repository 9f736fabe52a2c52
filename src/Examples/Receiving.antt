-- ===== src/Examples/Receiving.antt =====
-- Messages that arrive, at concrete inputs: receive buffer 1 holds three bytes, and two of the three
-- registered events have the identifier.
use cy_ph_os.Base.{
  ℕ, ◌+◌, ◌/◌, ◌%◌, ◌^◌, ◌<◌, ◌≤◌, ◌≡◌, ◌⊎◌, refl, false, arith, [], ◌∷◌, ◌++◌, ◌==◌, if◌then◌else◌,
  count, test_of_ne,
}
use cy_ph_os.Queue.{Ptr}
use cy_ph_os.CanBuffer.{CanBuffer}
use cy_ph_os.Can.{bit_modify_word, ok, wrong_parameter}
use cy_ph_os.Can.Modes.{set_filter}
use cy_ph_os.Can.Modes.Filters.{rxf_sidh, KeepsFilters, id_at, set_filter-id_at}
use cy_ph_os.Can.Receive.{CanEvents, activate_can_event}
use cy_ph_os.Can.Receive.Bytes.{ClearsFlags, IsReceived}
use cy_ph_os.Can.Receive.Deliver.{Emits, subscribed, emit_can_event-Delivered}
use cy_ph_os.Can.Receive.Pool.{all_events, activate_can_event-subscribed}
use cy_ph_os.Examples.Controllers.{simulated, simulated_chip}

simulated-ClearsFlags : ClearsFlags simulated simulated_chip
simulated-ClearsFlags = record { clears = unchanged }
  where
    unchanged :
        (s : ℕ → ℕ) (mask a : ℕ)
        → IsReceived a
        → (simulated 32 (bit_modify_word 0x2C mask 0) s).1 a % 256 ≡ s a % 256
    unchanged s mask a received =
        let not_read : (bit_modify_word 0x2C mask 0 / 2 ^ 16 == 3) ≡ false =
          test_of_ne _ 3 (λ e. absurd (omega arith)) in
        let not_write : (bit_modify_word 0x2C mask 0 / 2 ^ 16 == 2) ≡ false =
          test_of_ne _ 2 (λ e. absurd (omega arith)) in
        rw (not_read, not_write) refl

-- Three bytes in receive buffer 1; the mode is that for the configuration.
abbrev arrived : ℕ → ℕ
arrived a = if a == 0x75 then 3 else (if a == 0x0E then 0x80 else a)

abbrev no_messages : CanBuffer
no_messages = record {
  write_position = 0;
  lines = λ n. record { id = 0; msg = λ j. 0; data_length = 0; is_used = false };
}

abbrev identifier : Ptr → ℕ
identifier p = if p == 16 then 0x20 else 0x10

emit_can_event-Delivered_example :
    Emits simulated simulated_chip simulated-ClearsFlags
      (8 ∷ 16 ∷ 24 ∷ [])
      identifier
      0x10
      1
      (λ j. arrived (0x76 + j) % 256)
      3
      (λ j. 0)
      (λ j. 0)
      no_messages
      arrived
emit_can_event-Delivered_example =
    emit_can_event-Delivered simulated simulated_chip simulated-ClearsFlags (8 ∷ 16 ∷ 24 ∷ [])
      identifier 0x10 1 (λ j. 0) (λ j. 0) no_messages arrived (omega arith) (omega arith)
      (omega arith) (omega arith)

abbrev events : CanEvents
events = record { registered = 8 ∷ 16 ∷ []; unregistered = 24 ∷ 32 ∷ []; message_id = identifier }

activate_can_event-subscribed_example :
    ((activate_can_event 0x30 events).0 ≡ 24)
    × ((id' : ℕ)
        → subscribed
            (activate_can_event 0x30 events).1.message_id
            id'
            (activate_can_event 0x30 events).1.registered
          ≡ subscribed identifier id' (8 ∷ 16 ∷ []) ++ (if 0x30 == id' then 24 ∷ [] else []))
    × ((a : Ptr)
        → count a (all_events (activate_can_event 0x30 events).1) ≡ count a (all_events events))
activate_can_event-subscribed_example =
    activate_can_event-subscribed 0x30 24 (32 ∷ []) events refl refl

simulated-KeepsFilters : KeepsFilters simulated simulated_chip
simulated-KeepsFilters = record {
  high = λ n d le lt. refl;
  low = λ n d le lt. refl;
  standard = λ n d le lt. refl;
}

set_filter-id_at_example :
    ((5 < 4) ⊎ (0x7ff < 0x123))
      × (set_filter simulated 4 0x123 arrived ≡ (wrong_parameter, arrived))
    ⊎ (4 ≤ 5)
      × (0x123 ≤ 0x7ff)
      × ((set_filter simulated 4 0x123 arrived).0 ≡ ok)
      × (id_at simulated simulated_chip simulated-KeepsFilters
            (rxf_sidh 4)
            (rxf_sidh 4 + 1)
            (set_filter simulated 4 0x123 arrived).1
          ≡ 0x123)
      × ((set_filter simulated 4 0x123 arrived).1 (rxf_sidh 4 + 1) % 256 / 8 % 2 ≡ 0)
set_filter-id_at_example =
    set_filter-id_at simulated simulated_chip simulated-KeepsFilters 4 0x123 arrived refl
