-- ===== src/Examples/CanMessages.antt =====
-- The message buffers of the CAN driver at concrete inputs: line 3 holds a message.
use cy_ph_os.Base.{ℕ, ◌<◌, ◌≤◌, ◌≡◌, ◌≢◌, ◌⊎◌, some, none, arith, ◌==◌}
use cy_ph_os.Ring.Search.{Found}
use cy_ph_os.CanBuffer.{CanBuffer, enter_msg, remove_msg_with_id}
use cy_ph_os.CanBuffer.Removal.{without, count_matches, remove_msg_with_id-without}
use cy_ph_os.CanBuffer.Messages.{ReadBack, enter_msg-ReadBack}

abbrev messages : CanBuffer
messages = record {
  write_position = 3;
  lines = λ n. record { id = 0x123; msg = λ j. 0; data_length = 8; is_used = n == 3 };
}

abbrev speed : ℕ → ℕ
speed = λ j. 40

enter_msg-ReadBack_example :
    ((8 < 2) × (enter_msg speed 2 0x55 messages ≡ some (none, messages)))
    ⊎ ((2 ≤ 8)
        × ((n : ℕ) × (b' : CanBuffer) × (enter_msg speed 2 0x55 messages ≡ some (some n, b'))
            × Found 10 (λ j. (messages.lines j).is_used) 3 n
            × (b'.write_position ≡ n)
            × ((j : ℕ) → j ≢ n → b'.lines j ≡ messages.lines j)
            × ReadBack speed 2 0x55 n speed b'))
enter_msg-ReadBack_example = enter_msg-ReadBack speed 2 0x55 speed messages (omega arith)

remove_msg_with_id-without_example :
    ((j : ℕ)
      → j < 10
      → (remove_msg_with_id 0x123 messages).1.lines j ≡ without 0x123 (messages.lines j))
    × ((remove_msg_with_id 0x123 messages).0 ≡ count_matches 10 0 0x123 messages.lines)
    × ((remove_msg_with_id 0x123 messages).1.write_position ≡ 3)
remove_msg_with_id-without_example = remove_msg_with_id-without 0x123 messages
