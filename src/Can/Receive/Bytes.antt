-- ===== src/Can/Receive/Bytes.antt =====
-- What `receive` and `getRxDataLength` read of a controller.
use cy_ph_os.Base.{
  ℕ, zero, suc, ◌+◌, ◌%◌, ◌<◌, ◌≤◌, ◌≡◌, refl, ◌∙◌, ap, Option, if◌then◌else◌, ◌==◌, arith,
  Bool-cases, inl, inr, ltb, false, ◌||◌, eq_of_test, ne_of_test, update, update_at, update_ne,
}
use cy_ph_os.Can.{bit_modify, bit_modify_word, get_rx_data_length}
use cy_ph_os.Can.Controller.{IsMcp2515}
use cy_ph_os.Can.Registers.{read_lem}
use cy_ph_os.Can.Receive.{read_bytes, receive}

-- The registers RXBnDLC and RXBnDm.
abbrev pub IsReceived : ℕ → Type 0
IsReceived a = (0x65 ≤ a) × (a < 0x7E) × (5 ≤ a % 16) × (a % 16 < 14)

-- The receive buffers keep their bytes when a flag of CANINTF is cleared: what is in them changes
-- when a message arrives, which is none of the driver's transfers.
pub record ClearsFlags {S : Type 0} (transfer : ℕ → ℕ → S → Option ℕ × S)
    (chip : IsMcp2515 transfer) : Type 0 where
  pub clears :
      (s : S) (mask a : ℕ)
      → IsReceived a
      → chip.register (transfer 32 (bit_modify_word 0x2C mask 0) s).1 a ≡ chip.register s a

-- The registers RXBnDm and RXBnDLC.
abbrev pub data_register : ℕ → ℕ → ℕ
data_register buffer j = (if buffer == 0 then 0x66 else 0x76) + j

abbrev pub length_register : ℕ → ℕ
length_register buffer = if buffer == 0 then 0x65 else 0x75

module _ {S : Type 0} (transfer : ℕ → ℕ → S → Option ℕ × S) (chip : IsMcp2515 transfer) where
  -- A round of the loop.
  read_bytes_step :
      (rest i r : ℕ) (message : ℕ → ℕ) (s : S)
      → r + i < 256
      → read_bytes transfer (suc rest) i r message s
        ≡ read_bytes transfer rest (suc i) r (update message i (chip.register s (r + i))) s
  unfolding read_bytes
  read_bytes_step rest i r message s fits =
      ap (λ p. read_bytes transfer rest (suc i) r (update message i p.0) p.1)
        (read_lem transfer chip (r + i) s fits)

  read_bytes-state :
      (rest i r : ℕ) (message : ℕ → ℕ) (s : S)
      → r + i + rest ≤ 256
      → (read_bytes transfer rest i r message s).1 ≡ s
  unfolding read_bytes
  read_bytes-state zero i r message s fits = refl
  read_bytes-state (suc rest) i r message s fits =
      rw (read_bytes_step rest i r message s (omega arith))
        (read_bytes-state rest (suc i) r _ s (omega arith))

  read_bytes_before :
      (rest i r : ℕ) (message : ℕ → ℕ) (s : S) (j : ℕ)
      → r + i + rest ≤ 256
      → j < i
      → (read_bytes transfer rest i r message s).0 j ≡ message j
  unfolding read_bytes
  read_bytes_before zero i r message s j fits lt = refl
  read_bytes_before (suc rest) i r message s j fits lt =
      rw (read_bytes_step rest i r message s (omega arith)) (
        read_bytes_before rest (suc i) r _ s j (omega arith) (omega arith)
        ∙ update_ne message i _ (λ (e : j ≡ i). absurd (omega arith)))

  read_bytes_at :
      (rest i r : ℕ) (message : ℕ → ℕ) (s : S) (j : ℕ)
      → r + i + rest ≤ 256
      → i ≤ j
      → j < i + rest
      → (read_bytes transfer rest i r message s).0 j ≡ chip.register s (r + j)
  unfolding read_bytes
  read_bytes_at zero i r message s j fits le lt = absurd (omega arith)
  read_bytes_at (suc rest) i r message s j fits le lt =
      rw (read_bytes_step rest i r message s (omega arith)) (elim (Bool-cases (j == i)) [
        | inl e ↦ rw (eq_of_test j i e) (
            read_bytes_before rest (suc i) r _ s i (omega arith) (omega arith)
            ∙ update_at message i _ refl)
        | inr e ↦
            let ne = ne_of_test j i e in
            read_bytes_at rest (suc i) r _ s j (omega arith) (omega arith) (omega arith)
      ])

  pub get_rx_data_length_lem :
      (buffer : ℕ) (s : S)
      → buffer < 2
      → get_rx_data_length transfer buffer s ≡ (chip.register s (length_register buffer) % 16, s)
  unfolding get_rx_data_length
  get_rx_data_length_lem buffer s lt =
      let inside : ltb 1 buffer ≡ false = ground arith in
      let small : length_register buffer < 256 = ground arith in
      rw inside (rw (read_lem transfer chip (length_register buffer) s small) refl)

  -- `receive` gives the bytes of the buffer, and the receive buffers keep theirs.
  pub receive_lem :
      (buffer : ℕ) (message : ℕ → ℕ) (data_length : ℕ) (s : S)
      → ClearsFlags transfer chip
      → buffer < 2
      → 0 < data_length
      → data_length ≤ 8
      → ((j : ℕ)
          → j < data_length
          → (receive transfer buffer message data_length s).1 j
            ≡ chip.register s (data_register buffer j))
        × ((a : ℕ)
            → IsReceived a
            → chip.register (receive transfer buffer message data_length s).2 a ≡ chip.register s a)
  unfolding receive bit_modify
  receive_lem buffer message data_length s flags lt pos le =
      let inside : (ltb 1 buffer || (ltb 8 data_length || (data_length == 0))) ≡ false =
        ground arith in
      let first : ℕ = if buffer == 0 then 0x66 else 0x76 in
      let fits : first + 0 + data_length ≤ 256 = ground arith in
      rw inside (
        λ j below.
            let least : 0 ≤ j = omega arith in
            let most : j < 0 + data_length = omega arith in
            read_bytes_at data_length 0 first message s j fits least most,
        λ a received.
            flags.clears (read_bytes transfer data_length 0 first message s).1
              (if buffer == 0 then 1 else 2) a received
            ∙ ap (λ t. chip.register t a) (read_bytes-state data_length 0 first message s fits),
      )
