-- ===== src/Can/Load.antt =====
-- `loadTxBuffer` on every branch.
use cy_ph_os.Base.{
  ℕ, suc, ◌+◌, ◌*◌, ◌/◌, ◌%◌, ◌<◌, ◌≤◌, ◌≡◌, refl, sym, ap, ◌∙◌, Bool, true, false, ◌||◌, Option,
  ◌==◌, ltb, arith, Bool-cases, inl, inr, ◌⊎◌, eq_of_test, ne_of_test,
}
use cy_ph_os.Can.{
  TxRegisters, tx_registers, with_low_id, write_register, write_bytes, fill_tx_buffer,
  load_tx_buffer, bit, ok, wrong_parameter, tx_buffer_busy,
}
use cy_ph_os.Can.Controller.{IsPlain, IsMcp2515, after, after_suc}
use cy_ph_os.Can.Registers.{
  read_lem, write_at, write_ne, write-writable, write_bytes_ne, write_bytes_at, pending, wait_lem,
}

-- The registers of buffer `n` lie at `0x31 + 0x10 * n` and after it, and its bit of the status is
-- `2 + 2 * n`.
pub record Lies (n : ℕ) (t : TxRegisters) : Type 0 where
  pub sidh : t.sidh_register ≡ 0x31 + 0x10 * n
  pub sidl : t.sidl_register ≡ 0x32 + 0x10 * n
  pub dlc : t.dlc_register ≡ 0x35 + 0x10 * n
  pub data_at : t.data_register ≡ 0x36 + 0x10 * n
  pub request : t.txreq ≡ 2 + 2 * n

tx_registers-Lies : (n : ℕ) → n < 3 → Lies n (tx_registers n)
tx_registers-Lies n h = elim (Bool-cases (n == 0)) [
  | inl e ↦
      let z = eq_of_test n 0 e in
      rw z (record { sidh = refl; sidl = refl; dlc = refl; data_at = refl; request = refl })
  | inr e ↦ elim (Bool-cases (n == 1)) [
    | inl e' ↦
        let z = eq_of_test n 1 e' in
        rw z (record { sidh = refl; sidl = refl; dlc = refl; data_at = refl; request = refl })
    | inr e' ↦
        let ne = ne_of_test n 0 e in
        let ne' = ne_of_test n 1 e' in
        let z : n ≡ 2 = omega arith in
        rw z (record { sidh = refl; sidl = refl; dlc = refl; data_at = refl; request = refl })
  ]
]

-- The parameters that `loadTxBuffer` accepts.
pub record InRange (buffer data_length id : ℕ) : Type 0 where
  pub buffer_le : buffer ≤ 2
  pub length_pos : 1 ≤ data_length
  pub length_le : data_length ≤ 8
  pub id_le : id ≤ 0x7ff

abbrev invalid : ℕ → ℕ → ℕ → Bool
invalid buffer data_length id =
    (ltb 2 buffer || ltb 8 data_length) || ((data_length == 0) || ltb 0x7ff id)

in_range : (b l i : ℕ) → invalid b l i ≡ false → InRange b l i
in_range b l i e = record {
  buffer_le = ground arith;
  length_pos = ground arith;
  length_le = ground arith;
  id_le = ground arith;
}

out_of_range : (b l i : ℕ) → invalid b l i ≡ true → InRange b l i → ⊥
out_of_range b l i e r =
    let h1 = r.buffer_le in
    let h2 = r.length_pos in let h3 = r.length_le in let h4 = r.id_le in ground arith

module _ {S : Type 0} (transfer : ℕ → ℕ → S → Option ℕ × S) (chip : IsMcp2515 transfer) where
  -- The buffer with the registers `t` holds a message.
  pub record Filled (t : TxRegisters) (message : ℕ → ℕ) (data_length id : ℕ) (s : S) : Type 0 where
    pub identifier : chip.register s t.sidh_register * 8 + chip.register s t.sidl_register / 32 ≡ id
    pub length : chip.register s t.dlc_register % 16 ≡ data_length
    pub bytes : (j : ℕ) → j < data_length → chip.register s (t.data_register + j) ≡ message j

  -- The registers of buffer `n` may be written.
  abbrev Opened : ℕ → S → Type 0
  Opened n s = (i : ℕ) → i < 13 → chip.writable s (0x31 + 0x10 * n + i) ≡ true

  Opened-at :
      (n a i : ℕ) (s : S) → Opened n s → i < 13 → a ≡ 0x31 + 0x10 * n + i → chip.writable s a ≡ true
  Opened-at n a i s opened lt e = rw e (opened i lt)

  write-Opened :
      (n a i d : ℕ) (s : S)
      → n < 3
      → i < 13
      → a ≡ 0x31 + 0x10 * n + i
      → d < 256
      → Opened n s
      → Opened n (write_register transfer a d s)
  write-Opened n a i d s hn hi e hd opened j lt =
      write-writable transfer chip a d (0x31 + 0x10 * n + j) s (omega arith, omega arith)
        (inr (omega arith)) hd (opened j lt)

  fill-Filled :
      (n : ℕ) (t : TxRegisters) (message : ℕ → ℕ) (data_length id : ℕ) (s : S)
      → n < 3
      → Lies n t
      → data_length ≤ 8
      → id ≤ 0x7ff
      → ((j : ℕ) → message j < 256)
      → Opened n s
      → Filled t message data_length id (fill_tx_buffer transfer t message data_length id s)
  unfolding fill_tx_buffer
  fill-Filled n t message data_length id s hn lies hl hi small opened =
      let sidh = lies.sidh in
      let sidl = lies.sidl in
      let dlc = lies.dlc in
      let data_at = lies.data_at in
      let sidh_plain : IsPlain t.sidh_register = (omega arith, omega arith) in
      let sidl_plain : IsPlain t.sidl_register = (omega arith, omega arith) in
      let dlc_plain : IsPlain t.dlc_register = (omega arith, omega arith) in
      let column : t.data_register % 16 ≡ 6 = omega arith in
      let row : t.data_register < 0x70 = omega arith in
      let s1 = write_register transfer t.sidh_register (id / 8) s in
      let read = read_lem transfer chip t.sidl_register s1 (omega arith) in
      let old = chip.register s1 t.sidl_register in
      let low = with_low_id old id in
      let s2 = write_register transfer t.sidl_register low s1 in
      let s3 = write_register transfer t.dlc_register data_length s2 in
      let s4 = write_bytes transfer data_length 0 t.data_register message s3 in
      let byte : low < 256 = omega arith in
      let high_byte : id / 8 < 256 = omega arith in
      let opened1 : Opened n s1 =
        write-Opened n t.sidh_register 0 (id / 8) s hn (omega arith) (omega arith) high_byte
          opened in
      let opened2 : Opened n s2 =
        write-Opened n t.sidl_register 1 low s1 hn (omega arith) (omega arith) byte opened1 in
      let opened3 : Opened n s3 =
        write-Opened n t.dlc_register 4 data_length s2 hn (omega arith) (omega arith) (omega arith)
          opened2 in
      let past : (b : ℕ)
          → b < t.data_register
          → IsPlain b
          → chip.register s4 b ≡ chip.register s3 b =
        λ b lt plain.
          write_bytes_ne transfer chip data_length 0 t.data_register message b s3 column row
            (omega arith) small (omega arith) plain in
      let high_at : chip.register s4 t.sidh_register ≡ id / 8 =
        past t.sidh_register (omega arith) sidh_plain
        ∙ write_ne transfer chip t.dlc_register data_length t.sidh_register s2 dlc_plain sidh_plain
            (omega arith) (λ (e : t.sidh_register ≡ t.dlc_register). absurd (omega arith))
        ∙ write_ne transfer chip t.sidl_register low t.sidh_register s1 sidl_plain sidh_plain byte
            (λ (e : t.sidh_register ≡ t.sidl_register). absurd (omega arith))
        ∙ write_at transfer chip t.sidh_register (id / 8) s sidh_plain high_byte
            (Opened-at n t.sidh_register 0 s opened (omega arith) (omega arith))
        ∙ rw sidh (chip.keeps_sidh n (id / 8) hn (omega arith)) in
      let low_kept : chip.kept t.sidl_register low / 32 ≡ low / 32 =
        ap (λ a. chip.kept a low / 32) sidl ∙ chip.keeps_sidl n low hn byte in
      let shifted : low / 32 ≡ id % 8 = omega arith in
      let low_at : chip.register s4 t.sidl_register / 32 ≡ id % 8 =
        ap (λ v. v / 32)
          (past t.sidl_register (omega arith) sidl_plain
            ∙ write_ne transfer chip t.dlc_register data_length t.sidl_register s2 dlc_plain
                sidl_plain (omega arith)
                (λ (e : t.sidl_register ≡ t.dlc_register). absurd (omega arith))
            ∙ write_at transfer chip t.sidl_register low s1 sidl_plain byte
                (Opened-at n t.sidl_register 1 s1 opened1 (omega arith) (omega arith)))
        ∙ low_kept
        ∙ shifted in
      let length_at : chip.register s4 t.dlc_register % 16 ≡ data_length =
        ap (λ v. v % 16)
          (past t.dlc_register (omega arith) dlc_plain
            ∙ write_at transfer chip t.dlc_register data_length s2 dlc_plain (omega arith)
                (Opened-at n t.dlc_register 4 s2 opened2 (omega arith) (omega arith)))
        ∙ rw dlc (chip.keeps_length n data_length hn hl) in
      rw read (record {
        identifier = rw (high_at, low_at) (omega arith);
        length = length_at;
        bytes = λ j lt.
            write_bytes_at transfer chip data_length 0 t.data_register message j s3 column row
              (omega arith) small
              (λ k lt'.
                Opened-at n (t.data_register + k) (5 + k) s3 opened3 (omega arith) (omega arith))
              (omega arith) (omega arith)
            ∙ rw data_at (chip.keeps_data n j (message j) hn (omega arith) (small j));
      })

  -- A buffer that was free when the status was asked for is open afterwards.
  free-Opened :
      (n txreq k : ℕ) (s : S)
      → n < 3
      → txreq ≡ 2 + 2 * n
      → pending transfer chip txreq k s ≡ false
      → Opened n (after transfer chip (suc k) s)
  free-Opened n txreq k s hn e free i lt =
      let free' : bit (2 + 2 * n) (chip.status (after transfer chip k s)) ≡ false =
        ap (λ b. bit b (chip.status (after transfer chip k s))) (sym e) ∙ free in
      rw (after_suc transfer chip k s) (
        chip.idle (chip.polled (after transfer chip k s)) n i hn lt
          (chip.rests (after transfer chip k s) n hn free'))

  -- On a controller that behaves as `IsMcp2515` says, whose transmissions may end while it is polled,
  -- for a message of bytes: `loadTxBuffer` returns MCP2515_WRONG_PARAMETER and does nothing when the
  -- buffer, the length or the identifier is out of range. Else it returns MCP2515_TX_BUFFER_BUSY,
  -- having only asked for the status, when the buffer was pending all 51 times that it asked; and
  -- when it found the buffer free it returns MCP2515_OK, and the registers of the buffer hold the
  -- identifier, the length and the bytes.
  pub load_tx_buffer-Filled :
      (buffer : ℕ) (message : ℕ → ℕ) (data_length id : ℕ) (s : S)
      → ((j : ℕ) → message j < 256)
      → ((InRange buffer data_length id → ⊥)
          × (load_tx_buffer transfer buffer message data_length id s ≡ (wrong_parameter, s)))
        ⊎ (InRange buffer data_length id
            × ((((k : ℕ) → k < 51 → pending transfer chip (tx_registers buffer).txreq k s ≡ true)
                  × (load_tx_buffer transfer buffer message data_length id s
                      ≡ (tx_buffer_busy, after transfer chip 51 s)))
                ⊎ ((k : ℕ) × (k < 51)
                    × (pending transfer chip (tx_registers buffer).txreq k s ≡ false)
                    × ((load_tx_buffer transfer buffer message data_length id s).0 ≡ ok)
                    × Filled
                        (tx_registers buffer)
                        message
                        data_length
                        id
                        (load_tx_buffer transfer buffer message data_length id s).1)))
  unfolding load_tx_buffer
  load_tx_buffer-Filled buffer message data_length id s small =
      let t = tx_registers buffer in
      elim (Bool-cases (invalid buffer data_length id)) [
        | inl e ↦ inl (λ r. out_of_range buffer data_length id e r, rw e refl)
        | inr e ↦
            (let r = in_range buffer data_length id e in
              let le = r.buffer_le in
              let hb : buffer < 3 = omega arith in
              let lies = tx_registers-Lies buffer hb in
              inr (
                r,
                elim (wait_lem transfer chip 51 t.txreq s) [
                  | inl busy ↦ inl (busy.0, rw (e, busy.1) refl)
                  | inr found ↦
                      (let (k, lt, free, run) = found in
                        inr (
                          k,
                          lt,
                          free,
                          rw (e, run) refl,
                          rw (e, run)
                              (fill-Filled buffer t message data_length id
                                (after transfer chip (suc k) s) hb lies r.length_le r.id_le small
                                (free-Opened buffer t.txreq k s hb lies.request free)),
                        ))
                ],
              ))
      ]
