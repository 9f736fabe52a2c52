-- ===== src/Can/Registers.antt =====
-- Reads and writes of the driver, on the registers of a controller.
use native.Mathlib.Nat.{mod-eq_of_lt}
use cy_ph_os.Base.{
  ℕ, zero, suc, ◌+◌, ◌*◌, ◌/◌, ◌%◌, ◌^◌, ◌<◌, ◌≤◌, ◌≡◌, ◌≢◌, ◌⊎◌, refl, ◌∙◌, Bool, true, false,
  Option, ◌==◌, arith, Bool-cases, inl, inr, eq_of_test, ne_of_test, ==_refl,
}
use cy_ph_os.Can.{
  read_register, write_register, write_bytes, read_status, checked_status, wait_ready, bit,
}
use cy_ph_os.Can.Controller.{IsPlain, IsMcp2515, after}

module _ {S : Type 0} (transfer : ℕ → ℕ → S → Option ℕ × S) (chip : IsMcp2515 transfer) where
  pub read_lem : (a : ℕ) (s : S) → a < 256 → read_register transfer a s ≡ (chip.register s a, s)
  unfolding read_register
  read_lem a s h =
      let same : chip.register s a % 2 ^ 8 ≡ chip.register s a = mod-eq_of_lt (chip.byte s a) in
      rw (chip.reads s a h) (rw same refl)

  pub write_at :
      (a d : ℕ) (s : S)
      → IsPlain a
      → d < 256
      → chip.writable s a ≡ true
      → chip.register (write_register transfer a d s) a ≡ chip.kept a d
  unfolding write_register
  write_at a d s plain h may = chip.writes s a d plain h may

  pub write_ne :
      (a d b : ℕ) (s : S)
      → IsPlain a
      → IsPlain b
      → d < 256
      → b ≢ a
      → chip.register (write_register transfer a d s) b ≡ chip.register s b
  unfolding write_register
  write_ne a d b s plain plain' h ne = chip.keeps_others s a d b plain plain' h ne

  pub write-writable :
      (a d b : ℕ) (s : S)
      → IsPlain a
      → (a < 0x30) ⊎ (0 < a % 16)
      → d < 256
      → chip.writable s b ≡ true
      → chip.writable (write_register transfer a d s) b ≡ true
  unfolding write_register
  write-writable a d b s plain aside h may = chip.still_writable s a d b plain aside h may

  -- Bytes that are written to the data registers of a buffer, from `r` on.
  pub write_bytes_ne :
      (rest i r : ℕ) (message : ℕ → ℕ) (b : ℕ) (s : S)
      → r % 16 ≡ 6
      → r < 0x70
      → i + rest ≤ 8
      → ((j : ℕ) → message j < 256)
      → b < r + i
      → IsPlain b
      → chip.register (write_bytes transfer rest i r message s) b ≡ chip.register s b
  unfolding write_bytes
  write_bytes_ne zero i r message b s column row h bytes lt plain = refl
  write_bytes_ne (suc rest) i r message b s column row h bytes lt plain =
      write_bytes_ne rest (suc i) r message b (write_register transfer (r + i) (message i) s) column
        row (omega arith) bytes (omega arith) plain
      ∙ write_ne (r + i) (message i) b s (omega arith, omega arith) plain (bytes i)
          (λ (e : b ≡ r + i). absurd (omega arith))

  pub write_bytes_at :
      (rest i r : ℕ) (message : ℕ → ℕ) (j : ℕ) (s : S)
      → r % 16 ≡ 6
      → r < 0x70
      → i + rest ≤ 8
      → ((j : ℕ) → message j < 256)
      → ((j : ℕ) → j < 8 → chip.writable s (r + j) ≡ true)
      → i ≤ j
      → j < i + rest
      → chip.register (write_bytes transfer rest i r message s) (r + j)
        ≡ chip.kept (r + j) (message j)
  unfolding write_bytes
  write_bytes_at zero i r message j s column row h bytes may le lt = absurd (omega arith)
  write_bytes_at (suc rest) i r message j s column row h bytes may le lt =
      let plain : IsPlain (r + i) = (omega arith, omega arith) in
      elim (Bool-cases (j == i)) [
        | inl e ↦ rw (eq_of_test j i e) (
            write_bytes_ne rest (suc i) r message (r + i)
              (write_register transfer (r + i) (message i) s) column row (omega arith) bytes
              (omega arith) plain
            ∙ write_at (r + i) (message i) s plain (bytes i) (may i (omega arith)))
        | inr e ↦
            let ne = ne_of_test j i e in
            let may' : (k : ℕ)
                → k < 8
                → chip.writable (write_register transfer (r + i) (message i) s) (r + k) ≡ true =
              λ k lt'.
                write-writable (r + i) (message i) (r + k) s plain (inr (omega arith)) (bytes i)
                  (may k lt') in
            write_bytes_at rest (suc i) r message j (write_register transfer (r + i) (message i) s)
              column row (omega arith) bytes may' (omega arith) (omega arith)
      ]

  pub status_lem : (s : S) → read_status transfer s ≡ (chip.status s, chip.polled s)
  unfolding read_status checked_status
  status_lem s =
      let lt = chip.status-lt s in
      let low : (chip.status s * 256 + chip.status s) % 2 ^ 8 ≡ chip.status s = omega arith in
      let high : (chip.status s * 256 + chip.status s) / 2 ^ 8 % 2 ^ 8 ≡ chip.status s =
        omega arith in
      rw (chip.answers s) (rw (low, high, ==_refl (chip.status s)) refl)

  -- The buffer is pending when the status is asked for the `k`-th time.
  abbrev pub pending : ℕ → ℕ → S → Bool
  pending txreq k s = bit txreq (chip.status (after transfer chip k s))

  pending_first :
      (txreq rounds : ℕ) (s : S)
      → pending txreq 0 s ≡ true
      → ((k : ℕ) → k < rounds → pending txreq k (chip.polled s) ≡ true)
      → (k : ℕ) → k < suc rounds
      → pending txreq k s ≡ true
  unfolding after
  pending_first txreq rounds s now later zero lt = now
  pending_first txreq rounds s now later (suc k) lt = later k (omega arith)

  -- The wait ends when the buffer is free, or when it was found pending in every round.
  pub wait_lem :
      (rounds txreq : ℕ) (s : S)
      → ((k : ℕ) → k < rounds → pending txreq k s ≡ true)
          × (wait_ready transfer rounds txreq s ≡ (false, after transfer chip rounds s))
        ⊎ ((k : ℕ) × (k < rounds)
            × (pending txreq k s ≡ false)
            × (wait_ready transfer rounds txreq s ≡ (true, after transfer chip (suc k) s)))
  unfolding wait_ready after
  wait_lem zero txreq s = inl (λ k lt. absurd (omega arith), refl)
  wait_lem (suc rounds) txreq s = elim (Bool-cases (bit txreq (chip.status s))) [
    | inr e ↦ inr (0, omega arith, e, rw (status_lem s) (rw e refl))
    | inl e ↦ elim (wait_lem rounds txreq (chip.polled s)) [
      | inl all ↦ inl (pending_first txreq rounds s e all.0, rw (status_lem s) (rw e all.1))
      | inr found ↦
          (let (k, lt, free, run) = found in
            inr (suc k, omega arith, free, rw (status_lem s) (rw e run)))
    ]
  ]
