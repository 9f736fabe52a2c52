-- ===== src/Can/Modes/Filters.antt =====
-- `setFilter` and `setMask` on the registers of a controller.
use cy_ph_os.Base.{
  ℕ, zero, suc, ◌+◌, ◌*◌, ◌/◌, ◌%◌, ◌^◌, ◌<◌, ◌≤◌, ◌≡◌, ◌≢◌, ◌⊎◌, refl, sym, ◌∙◌, ap, false, ◌||◌,
  Option, if◌then◌else◌, ltb, arith, Bool-cases, inl, inr,
}
use cy_ph_os.Can.{ok, wrong_parameter, write_register, with_low_id}
use cy_ph_os.Can.Controller.{IsPlain, IsMcp2515}
use cy_ph_os.Can.Registers.{read_lem, write_at, write_ne, write-writable}
use cy_ph_os.Can.Modes.{filter_sidh, filter_sidl, set_filter}

-- The address of RXFnSIDH in the data sheet; RXFnSIDL follows it.
abbrev pub rxf_sidh : ℕ → ℕ
rxf_sidh zero = 0x00
rxf_sidh (suc zero) = 0x04
rxf_sidh (suc (suc zero)) = 0x08
rxf_sidh (suc (suc (suc zero))) = 0x10
rxf_sidh (suc (suc (suc (suc zero)))) = 0x14
rxf_sidh (suc (suc (suc (suc (suc n))))) = 0x18

rxf_sidh_lem : (n : ℕ) → n ≤ 5 → filter_sidh n ≡ rxf_sidh n
rxf_sidh_lem zero le = refl
rxf_sidh_lem (suc zero) le = refl
rxf_sidh_lem (suc (suc zero)) le = refl
rxf_sidh_lem (suc (suc (suc zero))) le = refl
rxf_sidh_lem (suc (suc (suc (suc zero)))) le = refl
rxf_sidh_lem (suc (suc (suc (suc (suc zero))))) le = refl
rxf_sidh_lem (suc (suc (suc (suc (suc (suc n)))))) le = absurd (omega arith)

-- The registers of the filters keep the bits of an identifier and the bit for extended frames.
pub record KeepsFilters {S : Type 0} (transfer : ℕ → ℕ → S → Option ℕ × S)
    (chip : IsMcp2515 transfer) : Type 0 where
  pub high : (n d : ℕ) → n ≤ 5 → d < 256 → chip.kept (rxf_sidh n) d ≡ d
  pub low : (n d : ℕ) → n ≤ 5 → d < 256 → chip.kept (rxf_sidh n + 1) d / 32 ≡ d / 32
  pub standard : (n d : ℕ) → n ≤ 5 → d < 256 → chip.kept (rxf_sidh n + 1) d / 8 % 2 ≡ d / 8 % 2

module _ {S : Type 0} (transfer : ℕ → ℕ → S → Option ℕ × S) (chip : IsMcp2515 transfer)
    (filters : KeepsFilters transfer chip) where
  -- The eleven bits of an identifier in two registers.
  abbrev pub id_at : ℕ → ℕ → S → ℕ
  id_at sidh sidl s = chip.register s sidh * 8 + chip.register s sidl / 32

  high_byte : (id : ℕ) → id ≤ 0x7ff → id / 8 < 256
  high_byte id le = omega arith

  low_byte : (reg id : ℕ) → reg < 256 → with_low_id reg id < 256
  low_byte reg id lt = omega arith

  low_bits : (reg id : ℕ) → with_low_id reg id / 32 ≡ id % 8
  low_bits reg id = omega arith

  standard_bit : (reg id : ℕ) → with_low_id reg id / 8 % 2 ≡ 0
  standard_bit reg id = omega arith

  whole_id : (id h l : ℕ) → h ≡ id / 8 → l ≡ id % 8 → h * 8 + l ≡ id
  whole_id id h l e e' = omega arith

  -- The registers after a filter is set.
  module _ (n id : ℕ) (s : S) (n_le : n ≤ 5) (id_le : id ≤ 0x7ff)
      (mode : chip.register s 0x0E / 32 ≡ 4) where
    abbrev high_set : S
    high_set = write_register transfer (filter_sidh n) (id / 8) s

    abbrev low_value : ℕ
    low_value = with_low_id (chip.register s (filter_sidl n)) id

    abbrev low_set : S
    low_set = write_register transfer (filter_sidl n) low_value high_set

    abbrev all_set : S
    all_set = write_register transfer (if ltb n 2 then 0x60 else 0x70) (2 ^ 5 + n) low_set

    high-IsPlain : IsPlain (filter_sidh n)
    high-IsPlain = (ground arith, ground arith)

    low-IsPlain : IsPlain (filter_sidl n)
    low-IsPlain = (ground arith, ground arith)

    low_small : filter_sidl n < 256
    low_small = ground arith

    value_small : low_value < 256
    value_small = low_byte _ id (chip.byte s (filter_sidl n))

    control_apart :
        (a : ℕ) → a < 0x60 → IsPlain a → chip.register all_set a ≡ chip.register low_set a
    control_apart a lt plain =
        let control : IsPlain (if ltb n 2 then 0x60 else 0x70) = (ground arith, ground arith) in
        let ne : a ≢ (if ltb n 2 then 0x60 else 0x70) = λ e. ground arith in
        write_ne transfer chip _ (2 ^ 5 + n) a low_set control plain (omega arith) ne

    high_at : chip.register all_set (filter_sidh n) ≡ id / 8
    high_at =
        let below : filter_sidh n < 0x60 = ground arith in
        let below' : filter_sidh n < 0x28 = ground arith in
        control_apart (filter_sidh n) below high-IsPlain
        ∙ write_ne transfer chip (filter_sidl n) low_value (filter_sidh n) high_set low-IsPlain
            high-IsPlain value_small (λ e. omega arith)
        ∙ write_at transfer chip (filter_sidh n) (id / 8) s high-IsPlain (high_byte id id_le)
            (chip.configured s (filter_sidh n) mode below' high-IsPlain)
        ∙ ap (λ a. chip.kept a (id / 8)) (rxf_sidh_lem n n_le)
        ∙ filters.high n (id / 8) n_le (high_byte id id_le)

    low_at : chip.register all_set (filter_sidl n) ≡ chip.kept (rxf_sidh n + 1) low_value
    low_at =
        let below : filter_sidl n < 0x60 = ground arith in
        let below' : filter_sidl n < 0x28 = ground arith in
        let first : filter_sidh n < 0x30 = ground arith in
        control_apart (filter_sidl n) below low-IsPlain
        ∙ write_at transfer chip (filter_sidl n) low_value high_set low-IsPlain value_small (
            write-writable transfer chip (filter_sidh n) (id / 8) (filter_sidl n) s high-IsPlain
              (inl first) (high_byte id id_le)
              (chip.configured s (filter_sidl n) mode below' low-IsPlain))
        ∙ ap (λ a. chip.kept (a + 1) low_value) (rxf_sidh_lem n n_le)

    set_filter_run : set_filter transfer n id s ≡ (ok, all_set)
    unfolding set_filter
    set_filter_run =
        let fits : (ltb 5 n || ltb 0x7ff id) ≡ false = ground arith in
        rw (fits, read_lem transfer chip (filter_sidl n) s low_small) refl

  -- With a controller that keeps its filters and is in the configuration mode: `setFilter` refuses a
  -- number above 5 or an identifier of more than eleven bits and then sends nothing; otherwise it
  -- succeeds, the two registers that the filter has in the data sheet have the identifier, and the
  -- filter is for standard frames.
  pub set_filter-id_at :
      (filterid filter : ℕ) (s : S)
      → chip.register s 0x0E / 32 ≡ 4
      → ((5 < filterid) ⊎ (0x7ff < filter))
          × (set_filter transfer filterid filter s ≡ (wrong_parameter, s))
        ⊎ (filterid ≤ 5)
          × (filter ≤ 0x7ff)
          × ((set_filter transfer filterid filter s).0 ≡ ok)
          × (id_at
                (rxf_sidh filterid)
                (rxf_sidh filterid + 1)
                (set_filter transfer filterid filter s).1
              ≡ filter)
          × (chip.register (set_filter transfer filterid filter s).1 (rxf_sidh filterid + 1) / 8 % 2
              ≡ 0)
  unfolding set_filter
  set_filter-id_at n id s mode = elim (Bool-cases (ltb 5 n)) [
    | inl e ↦ inl (inl (ground arith), rw e refl)
    | inr e ↦ elim (Bool-cases (ltb 0x7ff id)) [
      | inl k ↦ inl (inr (ground arith), rw (e, k) refl)
      | inr k ↦
          (let n_le : n ≤ 5 = ground arith in
            let id_le : id ≤ 0x7ff = ground arith in
            let run = set_filter_run n id s n_le id_le mode in
            let here = rxf_sidh_lem n n_le in
            inr (
              n_le,
              id_le,
              ap (λ r. r.0) run,
              ap (λ a. id_at a (a + 1) (set_filter transfer n id s).1) (sym here)
                  ∙ ap (λ r. id_at (filter_sidh n) (filter_sidl n) r.1) run
                  ∙ whole_id id _ _ (high_at n id s n_le id_le mode) (
                      ap (λ v. v / 32) (low_at n id s n_le id_le mode)
                      ∙ filters.low n _ n_le (value_small n id s n_le id_le mode)
                      ∙ low_bits _ id),
              ap (λ a. chip.register (set_filter transfer n id s).1 (a + 1) / 8 % 2) (sym here)
                  ∙ ap (λ r. chip.register r.1 (filter_sidl n) / 8 % 2) run
                  ∙ ap (λ v. v / 8 % 2) (low_at n id s n_le id_le mode)
                  ∙ filters.standard n _ n_le (value_small n id s n_le id_le mode)
                  ∙ standard_bit _ id,
            ))
    ]
  ]
