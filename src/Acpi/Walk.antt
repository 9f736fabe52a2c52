-- ===== src/Acpi/Walk.antt =====
-- The walk through the entries of the MADT: which entries it comes to, and what it registers.
use cy_ph_os.Base.{
  ℕ, zero, suc, ◌+◌, ◌*◌, ◌^◌, ◌%◌, ◌≤◌, ◌<◌, ◌≡◌, refl, sym, ap, ◌∙◌, true, false, some, List, [],
  ◌∷◌, ◌==◌, ltb, if◌then◌else◌, arith, length, Bool-cases, inl, inr, test_of_ne, ==_refl,
}
use cy_ph_os.Acpi.{
  Bytes, read32, madt_length, entry_length, get_next_entry, IoApic, Discovered, register_entry,
  walk_entries, init_acpi,
}
use cy_ph_os.Acpi.Processors.{Processor, Registered, add_all, add_all-Registered}

-- Entries of the given lengths stand one after the other from an address on, up to the end of the
-- table; none is empty.
abbrev pub Entries : Bytes → ℕ → ℕ → List ℕ → Type 0
Entries mem end entry [] = entry ≡ end
Entries mem end entry (len ∷ lens) =
    (0 < len) × (entry_length mem entry ≡ len) × Entries mem end (entry + len) lens

-- What is registered if each of the entries is taken in turn.
abbrev pub register_all : ℕ → Bytes → ℕ → List ℕ → Discovered → Discovered
register_all nr_cpus mem entry [] f = f
register_all nr_cpus mem entry (len ∷ lens) f =
    register_all nr_cpus mem (entry + len) lens (register_entry nr_cpus mem entry f)

Entries-end :
    (mem : Bytes) (end entry : ℕ) (lens : List ℕ) → Entries mem end entry lens → entry ≤ end
Entries-end mem end entry [] layout = omega arith
Entries-end mem end entry (len ∷ lens) layout =
    let rest = Entries-end mem end (entry + len) lens layout.2 in omega arith

-- The entry after one of the table.
next_entry_lem :
    (mem : Bytes) (madt entry len : ℕ)
    → madt < entry
    → entry_length mem entry ≡ len
    → get_next_entry mem madt entry
      ≡ (if ltb (entry + len) (madt + madt_length mem madt) then entry + len else 0)
unfolding get_next_entry
next_entry_lem mem madt entry len lt e =
    let other : (entry == madt) ≡ false = test_of_ne entry madt (λ k. absurd (omega arith)) in
    rw (other, e) refl

walk_from :
    (fuel nr_cpus : ℕ) (mem : Bytes) (madt entry : ℕ) (lens : List ℕ) (f : Discovered)
    → madt < entry
    → length lens < fuel
    → Entries mem (madt + madt_length mem madt) entry lens
    → walk_entries fuel nr_cpus mem madt
        (if ltb entry (madt + madt_length mem madt) then entry else 0)
        f
      ≡ some (register_all nr_cpus mem entry lens f)
unfolding walk_entries
walk_from zero nr_cpus mem madt entry lens f lt enough layout = absurd (omega arith)
walk_from (suc fuel) nr_cpus mem madt entry [] f lt enough layout =
    let end : ltb entry (madt + madt_length mem madt) ≡ false = ground (arith, layout) in
    rw end refl
walk_from (suc fuel) nr_cpus mem madt entry (len ∷ lens) f lt enough layout =
    let after = Entries-end mem (madt + madt_length mem madt) (entry + len) lens layout.2 in
    let pos = layout.0 in
    let within : ltb entry (madt + madt_length mem madt) ≡ true = ground arith in
    let present : (entry == 0) ≡ false =
      test_of_ne entry 0 (λ (k : entry ≡ 0). absurd (omega arith)) in
    let next = next_entry_lem mem madt entry len lt layout.1 in
    rw within (
      rw present (
        ap (λ a. walk_entries fuel nr_cpus mem madt a (register_entry nr_cpus mem entry f)) next
        ∙ walk_from fuel nr_cpus mem madt (entry + len) lens (register_entry nr_cpus mem entry f)
            (omega arith) (omega arith) layout.2))

-- The local APICs of the table (type 0) whose enabled flag, bit 0 of the flags at byte 4, is set; the
-- processor ID is byte 2 and the APIC ID byte 3.
abbrev pub enabled : Bytes → ℕ → List ℕ → List Processor
enabled mem entry [] = []
enabled mem entry (len ∷ lens) =
    if mem entry == 0
    then (if mem (entry + 4) % 2 == 1
        then (mem (entry + 3), mem (entry + 2)) ∷ enabled mem (entry + len) lens
        else enabled mem (entry + len) lens)
    else enabled mem (entry + len) lens

-- The IOAPICs of the table (type 1), on top of those that were known: the ID is byte 2, the address
-- the bytes 4 to 7 and the first interrupt the bytes 8 to 11, the lowest first.
abbrev pub ioapics_of : Bytes → ℕ → List ℕ → List IoApic → List IoApic
ioapics_of mem entry [] known = known
ioapics_of mem entry (len ∷ lens) known =
    if mem entry == 1
    then ioapics_of mem (entry + len) lens (
        record {
          base_address =
              mem (entry + 4)
              + 256 * (mem (entry + 5) + 256 * (mem (entry + 6) + 256 * mem (entry + 7)));
          ioapic_id = mem (entry + 2);
          interrupt_base =
              mem (entry + 8)
              + 256 * (mem (entry + 9) + 256 * (mem (entry + 10) + 256 * mem (entry + 11)));
        }
        ∷ known)
    else ioapics_of mem (entry + len) lens known

register_all-smp :
    (nr_cpus : ℕ) (mem : Bytes) (entry : ℕ) (lens : List ℕ) (f : Discovered)
    → (register_all nr_cpus mem entry lens f).smp ≡ add_all nr_cpus (enabled mem entry lens) f.smp
unfolding register_entry
register_all-smp nr_cpus mem entry [] f = refl
register_all-smp nr_cpus mem entry (len ∷ lens) f =
    let next = register_all-smp nr_cpus mem (entry + len) lens in
    elim (Bool-cases (mem entry == 1)) [
      | inl e ↦
          let other : (mem entry == 0) ≡ false = ground arith in
          next (register_entry nr_cpus mem entry f) ∙ rw (e, other) refl
      | inr e ↦ elim (Bool-cases (mem entry == 0)) [
        | inr k ↦ next (register_entry nr_cpus mem entry f) ∙ rw (e, k) refl
        | inl k ↦
            let flag : (read32 mem (entry + 4) % 2 == 1) ≡ (mem (entry + 4) % 2 == 1) =
              ap (λ v. v == 1) (low_bit mem (entry + 4)) in
            elim (Bool-cases (mem (entry + 4) % 2 == 1)) [
              | inl o ↦ next (register_entry nr_cpus mem entry f) ∙ rw (e, k) (rw flag (rw o refl))
              | inr o ↦ next (register_entry nr_cpus mem entry f) ∙ rw (e, k) (rw flag (rw o refl))
            ]
      ]
    ]
  where
    low_bit : (mem : Bytes) (a : ℕ) → read32 mem a % 2 ≡ mem a % 2
    low_bit mem a = omega arith

register_all-ioapics :
    (nr_cpus : ℕ) (mem : Bytes) (entry : ℕ) (lens : List ℕ) (f : Discovered)
    → (register_all nr_cpus mem entry lens f).ioapics ≡ ioapics_of mem entry lens f.ioapics
unfolding register_entry
register_all-ioapics nr_cpus mem entry [] f = refl
register_all-ioapics nr_cpus mem entry (len ∷ lens) f =
    let next =
      register_all-ioapics nr_cpus mem (entry + len) lens (register_entry nr_cpus mem entry f) in
    let address =
      mem (entry + 4) + 256 * (mem (entry + 5) + 256 * (mem (entry + 6) + 256 * mem (entry + 7))) in
    elim (Bool-cases (mem entry == 1)) [
      | inl e ↦
          next
          ∙ rw e (
              ap (λ r. ioapics_of mem (entry + len) lens (r ∷ f.ioapics))
                (ap (λ b. ioapic_at b (mem (entry + 2)) (read32 mem (entry + 8)))
                    (little (entry + 4) (entry + 5) (entry + 6) (entry + 7) (omega arith)
                      (omega arith) (omega arith))
                  ∙ ap (λ b. ioapic_at address (mem (entry + 2)) b)
                      (little (entry + 8) (entry + 9) (entry + 10) (entry + 11) (omega arith)
                        (omega arith) (omega arith))))
      | inr e ↦ elim (Bool-cases (mem entry == 0)) [
        | inr k ↦ next ∙ rw (e, k) refl
        | inl k ↦ elim (Bool-cases (read32 mem (entry + 4) % 2 == 1)) [
          | inl o ↦ next ∙ rw (e, k, o) refl
          | inr o ↦ next ∙ rw (e, k, o) refl
        ]
      ]
    ]
  where
    ioapic_at : ℕ → ℕ → ℕ → IoApic
    ioapic_at base id interrupt = record {
      base_address = base;
      ioapic_id = id;
      interrupt_base = interrupt;
    }

    little :
        (a b c d : ℕ)
        → b ≡ a + 1
        → c ≡ a + 2
        → d ≡ a + 3
        → read32 mem a ≡ mem a + 256 * (mem b + 256 * (mem c + 256 * mem d))
    little a b c d e e' e'' = rw (e, e', e'') (omega arith)

-- For a MADT that is not at 0, whose entries, at least one and none of length 0, stand one after the
-- other from its byte 44 to its end, with fewer than 256 processors for NR_CPUS and more fuel than
-- entries: `initACPI` returns. Every IOAPIC of the table is configured, with the address, the ID and
-- the first interrupt that its bytes give; the enabled processors of the table, and no other, stand in
-- mAPICIDs behind those that were there, in order and as many as NR_CPUS leaves room for.
pub init_acpi-Registered :
    (fuel nr_cpus : ℕ) (mem : Bytes) (madt len : ℕ) (lens : List ℕ) (f : Discovered)
    → 0 < madt
    → length lens + 1 < fuel
    → nr_cpus < 2 ^ 8
    → Entries mem (madt + madt_length mem madt) (madt + 44) (len ∷ lens)
    → f.smp.registered_cpus ≤ nr_cpus
    → (f' : Discovered) × (init_acpi fuel nr_cpus mem madt f ≡ some f')
      × (f'.ioapics ≡ ioapics_of mem (madt + 44) (len ∷ lens) f.ioapics)
      × Registered nr_cpus (enabled mem (madt + 44) (len ∷ lens)) f.smp f'.smp
unfolding init_acpi get_next_entry
init_acpi-Registered fuel nr_cpus mem madt len lens f pos enough small layout fits =
    let present : (madt == 0) ≡ false =
      test_of_ne madt 0 (λ (k : madt ≡ 0). absurd (omega arith)) in
    let after = Entries-end mem (madt + madt_length mem madt) (madt + 44 + len) lens layout.2 in
    let more = layout.0 in
    let within : ltb (madt + 44) (madt + madt_length mem madt) ≡ true = ground arith in
    let first : (if ltb (madt + 44) (madt + madt_length mem madt) then madt + 44 else 0)
        ≡ madt + 44 =
      rw within refl in
    let all = len ∷ lens in
    (
      register_all nr_cpus mem (madt + 44) all f,
      rw (present, ==_refl madt)
          (ap (λ a. walk_entries fuel nr_cpus mem madt a f) (sym first)
            ∙ walk_from fuel nr_cpus mem madt (madt + 44) all f (omega arith) (omega arith) layout),
      register_all-ioapics nr_cpus mem (madt + 44) all f,
      rw (register_all-smp nr_cpus mem (madt + 44) all f)
          (add_all-Registered nr_cpus (enabled mem (madt + 44) all) f.smp small fits),
    )
