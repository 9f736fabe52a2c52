-- ===== src/Acpi/Processors.antt =====
-- arch/x86/driver/SMPManager.cc, `addAPICID`: the processors that several calls leave in mAPICIDs.
use mathlib.Core.Option.{some-injective}
use native.Mathlib.Nat.{mod-eq_of_lt}
use cy_ph_os.Base.{
  ℕ, zero, suc, ◌+◌, ◌^◌, ◌≤◌, ◌<◌, ◌≡◌, refl, sym, ap, ◌∙◌, true, false, some, List, [], ◌∷◌, ◌==◌,
  ltb, if◌then◌else◌, arith, length, get_elem?, Bool-cases, inl, inr, eq_of_test, ne_of_test,
  update, update_at, update_ne,
}
use cy_ph_os.Acpi.{SmpManager, ApicId, add_apic_id}

-- An enabled processor: its APIC ID and its processor ID.
abbrev pub Processor : Type 0
Processor = ℕ × ℕ

-- The processors enter mAPICIDs behind those that were there, as many as there is room for.
pub record Registered (nr_cpus : ℕ) (found : List Processor) (m m' : SmpManager) : Type 0 where
  pub room : m'.registered_cpus ≡ (
      if ltb nr_cpus (m.registered_cpus + length found)
      then nr_cpus
      else m.registered_cpus + length found)
  pub before : (j : ℕ) → j < m.registered_cpus → m'.apic_ids j ≡ m.apic_ids j
  pub entered :
      (i : ℕ) (p : Processor)
      → m.registered_cpus + i < nr_cpus
      → get_elem? found i ≡ some p
      → m'.apic_ids (m.registered_cpus + i)
        ≡ record { apic_id = p.0; processor_id = p.1; ignore = true }

abbrev entry_of : Processor → ApicId
entry_of p = record { apic_id = p.0; processor_id = p.1; ignore = true }

-- `addAPICID` for each of the processors.
abbrev pub add_all : ℕ → List Processor → SmpManager → SmpManager
add_all nr_cpus [] m = m
add_all nr_cpus (p ∷ ps) m = add_all nr_cpus ps (add_apic_id nr_cpus p.0 p.1 true m)

add_all-full :
    (nr_cpus : ℕ) (ps : List Processor) (m : SmpManager)
    → m.registered_cpus ≡ nr_cpus
    → add_all nr_cpus ps m ≡ m
unfolding add_apic_id
add_all-full nr_cpus [] m e = refl
add_all-full nr_cpus (p ∷ ps) m e =
    let full : (m.registered_cpus == nr_cpus) ≡ true = ground arith in
    rw full (add_all-full nr_cpus ps m e)

add_apic_id_lem :
    (nr_cpus apic_id processor_id : ℕ) (m : SmpManager)
    → (m.registered_cpus == nr_cpus) ≡ false
    → m.registered_cpus + 1 < 2 ^ 8
    → add_apic_id nr_cpus apic_id processor_id true m ≡ record {
      registered_cpus = m.registered_cpus + 1;
      apic_ids =
          update m.apic_ids m.registered_cpus
            (record { apic_id = apic_id; processor_id = processor_id; ignore = true });
      cpu_mapping = update m.cpu_mapping apic_id m.registered_cpus;
    }
unfolding add_apic_id
add_apic_id_lem nr_cpus apic_id processor_id m e less = rw e (rw (mod-eq_of_lt less) refl)

pub add_all-Registered :
    (nr_cpus : ℕ) (ps : List Processor) (m : SmpManager)
    → nr_cpus < 2 ^ 8
    → m.registered_cpus ≤ nr_cpus
    → Registered nr_cpus ps m (add_all nr_cpus ps m)
add_all-Registered nr_cpus [] m small le = record {
  room = ground arith;
  before = λ j lt. refl;
  entered = λ i p lt e. cc;
}
add_all-Registered nr_cpus (p ∷ ps) m small le = elim (Bool-cases (m.registered_cpus == nr_cpus)) [
  | inl e ↦
      let full = eq_of_test m.registered_cpus nr_cpus e in
      rw (add_all-full nr_cpus (p ∷ ps) m full) (record {
        room = ground arith;
        before = λ j lt. refl;
        entered = λ i q lt k. absurd (omega arith);
      })
  | inr e ↦
      let ne = ne_of_test m.registered_cpus nr_cpus e in
      let k = m.registered_cpus in
      let m1 : SmpManager = record {
        registered_cpus = k + 1;
        apic_ids =
            update m.apic_ids k (record { apic_id = p.0; processor_id = p.1; ignore = true });
        cpu_mapping = update m.cpu_mapping p.0 k;
      } in
      let less : k + 1 < 2 ^ 8 = omega arith in
      let step : add_apic_id nr_cpus p.0 p.1 true m ≡ m1 =
        add_apic_id_lem nr_cpus p.0 p.1 m e less in
      let rest = add_all-Registered nr_cpus ps m1 small (omega arith) in
      rw step (record {
        room = ground (arith, rest.room);
        before = λ j lt.
            rest.before j (omega arith)
            ∙ update_ne m.apic_ids k _ (λ (eq : j ≡ k). absurd (omega arith));
        entered = enter p ps m m1 (add_all nr_cpus ps m1) refl (update_at m.apic_ids k _ refl) rest;
      })
]
  where
    enter :
        (p : Processor) (ps : List Processor) (m m1 m' : SmpManager)
        → m1.registered_cpus ≡ m.registered_cpus + 1
        → m1.apic_ids m.registered_cpus ≡ entry_of p
        → Registered nr_cpus ps m1 m'
        → (i : ℕ) (q : Processor) → m.registered_cpus + i < nr_cpus
        → get_elem? (p ∷ ps) i ≡ some q
        → m'.apic_ids (m.registered_cpus + i) ≡ entry_of q
    enter p ps m m1 m' e at rest zero q lt k =
        let here : m.registered_cpus + 0 ≡ m.registered_cpus = omega arith in
        ap m'.apic_ids here
        ∙ rest.before m.registered_cpus (omega arith)
        ∙ at
        ∙ ap entry_of (some-injective p q k)
    enter p ps m m1 m' e at rest (suc i) q lt k =
        let same : m1.registered_cpus + i ≡ m.registered_cpus + suc i = omega arith in
        ap m'.apic_ids (sym same) ∙ rest.entered i q (omega arith) k
