-- ===== src/Acpi.antt =====
-- arch/x86/driver/ACPI.cc and SMPManager.cc (addAPICID): the table MADT of the firmware names the
-- processors and the IOAPICs. The memory gives the byte at an address.
pub mod Tables
pub mod Walk
pub mod Processors
use cy_ph_os.Base.{
  ℕ, zero, suc, ◌+◌, ◌*◌, ◌%◌, ◌^◌, Bool, true, Option, none, some, List, [], ◌∷◌, ◌==◌, ltb,
  if◌then◌else◌, update,
}

abbrev pub Bytes : Type 0
Bytes = ℕ → ℕ

-- A uint32_t of a packed struct.
abbrev pub read32 : Bytes → ℕ → ℕ
read32 mem a = mem a + mem (a + 1) * 2 ^ 8 + mem (a + 2) * 2 ^ 16 + mem (a + 3) * 2 ^ 24

-- The members `length` of MADT and of MADT_Entry.
abbrev pub madt_length : Bytes → ℕ → ℕ
madt_length mem madt = read32 mem (madt + 4)

abbrev pub entry_length : Bytes → ℕ → ℕ
entry_length mem entry = mem (entry + 1)

-- `getNextEntry`; 0 stands for nullptr.
unfoldable pub get_next_entry : Bytes → ℕ → ℕ → ℕ
get_next_entry mem madt entry =
    let next = entry + entry_length mem entry in
    if entry == madt
    then madt + 44
    else (if ltb next (madt + madt_length mem madt) then next else 0)

-- A member of mAPICIDs.
pub record ApicId : Type 0 where
  pub apic_id : ℕ
  pub processor_id : ℕ
  pub ignore : Bool

pub record SmpManager : Type 0 where
  pub registered_cpus : ℕ
  pub apic_ids : ℕ → ApicId
  pub cpu_mapping : ℕ → ℕ

-- `addAPICID`, for NR_CPUS processors; mRegisteredCPUs is a uint8_t.
unfoldable pub add_apic_id : ℕ → ℕ → ℕ → Bool → SmpManager → SmpManager
add_apic_id nr_cpus apic_id processor_id ignore m =
    if m.registered_cpus == nr_cpus then m else record {
      registered_cpus = (m.registered_cpus + 1) % 2 ^ 8;
      apic_ids =
          update m.apic_ids m.registered_cpus
            (record { apic_id = apic_id; processor_id = processor_id; ignore = ignore });
      cpu_mapping = update m.cpu_mapping apic_id m.registered_cpus;
    }

-- A call of IOAPIC::configureNewInstance.
pub record IoApic : Type 0 where
  pub base_address : ℕ
  pub ioapic_id : ℕ
  pub interrupt_base : ℕ

pub record Discovered : Type 0 where
  pub smp : SmpManager
  pub ioapics : List IoApic

-- What the loop of `initACPI` does with an entry.
unfoldable pub register_entry : ℕ → Bytes → ℕ → Discovered → Discovered
register_entry nr_cpus mem entry f =
    let ioapic : IoApic = record {
      base_address = read32 mem (entry + 4);
      ioapic_id = mem (entry + 2);
      interrupt_base = read32 mem (entry + 8);
    } in
    let processor = add_apic_id nr_cpus (mem (entry + 3)) (mem (entry + 2)) true f.smp in
    if mem entry == 1
    then record f { ioapics = ioapic ∷ f.ioapics }
    else (if mem entry == 0
        then (if read32 mem (entry + 4) % 2 == 1 then record f { smp = processor } else f)
        else f)

-- The loop over the entries; `none` is a lack of fuel.
unfoldable pub walk_entries : ℕ → ℕ → Bytes → ℕ → ℕ → Discovered → Option Discovered
walk_entries zero nr_cpus mem madt entry f = none
walk_entries (suc fuel) nr_cpus mem madt entry f =
    let rest =
      walk_entries fuel nr_cpus mem madt (get_next_entry mem madt entry)
        (register_entry nr_cpus mem entry f) in
    if entry == 0 then some f else rest

-- `initACPI`, once the MADT is found.
unfoldable pub init_acpi : ℕ → ℕ → Bytes → ℕ → Discovered → Option Discovered
init_acpi fuel nr_cpus mem madt f =
    if madt == 0
    then some f
    else walk_entries fuel nr_cpus mem madt (get_next_entry mem madt madt) f
