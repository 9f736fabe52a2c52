-- ===== src/Examples/Firmware.antt =====
-- The MADT at a concrete input: at 0x1000, with an IOAPIC and an enabled processor.
use cy_ph_os.Base.{ℕ, ◌+◌, ◌*◌, ◌≡◌, refl, false, some, [], ◌∷◌, ◌==◌, if◌then◌else◌, arith}
use cy_ph_os.Acpi.{Bytes, Discovered, init_acpi}
use cy_ph_os.Acpi.Tables.{find_entry, IsFirst, find_entry-IsFirst}
use cy_ph_os.Acpi.Walk.{enabled, ioapics_of, init_acpi-Registered}
use cy_ph_os.Acpi.Processors.{Registered}

abbrev table : Bytes
table a =
    if a == 0x1004
    then 64
    else (if a == 0x102C
        then 1
        else (if a == 0x102D
            then 12
            else (if a == 0x1039
                then 8
                else (if a == 0x103B then 5 else (if a == 0x103C then 1 else 0)))))

abbrev nothing_found : Discovered
nothing_found = record {
  smp = record {
    registered_cpus = 0;
    apic_ids = λ n. record { apic_id = 0; processor_id = 0; ignore = false };
    cpu_mapping = λ id. 0;
  };
  ioapics = [];
}

init_acpi-Registered_example :
    (found : Discovered) × (init_acpi 10 4 table 0x1000 nothing_found ≡ some found)
    × (found.ioapics ≡ ioapics_of table 0x102C (12 ∷ 8 ∷ []) [])
    × Registered 4 (enabled table 0x102C (12 ∷ 8 ∷ [])) nothing_found.smp found.smp
init_acpi-Registered_example =
    init_acpi-Registered 10 4 table 0x1000 12 (8 ∷ []) nothing_found (omega arith) (omega arith)
      (omega arith) (omega arith, refl, (omega arith, refl, refl)) (omega arith)

-- The second of three entries leads to the signature "APIC".
abbrev apic : Bytes
apic i = if i == 0 then 65 else (if i == 1 then 80 else (if i == 2 then 73 else 67))

abbrev tables : Bytes
tables a =
    if a == 0x204
    then 65
    else (if a == 0x205 then 80 else (if a == 0x206 then 73 else (if a == 0x207 then 67 else 82)))

abbrev entry_at : ℕ → ℕ
entry_at a = a + 0x100

find_entry-IsFirst_example :
    (found : ℕ) × (find_entry 10 4 entry_at tables apic 0x100 (0x100 + 4 * 3) ≡ some found)
    × IsFirst 4 entry_at tables apic 0x100 3 found
find_entry-IsFirst_example =
    find_entry-IsFirst 10 4 entry_at tables apic 0x100 3 (omega arith) (omega arith)
