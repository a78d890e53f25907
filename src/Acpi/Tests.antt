-- ===== src/Acpi/Tests.antt =====
-- A MADT with two cores, an I/O APIC and an override for the timer, and an RSDT that lists it
-- (kernel/src/power/acpi/acpi.c).
use faceless_os.Base.{
  ℕ, zero, suc, ◌-◌, ◌<◌, ◌≡◌, ◌≢◌, ◌↔◌, ◌%◌, refl, List, [], ◌∷◌, true, arith, ltb, ◌==◌,
  if◌then◌else◌, get_or,
}
use faceless_os.Machine.Memory.{Mem, read_le}
use faceless_os.Acpi.{
  Cpus, table_length, first_entry, entries_end, rsdt_is_valid, get_madt, parse_madt,
}
use faceless_os.Acpi.Rsdt.{total, rsdt_is_valid-total, table_at, Found, get_madt-Found}
use faceless_os.Acpi.Entries.{Walk}
use faceless_os.Acpi.Madt.{Parsed, parse_madt-Parsed}

abbrev bytes_of_madt : List ℕ
bytes_of_madt = b'A' ∷ b'P' ∷ b'I' ∷ b'C' ∷ 82 ∷ 0 ∷ 0 ∷ 0 ∷ []

-- The bytes behind the header: two local APICs, an I/O APIC, and an override of line 0 by 2.
abbrev entries_of_madt : List ℕ
entries_of_madt =
    0 ∷ 8 ∷ 0 ∷ 0 ∷ 1 ∷ 0 ∷ 0 ∷ 0 ∷ 0 ∷ 8 ∷ 1 ∷ 1 ∷ 1 ∷ 0 ∷ 0 ∷ 0 ∷ 1 ∷ 12 ∷ 2 ∷ 0 ∷ 0 ∷ 0 ∷ 0xC0
    ∷ 0xFE ∷ 0 ∷ 0 ∷ 0 ∷ 0 ∷ 2 ∷ 10 ∷ 0 ∷ 0 ∷ 2 ∷ 0 ∷ 0 ∷ 0 ∷ 0 ∷ 0 ∷ []

-- The RSDT at 0x1000 has one table, at 0x2000. The literal "APIC" is at 0x3000.
abbrev memory : Mem
memory a =
    if a == 0x1004
    then 40
    else if a == 0x1025
    then 0x20
    else if ltb a 0x2000
    then 0
    else if ltb a 0x202C
    then get_or bytes_of_madt (a - 0x2000) 0
    else if ltb a 0x3000
    then get_or entries_of_madt (a - 0x202C) 0
    else get_or bytes_of_madt (a - 0x3000) 0

abbrev no_cpus : Cpus
no_cpus = record { acpi_cpuids = λ k. 0; cpuid_idx = 0; io_apic_ptr = 0 }

rsdt_is_valid-total_example :
    (rsdt_is_valid memory 0x1000 ≡ true)
    ↔ ((◌≢◌ {A = ℕ} 0x1000 0) × (total memory 0x1000 (table_length memory 0x1000) % 256 ≡ 0))
rsdt_is_valid-total_example = rsdt_is_valid-total memory 0x1000

tables_below : (i : ℕ) → i < 1 → 0 < table_at memory 0x1000 i
unfolding read_le
tables_below zero lt = omega arith
tables_below (suc i) lt = let bad : 0 < 0 = omega arith in elim bad [ ]

get_madt-Found_example : Found memory 0x3000 0x1000 1 (get_madt memory 0x3000 0x1000 1)
get_madt-Found_example = get_madt-Found memory 0x3000 0x1000 1 (omega arith) tables_below

madt_length : table_length memory 0x2000 ≡ 82
unfolding read_le
madt_length = refl

parse_madt-Parsed_example :
    (es : List ℕ) × Walk memory (entries_end memory 0x2000) (first_entry 0x2000) es
    × Parsed memory 0x2000 no_cpus es (parse_madt 4000 memory 0x2000 no_cpus []).0
parse_madt-Parsed_example =
    parse_madt-Parsed 4000 memory 0x2000 no_cpus [] (omega (arith, madt_length))
