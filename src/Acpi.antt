-- ===== src/Acpi.antt =====
-- ACPI tables: kernel/src/power/acpi/acpi.c with the layouts of kernel/include/power/acpi/tables.h,
-- and the core count of kernel/src/arch/cpu/smp.c. Tables lie in the byte memory.
pub mod Rsdt
pub mod Entries
pub mod Madt
mod Tests
use faceless_os.Base.{
  ℕ, zero, suc, ◌+◌, ◌-◌, ◌*◌, ◌/◌, ◌%◌, ◌^◌, [], ◌∷◌, Bool, false, Option, none, some, leb, ltb,
  ◌==◌, if◌then◌else◌,
}
use faceless_os.Machine.Memory.{Mem, store, read_le}
use faceless_os.Machine.Io.{num, Io, pure, ◌>>=◌, ◌>>◌, log, u8, u32, u64}
use faceless_os.Text.{Bytes, strncmp, is_negative}

abbrev pub apic_type_local_apic : ℕ
apic_type_local_apic = 0

abbrev pub apic_type_io_apic : ℕ
apic_type_io_apic = 1

abbrev pub apic_type_interrupt_override : ℕ
apic_type_interrupt_override = 2

abbrev pub max_needed_cores : ℕ
max_needed_cores = 16

-- `sizeof(acpi_header_t)` and `sizeof(acpi_madt_t)`
abbrev pub header_size : ℕ
header_size = 36

abbrev pub madt_size : ℕ
madt_size = 44

-- `table->header.length`
abbrev pub table_length : Mem → ℕ → ℕ
table_length m table = read_le m (table + 4) 4

-- The fields of `apic_header_t` and of the entries behind it.
abbrev pub entry_type : Mem → ℕ → ℕ
entry_type m p = m p

abbrev pub entry_length : Mem → ℕ → ℕ
entry_length m p = m (p + 1)

abbrev pub processor_id : Mem → ℕ → ℕ
processor_id m p = m (p + 2)

abbrev pub apic_id : Mem → ℕ → ℕ
apic_id m p = m (p + 3)

abbrev pub local_apic_flags : Mem → ℕ → ℕ
local_apic_flags m p = read_le m (p + 4) 4

abbrev pub io_apic_id : Mem → ℕ → ℕ
io_apic_id m p = m (p + 2)

abbrev pub io_apic_addr : Mem → ℕ → ℕ
io_apic_addr m p = read_le m (p + 4) 4

abbrev pub global_system_interrupt_base : Mem → ℕ → ℕ
global_system_interrupt_base m p = read_le m (p + 8) 4

abbrev pub override_bus : Mem → ℕ → ℕ
override_bus m p = m (p + 2)

abbrev pub override_source : Mem → ℕ → ℕ
override_source m p = m (p + 3)

abbrev pub override_interrupt : Mem → ℕ → ℕ
override_interrupt m p = read_le m (p + 4) 4

abbrev pub override_flags : Mem → ℕ → ℕ
override_flags m p = read_le m (p + 8) 2

-- `sum += ((char*)&rsdt->header)[i]` from `i` on. A `char` may be negative, which a sum of 8 bits
-- does not see.
unfoldable pub sum_loop : ℕ → Mem → ℕ → ℕ → ℕ → ℕ
sum_loop zero m rsdt i sum = sum
sum_loop (suc left) m rsdt i sum = sum_loop left m rsdt (i + 1) (u8 (sum + m (rsdt + i)))

unfoldable pub rsdt_is_valid : Mem → ℕ → Bool
rsdt_is_valid m rsdt =
    if rsdt == 0 then false else sum_loop (table_length m rsdt) m rsdt 0 0 % 0x100 == 0

-- `(rsdt->header.length - sizeof(rsdt->header)) / 4` is computed in 64 bits and stored in an `int`.
unfoldable pub rsdt_entries : Mem → ℕ → ℕ
rsdt_entries m rsdt = u32 (u64 (table_length m rsdt + 2 ^ 64 - header_size) / 4)

-- The rounds of `for (int i = 0; i < rsdt_entries; ++i)`: none where the `int` is negative.
abbrev pub rounds : ℕ → ℕ
rounds entries = if is_negative entries then 0 else entries

-- `apic` is the address of the literal "APIC".
unfoldable pub madt_loop : ℕ → Mem → (apic rsdt i : ℕ) → ℕ
madt_loop zero m apic rsdt i = 0
madt_loop (suc left) m apic rsdt i =
    let table = read_le m (rsdt + header_size + 4 * i) 4 in
    let rest = madt_loop left m apic rsdt (i + 1) in
    if strncmp m table apic 4 == 0 then rest else table

-- The address of the MADT, or 0 for NULL.
unfoldable pub get_madt : Mem → (apic rsdt entries : ℕ) → ℕ
unfolding madt_loop
get_madt m apic rsdt entries = madt_loop (rounds entries) m apic rsdt 0

-- The variables that `parse_madt` sets. `cpuid_idx` is local to it.
pub record Cpus : Type 0 where
  pub acpi_cpuids : Bytes
  pub cpuid_idx : ℕ
  pub io_apic_ptr : ℕ

-- `(uint8_t*)(madt + 1)` and `(uint8_t*)(madt + madt->header.length)`: the sums are in units of the
-- size of an `acpi_madt_t`.
abbrev pub first_entry : ℕ → ℕ
first_entry madt = madt + madt_size

abbrev pub entries_end : Mem → ℕ → ℕ
entries_end m madt = madt + madt_size * table_length m madt

-- The `switch` on the type of the entry at `p`.
unfoldable pub parse_entry : Mem → ℕ → Cpus → Io Cpus
parse_entry m p cpus =
    if entry_type m p == apic_type_local_apic
    then if ltb max_needed_cores cpus.cpuid_idx then pure cpus else (do
      log "\u{1b}[0;35m\n\n---- CPU core found ----\n" []
      log "\u{1b}[0;33m<core_info>\n" []
      log "\u{1b}[0;36m    Processor ID: %d\n" (num (processor_id m p) ∷ [])
      log "\u{1b}[0;36m    APIC ID: %d\n" (num (apic_id m p) ∷ [])
      log "\u{1b}[0;36m    Flags: %x\n" (num (local_apic_flags m p) ∷ [])
      log "\u{1b}[0;33m</core_info>\n\n" []
      pure (record cpus {
        acpi_cpuids = store cpus.acpi_cpuids cpus.cpuid_idx (processor_id m p);
        cpuid_idx = u8 (cpus.cpuid_idx + 1);
      }))
    else if entry_type m p == apic_type_io_apic
    then (do
      log "\u{1b}[0;35m\n\n---- I/O APIC found ----\n" []
      log "\u{1b}[0;33m<apic_info>\n" []
      log "\u{1b}[0;36m    I/O APIC ID: %d\n" (num (io_apic_id m p) ∷ [])
      log "\u{1b}[0;36m    I/O APIC address: %x\n" (num (io_apic_addr m p) ∷ [])
      log "\u{1b}[0;36m    Global system interrupt base: %d\n"
          (num (global_system_interrupt_base m p) ∷ [])
      log "\u{1b}[0;33m</apic_info>\n\n" []
      pure (record cpus { io_apic_ptr = io_apic_addr m p }))
    else if entry_type m p == apic_type_interrupt_override
    then (do
      log "\u{1b}[0;35m\n\n---- Interrupt Override found ----\n" []
      log "\u{1b}[0;33m<apic_info>\n" []
      log "\u{1b}[0;36m    Bus: %d\n" (num (override_bus m p) ∷ [])
      log "\u{1b}[0;36m    Source: %d\n" (num (override_source m p) ∷ [])
      log "\u{1b}[0;36m    Interrupt: %x\n" (num (override_interrupt m p) ∷ [])
      log "\u{1b}[0;36m    Flags: %x\n" (num (override_flags m p) ∷ [])
      log "\u{1b}[0;33m</apic_info>\n\n" []
      pure cpus)
    else pure cpus

-- `while (p < end)`. `none` means that the fuel ran out.
unfoldable pub parse_loop : ℕ → Mem → (p end : ℕ) → Cpus → Io (Option Cpus)
parse_loop zero m p end cpus = pure none
parse_loop (suc fuel) m p end cpus =
    let rest = parse_entry m p cpus >>= parse_loop fuel m (p + entry_length m p) end in
    if ltb p end
    then (if entry_length m p == 0 then pure (some cpus) else rest)
    else pure (some cpus)

-- Also the new `local_apic_addr`.
unfoldable pub parse_madt : ℕ → Mem → ℕ → Cpus → Io (ℕ × Option Cpus)
parse_madt fuel m madt cpus = do
  cpus' ← parse_loop fuel m (first_entry madt) (entries_end m madt) (record cpus { cpuid_idx = 0 })
  pure (read_le m (madt + 36) 4, cpus')

unfoldable pub remap_loop : ℕ → Mem → (p end irq : ℕ) → Option ℕ
remap_loop zero m p end irq = none
remap_loop (suc fuel) m p end irq =
    let rest = remap_loop fuel m (p + entry_length m p) end irq in
    if ltb p end
    then if entry_length m p == 0
      then some irq
      else if entry_type m p == apic_type_interrupt_override
      then if override_source m p == irq then some (override_interrupt m p) else rest
      else rest
    else some irq

unfoldable pub acpi_remap_irq : ℕ → Mem → (madt irq : ℕ) → Option ℕ
acpi_remap_irq fuel m madt irq = remap_loop fuel m (first_entry madt) (entries_end m madt) irq

-- `cpu_detect_cores` of smp.c ends its walk at another address.
abbrev pub cores_end : Mem → ℕ → ℕ
cores_end m madt = madt + madt_size * (table_length m madt / 4)

unfoldable pub cores_loop : ℕ → Mem → (p end ncores : ℕ) → Option ℕ
cores_loop zero m p end ncores = none
cores_loop (suc fuel) m p end ncores =
    let ncores' = if entry_type m p == apic_type_local_apic then u8 (ncores + 1) else ncores in
    let rest = cores_loop fuel m (p + entry_length m p) end ncores' in
    if ltb p end then (if entry_length m p == 0 then some ncores else rest) else some ncores

-- A count that was made before is kept.
unfoldable pub cpu_detect_cores : ℕ → Mem → (madt ncores : ℕ) → Option ℕ
cpu_detect_cores fuel m madt ncores =
    if ltb 0 ncores
    then some ncores
    else cores_loop fuel m (first_entry madt) (cores_end m madt) ncores
