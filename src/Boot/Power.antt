-- ===== src/Boot/Power.antt =====
-- The start of ACPI and of the interrupt controllers: `acpi_init` of
-- kernel/src/power/acpi/acpi.c, and `setup_general_interrupts` of
-- kernel/src/arch/interrupts/IDT.c.
pub mod Started
pub mod Routed
pub mod Facts
use faceless_os.Base.{ℕ, ◌+◌, ◌*◌, ◌%◌, ◌^◌, [], ◌∷◌, Option, none, some, ◌==◌, ltb, if◌then◌else◌}
use faceless_os.Machine.Memory.{Mem, read_le}
use faceless_os.Machine.Io.{num, Device, Io, pure, ◌>>=◌, ◌>>◌, log}
use faceless_os.Panic.{panic}
use faceless_os.Acpi.{
  Cpus, rsdt_is_valid, rsdt_entries, get_madt, parse_madt, acpi_remap_irq, cpu_detect_cores,
}
use faceless_os.Lapic.{init_lapic}
use faceless_os.Ioapic.{ioapic_init, ioapic_set_entry}
use faceless_os.Boot.Tags.{get_tag}

abbrev pub rsdp_id : ℕ
rsdp_id = 0x9e1786930a375e78

-- The static variables of acpi.c and the `ncores` of smp.c.
pub record Power : Type 0 where
  pub madt : ℕ
  pub local_apic_addr : ℕ
  pub cpus : Cpus
  pub ncores : ℕ

-- `rsdp_tg->rsdp->rsdtaddr`
abbrev pub rsdt_of : Mem → ℕ → ℕ
rsdt_of m rsdp_tg = read_le m (read_le m (rsdp_tg + 16) 8 + 16) 4

-- The count of cores is a `uint8_t`.
unfoldable pub report_cores : ℕ → Io (Unit {0})
report_cores cores =
    if ltb 1 cores
    then log "\u{1b}[0;32m%d CPU cores detected.\n" (num cores ∷ [])
    else log "\u{1b}[0;32m%d CPU core detected.\n" (num cores ∷ [])

module _ (fuel : ℕ) (dev : Device) (m : Mem) where
  -- From `init_lapic` on.
  unfoldable pub controllers_init : Power → Io (Option Power)
  controllers_init power = do
    init_lapic power.local_apic_addr
    log "\u{1b}[0;32mLAPIC on BSP all setup.\n" []
    ioapic_init dev (let c = power.cpus in c.io_apic_ptr)
    log "\u{1b}[0;32mI/O APIC has been initialized.\n" []
    elim (cpu_detect_cores fuel m power.madt power.ncores) [
      | none ↦ pure none
      | some cores ↦ report_cores cores >> pure (some (record power { ncores = cores }))
    ]

  -- From `parse_madt` on, and behind it.
  unfoldable pub after_parse : ℕ → Power → ℕ × Option Cpus → Io (Option Power)
  after_parse madt power (lapic, none) = pure none
  after_parse madt power (lapic, some cpus) =
      controllers_init (record power { madt = madt; local_apic_addr = lapic; cpus = cpus })

  unfoldable pub use_madt : ℕ → Power → Io (Option Power)
  use_madt madt power = parse_madt fuel m madt power.cpus >>= after_parse madt power

  -- `none`: a loop did not end, or a panic has stopped the processor.
  unfoldable pub locate_madt : ℕ → Power → Io (Option Power)
  locate_madt madt power =
      if madt == 0
      then panic "Could not locate MADT!" >> pure none
      else log "\u{1b}[0;32mMADT found!\n" [] >> use_madt madt power

  -- `apic` is the address of the literal "APIC".
  unfoldable pub rsdt_init : (apic rsdt : ℕ) → Power → Io (Option Power)
  rsdt_init apic rsdt power =
      if rsdt_is_valid m rsdt
      then log "\u{1b}[0;32mRSDT checkum is valid.\n" []
        >> locate_madt (get_madt m apic rsdt (rsdt_entries m rsdt)) power
      else panic "RSDT checksum invalid!" >> pure none

  unfoldable pub acpi_init : (apic ss : ℕ) → Power → Io (Option Power)
  acpi_init apic ss power = elim (get_tag fuel m ss rsdp_id) [
    | none ↦ pure none
    | some rsdp_tg ↦ rsdt_init apic (rsdt_of m rsdp_tg) power
  ]

  -- `entry` is a `uint8_t`.
  unfoldable pub setup_general_interrupts : Power → Io (Option (Unit {0}))
  setup_general_interrupts power = elim (acpi_remap_irq fuel m power.madt 0) [
    | none ↦ pure none
    | some entry ↦ do
      ioapic_set_entry (let c = power.cpus in c.io_apic_ptr) entry 0x20
      pure (some tt)
  ]
