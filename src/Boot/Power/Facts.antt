-- ===== src/Boot/Power/Facts.antt =====
-- Facts of the variables that `acpi_init` (kernel/src/power/acpi/acpi.c) leaves.
use faceless_os.Base.{ℕ, ◌+◌, ◌<◌, ◌≡◌, some, arith, sym, ◌∙◌, ap}
use mathlib.Core.Path.{subst}
use faceless_os.Machine.Memory.{Mem, read_le}
use faceless_os.Acpi.{Cpus}
use faceless_os.Acpi.Madt.{last_io_apic}
use faceless_os.Acpi.Madt.Ids.{acpi_cpuids-small}
use faceless_os.Boot.Power.{Power}
use faceless_os.Boot.Power.Routed.{io_apic}
use faceless_os.Boot.Power.Started.{Started}

module _ (m : Mem) (madt : ℕ) (old power : Power) (started : Started m madt old (some power)) where
  new-power : started.new ≡ power
  new-power = cc started.returns

  pub Started-madt : power.madt ≡ madt
  Started-madt = ap (λ (p : Power). p.madt) (sym new-power) ∙ started.found

  pub Started-local_apic_addr : power.local_apic_addr ≡ read_le m (madt + 36) 4
  Started-local_apic_addr =
      let parsed = started.parsed in
      ap (λ (p : Power). p.local_apic_addr) (sym new-power) ∙ parsed.local_apic_addr

  pub Started-io_apic :
      io_apic power ≡ last_io_apic m started.entries (let c = old.cpus in c.io_apic_ptr)
  Started-io_apic =
      let parsed = started.parsed in
      let kept : (let n = started.new in n.cpus) ≡ parsed.new = cc parsed.returns in
      ap io_apic (sym new-power) ∙ ap (λ (c : Cpus). c.io_apic_ptr) kept ∙ parsed.io_apic

  pub Started-small_ids :
      ((a : ℕ) → m a < 256)
      → ((i : ℕ) → (let c = old.cpus in c.acpi_cpuids) i < 256)
      → (i : ℕ) → (let c = power.cpus in c.acpi_cpuids) i < 256
  Started-small_ids bytes small =
      subst (λ (p : Power). (i : ℕ) → (let c = p.cpus in c.acpi_cpuids) i < 256) new-power
        (acpi_cpuids-small m madt _ old.cpus _ started.entries started.parsed bytes small)

  pub Started-small_count : old.ncores < 256 → power.ncores < 256
  Started-small_count small =
      subst (λ (p : Power). p.ncores < 256) new-power (ground (arith, started.counted))
