-- ===== src/Boot/Power/Routed.antt =====
-- The way of the timer's interrupt to its handler (`setup_general_interrupts` of
-- kernel/src/arch/interrupts/IDT.c).
use faceless_os.Base.{
  ℕ, ◌+◌, ◌*◌, ◌^◌, ◌<◌, ◌≡◌, refl, List, length, Option, some, arith, ◌==◌, if◌then◌else◌, ◌∙◌, ap,
}
use faceless_os.Machine.Memory.{Mem}
use faceless_os.Machine.Io.{Device, Trace}
use faceless_os.Acpi.{first_entry, entries_end, acpi_remap_irq}
use faceless_os.Acpi.Entries.{Walk, remapped, remap_loop-remapped}
use faceless_os.Ioapic.{ioredtbl, ioapic_set_entry}
use faceless_os.Ioapic.Init.{written, ioapic_set_entry-written}
use faceless_os.Idt.{Idt, Handlers, make_gate, idt_install}
use faceless_os.Idt.Gates.{handler, idt_install-handler}
use faceless_os.Boot.Power.{Power, setup_general_interrupts}

-- The I/O APIC that `parse_madt` has found.
abbrev pub io_apic : Power → ℕ
io_apic power = let c = power.cpus in c.io_apic_ptr

-- The entry of one pin has the vector 0x20 and is not masked, and the other registers are as before.
pub record Routed (base pin : ℕ) (t : Trace) (r : Option (Unit {0}) × Trace) : Type 0 where
  pub returns : r.0 ≡ some tt
  pub registers :
      (n : ℕ)
      → written base n r.1 ≡ (
          if ioredtbl + pin * 2 + 1 == n
          then some 0
          else if ioredtbl + pin * 2 == n
          then some 0x20
          else written base n t)

module _ (fuel : ℕ) (dev : Device) (m : Mem) (power : Power) (t : Trace) where
  pub setup_general_interrupts-entry :
      (pin : ℕ)
      → acpi_remap_irq fuel m power.madt 0 ≡ some pin
      → setup_general_interrupts fuel dev m power t
        ≡ (some tt, (ioapic_set_entry (io_apic power) pin 0x20 t).1)
  unfolding setup_general_interrupts
  setup_general_interrupts-entry pin e = rw (e, setup_general_interrupts)

  -- Where the entries of the MADT are walked over in the fuel and the first override of the
  -- timer's line, or the line itself, is a pin below 120, `setup_general_interrupts` returns. The
  -- two registers of the pin are written with vector 0x20, not masked, for processor 0, and no
  -- other register is written; the gate that `idt_install` has made for vector 0x20 is that of
  -- `irq0`.
  pub setup_general_interrupts-Routed :
      (es : List ℕ) (h : Handlers) (idt_base : ℕ) (idt : Idt) (t' : Trace)
      → Walk m (entries_end m power.madt) (first_entry power.madt) es
      → length es < fuel
      → remapped m 0 es < 120
      → ((v : ℕ) → handler h v < 2 ^ 64)
      → Routed (io_apic power) (remapped m 0 es) t (setup_general_interrupts fuel dev m power t)
        × ((idt_install h idt_base idt t').0 0x20 ≡ make_gate h.irq0)
  unfolding acpi_remap_irq
  setup_general_interrupts-Routed es h idt_base idt t' walk enough small fits =
      let pin = remapped m 0 es in
      let found = remap_loop-remapped fuel 0 walk enough in
      let (idt', run, gates, _) = idt_install-handler h idt_base idt t' fits in
      (
        rw (setup_general_interrupts-entry pin found) (record {
          returns = refl;
          registers =
              λ n. ioapic_set_entry-written (io_apic power) pin 0x20 n t small ∙ ground arith;
        }),
        ap (λ r. r.0 0x20) run ∙ gates 0x20,
      )
