-- ===== src/Boot/Init/Powered.antt =====
-- From `acpi_init` on, `init` (kernel/src/kernel.c) comes up.
use faceless_os.Base.{
  ◌∷◌, ℕ, ◌+◌, ◌-◌, ◌*◌, ◌^◌, ◌<◌, ◌≤◌, ◌≡◌, ◌≢◌, true, refl, List, Option, none, some, arith, sym,
}
use mathlib.Core.Path.{subst}
use faceless_os.Machine.Memory.{Mem, read_le}
use faceless_os.Machine.Io.{Trace, sti}
use faceless_os.Pmm.{Entry, Pmm}
use faceless_os.Vmm.{Vm}
use faceless_os.Vmm.Supply.{Supplied}
use faceless_os.Kheap.{mem_of}
use faceless_os.Kheap.Mapper.{vmm_mapper}
use faceless_os.Kheap.Init.{OneBlock, kheap_init-OneBlock}
use faceless_os.Idt.{Idt}
use faceless_os.Acpi.{rsdt_is_valid, first_entry, entries_end, cores_end}
use faceless_os.Acpi.Entries.{acpi_remap_irq-remapped}
use faceless_os.Timer.{Timer}
use faceless_os.Timer.Sleep.{total}
use faceless_os.Boot.Tags.{get_tag}
use faceless_os.Boot.Power.{Power, rsdp_id, rsdt_of, acpi_init, setup_general_interrupts}
use faceless_os.Boot.Power.Started.{Started, madt_of, acpi_init-Started}
use faceless_os.Boot.Power.Facts.{
  Started-madt, Started-local_apic_addr, Started-small_ids, Started-small_count,
}
use faceless_os.Boot.Power.Routed.{setup_general_interrupts-entry}
use faceless_os.Boot.Wakeup.Plan.{commands, plan, Prompt}
use faceless_os.Boot.Wakeup.Rounds.{cpu_wakeup_cores-Went}
use faceless_os.Boot.Init.{
  Kernel, Machine, Outcome, running, finish_init, start_cores, start_power, routed, powered,
}

-- The last commands of a trace to the local APIC are the INIT words for the other processors and the
-- startup words, which have the shorthand self.
abbrev pub Woken : (own : ℕ) → Power → Trace → Type 0
Woken own power t =
    (earlier : List (ℕ × ℕ)) × (commands power.local_apic_addr t
      ≡ plan power.local_apic_addr own (let c = power.cpus in c.acpi_cpuids) power.ncores
          power.ncores 0 earlier)

-- A run that has come up: the kernel has the terminal, the gates, the memory map and the MADT that the tags lead
-- to, the commands of `cpu_wakeup_cores` are written, the heap is one free block, and pages can be mapped.
pub record Up (room own term_write : ℕ) (idt : Idt) (m' : Mem) (madt : ℕ) (mmap : List Entry)
    (old : Power) (r : Outcome × Trace) : Type 0 where
  pub kernel : Kernel
  pub comes_up : r.0 ≡ running kernel
  pub terminal : kernel.term_write ≡ term_write
  pub gates : kernel.idt ≡ idt
  pub memory : (let p = kernel.pmm in p.gmmap) ≡ mmap
  pub power : Started m' madt old (some kernel.power)
  pub woken : Woken own kernel.power r.1
  pub heap : OneBlock (mem_of kernel.heap)
  pub nothing_allocated : (let h = kernel.heap in h.mem_allocated) ≡ 0
  pub supplied : Supplied room (let h = kernel.heap in h.vm)

-- The ticks of at most 255 rounds.
ticks_fit : (n most : ℕ) → n < 256 → 510 * most < 2 ^ 32 → 0 + n * (2 * most) < 2 ^ 32
ticks_fit n most small few = grind arith

-- The walk of `cpu_detect_cores` ends first.
shorter :
    (m : Mem) (madt fuel : ℕ)
    → entries_end m madt - first_entry madt < fuel
    → cores_end m madt - first_entry madt < fuel
shorter m madt fuel enough = omega arith

module _ (room own : ℕ) (machine : Machine) (term_write : ℕ) (idt : Idt) (pmm : Pmm) (vm : Vm)
    (madt : ℕ) (mmap : List Entry) (old : Power) (held : pmm.gmmap ≡ mmap)
    (supplied : Supplied room vm) where
  abbrev IsUp : Outcome × Trace → Type 0
  IsUp = Up room own term_write idt vm.mem madt mmap old

  finish_init-Up :
      (power : Power) (timer : Timer) (t : Trace)
      → Started vm.mem madt old (some power)
      → Woken own power t
      → IsUp (finish_init (room + 4) machine term_write idt pmm vm power timer t)
  unfolding commands
  finish_init-Up power timer t started woken =
      let (heap, made, block, count, again) =
        kheap_init-OneBlock (vmm_mapper room) (record { vm = vm; mem_allocated = 0 }) supplied in
      rw (made, finish_init)
        (record {
          kernel = record {
            term_write = term_write;
            idt = idt;
            pmm = pmm;
            heap = heap;
            power = power;
            timer = timer;
          };
          comes_up = refl;
          terminal = refl;
          gates = refl;
          memory = held;
          power = started;
          woken = woken;
          heap = block;
          nothing_allocated = count;
          supplied = again;
        })

  module _ (prompt : Prompt machine.dev (read_le vm.mem (madt + 36) 4) own)
      (bytes : (a : ℕ) → vm.mem a < 256)
      (small_ids : (i : ℕ) → (let c = old.cpus in c.acpi_cpuids) i < 256)
      (small_count : old.ncores < 256) (most : ℕ)
      (long : (j : ℕ) → 50 ≤ total (machine.schedules j))
      (short : (j : ℕ) → total (machine.schedules j) ≤ most) (few : 510 * most < 2 ^ 32) where
    start_cores-Up :
        (power : Power) (t : Trace)
        → Started vm.mem madt old (some power)
        → IsUp (start_cores (room + 4) machine term_write idt pmm vm power t)
    start_cores-Up power t started =
        let w =
          cpu_wakeup_cores-Went (room + 4)
            (subst (λ base. Prompt machine.dev base own)
              (sym (Started-local_apic_addr vm.mem madt old power started)) prompt)
            (omega arith) (let c = power.cpus in c.acpi_cpuids) machine.schedules
            (Started-small_ids vm.mem madt old power started bytes small_ids) most long short
            power.ncores (record { pit_ticks = 0; trace = sti ∷ t })
            (ticks_fit power.ncores most
              (Started-small_count vm.mem madt old power started small_count) few) in
        rw (w.returns, start_cores)
          (finish_init-Up power w.after w.after.trace started (_, w.wrote))

    routed-Up :
        (power : Power) (t : Trace)
        → Started vm.mem madt old (some power)
        → entries_end vm.mem madt - first_entry madt < room + 4
        → IsUp (
            let (done, t') = setup_general_interrupts (room + 4) machine.dev vm.mem power t in
            routed (room + 4) machine term_write idt pmm vm power done t')
    routed-Up power t started enough =
        let (_, _, e) =
          acpi_remap_irq-remapped (room + 4) vm.mem power.madt 0
            (rw (Started-madt vm.mem madt old power started) enough) in
        rw (setup_general_interrupts-entry (room + 4) machine.dev vm.mem power t _ e, routed)
          (start_cores-Up power _ started)

    powered-Up :
        (o : Option Power) (t : Trace)
        → Started vm.mem madt old o
        → entries_end vm.mem madt - first_entry madt < room + 4
        → IsUp (powered (room + 4) machine term_write idt pmm vm o t)
    powered-Up (some power) t started enough = routed-Up power _ started enough
    powered-Up none t started enough = absurd (cc started.returns)

    pub start_power-Up :
        (ss rsdp_tg : ℕ) (t : Trace)
        → get_tag (room + 4) vm.mem ss rsdp_id ≡ some rsdp_tg
        → rsdt_is_valid vm.mem (rsdt_of vm.mem rsdp_tg) ≡ true
        → madt ≡ madt_of vm.mem machine.apic rsdp_tg
        → madt ≢ 0
        → entries_end vm.mem madt - first_entry madt < room + 4
        → IsUp (start_power (room + 4) machine ss term_write idt pmm vm old t)
    start_power-Up ss rsdp_tg t tag valid e listed enough =
        let started =
          acpi_init-Started (room + 4) machine.dev vm.mem machine.apic ss rsdp_tg old t tag valid
            (rw (← e) listed) (rw (← e) enough)
            (rw (← e) (shorter vm.mem madt (room + 4) enough)) in
        powered-Up _ _
          (subst
            (λ x.
              Started vm.mem x old
                (acpi_init (room + 4) machine.dev vm.mem machine.apic ss old t).0)
            (sym e) started)
          enough
