-- ===== src/Boot/Init/Line.antt =====
-- The timer's line in a kernel that has come up (kernel/src/kernel.c): from the pin of the I/O APIC
-- (kernel/src/arch/pic/ioapic.c) to `irq0` (kernel/src/arch/interrupts/irq.c).
use mathlib.Core.Path.{subst}
use faceless_os.Base.{
  ℕ, zero, suc, ◌+◌, ◌*◌, ◌%◌, ◌^◌, ◌<◌, ◌≡◌, ◌≢◌, refl, [], ◌∷◌, Option, none, some, ◌==◌, false,
  Bool-cases, Option-cases, inl, inr, ◌∙◌, ap, sym, arith,
}
use faceless_os.Machine.Memory.{Mem, read_le}
use faceless_os.Machine.Io.{read_cr3, sti, hlt, Trace}
use faceless_os.Pmm.{Pmm, pmm_init}
use faceless_os.Pmm.Init.{pmm_init-Highest}
use faceless_os.Vmm.{Vm, map_page, vmm_init}
use faceless_os.Kheap.{kheap_init}
use faceless_os.Idt.{Idt, make_gate, idt_install}
use faceless_os.Idt.Gates.{handler, idt_install-handler}
use faceless_os.Ioapic.{iowin, ioredtbl, ioapic_set_entry}
use faceless_os.Ioapic.Init.{written, ioapic_set_entry-written}
use faceless_os.Timer.{Timer}
use faceless_os.Acpi.{acpi_remap_irq}
use faceless_os.Boot.Tags.{get_tag}
use faceless_os.Boot.Power.{Power, setup_general_interrupts}
use faceless_os.Boot.Power.Routed.{io_apic, setup_general_interrupts-entry}
use faceless_os.Boot.Wakeup.{cpu_wakeup_cores}
use faceless_os.Boot.Init.{
  Kernel, Machine, Outcome, halted, stuck, running, finish_init, start_cores, routed, powered,
  start_map, start_memory, init, halt_loop, after_init, start, terminal_id, memmap_id, memory_map,
}
use faceless_os.Boot.Init.Cores.{Blind, cpu_wakeup_cores-Unseen}
use faceless_os.Boot.Init.Loaded.{vm_after, vmm_init-vm_after}
use faceless_os.Boot.Init.Gates.{start-idt}

-- The registers of the local APIC are apart from IOWIN of the I/O APIC.
abbrev pub Apart : Power → Type 0
Apart power = (reg : ℕ) → reg < 0x400 → power.local_apic_addr + reg ≢ io_apic power + iowin

-- What has been written last to the entry of a pin: the vector 0x20, not masked, for processor 0.
abbrev pub Wired : (base pin : ℕ) → Trace → Type 0
Wired base pin t =
    (written base (ioredtbl + pin * 2) t ≡ some 0x20)
    × (written base (ioredtbl + pin * 2 + 1) t ≡ some 0)

written-Blind :
    (power : Power) (n : ℕ) → Apart power → Blind (written (io_apic power) n) power.local_apic_addr
unfolding written
written-Blind power n apart = record {
  read = λ a t. refl;
  wrote = λ reg v t h.
      let other : (power.local_apic_addr + reg == io_apic power + iowin) ≡ false =
        ground (arith, apart reg h) in
      rw other refl;
  logged = λ fmt args t. refl;
}

ioapic_set_entry-Wired :
    (base pin : ℕ) (t : Trace) → pin < 120 → Wired base pin (ioapic_set_entry base pin 0x20 t).1
ioapic_set_entry-Wired base pin t small = (
  ioapic_set_entry-written base pin 0x20 (ioredtbl + pin * 2) t small ∙ ground arith,
  ioapic_set_entry-written base pin 0x20 (ioredtbl + pin * 2 + 1) t small ∙ ground arith,
)

some_injective : (a b : ℕ) → some a ≡ some b → a ≡ b
some_injective a b e = cc e

module _ (fuel : ℕ) where
  -- The pin to which the MADT in a memory leads is wired.
  abbrev Facts : Mem → Power → Trace → Type 0
  Facts m' power t =
      (pin : ℕ)
      → acpi_remap_irq fuel m' power.madt 0 ≡ some pin
      → pin < 120
      → Apart power
      → Wired (io_apic power) pin t

  abbrev Line : Mem → Outcome × Trace → Type 0
  Line m' (halted, t) = Unit {0}
  Line m' (stuck, t) = Unit {0}
  Line m' (running kernel, t) = Facts m' kernel.power t

  module _ (machine : Machine) (term_write : ℕ) (idt : Idt) (pmm : Pmm) (vm : Vm) where
    finish_init-Line :
        (power : Power) (timer : Timer) (t : Trace)
        → Facts vm.mem power t
        → Line vm.mem (finish_init fuel machine term_write idt pmm vm power timer t)
    unfolding written
    finish_init-Line power timer t facts =
        elim (Option-cases (kheap_init (map_page fuel) (record { vm = vm; mem_allocated = 0 }))) [
          | inl none_left ↦ rw (none_left, finish_init) tt
          | inr (heap, made) ↦ rw (made, finish_init) facts
        ]

    start_cores-Line :
        (power : Power) (t : Trace)
        → Facts vm.mem power t
        → Line vm.mem (start_cores fuel machine term_write idt pmm vm power t)
    unfolding written
    start_cores-Line power t facts =
        let ids = (let c = power.cpus in c.acpi_cpuids) in
        let start : Timer = record { pit_ticks = 0; trace = sti ∷ t } in
        let base = power.local_apic_addr in
        let cores = cpu_wakeup_cores fuel machine.dev base ids machine.schedules power.ncores in
        elim (Option-cases (cores start)) [
          | inl none_left ↦ rw (none_left, start_cores) tt
          | inr (timer, r) ↦
              rw (r, start_cores)
                (finish_init-Line power timer timer.trace (λ pin e small apart.
                  let kept : (n : ℕ)
                      → written (io_apic power) n timer.trace ≡ written (io_apic power) n t =
                    λ n.
                      (cpu_wakeup_cores-Unseen (written (io_apic power) n) base
                          (written-Blind power n apart) fuel machine.dev ids machine.schedules
                          power.ncores).at
                        start timer r in
                  let (low, high) = facts pin e small apart in (kept _ ∙ low, kept _ ∙ high)))
        ]

    powered-Line :
        (o : Option Power) (t : Trace)
        → Line vm.mem (powered fuel machine term_write idt pmm vm o t)
    unfolding written setup_general_interrupts
    powered-Line none t = tt
    powered-Line (some power) t = elim (Option-cases (acpi_remap_irq fuel vm.mem power.madt 0)) [
      | inl none_left ↦ rw (none_left, setup_general_interrupts) tt
      | inr (entry, e) ↦
          rw (setup_general_interrupts-entry fuel machine.dev vm.mem power _ entry e, routed)
            (start_cores-Line power _ (λ pin found small apart.
              let same : pin ≡ entry = some_injective pin entry (sym found ∙ e) in
              rw (← same) (ioapic_set_entry-Wired (io_apic power) pin _ small)))
    ]

module _ (fuel : ℕ) (machine : Machine) (ss : ℕ) (m : Mem) (idt : Idt) (pmm : Pmm)
    (power : Power) where
  module _ (cr3 mmap : ℕ) (cr3_kept : (t : Trace) → machine.dev (read_cr3 ∷ t) % 2 ^ 64 ≡ cr3) where
    -- The memory that `vmm_init` leaves.
    abbrev left : Mem
    left = (vm_after cr3 m (memory_map m mmap)).mem

    start_map-Line :
        (idt' : Idt) (term_write : ℕ) (t : Trace)
        → Line fuel left (start_map fuel machine ss term_write m idt' pmm power (some mmap) t)
    start_map-Line idt' term_write t =
        let p = pmm_init (memory_map m mmap) pmm _ in
        let held : p.0.gmmap ≡ memory_map m mmap =
          (pmm_init-Highest (memory_map m mmap) pmm _).same_map in
        let after : (t' : Trace)
            → (vmm_init machine.dev (record { mem = m; gmmap = p.0.gmmap; pml4 = 0 }) t').0.mem
              ≡ left =
          λ t'.
            ap (λ g. (vmm_init machine.dev (record { mem = m; gmmap = g; pml4 = 0 }) t').0.mem) held
            ∙ ap (λ (v : Vm). v.mem)
                (vmm_init-vm_after machine.dev cr3 m (memory_map m mmap) t' cr3_kept) in
        subst
          (λ x. Line fuel x (start_map fuel machine ss term_write m idt' pmm power (some mmap) t))
          (after _) (powered-Line fuel machine term_write _ _ _ _ _)

    start_memory-Line :
        (term_write : ℕ) (t : Trace)
        → get_tag fuel m ss memmap_id ≡ some mmap
        → Line fuel left (start_memory fuel machine ss term_write m idt pmm power t)
    unfolding idt_install
    start_memory-Line term_write t map_found =
        rw (map_found, start_memory) (start_map-Line _ term_write _)

    init-Line :
        (t : Trace)
        → get_tag fuel m ss memmap_id ≡ some mmap
        → Line fuel left (init fuel machine ss m idt pmm power t)
    unfolding init
    init-Line t map_found = elim (Option-cases (get_tag fuel m ss terminal_id)) [
      | inl none_left ↦ rw (none_left, init) tt
      | inr (tag, found) ↦ elim (Bool-cases (tag == 0)) [
        | inl null ↦ rw (found, init, null) tt
        | inr real ↦ rw (found, init, real) (start_memory-Line (read_le m (tag + 24) 8) t map_found)
      ]
    ]

    halt_loop-written :
        (base n rounds : ℕ) (t : Trace)
        → written base n (halt_loop fuel machine rounds t).1 ≡ written base n t
    unfolding halt_loop written
    halt_loop-written base n zero t = refl
    halt_loop-written base n (suc rounds) t = halt_loop-written base n rounds (hlt ∷ t)

    after_init-Line :
        (rounds : ℕ) (o : Outcome) (t : Trace)
        → Line fuel left (o, t)
        → Line fuel left (after_init fuel machine rounds o t)
    after_init-Line rounds halted t l = tt
    after_init-Line rounds stuck t l = tt
    after_init-Line rounds (running kernel) t l = λ pin e small apart.
        let (low, high) = l pin e small apart in
        (halt_loop-written _ _ rounds t ∙ low, halt_loop-written _ _ rounds t ∙ high)

  -- In every run of `_start` that comes up, whatever the fuel and the devices but for CR3, which
  -- reads the same: where the MADT, in the memory that `vmm_init` leaves of the memory map tag,
  -- leads from the timer's line to a pin below 120, and no register of the local APIC is at IOWIN
  -- of the I/O APIC, the last words written to the entry of this pin are vector 0x20, not masked,
  -- and processor 0. With handlers at addresses of 64 bits, vector 0x20 has the gate of `irq0`.
  pub start-Wired :
      (rounds cr3 mmap pin : ℕ) (t : Trace) (kernel : Kernel)
      → (start fuel machine rounds ss m idt pmm power t).0 ≡ running kernel
      → ((t' : Trace) → machine.dev (read_cr3 ∷ t') % 2 ^ 64 ≡ cr3)
      → get_tag fuel m ss memmap_id ≡ some mmap
      → acpi_remap_irq fuel
          (vm_after cr3 m (memory_map m mmap)).mem
          (let p = kernel.power in p.madt)
          0
        ≡ some pin
      → pin < 120
      → Apart kernel.power
      → ((v : ℕ) → handler machine.handlers v < 2 ^ 64)
      → Wired (io_apic kernel.power) pin (start fuel machine rounds ss m idt pmm power t).1
        × (kernel.idt 0x20 ≡ make_gate machine.handlers.irq0)
  unfolding start
  start-Wired rounds cr3 mmap pin t kernel up cr3_kept map_found remap small apart fits =
      let r = init fuel machine ss m idt pmm power t in
      let m' = left cr3 mmap cr3_kept in
      let line =
        after_init-Line cr3 mmap cr3_kept rounds r.0 r.1
          (init-Line cr3 mmap cr3_kept t map_found) in
      let facts =
        subst (λ o. Line fuel m' (o, (start fuel machine rounds ss m idt pmm power t).1)) up line in
      let (idt', run, set, _) = idt_install-handler machine.handlers machine.idt_base idt [] fits in
      (
        facts pin remap small apart,
        ap (λ i. i 0x20) (start-idt fuel machine ss m idt pmm power rounds t kernel up)
            ∙ ap (λ r. r.0 0x20) run
            ∙ set 0x20,
      )
