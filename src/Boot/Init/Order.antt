-- ===== src/Boot/Init/Order.antt =====
-- The order in which `init` (kernel/src/kernel.c) sets the processor up.
use mathlib.Core.Path.{subst}
use faceless_os.Base.{
  ℕ, zero, suc, ◌+◌, ◌≡◌, refl, List, ◌∷◌, Option, none, some, ◌==◌, Bool-cases, Option-cases, inl,
  inr, ◌∙◌, ap, sym, arith,
}
use faceless_os.Machine.Memory.{Mem, read_le}
use faceless_os.Machine.Io.{Event, read_cr3, load_gdtr, load_idtr, load_cr3, sti, Device, Trace}
use faceless_os.Machine.Quiet.{Quiet, is_setup, setups}
use faceless_os.Pmm.{Pmm}
use faceless_os.Vmm.{Vm, map_page, unmap_page, vmm_init}
use faceless_os.Vmm.Init.{loaded}
use faceless_os.Kheap.{kheap_init}
use faceless_os.Gdt.{gdt_load}
use faceless_os.Idt.{Idt, idt_install}
use faceless_os.Timer.{Timer}
use faceless_os.Boot.Tags.{get_tag}
use faceless_os.Boot.Power.{Power}
use faceless_os.Boot.Wakeup.{cpu_wakeup_cores}
use faceless_os.Boot.Init.{
  Kernel, Machine, Outcome, halted, stuck, running, finish_init, start_cores, start_power, routed,
  powered, start_map, start_memory, init, halt_loop, after_init, start, terminal_id, memory_map,
  pit_freq_hz,
}
use faceless_os.Boot.Init.Quiet.{
  pmm_init-Quiet, pit_init-Quiet, acpi_init-Quiet, setup_general_interrupts-Quiet,
}
use faceless_os.Boot.Init.Cores.{Blind, cpu_wakeup_cores-Unseen}

-- The descriptor tables and CR3 are loaded.
abbrev pub tables_loaded : (idt_base cr3 : ℕ) → List Event → List Event
tables_loaded idt_base cr3 before = load_cr3 cr3 ∷ load_idtr 4080 idt_base ∷ load_gdtr ∷ before

-- What `init` has set up, the last event first, by its outcome.
pub data Order (idt_base : ℕ) (before : List Event) : Outcome → List Event → Type 0 where
  no_tags : Order idt_base before stuck before
  no_terminal : Order idt_base before halted before
  no_map : Order idt_base before stuck (load_idtr 4080 idt_base ∷ load_gdtr ∷ before)
  no_power : (cr3 : ℕ) → Order idt_base before stuck (tables_loaded idt_base cr3 before)
  no_cores : (cr3 : ℕ) → Order idt_base before stuck (sti ∷ tables_loaded idt_base cr3 before)
  up :
      (kernel : Kernel) (cr3 : ℕ)
      → Order idt_base before (running kernel) (sti ∷ tables_loaded idt_base cr3 before)

abbrev pub Ordered : ℕ → List Event → Outcome × Trace → Type 0
Ordered idt_base before r = Order idt_base before r.0 (setups r.1)

setups-Blind : (base : ℕ) → Blind setups base
unfolding setups is_setup
setups-Blind base = record {
  read = λ a t. refl;
  wrote = λ reg v t h. refl;
  logged = λ fmt args t. refl;
}

unmap_page-Quiet : (logical : ℕ) (vm : Vm) → Quiet (unmap_page logical vm)
unfolding unmap_page setups is_setup
unmap_page-Quiet logical vm = record { at = λ t. ground arith }

vmm_init-setups :
    (dev : Device) (vm : Vm) (t : Trace) (before : List Event)
    → setups t ≡ before
    → setups (vmm_init dev vm t).1 ≡ load_cr3 ((vmm_init dev vm t).0.pml4) ∷ before
unfolding vmm_init setups is_setup
vmm_init-setups dev vm t before e =
    ap (λ s. load_cr3 ((vmm_init dev vm t).0.pml4) ∷ s)
      ((unmap_page-Quiet 0 (loaded dev vm t)).at (read_cr3 ∷ t) ∙ e)

module _ (fuel : ℕ) (machine : Machine) (before : List Event) (term_write : ℕ) (idt : Idt)
    (pmm : Pmm) (vm : Vm) where
  finish_init-Ordered :
      (power : Power) (timer : Timer) (cr3 : ℕ) (t : Trace)
      → setups t ≡ sti ∷ tables_loaded machine.idt_base cr3 before
      → Ordered machine.idt_base before
          (finish_init fuel machine term_write idt pmm vm power timer t)
  unfolding setups is_setup
  finish_init-Ordered power timer cr3 t e =
      elim (Option-cases (kheap_init (map_page fuel) (record { vm = vm; mem_allocated = 0 }))) [
        | inl none_left ↦ rw (none_left, finish_init, e) (no_cores cr3)
        | inr (heap, made) ↦ rw (made, finish_init, e) (up _ cr3)
      ]

  start_cores-Ordered :
      (power : Power) (cr3 : ℕ) (t : Trace)
      → setups t ≡ tables_loaded machine.idt_base cr3 before
      → Ordered machine.idt_base before (start_cores fuel machine term_write idt pmm vm power t)
  unfolding setups is_setup
  start_cores-Ordered power cr3 t e =
      let ids = (let c = power.cpus in c.acpi_cpuids) in
      let start : Timer = record { pit_ticks = 0; trace = sti ∷ t } in
      let cores =
        cpu_wakeup_cores fuel machine.dev power.local_apic_addr ids machine.schedules
          power.ncores in
      elim (Option-cases (cores start)) [
        | inl none_left ↦ rw (none_left, start_cores, e) (no_cores cr3)
        | inr (timer, r) ↦
            let quiet =
              (cpu_wakeup_cores-Unseen setups power.local_apic_addr
                  (setups-Blind power.local_apic_addr) fuel machine.dev ids machine.schedules
                  power.ncores).at
                start timer r in
            rw (r, start_cores)
              (finish_init-Ordered power timer cr3 timer.trace (quiet ∙ ap (λ s. sti ∷ s) e))
      ]

  routed-Ordered :
      (power : Power) (o : Option (Unit {0})) (cr3 : ℕ) (t : Trace)
      → setups t ≡ tables_loaded machine.idt_base cr3 before
      → Ordered machine.idt_base before (routed fuel machine term_write idt pmm vm power o t)
  unfolding setups is_setup
  routed-Ordered power none cr3 t e = rw e (no_power cr3)
  routed-Ordered power (some _) cr3 t e = start_cores-Ordered power cr3 _ e

  powered-Ordered :
      (o : Option Power) (cr3 : ℕ) (t : Trace)
      → setups t ≡ tables_loaded machine.idt_base cr3 before
      → Ordered machine.idt_base before (powered fuel machine term_write idt pmm vm o t)
  unfolding setups is_setup
  powered-Ordered none cr3 t e = rw e (no_power cr3)
  powered-Ordered (some power) cr3 t e =
      routed-Ordered power _ cr3 _
        ((setup_general_interrupts-Quiet fuel machine.dev vm.mem power).at _ ∙ e)

  start_power-Ordered :
      (ss : ℕ) (power : Power) (cr3 : ℕ) (t : Trace)
      → setups t ≡ tables_loaded machine.idt_base cr3 before
      → Ordered machine.idt_base before (start_power fuel machine ss term_write idt pmm vm power t)
  start_power-Ordered ss power cr3 t e =
      powered-Ordered _ cr3 _
        ((acpi_init-Quiet fuel machine.dev vm.mem machine.apic ss power).at t ∙ e)

module _ (fuel : ℕ) (machine : Machine) (ss : ℕ) (m : Mem) (idt : Idt) (pmm : Pmm)
    (power : Power) where
  start_map-Ordered :
      (idt' : Idt) (term_write : ℕ) (o : Option ℕ) (before : List Event) (t : Trace)
      → setups t ≡ load_idtr 4080 machine.idt_base ∷ load_gdtr ∷ before
      → Ordered machine.idt_base before (start_map fuel machine ss term_write m idt' pmm power o t)
  unfolding setups is_setup
  start_map-Ordered idt' term_write none before t e = rw e no_map
  start_map-Ordered idt' term_write (some mmap) before t e =
      start_power-Ordered fuel machine before term_write _ _ _ ss power _ _ (
        (pit_init-Quiet pit_freq_hz).at _
        ∙ vmm_init-setups machine.dev _ _ _ ((pmm_init-Quiet (memory_map m mmap) pmm).at _ ∙ e))

  start_memory-Ordered :
      (term_write : ℕ) (t : Trace)
      → Ordered machine.idt_base
          (setups t)
          (start_memory fuel machine ss term_write m idt pmm power t)
  unfolding setups is_setup idt_install gdt_load
  start_memory-Ordered term_write t = start_map-Ordered _ term_write _ (setups t) _ refl

  init-Ordered :
      (t : Trace) → Ordered machine.idt_base (setups t) (init fuel machine ss m idt pmm power t)
  unfolding setups is_setup init
  init-Ordered t = elim (Option-cases (get_tag fuel m ss terminal_id)) [
    | inl none_left ↦ rw (none_left, init) no_tags
    | inr (tag, found) ↦ elim (Bool-cases (tag == 0)) [
      | inl null ↦ rw (found, init, null) no_terminal
      | inr real ↦ rw (found, init, real) (start_memory-Ordered (read_le m (tag + 24) 8) t)
    ]
  ]

  halt_loop-Quiet : (rounds : ℕ) → Quiet (halt_loop fuel machine rounds)
  unfolding halt_loop setups is_setup
  halt_loop-Quiet zero = record { at = λ t. refl }
  halt_loop-Quiet (suc rounds) = record { at = λ t. (halt_loop-Quiet rounds).at _ }

  after_init-Ordered :
      (rounds : ℕ) (before : List Event) (o : Outcome) (t : Trace)
      → Ordered machine.idt_base before (o, t)
      → Ordered machine.idt_base before (after_init fuel machine rounds o t)
  after_init-Ordered rounds before halted t h = h
  after_init-Ordered rounds before stuck t h = h
  after_init-Ordered rounds before (running kernel) t h =
      subst (Order machine.idt_base before (running kernel)) (sym ((halt_loop-Quiet rounds).at t)) h

  -- In every run of `_start`, whatever the fuel, the tags, the tables and the devices, GDT, IDT
  -- and CR3 are loaded in this order, each once, and after them, once, interrupts are enabled. A
  -- run that comes up has done all of it, and a run without a terminal tag nothing; a run in
  -- which a loop does not end or a panic stops the processor has done nothing, has loaded GDT and
  -- IDT, has loaded the three, or has done all of it.
  pub start-Ordered :
      (rounds : ℕ) (t : Trace)
      → Ordered machine.idt_base (setups t) (start fuel machine rounds ss m idt pmm power t)
  unfolding start
  start-Ordered rounds t = after_init-Ordered rounds (setups t) _ _ (init-Ordered t)
