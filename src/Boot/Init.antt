-- ===== src/Boot/Init.antt =====
-- The order in which the kernel comes up: `init` of kernel/src/kernel.c.
mod Quiet
mod Cores
pub mod Order
pub mod Loaded
pub mod Powered
pub mod Up
pub mod Gates
pub mod Line
mod Sample
mod Tests
use faceless_os.Base.{ℕ, zero, suc, ◌+◌, List, [], ◌∷◌, Option, none, some, ◌==◌, if◌then◌else◌}
use faceless_os.Machine.Memory.{Mem, read_le}
use faceless_os.Machine.Io.{num, sti, cli_hlt, hlt, Device, Io, pure, ◌>>=◌, ◌>>◌, emit, log}
use faceless_os.Pmm.{Entry, Pmm, pmm_init}
use faceless_os.Vmm.{Vm, map_page, vmm_init}
use faceless_os.Kheap.{Heap, kheap_init}
use faceless_os.Gdt.{gdt_load}
use faceless_os.Idt.{Idt, Handlers, idt_install}
use faceless_os.Timer.{Timer, pit_init}
use faceless_os.Boot.Tags.{get_tag}
use faceless_os.Boot.Power.{Power, acpi_init, setup_general_interrupts}
use faceless_os.Boot.Wakeup.{cpu_wakeup_cores}

abbrev pub terminal_id : ℕ
terminal_id = 0xc2b3f4c3233b0974

abbrev pub memmap_id : ℕ
memmap_id = 0x2187f79e8612de07

abbrev pub pit_freq_hz : ℕ
pit_freq_hz = 100

-- The entries of `struct stivale2_struct_tag_memmap`.
abbrev pub read_entries : ℕ → Mem → ℕ → List Entry
read_entries zero m p = []
read_entries (suc n) m p =
    record { base = read_le m p 8; length = read_le m (p + 8) 8; type = read_le m (p + 16) 4 }
    ∷ read_entries n m (p + 24)

abbrev pub memory_map : Mem → ℕ → List Entry
memory_map m tag = read_entries (read_le m (tag + 16) 8) m (tag + 24)

-- The state of the parts after `init`.
pub record Kernel : Type 0 where
  pub term_write : ℕ
  pub idt : Idt
  pub pmm : Pmm
  pub heap : Heap
  pub power : Power
  pub timer : Timer

-- What the boot loader, the linker and the devices supply: `apic` is the address of the literal
-- "APIC", `idt_base` that of the descriptor table.
pub record Machine : Type 0 where
  pub dev : Device
  pub handlers : Handlers
  pub idt_base : ℕ
  pub apic : ℕ
  pub schedules : ℕ → List ℕ

-- `halted`: there is no terminal. `stuck`: a loop did not end in its fuel or schedule, or a panic has
-- stopped the processor.
pub data Outcome : Type 0 where
  halted stuck : Outcome
  running : Kernel → Outcome

module _ (fuel : ℕ) (machine : Machine) where
  abbrev finish_init : (term_write : ℕ) → Idt → Pmm → Vm → Power → Timer → Io Outcome
  finish_init term_write idt pmm vm power timer = do
    log "\u{1b}[0;32mAll CPU cores are now active!\n" []
    elim (kheap_init (map_page fuel) (record { vm = vm; mem_allocated = 0 })) [
      | none ↦ pure stuck
      | some heap ↦ do
        log "\u{1b}[0;32mHeap created.\n" []
        pure (
            running (record {
              term_write = term_write;
              idt = idt;
              pmm = pmm;
              heap = heap;
              power = power;
              timer = timer;
            }))
    ]

  -- From the `sti` on. No timer interrupt comes before it.
  abbrev start_cores : (term_write : ℕ) → Idt → Pmm → Vm → Power → Io Outcome
  start_cores term_write idt pmm vm power t =
      let base = power.local_apic_addr in
      let ids = (let c = power.cpus in c.acpi_cpuids) in
      let start : Timer = record { pit_ticks = 0; trace = sti ∷ t } in
      elim (cpu_wakeup_cores fuel machine.dev base ids machine.schedules power.ncores start) [
        | none ↦ (stuck, sti ∷ t)
        | some timer ↦ finish_init term_write idt pmm vm power timer timer.trace
      ]

  -- Behind `setup_general_interrupts`, and behind `acpi_init`.
  abbrev routed : (term_write : ℕ) → Idt → Pmm → Vm → Power → Option (Unit {0}) → Io Outcome
  routed term_write idt pmm vm power none = pure stuck
  routed term_write idt pmm vm power (some _) = do
    log "\u{1b}[0;32mGeneral interrupts have been setup.\n" []
    start_cores term_write idt pmm vm power

  abbrev powered : (term_write : ℕ) → Idt → Pmm → Vm → Option Power → Io Outcome
  powered term_write idt pmm vm none = pure stuck
  powered term_write idt pmm vm (some power) = do
    log "\u{1b}[0;32mACPI related stuff has been setup.\n" []
    done ← setup_general_interrupts fuel machine.dev vm.mem power
    routed term_write idt pmm vm power done

  abbrev start_power : (ss term_write : ℕ) → Idt → Pmm → Vm → Power → Io Outcome
  start_power ss term_write idt pmm vm power = do
    started ← acpi_init fuel machine.dev vm.mem machine.apic ss power
    powered term_write idt pmm vm started

  -- In `pmm_init`, behind its look for the memory map.
  abbrev start_map : (ss term_write : ℕ) → Mem → Idt → Pmm → Power → Option ℕ → Io Outcome
  start_map ss term_write m idt pmm power none = pure stuck
  start_map ss term_write m idt pmm power (some mmap) = do
    pmm' ← pmm_init (memory_map m mmap) pmm
    log "\u{1b}[0;32mFinished setting up PMM.\n" []
    vm ← vmm_init machine.dev (record { mem = m; gmmap = pmm'.gmmap; pml4 = 0 })
    log "\u{1b}[0;32mFinished setting up VMM.\n" []
    pit_init pit_freq_hz
    log "\u{1b}[0;32mPIT setup at %dHz\n" (num pit_freq_hz ∷ [])
    start_power ss term_write idt pmm' vm power

  abbrev start_memory : (ss term_write : ℕ) → Mem → Idt → Pmm → Power → Io Outcome
  start_memory ss term_write m idt pmm power = do
    gdt_load
    log "\u{1b}[0;32mGlobal Descriptor Table loaded.\n" []
    idt' ← idt_install machine.handlers machine.idt_base idt
    log "\u{1b}[0;32mInterrupt Descriptor Table loaded.\n" []
    start_map ss term_write m idt' pmm power (get_tag fuel m ss memmap_id)

  -- `term_write` is read before the test for NULL.
  unfoldable pub init : (ss : ℕ) → Mem → Idt → Pmm → Power → Io Outcome
  init ss m idt pmm power = elim (get_tag fuel m ss terminal_id) [
    | none ↦ pure stuck
    | some term_str_tag ↦
        let term_write = read_le m (term_str_tag + 24) 8 in
        if term_str_tag == 0
        then emit cli_hlt >> pure halted
        else start_memory ss term_write m idt pmm power
  ]

  -- `while (1) hlt`, for `rounds` rounds. An interrupt ends each of them.
  unfoldable pub halt_loop : ℕ → Io (Unit {0})
  halt_loop zero = pure tt
  halt_loop (suc rounds) = emit hlt >> halt_loop rounds

  abbrev pub after_init : (rounds : ℕ) → Outcome → Io Outcome
  after_init rounds halted = pure halted
  after_init rounds stuck = pure stuck
  after_init rounds (running kernel) = halt_loop rounds >> pure (running kernel)

  -- `_start`. A run that has halted or is stuck does not come back from `init`.
  unfoldable pub start : (rounds ss : ℕ) → Mem → Idt → Pmm → Power → Io Outcome
  start rounds ss m idt pmm power = init ss m idt pmm power >>= after_init rounds
