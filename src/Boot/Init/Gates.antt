-- ===== src/Boot/Init/Gates.antt =====
-- The gates of a kernel that has come up (kernel/src/kernel.c), and what its exceptions lead to.
use faceless_os.Base.{
  ℕ, ◌+◌, ◌^◌, ◌<◌, ◌≡◌, refl, Option, none, some, ◌==◌, Bool-cases, Option-cases, inl, inr, ◌∙◌,
  ap, sym, [], ◌∷◌, get_or, if◌then◌else◌,
}
use faceless_os.Machine.Memory.{Mem, read_le}
use faceless_os.Machine.Io.{sti, Trace}
use faceless_os.Pmm.{Pmm}
use faceless_os.Vmm.{Vm, map_page}
use faceless_os.Kheap.{kheap_init}
use faceless_os.Idt.{Idt, make_gate, idt_install}
use faceless_os.Idt.Gates.{handler, is_handled, idt_install-handler}
use faceless_os.Timer.{Timer}
use faceless_os.Exceptions.{Label, address, take_exception}
use faceless_os.Exceptions.Reported.{names, report, take_exception-report}
use faceless_os.Boot.Tags.{get_tag}
use faceless_os.Boot.Power.{Power}
use faceless_os.Boot.Wakeup.{cpu_wakeup_cores}
use faceless_os.Boot.Init.{
  Kernel, Machine, Outcome, halted, stuck, running, finish_init, start_cores, routed, powered,
  start_map, start_memory, init, after_init, start, terminal_id,
}

-- The descriptor table of an outcome, where it has one.
abbrev idt_or : Idt → Outcome → Idt
idt_or idt halted = idt
idt_or idt stuck = idt
idt_or idt (running kernel) = kernel.idt

module _ (fuel : ℕ) (machine : Machine) (term_write : ℕ) (idt : Idt) (pmm : Pmm) (vm : Vm) where
  finish_init-idt :
      (power : Power) (timer : Timer) (t : Trace)
      → idt_or idt (finish_init fuel machine term_write idt pmm vm power timer t).0 ≡ idt
  finish_init-idt power timer t =
      elim (Option-cases (kheap_init (map_page fuel) (record { vm = vm; mem_allocated = 0 }))) [
        | inl none_left ↦ rw (none_left, finish_init) refl
        | inr (heap, made) ↦ rw (made, finish_init) refl
      ]

  start_cores-idt :
      (power : Power) (t : Trace)
      → idt_or idt (start_cores fuel machine term_write idt pmm vm power t).0 ≡ idt
  start_cores-idt power t =
      let ids = (let c = power.cpus in c.acpi_cpuids) in
      let start : Timer = record { pit_ticks = 0; trace = sti ∷ t } in
      let cores =
        cpu_wakeup_cores fuel machine.dev power.local_apic_addr ids machine.schedules
          power.ncores in
      elim (Option-cases (cores start)) [
        | inl none_left ↦ rw (none_left, start_cores) refl
        | inr (timer, r) ↦ rw (r, start_cores) (finish_init-idt power timer timer.trace)
      ]

  routed-idt :
      (power : Power) (o : Option (Unit {0})) (t : Trace)
      → idt_or idt (routed fuel machine term_write idt pmm vm power o t).0 ≡ idt
  routed-idt power none t = refl
  routed-idt power (some _) t = start_cores-idt power _

  powered-idt :
      (o : Option Power) (t : Trace)
      → idt_or idt (powered fuel machine term_write idt pmm vm o t).0 ≡ idt
  powered-idt none t = refl
  powered-idt (some power) t = routed-idt power _ _

module _ (fuel : ℕ) (machine : Machine) (ss : ℕ) (m : Mem) (idt : Idt) (pmm : Pmm)
    (power : Power) where
  -- The gates that `idt_install` leaves.
  abbrev pub installed : Idt
  installed = (idt_install machine.handlers machine.idt_base idt []).0

  start_map-idt :
      (idt' : Idt) (term_write : ℕ) (o : Option ℕ) (t : Trace)
      → idt_or idt' (start_map fuel machine ss term_write m idt' pmm power o t).0 ≡ idt'
  start_map-idt idt' term_write none t = refl
  start_map-idt idt' term_write (some mmap) t = powered-idt fuel machine term_write _ _ _ _ _

  start_memory-idt :
      (term_write : ℕ) (t : Trace)
      → idt_or installed (start_memory fuel machine ss term_write m idt pmm power t).0 ≡ installed
  unfolding idt_install
  start_memory-idt term_write t = start_map-idt installed term_write _ _

  init-idt : (t : Trace) → idt_or installed (init fuel machine ss m idt pmm power t).0 ≡ installed
  unfolding init
  init-idt t = elim (Option-cases (get_tag fuel m ss terminal_id)) [
    | inl none_left ↦ rw (none_left, init) refl
    | inr (tag, found) ↦ elim (Bool-cases (tag == 0)) [
      | inl null ↦ rw (found, init, null) refl
      | inr real ↦ rw (found, init, real) (start_memory-idt (read_le m (tag + 24) 8) t)
    ]
  ]

  after_init-outcome :
      (rounds : ℕ) (o : Outcome) (t : Trace) → (after_init fuel machine rounds o t).0 ≡ o
  after_init-outcome rounds halted t = refl
  after_init-outcome rounds stuck t = refl
  after_init-outcome rounds (running kernel) t = refl

  pub start-idt :
      (rounds : ℕ) (t : Trace) (kernel : Kernel)
      → (start fuel machine rounds ss m idt pmm power t).0 ≡ running kernel
      → kernel.idt ≡ installed
  unfolding start
  start-idt rounds t kernel up =
      ap (idt_or installed) (sym up ∙ after_init-outcome rounds _ _) ∙ init-idt t

  -- In every run of `_start` that comes up, whatever the fuel, the tags, the tables and the
  -- devices: with handlers at addresses of 64 bits, each at the label that its name stands for,
  -- an exception of a vector below 15 goes through a present gate into a segment of 64-bit code,
  -- and what runs there turns interrupts off, clears the screen, reports the name that `names`
  -- has for the vector and stops. A vector that is handled has the gate of its handler, and every
  -- other vector keeps the gate it had.
  pub start-report :
      (rounds : ℕ) (t : Trace) (kernel : Kernel) (code_at : ℕ → Option Label) (v u : ℕ) (t' : Trace)
      → (start fuel machine rounds ss m idt pmm power t).0 ≡ running kernel
      → ((w : ℕ) → handler machine.handlers w < 2 ^ 64)
      → ((label : Label) → code_at (address machine.handlers label) ≡ some label)
      → v < 15
      → ((run : Trace → Unit {0} × Trace) × (take_exception code_at kernel.idt v ≡ some run)
          × (run t' ≡ (tt, report (get_or names v "") t')))
        × (kernel.idt u ≡ (if is_handled u then make_gate (handler machine.handlers u) else idt u))
  start-report rounds t kernel code_at v u t' up fits linked low =
      let gates = start-idt rounds t kernel up in
      let (idt', run, set, _) = idt_install-handler machine.handlers machine.idt_base idt [] fits in
      (
        rw gates (
            take_exception-report machine.handlers machine.idt_base idt code_at v t' [] fits linked
              low),
        ap (λ i. i u) gates ∙ ap (λ r. r.0 u) run ∙ set u,
      )
