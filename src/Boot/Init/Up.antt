-- ===== src/Boot/Init/Up.antt =====
-- `_start` (kernel/src/kernel.c) comes up.
use faceless_os.Base.{[], ◌∷◌, ℕ, zero, suc, ◌+◌, ◌≡◌, refl, List, arith, ◌==◌, ap, sym, ◌∙◌, false}
use mathlib.Core.Path.{subst}
use faceless_os.Machine.Memory.{Mem, read_le}
use faceless_os.Machine.Io.{Trace, num, log_call, load_gdtr, load_segments, cli, hlt}
use faceless_os.Pmm.{Entry, Pmm, pmm_init}
use faceless_os.Pmm.Init.{pmm_init-Highest}
use faceless_os.Vmm.{Vm, vmm_init}
use faceless_os.Gdt.{gdt_load}
use faceless_os.Idt.{Idt, idt_install}
use faceless_os.Timer.{pit_init}
use faceless_os.Boot.Tags.Search.{first_with, get_tag-first_with}
use faceless_os.Boot.Power.{Power, rsdp_id}
use faceless_os.Boot.Wakeup.Plan.{commands}
use faceless_os.Boot.Init.{
  Machine, Outcome, halted, stuck, running, start_power, start_memory, init, halt_loop, after_init,
  start, terminal_id, memmap_id, memory_map, pit_freq_hz,
}
use faceless_os.Boot.Init.Powered.{Up, start_power-Up}
use faceless_os.Boot.Init.Loaded.{Loaded, madt_in, vm_after, vmm_init-vm_after, vm_after-Supplied}

-- The function that writes to the terminal.
abbrev pub term_write_of : Mem → (tags : List ℕ) → ℕ
term_write_of m tags = read_le m (first_with m terminal_id tags + 24) 8

module _ (machine : Machine) (ss cr3 room own most : ℕ) (tags tags_left : List ℕ) (m : Mem)
    (idt : Idt) (pmm : Pmm) (old : Power) where
  abbrev mmap : List Entry
  mmap = memory_map m (first_with m memmap_id tags)

  abbrev gates : Idt
  gates = (idt_install machine.handlers machine.idt_base idt []).0

  abbrev pub IsStarted : Mem → Outcome × Trace → Type 0
  IsStarted m' = Up room own (term_write_of m tags) gates m' (madt_in machine m' tags_left) mmap old

  abbrev pub Supplies : Mem → Type 0
  Supplies m' = Loaded machine ss cr3 room own most tags tags_left m m' old

  with_memory-Up :
      (pmm' : Pmm) (vm : Vm) (t : Trace)
      → Supplies (vm_after cr3 m mmap).mem
      → pmm'.gmmap ≡ mmap
      → vm ≡ vm_after cr3 m mmap
      → IsStarted
          (vm_after cr3 m mmap).mem
          (start_power (room + 4) machine ss (term_write_of m tags) gates pmm' vm old t)
  with_memory-Up pmm' vm t l held e =
      subst
        (λ v.
          IsStarted (vm_after cr3 m mmap).mem
            (start_power (room + 4) machine ss (term_write_of m tags) gates pmm' v old t))
        (sym e)
        (start_power-Up room own machine (term_write_of m tags) _ pmm' (vm_after cr3 m mmap)
          (madt_in machine (vm_after cr3 m mmap).mem tags_left) mmap old held
          (vm_after-Supplied room cr3 m mmap l.supplied) l.prompt l.bytes l.small_ids l.small_count
          most l.long l.short l.few_ticks ss _ t
          (get_tag-first_with (room + 4) ss rsdp_id l.tag_chain_left l.few_tags_left) l.valid refl
          l.listed l.enough)

  start_memory-Up :
      (t : Trace)
      → Supplies (vm_after cr3 m mmap).mem
      → IsStarted
          (vm_after cr3 m mmap).mem
          (start_memory (room + 4) machine ss (term_write_of m tags) m idt pmm old t)
  unfolding idt_install gdt_load
  start_memory-Up t l =
      let i = idt_install machine.handlers machine.idt_base idt (
        log_call "\u{1b}[0;32mGlobal Descriptor Table loaded.\n" []
        ∷ load_segments 0x28 0x30
        ∷ load_gdtr
        ∷ cli
        ∷ t) in
      let p =
        pmm_init mmap pmm (log_call "\u{1b}[0;32mInterrupt Descriptor Table loaded.\n" [] ∷ i.1) in
      let t1 = log_call "\u{1b}[0;32mFinished setting up PMM.\n" [] ∷ p.1 in
      let q = p.0 in
      let v = vmm_init machine.dev (record { mem = m; gmmap = q.gmmap; pml4 = 0 }) t1 in
      let t2 =
        (pit_init pit_freq_hz (log_call "\u{1b}[0;32mFinished setting up VMM.\n" [] ∷ v.1)).1 in
      let held : q.gmmap ≡ mmap = (pmm_init-Highest mmap pmm _).same_map in
      rw (get_tag-first_with (room + 4) ss memmap_id l.tag_chain l.few_tags, start_memory)
        (with_memory-Up q v.0
          (log_call "\u{1b}[0;32mPIT setup at %dHz\n" (num pit_freq_hz ∷ []) ∷ t2) l held
          (ap (λ g. (vmm_init machine.dev (record { mem = m; gmmap = g; pml4 = 0 }) t1).0) held
            ∙ vmm_init-vm_after machine.dev cr3 m mmap t1 l.cr3_kept))

  init-Up :
      (t : Trace)
      → Supplies (vm_after cr3 m mmap).mem
      → IsStarted (vm_after cr3 m mmap).mem (init (room + 4) machine ss m idt pmm old t)
  unfolding init
  init-Up t l =
      let there : (first_with m terminal_id tags == 0) ≡ false = ground (arith, l.terminal) in
      rw (get_tag-first_with (room + 4) ss terminal_id l.tag_chain l.few_tags, init, there)
        (start_memory-Up t l)

  halt_loop-commands :
      (base rounds : ℕ) (t : Trace)
      → commands base (halt_loop (room + 4) machine rounds t).1 ≡ commands base t
  unfolding halt_loop commands
  halt_loop-commands base zero t = refl
  halt_loop-commands base (suc rounds) t = halt_loop-commands base rounds (hlt ∷ t)

  after_init-Up :
      (m' : Mem) (rounds : ℕ) (o : Outcome) (t : Trace)
      → IsStarted m' (o, t)
      → IsStarted m' (after_init (room + 4) machine rounds o t)
  after_init-Up m' rounds halted t u = absurd (cc u.comes_up)
  after_init-Up m' rounds stuck t u = absurd (cc u.comes_up)
  after_init-Up m' rounds (running kernel) t u = record {
    kernel = u.kernel;
    comes_up = u.comes_up;
    terminal = u.terminal;
    gates = u.gates;
    memory = u.memory;
    power = u.power;
    woken = (let w = u.woken in (w.0, halt_loop-commands _ rounds t ∙ w.1));
    heap = u.heap;
    nothing_allocated = u.nothing_allocated;
    supplied = u.supplied;
  }

  -- Where the tags end and have a terminal, CR3 reads the same, the usable memory is whole
  -- frames, at most `room` of them, the RSDT is valid and lists a MADT in the memory that
  -- `vmm_init` leaves, the tags and the MADT can be read there in a fuel of `room` and four, the
  -- local APIC sends every interrupt at once, and every sleep has at least 50 ticks and few
  -- enough for 255 rounds, `_start` comes up in that fuel. The kernel then has the terminal and
  -- the memory map of the tags, the gates of `idt_install`, and what `acpi_init` takes from the
  -- MADT; the last commands to the local APIC are the INIT words for the other processors and the
  -- startup words, which have the shorthand self; the heap is a single free block with nothing
  -- allocated, and pages can still be mapped.
  pub start-Up :
      (m' : Mem) (rounds : ℕ) (t : Trace)
      → Supplies m'
      → IsStarted m' (start (room + 4) machine rounds ss m idt pmm old t)
  unfolding start
  start-Up m' rounds t l =
      subst (λ x. Supplies x → IsStarted x (start (room + 4) machine rounds ss m idt pmm old t))
        l.leaves (λ l'. after_init-Up _ rounds _ _ (init-Up t l')) l
