-- ===== src/Boot/Init/Quiet.antt =====
-- The stages of `init` (kernel/src/kernel.c) that leave the processor's tables and interrupt flag alone.
use Prim.Native.String.{String}
use faceless_os.Base.{
  ℕ, zero, suc, ◌+◌, refl, List, [], ◌∷◌, Bool-cases, inl, inr, Option, none, some, ◌==◌, ltb, ◌∙◌,
  Option-cases,
}
use faceless_os.Machine.Memory.{Mem}
use faceless_os.Machine.Io.{Device, outportb, pure, ◌>>◌}
use faceless_os.Machine.Quiet.{Quiet, is_setup, setups, Quiet-pure, Quiet-bind, Quiet-if}
use faceless_os.Panic.{panic}
use faceless_os.Pmm.{Entry, Pmm, is_skipped, init_entry, init_loop, pmm_init}
use faceless_os.Timer.{pit_init}
use faceless_os.Lapic.{lapic_write, init_lapic}
use faceless_os.Ioapic.{ioapic_write, ioapic_read, ioapic_set_entry, disable_loop, ioapic_init}
use faceless_os.Acpi.{
  Cpus, entry_type, entry_length, apic_type_local_apic, apic_type_io_apic,
  apic_type_interrupt_override, max_needed_cores, cpu_detect_cores, rsdt_is_valid, acpi_remap_irq,
  parse_entry, parse_loop, parse_madt,
}
use faceless_os.Boot.Tags.{get_tag}
use faceless_os.Boot.Power.{
  Power, rsdp_id, rsdt_of, report_cores, controllers_init, after_parse, use_madt, locate_madt,
  rsdt_init, acpi_init, setup_general_interrupts,
}

panic-Quiet : (msg : String) → Quiet (panic msg)
unfolding panic setups is_setup
panic-Quiet msg = record { at = λ t. refl }

pub pit_init-Quiet : (freq_hz : ℕ) → Quiet (pit_init freq_hz)
unfolding pit_init outportb setups is_setup
pit_init-Quiet freq_hz = record { at = λ t. refl }

init_entry-Quiet : (entry : Entry) (pmm : Pmm) → Quiet (init_entry entry pmm)
unfolding init_entry setups is_setup
init_entry-Quiet entry pmm = record {
  at = λ t. elim (Bool-cases (is_skipped entry)) [ inl e ↦ rw e | inr e ↦ rw e ];
}

init_loop-Quiet : (mmap : List Entry) (pmm : Pmm) → Quiet (init_loop mmap pmm)
unfolding init_loop
init_loop-Quiet [] pmm = Quiet-pure pmm
init_loop-Quiet (entry ∷ rest) pmm =
    Quiet-bind (init_entry entry pmm) (init_loop rest) (init_entry-Quiet entry pmm)
      (init_loop-Quiet rest)

pub pmm_init-Quiet : (mmap : List Entry) (pmm : Pmm) → Quiet (pmm_init mmap pmm)
unfolding pmm_init setups is_setup
pmm_init-Quiet mmap pmm = record {
  at = λ t. (init_loop-Quiet mmap (record pmm { gmmap = mmap })).at _;
}

init_lapic-Quiet : (base : ℕ) → Quiet (init_lapic base)
unfolding init_lapic lapic_write setups is_setup
init_lapic-Quiet base = record { at = λ t. refl }

ioapic_set_entry-Quiet : (base entry value : ℕ) → Quiet (ioapic_set_entry base entry value)
unfolding ioapic_set_entry ioapic_write setups is_setup
ioapic_set_entry-Quiet base entry value = record { at = λ t. refl }

disable_loop-Quiet : (left base i : ℕ) → Quiet (disable_loop left base i)
unfolding disable_loop
disable_loop-Quiet zero base i = Quiet-pure tt
disable_loop-Quiet (suc left) base i =
    Quiet-bind (ioapic_set_entry base i 0x10000) (λ _. disable_loop left base (i + 1))
      (ioapic_set_entry-Quiet base i 0x10000) (λ _. disable_loop-Quiet left base (i + 1))

ioapic_init-Quiet : (dev : Device) (base : ℕ) → Quiet (ioapic_init dev base)
unfolding ioapic_init ioapic_read setups is_setup
ioapic_init-Quiet dev base = record { at = λ t. (disable_loop-Quiet _ base 0).at _ }

parse_entry-Quiet : (m : Mem) (p : ℕ) (cpus : Cpus) → Quiet (parse_entry m p cpus)
unfolding parse_entry setups is_setup
parse_entry-Quiet m p cpus = record {
  at = λ t. elim (Bool-cases (entry_type m p == apic_type_local_apic)) [
    | inl a ↦ elim (Bool-cases (ltb max_needed_cores cpus.cpuid_idx)) [
      | inl f ↦ rw (a, f)
      | inr f ↦ rw (a, f)
    ]
    | inr a ↦ elim (Bool-cases (entry_type m p == apic_type_io_apic)) [
      | inl b ↦ rw (a, b)
      | inr b ↦ elim (Bool-cases (entry_type m p == apic_type_interrupt_override)) [
        | inl c ↦ rw (a, b, c)
        | inr c ↦ rw (a, b, c)
      ]
    ]
  ];
}

parse_loop-Quiet :
    (fuel : ℕ) (m : Mem) (p end : ℕ) (cpus : Cpus) → Quiet (parse_loop fuel m p end cpus)
unfolding parse_loop
parse_loop-Quiet zero m p end cpus = Quiet-pure none
parse_loop-Quiet (suc fuel) m p end cpus =
    let rest =
      Quiet-bind (parse_entry m p cpus) (parse_loop fuel m (p + entry_length m p) end)
        (parse_entry-Quiet m p cpus) (parse_loop-Quiet fuel m (p + entry_length m p) end) in
    elim (Bool-cases (ltb p end)) [
      | inr a ↦ record { at = λ t. rw a }
      | inl a ↦ elim (Bool-cases (entry_length m p == 0)) [
        | inl b ↦ record { at = λ t. rw (a, b) }
        | inr b ↦ record { at = λ t. rw (a, b) (rest.at t) }
      ]
    ]

parse_madt-Quiet :
    (fuel : ℕ) (m : Mem) (madt : ℕ) (cpus : Cpus) → Quiet (parse_madt fuel m madt cpus)
unfolding parse_madt
parse_madt-Quiet fuel m madt cpus = record {
  at = λ t. (parse_loop-Quiet fuel m _ _ (record cpus { cpuid_idx = 0 })).at t;
}

report_cores-Quiet : (cores : ℕ) → Quiet (report_cores cores)
unfolding report_cores setups is_setup
report_cores-Quiet cores = record {
  at = λ t. elim (Bool-cases (ltb 1 cores)) [ inl e ↦ rw e | inr e ↦ rw e ];
}

count_cores-Quiet :
    (power : Power) (o : Option ℕ)
    → Quiet {A = Option Power} (elim o [
      | none ↦ pure none
      | some cores ↦ report_cores cores >> pure (some (record power { ncores = cores }))
    ])
count_cores-Quiet power none = Quiet-pure none
count_cores-Quiet power (some cores) = record { at = λ t. (report_cores-Quiet cores).at t }

module _ (fuel : ℕ) (dev : Device) (m : Mem) where
  controllers_init-Quiet : (power : Power) → Quiet (controllers_init fuel dev m power)
  unfolding controllers_init setups is_setup
  controllers_init-Quiet power = record {
    at = λ t.
        (count_cores-Quiet power (cpu_detect_cores fuel m power.madt power.ncores)).at _
        ∙ (ioapic_init-Quiet dev (let c = power.cpus in c.io_apic_ptr)).at _
        ∙ (init_lapic-Quiet power.local_apic_addr).at t;
  }

  after_parse-Quiet :
      (madt : ℕ) (power : Power) (r : ℕ × Option Cpus) → Quiet (after_parse fuel dev m madt power r)
  unfolding after_parse
  after_parse-Quiet madt power (lapic, none) = Quiet-pure none
  after_parse-Quiet madt power (lapic, some cpus) =
      controllers_init-Quiet (record power { madt = madt; local_apic_addr = lapic; cpus = cpus })

  use_madt-Quiet : (madt : ℕ) (power : Power) → Quiet (use_madt fuel dev m madt power)
  unfolding use_madt
  use_madt-Quiet madt power =
      Quiet-bind (parse_madt fuel m madt power.cpus) (after_parse fuel dev m madt power)
        (parse_madt-Quiet fuel m madt power.cpus) (after_parse-Quiet madt power)

  panic-none-Quiet : (msg : String) → Quiet {A = Option Power} (panic msg >> pure none)
  panic-none-Quiet msg = record { at = λ t. (panic-Quiet msg).at t }

  locate_madt-Quiet : (madt : ℕ) (power : Power) → Quiet (locate_madt fuel dev m madt power)
  unfolding locate_madt setups is_setup
  locate_madt-Quiet madt power =
      Quiet-if (madt == 0) _ _ (panic-none-Quiet "Could not locate MADT!")
        (record { at = λ t. (use_madt-Quiet madt power).at _ })

  rsdt_init-Quiet : (apic rsdt : ℕ) (power : Power) → Quiet (rsdt_init fuel dev m apic rsdt power)
  unfolding rsdt_init setups is_setup
  rsdt_init-Quiet apic rsdt power =
      Quiet-if (rsdt_is_valid m rsdt) _ _ (record { at = λ t. (locate_madt-Quiet _ power).at _ })
        (panic-none-Quiet "RSDT checksum invalid!")

  pub acpi_init-Quiet : (apic ss : ℕ) (power : Power) → Quiet (acpi_init fuel dev m apic ss power)
  unfolding acpi_init
  acpi_init-Quiet apic ss power = elim (Option-cases (get_tag fuel m ss rsdp_id)) [
    | inl e ↦ record { at = λ t. rw (e, acpi_init) }
    | inr (tag, e) ↦ record {
      at = λ t. rw (e, acpi_init) ((rsdt_init-Quiet apic (rsdt_of m tag) power).at t);
    }
  ]

  pub setup_general_interrupts-Quiet :
      (power : Power) → Quiet (setup_general_interrupts fuel dev m power)
  unfolding setup_general_interrupts
  setup_general_interrupts-Quiet power = elim (Option-cases (acpi_remap_irq fuel m power.madt 0)) [
    | inl e ↦ record { at = λ t. rw (e, setup_general_interrupts) }
    | inr (entry, e) ↦ record {
      at = λ t.
          rw (e, setup_general_interrupts)
            ((ioapic_set_entry-Quiet (let c = power.cpus in c.io_apic_ptr) entry 0x20).at t);
    }
  ]
