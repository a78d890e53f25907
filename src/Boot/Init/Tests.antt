-- ===== src/Boot/Init/Tests.antt =====
-- `_start` (kernel/src/kernel.c) on a machine with two processors.
use faceless_os.Base.{refl, ◌≡◌, [], some, if◌then◌else◌, arith}
use faceless_os.Machine.Io.{Trace}
use faceless_os.Idt.{make_gate}
use faceless_os.Idt.Gates.{handler, is_handled}
use faceless_os.Exceptions.{take_exception}
use faceless_os.Exceptions.Reported.{report}
use faceless_os.Exceptions.Sample.{handlers, handlers-fit, code_at, code_at-linked}
use faceless_os.Boot.Init.{Kernel, start}
use faceless_os.Boot.Init.Up.{IsStarted, start-Up}
use faceless_os.Boot.Init.Gates.{start-report}
use faceless_os.Boot.Power.Routed.{io_apic}
use faceless_os.Boot.Init.Line.{Wired, start-Wired}
use faceless_os.Boot.Init.Sample.{memory, tags, machine, no_idt, no_pmm, before, machine-Supplies}
use faceless_os.Boot.Init.Sample.Madt.{found_memmap, power-pin, power-Apart}

abbrev started :
    IsStarted machine 0x10000 0x1000 4000 0 60 tags tags memory no_idt no_pmm before memory
      (start 4004 machine 2 0x10000 memory no_idt no_pmm before [])
started =
    start-Up machine 0x10000 0x1000 4000 0 60 tags tags memory no_idt no_pmm before memory 2 []
      machine-Supplies

start-Up_example :
    IsStarted machine 0x10000 0x1000 4000 0 60 tags tags memory no_idt no_pmm before memory
      (start 4004 machine 2 0x10000 memory no_idt no_pmm before [])
start-Up_example =
    start-Up machine 0x10000 0x1000 4000 0 60 tags tags memory no_idt no_pmm before memory 2 []
      machine-Supplies

abbrev kernel : Kernel
kernel = started.kernel

start-report_example :
    ((run : Trace → Unit {0} × Trace) × (take_exception code_at kernel.idt 14 ≡ some run)
      × (run [] ≡ (tt, report "Page Fault" [])))
    × (kernel.idt 0x20
        ≡ (if is_handled 0x20 then make_gate (handler handlers 0x20) else no_idt 0x20))
start-report_example =
    start-report 4004 machine 0x10000 memory no_idt no_pmm before 2 [] kernel code_at 14 0x20 []
      started.comes_up handlers-fit code_at-linked (omega arith)

start-Wired_example :
    Wired (io_apic kernel.power) 2 (start 4004 machine 2 0x10000 memory no_idt no_pmm before []).1
    × (kernel.idt 0x20 ≡ make_gate handlers.irq0)
start-Wired_example =
    start-Wired 4004 machine 0x10000 memory no_idt no_pmm before 2 0x1000 0x12000 2 [] kernel
      started.comes_up (λ t. refl) found_memmap (power-pin kernel.power started.power) (omega arith)
      (power-Apart kernel.power started.power) handlers-fit
