-- ===== src/Boot/Tests.antt =====
-- The tags of a boot loader, and ACPI tables with one core (kernel/src/kernel.c,
-- kernel/src/power/acpi/acpi.c).
use faceless_os.Base.{
  ℕ, ◌-◌, ◌^◌, ◌<◌, ◌≡◌, refl, List, [], ◌∷◌, some, arith, ltb, ◌==◌, if◌then◌else◌, get_or,
}
use faceless_os.Machine.Memory.{Mem, read_le}
use faceless_os.Machine.Io.{Device}
use faceless_os.Boot.Tags.{first_tag, get_tag}
use faceless_os.Boot.Tags.Search.{Tags, end, tag, first_with, get_tag-first_with}
use faceless_os.Text.{Bytes}
use faceless_os.Timer.{Timer}
use faceless_os.Boot.Wakeup.{cpu_wakeup_cores}
use faceless_os.Boot.Wakeup.Plan.{commands, plan, Prompt, Went}
use faceless_os.Boot.Wakeup.Rounds.{cpu_wakeup_cores-Went}
use faceless_os.Pmm.{Pmm}
use faceless_os.Exceptions.Sample.{handlers}
use faceless_os.Idt.{Idt, make_gate}
use faceless_os.Boot.Init.{Machine, start}
use faceless_os.Boot.Init.Order.{Ordered, start-Ordered}
use faceless_os.Machine.Quiet.{setups}
use faceless_os.Boot.Header.{Statics, Asks, image, image-Asks}
use faceless_os.Boot.Power.{Power, rsdp_id}

-- The bytes of the identifier of the RSDP tag.
abbrev rsdp_bytes : List ℕ
rsdp_bytes = 0x78 ∷ 0x5E ∷ 0x37 ∷ 0x0A ∷ 0x93 ∷ 0x86 ∷ 0x17 ∷ 0x9E ∷ []

abbrev madt_bytes : List ℕ
madt_bytes = b'A' ∷ b'P' ∷ b'I' ∷ b'C' ∷ 52 ∷ []

-- A local APIC of processor 3.
abbrev core_bytes : List ℕ
core_bytes = 0 ∷ 8 ∷ 3 ∷ 0 ∷ 1 ∷ 0 ∷ 0 ∷ 0 ∷ []

-- The structure of the boot loader at 0x1000 has a tag at 0x2000 and the RSDP tag at 0x3000, which
-- leads to the RSDP at 0x4000. The RSDT at 0x5000 lists a MADT at 0x6000; the literal "APIC" is at
-- 0x7000.
abbrev memory : Mem
memory a =
    if a == 0x1081
    then 0x20
    else if a == 0x2009
    then 0x30
    else if a == 0x3011
    then 0x40
    else if a == 0x4011
    then 0x50
    else if a == 0x5004
    then 40
    else if a == 0x5025
    then 0x60
    else if ltb a 0x3000
    then 0
    else if ltb a 0x3008
    then get_or rsdp_bytes (a - 0x3000) 0
    else if ltb a 0x6000
    then 0
    else if ltb a 0x602C
    then get_or madt_bytes (a - 0x6000) 0
    else if ltb a 0x7000
    then get_or core_bytes (a - 0x602C) 0
    else get_or madt_bytes (a - 0x7000) 0

memory-Tags : Tags memory (first_tag memory 0x1000) (0x2000 ∷ 0x3000 ∷ [])
unfolding read_le
memory-Tags = tag (omega arith) (tag (omega arith) end)

get_tag-first_with_example :
    get_tag 3 memory 0x1000 rsdp_id ≡ some (first_with memory rsdp_id (0x2000 ∷ 0x3000 ∷ []))
get_tag-first_with_example = get_tag-first_with 3 0x1000 rsdp_id memory-Tags (omega arith)

abbrev idle : Device
idle t = 0x170020

abbrev before : Power
before = record {
  madt = 0;
  local_apic_addr = 0;
  ncores = 0;
  cpus = record { acpi_cpuids = λ k. 0; cpuid_idx = 0; io_apic_ptr = 0 };
}

-- Two cores, of which the one with id 0 runs.
abbrev two_ids : Bytes
two_ids k = if k == 1 then 1 else 0

abbrev silent : Device
silent t = 0

silent-Prompt : Prompt silent 0xFEE00000 0
silent-Prompt = record { id = λ t. refl; idle = λ t. refl }

two_ids-small : (i : ℕ) → two_ids i < 2 ^ 8
two_ids-small i = ground arith

abbrev sixty : ℕ → List ℕ
sixty j = 0 ∷ 60 ∷ []

abbrev at_start : Timer
at_start = record { pit_ticks = 0; trace = [] }

cpu_wakeup_cores-Went_example :
    Went 0xFEE00000
      (cpu_wakeup_cores 3 silent 0xFEE00000 two_ids sixty 2 at_start)
      at_start
      240
      (plan 0xFEE00000 0 two_ids 2 2 0 [])
unfolding commands
cpu_wakeup_cores-Went_example =
    cpu_wakeup_cores-Went 3 silent-Prompt (omega arith) two_ids sixty two_ids-small 60
      (λ j. omega arith) (λ j. omega arith) 2 at_start (omega arith)

-- A machine whose devices answer 0x170020.
abbrev machine : Machine
machine = record {
  dev = idle;
  handlers = handlers;
  idt_base = 0x9000;
  apic = 0x7000;
  schedules = sixty;
}

abbrev no_idt : Idt
no_idt v = make_gate 0

abbrev no_pmm : Pmm
no_pmm = record { highest_frame_top = 0; max_frames = 0; used_frames = 0; gmmap = [] }

start-Ordered_example :
    Ordered 0x9000 (setups []) (start 4 machine 2 0x1000 memory no_idt no_pmm before [])
start-Ordered_example = start-Ordered 4 machine 0x1000 memory no_idt no_pmm before 2 []

-- The header lies in a segment below that of the tags, and the stack above both.
abbrev statics : Statics
statics = record {
  stack = 0x6000;
  terminal_hdr_tag = 0x5000;
  framebuffer_hdr_tag = 0x5020;
  stivale_hdr = 0x4000;
}

image-Asks_example : Asks statics (image statics memory)
image-Asks_example =
    image-Asks statics memory
      (record {
        not_null = omega arith;
        tags_apart = omega arith;
        terminal_apart = omega arith;
        framebuffer_apart = omega arith;
        below_end = omega arith;
      })
      (omega arith)
