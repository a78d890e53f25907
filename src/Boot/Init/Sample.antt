-- ===== src/Boot/Init/Sample.antt =====
-- A machine with two processors on which `_start` (kernel/src/kernel.c) comes up, for the tests.
pub mod Madt
use mathlib.Core.Path.{subst}
use faceless_os.Base.{
  ℕ, ◌+◌, ◌-◌, ◌<◌, ◌≤◌, ◌≡◌, refl, List, [], ◌∷◌, All, length, get_or, get_or-All, arith, leb, ltb,
  ◌&&◌, if◌then◌else◌, Bool-cases, inl, inr, true, fun_ext, ap, ◌*◌, ◌≢◌, some, zero, suc, false,
  sym, ◌∙◌,
}
use faceless_os.Text.{strncmp, strncmp_loop}
use faceless_os.Machine.Memory.{Mem, read_le}
use faceless_os.Machine.Io.{Device, read_cr3}
use faceless_os.Pmm.{Entry, Pmm, is_usable, take_frame, pmm_alloc, pmm_allocz}
use faceless_os.Pmm.Refine.{frames, free_frames}
use faceless_os.Pmm.Zero.{pmm_allocz-cleared}
use faceless_os.Vmm.{
  get_entry, is_present, next_table, pml4_idx, pdpt_idx, pd_idx, pt_idx, find_pt, unmap_page,
}
use faceless_os.Vmm.Supply.{Supplied}
use faceless_os.Idt.{Idt, make_gate}
use faceless_os.Exceptions.Sample.{handlers}
use faceless_os.Acpi.{
  rsdt_is_valid, sum_loop, first_entry, entries_end, acpi_remap_irq, table_length, rsdt_entries,
  madt_loop, get_madt,
}
use faceless_os.Boot.Tags.{first_tag}
use faceless_os.Boot.Tags.Search.{get_tag-first_with, Tags, end, tag, first_with}
use faceless_os.Acpi.Entries.{Walk, empty, entry, remapped, remap_loop-remapped, Walk-unique}
use faceless_os.Acpi.Madt.{last_io_apic}
use faceless_os.Boot.Tags.{get_tag}
use faceless_os.Boot.Power.{Power, rsdp_id, rsdt_of}
use faceless_os.Boot.Power.Started.{Started}
use faceless_os.Boot.Power.Facts.{Started-madt, Started-local_apic_addr, Started-io_apic}
use faceless_os.Boot.Power.Routed.{io_apic}
use faceless_os.Boot.Init.{Machine, memory_map, terminal_id, memmap_id}
use faceless_os.Boot.Init.Loaded.{vm_after, madt_in}
use faceless_os.Boot.Init.Up.{Supplies}
use faceless_os.Boot.Init.Line.{Apart}

-- Bytes at addresses, and 0 elsewhere.
abbrev placed : List (ℕ × List ℕ) → Mem
placed [] a = 0
placed ((p, bs) ∷ rest) a =
    if leb p a && ltb a (p + length bs) then get_or bs (a - p) 0 else placed rest a

placed-small :
    (rs : List (ℕ × List ℕ)) (a : ℕ)
    → All (λ (r : ℕ × List ℕ). All (λ b. b < 256) r.1) rs
    → placed rs a < 256
placed-small [] a h = omega arith
placed-small ((p, bs) ∷ rest) a h = elim (Bool-cases (leb p a && ltb a (p + length bs))) [
  | inl inside ↦ rw inside (get_or-All (λ b. b < 256) bs (a - p) 0 h.0 (omega arith))
  | inr outside ↦ rw outside (placed-small rest a h.1)
]

placed-above :
    (rs : List (ℕ × List ℕ)) (a : ℕ)
    → All (λ (r : ℕ × List ℕ). r.0 + length r.1 ≤ a) rs
    → placed rs a ≡ 0
placed-above [] a h = refl
placed-above ((p, bs) ∷ rest) a h =
    let outside : (leb p a && ltb a (p + length bs)) ≡ false = ground (arith, h.0) in
    rw outside (placed-above rest a h.1)

-- The terminal tag, with the function that writes at 0x9000.
abbrev terminal_tag : List ℕ
terminal_tag =
    0x74 ∷ 0x09 ∷ 0x3B ∷ 0x23 ∷ 0xC3 ∷ 0xF4 ∷ 0xB3 ∷ 0xC2 ∷ 0 ∷ 0x20 ∷ 0x01 ∷ 0 ∷ 0 ∷ 0 ∷ 0 ∷ 0 ∷ 0
    ∷ 0 ∷ 0 ∷ 0 ∷ 0 ∷ 0 ∷ 0 ∷ 0 ∷ 0 ∷ 0x90 ∷ []

-- The memory map, with one usable frame at 0x20000.
abbrev memmap_tag : List ℕ
memmap_tag =
    0x07 ∷ 0xDE ∷ 0x12 ∷ 0x86 ∷ 0x9E ∷ 0xF7 ∷ 0x87 ∷ 0x21 ∷ 0 ∷ 0x30 ∷ 0x01 ∷ 0 ∷ 0 ∷ 0 ∷ 0 ∷ 0 ∷ 1
    ∷ 0 ∷ 0 ∷ 0 ∷ 0 ∷ 0 ∷ 0 ∷ 0 ∷ 0 ∷ 0 ∷ 0x02 ∷ 0 ∷ 0 ∷ 0 ∷ 0 ∷ 0 ∷ 0 ∷ 0x10 ∷ 0 ∷ 0 ∷ 0 ∷ 0 ∷ 0
    ∷ 0 ∷ 1 ∷ []

abbrev rsdp_tag : List ℕ
rsdp_tag =
    0x78 ∷ 0x5E ∷ 0x37 ∷ 0x0A ∷ 0x93 ∷ 0x86 ∷ 0x17 ∷ 0x9E ∷ 0 ∷ 0 ∷ 0 ∷ 0 ∷ 0 ∷ 0 ∷ 0 ∷ 0 ∷ 0 ∷ 0x40
    ∷ 0x01 ∷ []

-- A MADT of 82 bytes: the local APIC at 0xFEE00000, two processors, an I/O APIC at 0xFEC00000, and
-- the timer's line at pin 2.
abbrev madt_bytes : List ℕ
madt_bytes =
    b'A' ∷ b'P' ∷ b'I' ∷ b'C' ∷ 82 ∷ 0 ∷ 0 ∷ 0 ∷ 0 ∷ 0 ∷ 0 ∷ 0 ∷ 0 ∷ 0 ∷ 0 ∷ 0 ∷ 0 ∷ 0 ∷ 0 ∷ 0 ∷ 0
    ∷ 0 ∷ 0 ∷ 0 ∷ 0 ∷ 0 ∷ 0 ∷ 0 ∷ 0 ∷ 0 ∷ 0 ∷ 0 ∷ 0 ∷ 0 ∷ 0 ∷ 0 ∷ 0 ∷ 0 ∷ 0xE0 ∷ 0xFE ∷ 0 ∷ 0 ∷ 0
    ∷ 0 ∷ 0 ∷ 8 ∷ 0 ∷ 0 ∷ 1 ∷ 0 ∷ 0 ∷ 0 ∷ 0 ∷ 8 ∷ 1 ∷ 1 ∷ 1 ∷ 0 ∷ 0 ∷ 0 ∷ 1 ∷ 12 ∷ 2 ∷ 0 ∷ 0 ∷ 0
    ∷ 0xC0 ∷ 0xFE ∷ 0 ∷ 0 ∷ 0 ∷ 0 ∷ 2 ∷ 10 ∷ 0 ∷ 0 ∷ 2 ∷ 0 ∷ 0 ∷ 0 ∷ 0 ∷ 0 ∷ []

-- The structure of the boot loader at 0x10000 has its tags at 0x11000, 0x12000 and 0x13000; the RSDP
-- is at 0x14000, the RSDT at 0x15000, the MADT at 0x16000, and the literal "APIC" at 0x17000.
abbrev regions : List (ℕ × List ℕ)
regions =
    (0x10081, 0x10 ∷ 1 ∷ [])
    ∷ (0x11000, terminal_tag)
    ∷ (0x12000, memmap_tag)
    ∷ (0x13000, rsdp_tag)
    ∷ (0x14011, 0x50 ∷ 1 ∷ [])
    ∷ (0x15004, 40 ∷ 0 ∷ 0 ∷ 0 ∷ 0 ∷ 119 ∷ [])
    ∷ (0x15025, 0x60 ∷ 1 ∷ [])
    ∷ (0x16000, madt_bytes)
    ∷ (0x17000, b'A' ∷ b'P' ∷ b'I' ∷ b'C' ∷ [])
    ∷ []

abbrev pub memory : Mem
memory = placed regions

abbrev pub tags : List ℕ
tags = 0x11000 ∷ 0x12000 ∷ 0x13000 ∷ []

pub memory-Tags : Tags memory (first_tag memory 0x10000) tags
unfolding read_le
memory-Tags = tag (omega arith) (tag (omega arith) (tag (omega arith) end))

terminal_is : first_with memory terminal_id tags ≡ 0x11000
unfolding first_with read_le
terminal_is = refl

abbrev pub one_frame : List Entry
one_frame = record { base = 0x20000; length = 0x1000; type = 1 } ∷ []

memory_map_is : memory_map memory (first_with memory memmap_id tags) ≡ one_frame
unfolding first_with read_le
memory_map_is = refl

-- CR3 is 0x1000, where there is a table without entries; the other devices answer 0.
abbrev answers : Device
answers (read_cr3 ∷ t) = 0x1000
answers _ = 0

abbrev pub machine : Machine
machine = record {
  dev = answers;
  handlers = handlers;
  idt_base = 0x9000;
  apic = 0x17000;
  schedules = λ j. 60 ∷ [];
}

abbrev pub no_idt : Idt
no_idt v = make_gate 0

abbrev pub no_pmm : Pmm
no_pmm = record { highest_frame_top = 0; max_frames = 0; used_frames = 0; gmmap = [] }

abbrev pub before : Power
before = record {
  madt = 0;
  local_apic_addr = 0;
  ncores = 0;
  cpus = record { acpi_cpuids = λ k. 0; cpuid_idx = 0; io_apic_ptr = 0 };
}

pub found_madt : madt_in machine memory tags ≡ 0x16000
unfolding first_with get_madt madt_loop rsdt_entries read_le strncmp strncmp_loop
found_madt = refl

rsdt_valid : rsdt_is_valid memory (rsdt_of memory (first_with memory rsdp_id tags)) ≡ true
unfolding first_with rsdt_is_valid sum_loop read_le
rsdt_valid = refl

madt_length : table_length memory 0x16000 ≡ 82
unfolding read_le
madt_length = refl

memory-bytes : (a : ℕ) → memory a < 256
memory-bytes a = placed-small regions a (omega arith)

-- The frame that `vmm_init` takes held zeros.
frame_is : (pmm_alloc one_frame).0 ≡ 0x20000
unfolding pmm_alloc is_usable take_frame
frame_is = refl

zero_there : (a : ℕ) → 0x20000 ≤ a → memory a ≡ 0
zero_there a h = placed-above regions a (omega arith)

at_least : (x a e : ℕ) → leb x a && ltb a e ≡ true → x ≡ 0x20000 → 0x20000 ≤ a
at_least x a e inside base = ground arith

same_memory : (pmm_allocz one_frame memory).mem ≡ memory
same_memory = fun_ext (λ a.
    let r = pmm_allocz one_frame memory in
    let (at, _, cleared) = pmm_allocz-cleared one_frame memory a in
    let base : r.alloc ≡ 0x20000 = at ∙ frame_is in
    elim (Bool-cases (leb r.alloc a && ltb a (r.alloc + 0x1000))) [
      | inl inside ↦ cleared ∙ (rw inside refl) ∙ sym (zero_there a (at_least _ _ _ inside base))
      | inr outside ↦ cleared ∙ rw outside
    ])

no_page :
    (gmmap : List Entry)
    → (unmap_page 0 (record { mem = memory; gmmap = gmmap; pml4 = 0x1000 }) []).0.1.mem ≡ memory
unfolding unmap_page find_pt is_present get_entry next_table pml4_idx pdpt_idx pd_idx pt_idx read_le
no_page gmmap = refl

pub left_is : (mmap : List Entry) → mmap ≡ one_frame → (vm_after 0x1000 memory mmap).mem ≡ memory
left_is mmap e = rw e (
    ap
      (λ x.
        (unmap_page 0
          (record { mem = x; gmmap = (pmm_allocz one_frame memory).gmmap; pml4 = 0x1000 })
          []).0.1.mem)
      same_memory
    ∙ no_page _)

frames_are : free_frames one_frame ≡ 0x20000 ∷ []
unfolding free_frames frames is_usable
frames_are = refl

one_frame-Supplied :
    (m : Mem) → Supplied 4000 (record { mem = m; gmmap = one_frame; pml4 = 0x1000 })
one_frame-Supplied m = record {
  whole = ((λ _. (omega arith, omega arith)), tt);
  left = rw frames_are (omega arith);
  above = omega arith;
  paged = omega arith;
}

pub machine-Supplies :
    Supplies machine 0x10000 0x1000 4000 0 60 tags tags memory no_idt no_pmm before memory
machine-Supplies = record {
  tag_chain = memory-Tags;
  few_tags = omega arith;
  terminal = rw terminal_is (omega arith);
  cr3_kept = λ t. refl;
  supplied = rw memory_map_is (one_frame-Supplied memory);
  leaves = left_is _ memory_map_is;
  bytes = memory-bytes;
  tag_chain_left = memory-Tags;
  few_tags_left = omega arith;
  valid = rsdt_valid;
  listed = rw found_madt (omega arith);
  enough = rw found_madt (omega (arith, madt_length));
  prompt = record { id = λ t. refl; idle = λ t. refl };
  small_ids = λ i. omega arith;
  small_count = omega arith;
  long = λ j. omega arith;
  short = λ j. omega arith;
  few_ticks = omega arith;
}
