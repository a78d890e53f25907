-- ===== src/Boot/Init/Sample/Madt.antt =====
-- The entries of the MADT in the sample machine (kernel/src/power/acpi/acpi.c).
use mathlib.Core.Path.{subst}
use faceless_os.Base.{ℕ, ◌+◌, ◌≡◌, refl, List, [], ◌∷◌, arith, ap, some, ◌∙◌}
use faceless_os.Machine.Memory.{read_le}
use faceless_os.Acpi.{first_entry, entries_end, acpi_remap_irq}
use faceless_os.Boot.Tags.Search.{get_tag-first_with, first_with}
use faceless_os.Acpi.Entries.{Walk, empty, entry, remapped, remap_loop-remapped, Walk-unique}
use faceless_os.Acpi.Madt.{last_io_apic}
use faceless_os.Boot.Tags.{get_tag}
use faceless_os.Boot.Power.{Power}
use faceless_os.Boot.Power.Started.{Started}
use faceless_os.Boot.Power.Facts.{Started-madt, Started-local_apic_addr, Started-io_apic}
use faceless_os.Boot.Power.Routed.{io_apic}
use faceless_os.Boot.Init.{memory_map, memmap_id}
use faceless_os.Boot.Init.Loaded.{vm_after, madt_in}
use faceless_os.Boot.Init.Line.{Apart}
use faceless_os.Boot.Init.Sample.{
  memory, tags, machine, before, memory-Tags, found_madt, left_is, one_frame,
}

-- The four entries of the MADT.
abbrev entries : List ℕ
entries = 0x1602C ∷ 0x16034 ∷ 0x1603C ∷ 0x16048 ∷ []

memory-Walk : Walk memory (entries_end memory 0x16000) (first_entry 0x16000) entries
unfolding read_le
memory-Walk = entry (omega arith) (omega arith) (
    entry (omega arith) (omega arith) (
      entry (omega arith) (omega arith)
        (entry (omega arith) (omega arith) (empty (omega arith) refl))))

pin_is : remapped memory 0 entries ≡ 2
unfolding remapped read_le
pin_is = refl

io_apic_is : last_io_apic memory entries 0 ≡ 0xFEC00000
unfolding last_io_apic read_le
io_apic_is = refl

local_apic_is : read_le memory (0x16000 + 36) 4 ≡ 0xFEE00000
unfolding read_le
local_apic_is = refl

pub found_memmap : get_tag 4004 memory 0x10000 memmap_id ≡ some 0x12000
unfolding first_with read_le
found_memmap = get_tag-first_with 4004 0x10000 memmap_id memory-Tags (omega arith)

map_is : memory_map memory 0x12000 ≡ one_frame
unfolding read_le
map_is = refl

module _ (power : Power)
    (s : Started memory (madt_in machine memory tags) before (some power)) where
  madt_is : power.madt ≡ 0x16000
  madt_is = Started-madt memory _ before power s ∙ found_madt

  pub power-pin :
      acpi_remap_irq 4004 (vm_after 0x1000 memory (memory_map memory 0x12000)).mem power.madt 0
      ≡ some 2
  unfolding acpi_remap_irq
  power-pin =
      ap (λ x. acpi_remap_irq 4004 x power.madt 0) (left_is _ map_is)
      ∙ ap (λ a. acpi_remap_irq 4004 memory a 0) madt_is
      ∙ remap_loop-remapped 4004 0 memory-Walk (omega arith)
      ∙ ap some pin_is

  pub power-Apart : Apart power
  power-Apart reg small =
      let w =
        subst (λ a. Walk memory (entries_end memory a) (first_entry a) s.entries) found_madt
          s.walk in
      let io : io_apic power ≡ 0xFEC00000 =
        Started-io_apic memory _ before power s
        ∙ ap (λ es. last_io_apic memory es 0) (Walk-unique w memory-Walk)
        ∙ io_apic_is in
      let local : power.local_apic_addr ≡ 0xFEE00000 =
        Started-local_apic_addr memory _ before power s
        ∙ ap (λ a. read_le memory (a + 36) 4) found_madt
        ∙ local_apic_is in
      omega arith
