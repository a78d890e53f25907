-- ===== src/Gdt.antt =====
-- The global descriptor table: kernel/src/asm/arch/memory/GDT.asm.
use faceless_os.Base.{ℕ, ◌/◌, ◌%◌, ◌^◌, List, [], ◌∷◌, Bool, ◌&&◌, ◌==◌, get_or}
use faceless_os.Machine.Io.{cli, load_gdtr, load_segments, Io, ◌>>◌, emit}

pub record Descriptor : Type 0 where
  pub limit_low : ℕ
  pub base_low : ℕ
  pub base_middle : ℕ
  pub access : ℕ
  pub granularity : ℕ
  pub base_high : ℕ

abbrev pub descriptor : (limit_low access granularity : ℕ) → Descriptor
descriptor limit_low access granularity = record {
  limit_low = limit_low;
  base_low = 0;
  base_middle = 0;
  access = access;
  granularity = granularity;
  base_high = 0;
}

abbrev pub null : Descriptor
null = descriptor 0 0 1

abbrev pub code16 : Descriptor
code16 = descriptor 0xFFFF 0b10011010 0b00000000

abbrev pub data16 : Descriptor
data16 = descriptor 0xFFFF 0b10010010 0b00000000

abbrev pub code32 : Descriptor
code32 = descriptor 0xFFFF 0b10011010 0b11001111

abbrev pub data32 : Descriptor
data32 = descriptor 0xFFFF 0b10010010 0b11001111

abbrev pub code64 : Descriptor
code64 = descriptor 0 0b10011010 0b00100000

abbrev pub data64 : Descriptor
data64 = descriptor 0 0b10010010 0b00000000

abbrev pub gdt : List Descriptor
gdt = null ∷ code16 ∷ data16 ∷ code32 ∷ data32 ∷ code64 ∷ data64 ∷ []

-- The far return loads `cs`; the other segment registers get the selector of the data segment.
unfoldable pub gdt_load : Io (Unit {0})
gdt_load = do emit cli; emit load_gdtr; emit (load_segments 0x28 0x30)

-- The descriptor that a selector names: the index is above two bits for the privilege level and one
-- for the table.
abbrev pub selected : ℕ → Descriptor
selected selector = get_or gdt (selector / 8) null

-- A segment that holds code of 64 bits: present, a code segment, and with the bit for long mode and
-- not the one for 32 bits.
abbrev pub is_code64 : Descriptor → Bool
is_code64 d =
    (d.access / 2 ^ 7 % 2 == 1) && (d.access / 2 ^ 3 % 4 == 3) && (d.granularity / 2 ^ 5 % 4 == 1)
