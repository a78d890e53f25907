-- ===== src/Vmm/Walk.antt =====
-- Page-table entries and indices as arithmetic (kernel/src/arch/memory/vmm.c), and the walk that the
-- processor makes.
use faceless_os.Base.{
  ℕ, ◌+◌, ◌-◌, ◌*◌, ◌/◌, ◌%◌, ◌^◌, ◌≤◌, ◌<◌, ◌≡◌, ◌⊎◌, Option, none, some, arith, ◌==◌,
  if◌then◌else◌, bit_and, Bool, ◌&&◌, not,
}
use faceless_os.Machine.Bits.{mask_low, mask_high, join_fields}
use faceless_os.Machine.Memory.{Mem, read_le-write_le_self, read_le-write_le_ne}
use faceless_os.Vmm.{
  get_entry, set_entry, is_present, next_table, make_entry, pml4_idx, pdpt_idx, pd_idx, pt_idx,
}

pub indices :
    (addr : ℕ)
    → (pml4_idx addr ≡ addr / 2 ^ 39 % 512)
      × (pdpt_idx addr ≡ addr / 2 ^ 30 % 512)
      × (pd_idx addr ≡ addr / 2 ^ 21 % 512)
      × (pt_idx addr ≡ addr / 2 ^ 12 % 512)
unfolding pml4_idx pdpt_idx pd_idx pt_idx
indices addr = (
  mask_low 9 (addr / 2 ^ 39),
  mask_low 9 (addr / 2 ^ 30),
  mask_low 9 (addr / 2 ^ 21),
  mask_low 9 (addr / 2 ^ 12),
)

-- The page of an address, of at most 52 bits.
abbrev pub page_of : ℕ → ℕ
page_of a = a / 0x1000 % 2 ^ 40 * 0x1000

pub next_table-page_of : (entry : ℕ) → next_table entry ≡ page_of entry
unfolding next_table
next_table-page_of entry =
    omega (arith, mask_high 12 entry (2 ^ 40 - 1), mask_low 40 (entry / 2 ^ 12))

pub make_entry-sum :
    (addr flags : ℕ) → flags < 0x1000 → make_entry addr flags ≡ page_of addr + flags
unfolding make_entry
make_entry-sum addr flags h =
    let page : bit_and addr 0x000ffffffffff000 ≡ page_of addr =
      omega (arith, mask_high 12 addr (2 ^ 40 - 1), mask_low 40 (addr / 2 ^ 12)) in
    rw page (join_fields 12 (addr / 0x1000 % 2 ^ 40) flags h)

pub is_present-odd : (entry : ℕ) → is_present entry ≡ (entry % 2 == 1)
unfolding is_present
is_present-odd entry = ground (arith, mask_low 1 entry)

-- An entry that is made has its page and its flags.
pub make_entry-fields :
    (addr flags : ℕ)
    → flags < 0x1000
    → (next_table (make_entry addr flags) ≡ page_of addr)
      × (is_present (make_entry addr flags) ≡ (flags % 2 == 1))
      × (make_entry addr flags < 2 ^ 52)
make_entry-fields addr flags h =
    let sum = make_entry-sum addr flags h in
    (
      omega (arith, next_table-page_of (make_entry addr flags), sum),
      ground (arith, is_present-odd (make_entry addr flags), sum),
      omega (arith, sum),
    )

pub get_entry-set_entry_self :
    (m : Mem) (table idx entry : ℕ)
    → entry < 2 ^ 64
    → get_entry (set_entry m table idx entry) table idx ≡ entry
unfolding get_entry set_entry
get_entry-set_entry_self m table idx entry h = read_le-write_le_self m (table + 8 * idx) 8 entry h

pub get_entry-set_entry_ne :
    (m : Mem) (table idx entry table' idx' : ℕ)
    → (table' + 8 * idx' + 8 ≤ table + 8 * idx) ⊎ (table + 8 * idx + 8 ≤ table' + 8 * idx')
    → get_entry (set_entry m table idx entry) table' idx' ≡ get_entry m table' idx'
unfolding get_entry set_entry
get_entry-set_entry_ne m table idx entry table' idx' apart =
    read_le-write_le_ne m (table' + 8 * idx') 8 (table + 8 * idx) 8 entry apart

-- The bit PS, with which an entry above the page tables maps a large page and leads to no table.
abbrev pub is_large : ℕ → Bool
is_large entry = entry / 2 ^ 7 % 2 == 1

-- Flags of 12 bits without PS.
abbrev pub Plain : ℕ → Type 0
Plain flags = (flags < 0x1000) × (flags / 2 ^ 7 % 2 ≡ 0)

-- The step of the processor's walk through a table above the page tables: `none` is a page fault or
-- a large page.
unfoldable pub walk_level : Mem → ℕ → ℕ → Option ℕ
walk_level m table idx =
    let entry = get_entry m table idx in
    if is_present entry && not (is_large entry) then some (next_table entry) else none

-- The step through a page table, where the bit does not mean PS.
unfoldable pub walk_leaf : Mem → ℕ → ℕ → Option ℕ
walk_leaf m table idx =
    let entry = get_entry m table idx in if is_present entry then some (next_table entry) else none
