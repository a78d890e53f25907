-- ===== src/Vmm.antt =====
-- The virtual memory manager: kernel/src/arch/memory/vmm.c. Page tables are 512 words of 8 bytes in
-- the byte memory; the code reaches them by their physical addresses.
pub mod Walk
pub mod Map
pub mod Unmap
pub mod Wipe
pub mod Tree
pub mod Grow
pub mod Shrink
pub mod NewTable
pub mod Links
pub mod Rounds
pub mod Translate
pub mod Supply
pub mod Null
pub mod NullPage
pub mod Exhausted
pub mod Returns
pub mod Forget
pub mod Upper
pub mod Init
pub mod Sample
mod Tests
use faceless_os.Base.{
  ℕ, zero, suc, ◌+◌, ◌-◌, ◌*◌, ◌/◌, ◌^◌, ◌%◌, List, [], ◌∷◌, Bool, not, Option, none, some, ◌==◌,
  if◌then◌else◌, bit_and, bit_or,
}
use faceless_os.Machine.Memory.{Mem, read_le, write_le}
use faceless_os.Machine.Io.{
  Device, Event, read_cr3, load_cr3, invlpg, Io, pure, ◌>>=◌, ◌>>◌, emit, ask, u32, u64,
}
use faceless_os.Text.{memzero_loop, strncpy}
use faceless_os.Pmm.{Entry, pmm_allocz}

abbrev pub page_bit_p_present : ℕ
page_bit_p_present = 1

abbrev pub page_bit_rw_writable : ℕ
page_bit_rw_writable = 2

abbrev pub page_addr_mask : ℕ
page_addr_mask = 0x000ffffffffff000

-- The memory, the allocator's map, and the static `pml4`.
pub record Vm : Type 0 where
  pub mem : Mem
  pub gmmap : List Entry
  pub pml4 : ℕ

-- `table->entries[idx]`
abbrev pub entry_at : ℕ → ℕ → ℕ
entry_at table idx = table + 8 * idx

unfoldable pub get_entry : Mem → ℕ → ℕ → ℕ
get_entry m table idx = read_le m (entry_at table idx) 8

unfoldable pub set_entry : Mem → ℕ → ℕ → ℕ → Mem
set_entry m table idx entry = write_le m (entry_at table idx) 8 entry

unfoldable pub is_present : ℕ → Bool
is_present entry = not (bit_and entry page_bit_p_present == 0)

-- The table that an entry points to.
unfoldable pub next_table : ℕ → ℕ
next_table entry = bit_and entry page_addr_mask

unfoldable pub make_entry : ℕ → ℕ → ℕ
make_entry addr flags = bit_or (bit_and addr page_addr_mask) flags

unfoldable pub pml4_idx : ℕ → ℕ
pml4_idx addr = bit_and (addr / 2 ^ 39) 0x1FF

unfoldable pub pdpt_idx : ℕ → ℕ
pdpt_idx addr = bit_and (addr / 2 ^ 30) 0x1FF

unfoldable pub pd_idx : ℕ → ℕ
pd_idx addr = bit_and (addr / 2 ^ 21) 0x1FF

unfoldable pub pt_idx : ℕ → ℕ
pt_idx addr = bit_and (addr / 2 ^ 12) 0x1FF

infixl 5 ◌>>=?◌
abbrev ◌>>=?◌ {ℓ κ} : {A : Type ℓ} {B : Type κ} → Option A → (A → Option B) → Option B
none >>=? f = none
some a >>=? f = f a

-- A new table for an entry without one: a cleared frame, cleared once more, whose address goes into
-- the entry, and which is then mapped at its own address by `map`, the recursive call.
unfoldable pub new_table : (ℕ → Vm → Option Vm) → (table idx flags : ℕ) → Vm → Option Vm
new_table map table idx flags vm =
    let a = pmm_allocz vm.gmmap vm.mem in
    let cleared = memzero_loop 0x1000 a.alloc a.mem in
    map a.alloc
      (record vm { mem = set_entry cleared table idx (make_entry a.alloc flags); gmmap = a.gmmap })

unfoldable pub ensure_table : (ℕ → Vm → Option Vm) → (table idx flags : ℕ) → Vm → Option Vm
ensure_table map table idx flags vm =
    if is_present (get_entry vm.mem table idx) then some vm else new_table map table idx flags vm

unfoldable pub set_leaf : (table idx addr flags : ℕ) → Vm → Vm
set_leaf table idx addr flags vm =
    if is_present (get_entry vm.mem table idx)
    then vm
    else record vm { mem = set_entry vm.mem table idx (make_entry addr flags) }

-- The recursion maps each new table at its own address; `none` means that the fuel ran out.
unfoldable pub map_page : ℕ → (logical flags : ℕ) → Vm → Option Vm
map_page zero logical flags vm = none
map_page (suc fuel) logical flags vm =
    let addr = u64 logical in
    let flags' = u32 (bit_or flags page_bit_p_present) in
    let map = λ (table : ℕ) (v : Vm). map_page fuel table flags' v in
    ensure_table map vm.pml4 (pml4_idx addr) flags' vm >>=? λ vm1.
    let pdpt = next_table (get_entry vm1.mem vm1.pml4 (pml4_idx addr)) in
    ensure_table map pdpt (pdpt_idx addr) flags' vm1 >>=? λ vm2.
    let pdt = next_table (get_entry vm2.mem pdpt (pdpt_idx addr)) in
    ensure_table map pdt (pd_idx addr) flags' vm2 >>=? λ vm3.
    let pt = next_table (get_entry vm3.mem pdt (pd_idx addr)) in
    some (set_leaf pt (pt_idx addr) addr flags' vm3)

-- The page table that covers an address, through entries that are taken to be present.
unfoldable pub find_pt : Vm → ℕ → ℕ
find_pt vm addr =
    let pdpt = next_table (get_entry vm.mem vm.pml4 (pml4_idx addr)) in
    let pdt = next_table (get_entry vm.mem pdpt (pdpt_idx addr)) in
    next_table (get_entry vm.mem pdt (pd_idx addr))

-- The entry keeps the page's own address, without the present bit.
unfoldable pub unmap_page : ℕ → Vm → Io (ℕ × Vm)
unmap_page logical vm =
    let addr = u64 logical in
    let pt = find_pt vm addr in
    let cleared = bit_and (bit_and addr page_addr_mask) (2 ^ 64 - 1 - page_bit_p_present) in
    if not (addr % 0x1000 == 0)
    then pure (0, vm)
    else if is_present (get_entry vm.mem pt (pt_idx addr))
    then emit (invlpg addr)
      >> pure (1, record vm { mem = set_entry vm.mem pt (pt_idx addr) cleared })
    else pure (1, vm)

unfoldable pub load_pml4 : ℕ → Io (Unit {0})
load_pml4 pml4 = emit (load_cr3 pml4)

-- The first frame is allocated for `pml4` and forgotten: CR3 is read into the pointer.
unfoldable pub vmm_init : Device → Vm → Io Vm
vmm_init dev vm =
    let a = pmm_allocz vm.gmmap vm.mem in
    do
      cr3 ← ask dev 64 read_cr3
      (_, vm') ← unmap_page 0 (record { mem = a.mem; gmmap = a.gmmap; pml4 = cr3 })
      emit (load_cr3 vm'.pml4)
      pure vm'
