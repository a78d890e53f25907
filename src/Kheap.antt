-- ===== src/Kheap.antt =====
-- The kernel heap: kernel/src/arch/memory/kheap.c. Blocks are packed structures in the byte memory:
-- `is_free` at 0, `next` at 1, `prev` at 9, `size` at 17, `magic` at 25 and `data_start` at 29.
pub mod Chain
pub mod Append
pub mod Alloc
pub mod Free
pub mod Full
pub mod Mapper
pub mod Init
pub mod NullPage
pub mod RoundTrip
pub mod Blocks
pub mod Held
pub mod Grown
pub mod Holes
pub mod Callers
pub mod Reach
pub mod Pml4
mod Tests
use faceless_os.Base.{
  ℕ, zero, suc, ◌+◌, ◌-◌, ◌^◌, ◌%◌, ◌*◌, Option, none, some, leb, ltb, ◌==◌, if◌then◌else◌, not,
}
use faceless_os.Machine.Memory.{Mem, store, read_le, write_le}
use faceless_os.Machine.Io.{Io, pure, ◌>>=◌, ◌>>◌, u64}
use faceless_os.Panic.{panic}
use faceless_os.Vmm.{Vm, page_bit_p_present, page_bit_rw_writable}

abbrev pub kheap_start : ℕ
kheap_start = 0x500

abbrev pub gb : ℕ
gb = 0x40000000

abbrev pub kheap_limit : ℕ
kheap_limit = 0x500 + gb

abbrev pub kheap_end : ℕ
kheap_end = 0x500 + (kheap_limit + 1)

abbrev pub kheap_magic : ℕ
kheap_magic = 0xCA75101

abbrev pub block_size : ℕ
block_size = 30

abbrev pub data_start : ℕ
data_start = 29

-- The fields of the block at `p`.
unfoldable pub is_free : Mem → ℕ → ℕ
is_free m p = m p

unfoldable pub next : Mem → ℕ → ℕ
next m p = read_le m (p + 1) 8

unfoldable pub size : Mem → ℕ → ℕ
size m p = read_le m (p + 17) 8

unfoldable pub magic : Mem → ℕ → ℕ
magic m p = read_le m (p + 25) 4

unfoldable pub set_is_free : Mem → ℕ → ℕ → Mem
set_is_free m p v = store m p v

unfoldable pub set_next : Mem → ℕ → ℕ → Mem
set_next m p v = write_le m (p + 1) 8 v

unfoldable pub set_size : Mem → ℕ → ℕ → Mem
set_size m p v = write_le m (p + 17) 8 v

unfoldable pub set_magic : Mem → ℕ → ℕ → Mem
set_magic m p v = write_le m (p + 25) 4 v

-- The virtual memory manager's state and the static `mem_allocated`.
pub record Heap : Type 0 where
  pub vm : Vm
  pub mem_allocated : ℕ

abbrev pub mem_of : Heap → Mem
mem_of h = h.vm.mem

abbrev pub with_mem : Heap → Mem → Heap
with_mem h m = record {
  vm = (let v = h.vm in record v { mem = m });
  mem_allocated = h.mem_allocated;
}

-- How the walk over the blocks ends: at a free block, or behind the last one, which is `prev`.
pub data Search : Type 0 where
  hole : ℕ → Search
  no_hole : ℕ → Search

-- `while (current != NULL)`. `none` means that the fuel ran out.
unfoldable pub search_loop : ℕ → Mem → (current prev : ℕ) → Option Search
search_loop zero m current prev = none
search_loop (suc fuel) m current prev =
    let rest = search_loop fuel m (next m current) current in
    if current == 0
    then some (no_hole prev)
    else if is_free m current == 0
    then rest
    else some (hole current)

-- A new block behind `prev`, `size` bytes above what is allocated. The size is stored in `prev`.
unfoldable pub append_block : ℕ → ℕ → Heap → ℕ × Heap
append_block prev sz h =
    let m1 = set_next (mem_of h) prev (u64 (kheap_start + h.mem_allocated + sz)) in
    let m2 = set_magic m1 (next m1 prev) kheap_magic in
    let m3 = set_size m2 prev sz in
    if ltb kheap_end (u64 (prev + block_size * block_size))
    then (0, h)
    else (next m3 prev, with_mem h m3)

unfoldable pub after_search : Search → ℕ → Heap → ℕ × Heap
after_search (hole current) sz h = (current, h)
after_search (no_hole prev) sz h = append_block prev sz h

-- `first_fit` after its call of `map_page`. A free block is taken whatever its size.
unfoldable pub fit_mapped : (fuel sz : ℕ) → Heap → Option (ℕ × Heap)
fit_mapped fuel sz h =
    if leb kheap_limit (u64 (h.mem_allocated + sz))
    then some (0, h)
    else elim (search_loop fuel (mem_of h) kheap_start 0) [
      | none ↦ none
      | some s ↦ some (after_search s sz h)
    ]

-- The rest of `kmalloc`: an address for the caller, or 0 for NULL.
unfoldable pub take_block : ℕ → ℕ × Heap → ℕ × Heap
take_block sz (block, h) = if block == 0 then (0, h) else (
  block + data_start,
  record {
    vm = (let v = h.vm in record v { mem = set_is_free v.mem block 0 });
    mem_allocated = u64 (h.mem_allocated + sz);
  },
)

-- `map_page` is the operation of the virtual memory manager that the heap calls.
module _ (map_page : (logical flags : ℕ) → Vm → Option Vm) where
  abbrev map_at : ℕ → Heap → Option Heap
  map_at logical h = elim (map_page logical (page_bit_p_present + page_bit_rw_writable) h.vm) [
    | none ↦ none
    | some vm ↦ some (record h { vm = vm })
  ]

  unfoldable pub kheap_init : Heap → Option Heap
  kheap_init h = elim (map_at kheap_start h) [
    | none ↦ none
    | some h' ↦
        let m1 = set_next (mem_of h') kheap_start 0 in
        let m2 = set_is_free m1 kheap_start 1 in
        let m3 = set_size m2 kheap_start 0 in
        some (with_mem h' (set_magic m3 kheap_start kheap_magic))
  ]

  unfoldable pub first_fit : (fuel sz : ℕ) → Heap → Option (ℕ × Heap)
  first_fit fuel sz h = elim (map_at (u64 (kheap_start + h.mem_allocated)) h) [
    | none ↦ none
    | some h' ↦ fit_mapped fuel sz h'
  ]

  unfoldable pub kmalloc : (fuel sz : ℕ) → Heap → Option (ℕ × Heap)
  kmalloc fuel sz h = elim (first_fit fuel sz h) [ none ↦ none | some r ↦ some (take_block sz r) ]

-- `block - sizeof(struct Block) + 1`
unfoldable pub block_of : ℕ → ℕ
block_of block = u64 (block + 2 ^ 64 - block_size + 1)

unfoldable pub kfree : ℕ → Heap → Io Heap
unfolding block_of
kfree block h =
    let blk = block_of block in
    let freed = set_is_free (mem_of h) blk 1 in
    let h' : Heap = record {
      vm = (let v = h.vm in record v { mem = freed });
      mem_allocated = u64 (h.mem_allocated + 2 ^ 64 - size freed blk);
    } in
    if magic (mem_of h) blk == kheap_magic
    then pure h'
    else panic "Invalid free or kernel heap corruption detected..\n" >> pure h
