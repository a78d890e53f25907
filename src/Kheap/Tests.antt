-- ===== src/Kheap/Tests.antt =====
-- The heap with one block (kernel/src/arch/memory/kheap.c).
use faceless_os.Base.{
  ℕ, ◌+◌, ◌-◌, ◌^◌, ◌<◌, ◌≡◌, ◌≢◌, inl, refl, [], ◌∷◌, some, arith, ◌==◌, if◌then◌else◌,
}
use faceless_os.Machine.Memory.{store, read_le}
use faceless_os.Machine.Io.{u64}
use faceless_os.Vmm.{
  Vm, get_entry, is_present, next_table, pml4_idx, pdpt_idx, pd_idx, pt_idx, ensure_table, set_leaf,
  map_page,
}
use faceless_os.Vmm.Sample.{tables, sample_vm}
use faceless_os.Kheap.RoundTrip.{kfree-kmalloc}
use faceless_os.Kheap.{
  Heap, kheap_start, kheap_magic, data_start, next, size, magic, is_free, kmalloc, kfree, mem_of,
}
use faceless_os.Kheap.Chain.{Chain, end, block}
use faceless_os.Kheap.Alloc.{Maps, Appended, kmalloc-hole, kmalloc-Appended, kmalloc-overlap}
use faceless_os.Kheap.Full.{kmalloc-null}
use faceless_os.Kheap.Free.{Freed, kfree-Freed}

-- The block at the start of the heap is in use, with 100 bytes allocated.
abbrev used_heap : Heap
used_heap = record { vm = sample_vm; mem_allocated = 100 }

-- The same block, free.
abbrev free_vm : Vm
free_vm = record sample_vm { mem = store tables 0x500 1 }

abbrev free_heap : Heap
free_heap = record { vm = free_vm; mem_allocated = 100 }

used_heap-Maps : Maps (map_page 1) used_heap sample_vm
unfolding map_page ensure_table set_leaf get_entry read_le is_present next_table pml4_idx pdpt_idx
    pd_idx pt_idx
used_heap-Maps = record { maps = refl }

free_heap-Maps : Maps (map_page 1) free_heap free_vm
unfolding map_page ensure_table set_leaf get_entry read_le is_present next_table pml4_idx pdpt_idx
    pd_idx pt_idx
free_heap-Maps = record { maps = refl }

used_heap-Chain : Chain tables kheap_start (kheap_start ∷ [])
unfolding next read_le
used_heap-Chain = block (omega arith) end

free_heap-Chain : Chain (free_vm.mem) kheap_start (kheap_start ∷ [])
unfolding next read_le
free_heap-Chain = block (omega arith) end

used_heap-is_free : is_free tables kheap_start ≡ 0
unfolding is_free
used_heap-is_free = refl

free_heap-is_free : is_free free_vm.mem kheap_start ≢ 0
unfolding is_free
free_heap-is_free = omega arith

-- A block is taken for 4096 bytes although nothing is known of its size.
kmalloc-hole_example :
    kmalloc (map_page 1) 2 0x1000 free_heap
    ≡ some (
      0x51D,
      record {
        vm = record free_vm { mem = store free_vm.mem 0x500 0 };
        mem_allocated = 100 + 0x1000;
      },
    )
kmalloc-hole_example =
    kmalloc-hole (map_page 1) 2 0x1000 free_heap free_vm free_heap-Maps [] 0x500 [] (omega arith)
      free_heap-Chain (omega arith) tt free_heap-is_free (omega arith)

kmalloc-Appended_example :
    Appended
      (map_page 1)
      2
      64
      used_heap
      sample_vm
      used_heap-Maps
      0x500
      (kmalloc (map_page 1) 2 64 used_heap)
kmalloc-Appended_example =
    kmalloc-Appended (map_page 1) 2 64 used_heap sample_vm used_heap-Maps [] 0x500 (omega arith)
      used_heap-Chain (omega arith) (used_heap-is_free, tt) (omega arith) (inl (omega arith))

kmalloc-overlap_example :
    (address : ℕ) × (after : Heap) × (kmalloc (map_page 1) 2 16 used_heap ≡ some (address, after))
    × (0x51D < address - 29 + 30)
    × (address - 29 < 0x51D + 100)
kmalloc-overlap_example =
    kmalloc-overlap (map_page 1) 2 16 used_heap sample_vm used_heap-Maps (omega arith)
      used_heap-Chain (omega arith) used_heap-is_free (omega arith) (omega arith)

kfree-Freed_example : Freed 0x500 used_heap [] (kfree (0x500 + data_start) used_heap [])
kfree-Freed_example = kfree-Freed 0x500 used_heap [] (omega arith)

-- The first block is free and marked, and has a size of 64.
abbrev sized_vm : Vm
sized_vm = record sample_vm {
  mem = λ a.
      if a == 0x500
      then 1
      else if a == 0x511
      then 64
      else if a == 0x519
      then 0x01
      else if a == 0x51A
      then 0x51
      else if a == 0x51B
      then 0xA7
      else if a == 0x51C
      then 0x0C
      else tables a;
}

abbrev sized_heap : Heap
sized_heap = record { vm = sized_vm; mem_allocated = 100 }

sized_heap-Maps : Maps (map_page 1) sized_heap sized_vm
unfolding map_page ensure_table set_leaf get_entry read_le is_present next_table pml4_idx pdpt_idx
    pd_idx pt_idx
sized_heap-Maps = record { maps = refl }

sized_heap-Chain : Chain (sized_vm.mem) kheap_start (kheap_start ∷ [])
unfolding next read_le
sized_heap-Chain = block (omega arith) end

sized_heap-fields :
    (is_free sized_vm.mem 0x500 ≡ 1)
    × (magic sized_vm.mem 0x500 ≡ kheap_magic)
    × (size sized_vm.mem 0x500 ≡ 64)
unfolding is_free magic size read_le
sized_heap-fields = (refl, refl, refl)

kfree-kmalloc_example :
    (address : ℕ) × (h1 h2 : Heap) × (kmalloc (map_page 1) 2 64 sized_heap ≡ some (address, h1))
    × (kfree address h1 [] ≡ (h2, []))
    × ((a : ℕ) → mem_of h2 a ≡ sized_vm.mem a)
    × (h2.mem_allocated ≡ u64 (100 + 64 + 2 ^ 64 - size sized_vm.mem 0x500))
kfree-kmalloc_example =
    let (free, marked, _) = sized_heap-fields in
    kfree-kmalloc (map_page 1) 2 64 sized_heap sized_vm sized_heap-Maps [] 0x500 [] [] (omega arith)
      sized_heap-Chain (omega arith) tt free marked (omega arith) (omega arith)

kmalloc-null_example : kmalloc (map_page 1) 2 0x40000500 used_heap ≡ some (0, used_heap)
kmalloc-null_example =
    kmalloc-null (map_page 1) 2 0x40000500 used_heap sample_vm used_heap-Maps
      (inl (omega arith, omega arith))
