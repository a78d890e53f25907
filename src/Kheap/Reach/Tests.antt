-- ===== src/Kheap/Reach/Tests.antt =====
-- A heap with one block, which is taken by a caller before another one asks for memory
-- (kernel/src/arch/memory/kheap.c).
use faceless_os.Base.{◌+◌, List, [], ◌∷◌, false, ◌==◌, if◌then◌else◌}
use faceless_os.Machine.Memory.{Mem, store}
use faceless_os.Vmm.{Vm}
use faceless_os.Vmm.Sample.{tables, sample_vm}
use faceless_os.Kheap.{Heap, kheap_start}
use faceless_os.Kheap.Blocks.{Block}
use faceless_os.Kheap.Reach.{Reach}

-- The heap that `kheap_init` leaves.
abbrev fresh : Mem
fresh a =
    if a == 0x500
    then 1
    else if a == 0x519
    then 0x01
    else if a == 0x51A
    then 0x51
    else if a == 0x51B
    then 0xA7
    else if a == 0x51C
    then 0x0C
    else tables a

abbrev vm0 : Vm
vm0 = record sample_vm { mem = fresh }

abbrev heap0 : Heap
heap0 = record { vm = vm0; mem_allocated = 0 }

-- The block is taken, for 100 bytes.
abbrev vm1 : Vm
vm1 = record sample_vm { mem = store fresh 0x500 0 }

abbrev heap1 : Heap
heap1 = record { vm = vm1; mem_allocated = 0 + 100 }

abbrev one_block : List Block
one_block = record { start = kheap_start; held = false } ∷ []
