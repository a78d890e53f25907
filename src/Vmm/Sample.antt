-- ===== src/Vmm/Sample.antt =====
-- Page tables for the first 2 MB: the tables lie at 0x1000 to 0x4000, and page 0 is mapped.
use faceless_os.Base.{[], ◌==◌, if◌then◌else◌}
use faceless_os.Machine.Memory.{Mem}
use faceless_os.Vmm.{Vm}

abbrev pub tables : Mem
tables a =
    if a == 0x1000
    then 3
    else if a == 0x1001
    then 0x20
    else if a == 0x2000
    then 3
    else if a == 0x2001
    then 0x30
    else if a == 0x3000
    then 3
    else if a == 0x3001
    then 0x40
    else if a == 0x4000
    then 3
    else 0

abbrev pub sample_vm : Vm
sample_vm = record { mem = tables; gmmap = []; pml4 = 0x1000 }
