-- ===== src/Kheap/Mapper.antt =====
-- What the heap (kernel/src/arch/memory/kheap.c) takes from the virtual memory manager, and how
-- `map_page` of kernel/src/arch/memory/vmm.c gives it.
use faceless_os.Base.{ℕ, ◌+◌, ◌≡◌, Option, some, arith}
use faceless_os.Machine.Memory.{Mem}
use faceless_os.Vmm.{Vm, map_page}
use faceless_os.Vmm.Supply.{Supplied}
use faceless_os.Vmm.Returns.{map_page-Returns}

-- An operation that maps pages, and the states in which it returns. They do not depend on what the
-- heap writes to the memory.
pub record Mapper : Type 1 where
  pub map_page : (logical flags : ℕ) → Vm → Option Vm
  pub IsReady : Vm → Type 0
  pub maps :
      (logical : ℕ) (vm : Vm)
      → IsReady vm
      → (vm' : Vm) × (map_page logical 3 vm ≡ some vm') × IsReady vm'
  pub written : (vm : Vm) (m : Mem) → IsReady vm → IsReady (record vm { mem = m })

-- The operation of the virtual memory manager, with at most `n` frames left.
abbrev pub vmm_mapper : ℕ → Mapper
vmm_mapper n = record {
  map_page = map_page (n + 4);
  IsReady = Supplied n;
  maps = λ logical vm s.
      let r = map_page-Returns (n + 4) n logical 3 vm (omega arith) (omega arith) s in
      (r.after, r.returns, r.supplied);
  written = λ vm m s. record { whole = s.whole; left = s.left; above = s.above; paged = s.paged };
}
