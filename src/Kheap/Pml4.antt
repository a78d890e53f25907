-- ===== src/Kheap/Pml4.antt =====
-- `mkpml4` of kernel/src/arch/memory/vmm.c, which allocates on the heap.
use faceless_os.Base.{
  ℕ, zero, suc, ◌+◌, ◌%◌, ◌^◌, ◌≡◌, refl, ◌∷◌, ap, ◌∙◌, arith, true, Option, none, some, ◌==◌,
  if◌then◌else◌,
}
use faceless_os.Machine.Memory.{Mem, store}
use faceless_os.Machine.Io.{Device, Trace, read_cr3, Io, pure, ◌>>=◌, ask}
use faceless_os.Vmm.{Vm}
use faceless_os.Kheap.{Heap, kmalloc, mem_of, with_mem}

-- `strncpy` between two places of one memory.
unfoldable pub copy_loop : (left i dst src : ℕ) → Mem → Mem
copy_loop zero i dst src m = m
copy_loop (suc left) i dst src m =
    let rest = copy_loop left (i + 1) dst src (store m (dst + i) (m (src + i))) in
    if m (src + i) == 0 then m else rest

-- The copy ends at the first byte that is 0, and what is returned is CR3, not the new table.
unfoldable pub mkpml4 :
    ((logical flags : ℕ) → Vm → Option Vm) → ℕ → Device → Heap → Io (Option (ℕ × Heap))
mkpml4 map_page fuel dev h = elim (kmalloc map_page fuel 0x1000 h) [
  | none ↦ pure none
  | some r ↦
      let copied = copy_loop 0x1000 0 r.0 (let v = r.1.vm in v.pml4) (mem_of r.1) in
      ask dev 64 read_cr3 >>= λ cr3. pure (some (cr3, with_mem r.1 copied))
]

copy_loop-stopped :
    (left i dst src : ℕ) (m : Mem) → m (src + i) ≡ 0 → copy_loop left i dst src m ≡ m
unfolding copy_loop
copy_loop-stopped zero i dst src m h = refl
copy_loop-stopped (suc left) i dst src m h =
    let stop : (m (src + i) == 0) ≡ true = ground arith in rw stop

-- Whatever the heap does, what `mkpml4` returns is the value that is read from CR3. Where the first byte
-- of the page table in use is 0, nothing is copied to the new table.
pub mkpml4-cr3 :
    (map_page : (logical flags : ℕ) → Vm → Option Vm) (fuel : ℕ) (dev : Device) (h h' : Heap)
    (block : ℕ) (t : Trace)
    → kmalloc map_page fuel 0x1000 h ≡ some (block, h')
    → (h'' : Heap) × (mkpml4 map_page fuel dev h t
        ≡ (some (dev (read_cr3 ∷ t) % 2 ^ 64, h''), read_cr3 ∷ t))
      × (mem_of h' (let v = h'.vm in v.pml4) ≡ 0 → mem_of h'' ≡ mem_of h')
unfolding mkpml4
mkpml4-cr3 map_page fuel dev h h' block t made = (
  with_mem h' (copy_loop 0x1000 0 block (let v = h'.vm in v.pml4) (mem_of h')),
  rw (made, mkpml4),
  λ first.
      copy_loop-stopped 0x1000 0 block (let v = h'.vm in v.pml4) (mem_of h')
        (ap (mem_of h') (omega arith) ∙ first),
)
