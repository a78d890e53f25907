-- ===== src/Vmm/Init.antt =====
-- `vmm_init` (kernel/src/arch/memory/vmm.c).
use faceless_os.Base.{ℕ, ◌/◌, ◌%◌, ◌^◌, ◌<◌, ◌≡◌, ◌≢◌, true, arith, ◌∷◌, none, some, ap, ◌∙◌}
use faceless_os.Machine.Io.{Device, Trace, read_cr3, load_cr3, invlpg}
use faceless_os.Pmm.{pmm_alloc, pmm_allocz}
use faceless_os.Pmm.Zero.{pmm_allocz-cleared}
use faceless_os.Vmm.{Vm, get_entry, is_present, pt_idx, find_pt, unmap_page, vmm_init}
use faceless_os.Vmm.Tree.{Places, Tree, walk}
use faceless_os.Vmm.Links.{walk-Way}
use faceless_os.Vmm.Unmap.{unmap_page-Unmapped}
use faceless_os.Vmm.Forget.{unmap_page-walk, find_pt-Way}

-- The tables that CR3 points to, after the allocation of a frame.
abbrev pub loaded : Device → Vm → Trace → Vm
loaded dev vm t =
    let a = pmm_allocz vm.gmmap vm.mem in
    record { mem = a.mem; gmmap = a.gmmap; pml4 = dev (read_cr3 ∷ t) % 2 ^ 64 }

-- The machine after `vmm_init`: the tables of CR3 are kept, page 0 is not reached, and every other page
-- is reached as before. The allocator has made one allocation.
pub record Initialized (dev : Device) (vm : Vm) (t : Trace) (r : Vm × Trace) : Type 0 where
  pub pml4 : r.0.pml4 ≡ dev (read_cr3 ∷ t) % 2 ^ 64
  pub null_faults : walk r.0.mem r.0.pml4 0 ≡ none
  pub others :
      (a : ℕ)
      → a < 2 ^ 48
      → a / 0x1000 ≢ 0
      → walk r.0.mem r.0.pml4 a ≡ walk (loaded dev vm t).mem (loaded dev vm t).pml4 a
  pub taken : r.0.gmmap ≡ (pmm_alloc vm.gmmap).1
  pub events : r.1 ≡ load_cr3 (dev (read_cr3 ∷ t) % 2 ^ 64) ∷ invlpg 0 ∷ read_cr3 ∷ t

-- Where the tables that CR3 points to are a tree without large pages that maps page 0, after
-- `vmm_init` they are in use and the processor does not reach page 0, but every other page below
-- 2 ^ 48 as before. CR3 is read, the copy of the entry dropped, and CR3 loaded with the value
-- that was read, in this order. The allocator has made one allocation.
pub vmm_init-Initialized :
    (Allowed : ℕ → ℕ → Type 0) (ps : Places) (dev : Device) (vm : Vm) (t : Trace) (page : ℕ)
    → Tree Allowed ps (loaded dev vm t)
    → walk (loaded dev vm t).mem (loaded dev vm t).pml4 0 ≡ some page
    → Initialized dev vm t (vmm_init dev vm t)
unfolding vmm_init
vmm_init-Initialized Allowed ps dev vm t page tree mapped =
    let start = loaded dev vm t in
    let (_, gone, kept) =
      unmap_page-walk Allowed ps start tree 0 page (read_cr3 ∷ t) (omega arith) (omega arith)
        mapped in
    let u = unmap_page-Unmapped 0 start (read_cr3 ∷ t) (omega arith) (omega arith) in
    let w = walk-Way start.mem start.pml4 0 page mapped in
    let there : is_present (get_entry start.mem (find_pt start 0) (pt_idx 0)) ≡ true =
      rw (find_pt-Way Allowed ps start tree 0 page w) w.link1.0 in
    record {
      pml4 = u.same.1;
      null_faults = gone;
      others = λ a low ne. kept a low (omega (arith, ne));
      taken = u.same.0 ∙ (pmm_allocz-cleared vm.gmmap vm.mem 0).1;
      events =
          ap (λ p. load_cr3 p ∷ (unmap_page 0 start (read_cr3 ∷ t)).1) u.same.1
          ∙ ap (λ trace. load_cr3 start.pml4 ∷ trace) (u.flushed ∙ rw there);
    }
