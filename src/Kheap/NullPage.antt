-- ===== src/Kheap/NullPage.antt =====
-- The heap (kernel/src/arch/memory/kheap.c) starts in the page that `vmm_init`
-- (kernel/src/arch/memory/vmm.c) unmaps so that a null pointer faults.
use faceless_os.Base.{ℕ, suc, ◌+◌, ◌*◌, ◌≡◌, refl, false, none, some, arith, ◌∙◌}
use faceless_os.Machine.Memory.{Mem, read_le_same}
use faceless_os.Machine.Io.{Device, Trace, read_cr3}
use faceless_os.Base.{◌∷◌}
use faceless_os.Vmm.{
  Vm, get_entry, is_present, next_table, pml4_idx, pdpt_idx, pd_idx, pt_idx, find_pt, map_page,
  unmap_page, vmm_init,
}
use faceless_os.Vmm.Tree.{Places, Tree, walk}
use faceless_os.Vmm.Links.{Link, Way, walk-Way, walk-Links}
use faceless_os.Vmm.Map.{Mapped, HasTables, map_page-Mapped}
use faceless_os.Vmm.Unmap.{unmap_page-Unmapped}
use faceless_os.Vmm.Forget.{unmap_page-walk, find_pt-Way}
use faceless_os.Vmm.Upper.{find_pt-Links, Agrees, leaf_above, links_kept}
use faceless_os.Vmm.Init.{loaded}
use faceless_os.Kheap.{Heap, mem_of, kheap_init}
use faceless_os.Kheap.Init.{first_block, first_block-outside}

module _ (Allowed : ℕ → ℕ → Type 0) (ps : Places) (start : Vm) (page : ℕ)
    (tree : Tree Allowed ps start) (not_first : ps.level 0 ≡ 0)
    (w : Way start.mem start.pml4 0 page) where
  abbrev Keeps : Mem → Type 0
  Keeps = Agrees Allowed ps start tree not_first 0 page (omega arith) w

  unmapped-Keeps : (t : Trace) → Keeps (unmap_page 0 start t).0.1.mem
  unmapped-Keeps t a above out =
      let u = unmap_page-Unmapped 0 start t (omega arith) (omega arith) in
      (rw (find_pt-Way Allowed ps start tree 0 page w) at u.others) a out

  leaf_absent : (t : Trace) → is_present (get_entry (unmap_page 0 start t).0.1.mem w.t1 0) ≡ false
  unfolding pt_idx
  leaf_absent t =
      let u = unmap_page-Unmapped 0 start t (omega arith) (omega arith) in
      rw (find_pt-Way Allowed ps start tree 0 page w) at u.absent

  module _ (v : Vm) (same : v.pml4 ≡ start.pml4) (keeps : Keeps v.mem)
      (absent : is_present (get_entry v.mem w.t1 0) ≡ false) where
    on_the_way :
        Link v.mem v.pml4 (pml4_idx 0x500) w.t3
        × Link v.mem w.t3 (pdpt_idx 0x500) w.t2
        × Link v.mem w.t2 (pd_idx 0x500) w.t1
    unfolding pml4_idx pdpt_idx pd_idx
    on_the_way =
        rw same (links_kept Allowed ps start tree not_first 0 page (omega arith) w v.mem keeps)

    has_tables : HasTables v 0x500
    has_tables =
        let (a, b, c) = on_the_way in
        record { in_pml4 = a.0; in_pdpt = rw a.1 b.0; in_pd = rw (a.1, b.1) c.0 }

    own_table : find_pt v 0x500 ≡ w.t1
    own_table = let (a, b, c) = on_the_way in find_pt-Links v 0x500 w.t3 w.t2 w.t1 a b c

    module _ (v' : Vm) (mapped : Mapped 0x500 3 v v') where
      leaf_entry : get_entry (first_block v'.mem) w.t1 0 ≡ 3
      unfolding pt_idx
      leaf_entry =
          let (above, _) = leaf_above Allowed ps start tree not_first 0 page (omega arith) w in
          let kept : get_entry (first_block v'.mem) w.t1 0 ≡ get_entry v'.mem w.t1 0 =
            unfold get_entry in
            read_le_same (first_block v'.mem) v'.mem (w.t1 + 8 * 0) 8
              (λ a lo hi. first_block-outside v'.mem a (omega arith)) in
          kept ∙ (rw (own_table, absent) at mapped.leaf)

      block-Keeps : Keeps (first_block v'.mem)
      unfolding pt_idx
      block-Keeps a above out =
          first_block-outside v'.mem a (omega arith)
          ∙ (rw own_table at mapped.others) a out
          ∙ keeps a above out

      null_reached : walk (first_block v'.mem) v'.pml4 0 ≡ some 0
      unfolding pt_idx is_present next_table
      null_reached =
          let (a, b, c) =
            links_kept Allowed ps start tree not_first 0 page (omega arith) w (first_block v'.mem)
              block-Keeps in
          rw (mapped.same.1, same)
            (walk-Links (first_block v'.mem) start.pml4 0 w.t3 w.t2 w.t1 0 a b c
              (rw leaf_entry (refl, refl)))

module _ (Allowed : ℕ → ℕ → Type 0) (ps : Places) (dev : Device) (vm : Vm) (t : Trace)
    (page : ℕ) where
  -- Where the tables that CR3 points to are a tree without large pages that maps page 0 and has
  -- no table there, the processor does not reach page 0 after `vmm_init`. A `kheap_init` behind
  -- it returns after one round of `map_page`, and then the processor reaches page 0 again: the
  -- heap starts in it.
  pub kheap_init-null_page :
      (fuel mem_allocated : ℕ)
      → Tree Allowed ps (loaded dev vm t)
      → ps.level 0 ≡ 0
      → walk (loaded dev vm t).mem (loaded dev vm t).pml4 0 ≡ some page
      → let v = (vmm_init dev vm t).0 in
        (walk v.mem v.pml4 0 ≡ none)
        × (h : Heap) × (kheap_init
              (map_page (suc fuel))
              (record { vm = v; mem_allocated = mem_allocated })
            ≡ some h)
        × (walk (mem_of h) (let v' = h.vm in v'.pml4) 0 ≡ some 0)
  unfolding vmm_init kheap_init
  kheap_init-null_page fuel mem_allocated tree not_first mapped =
      let start = loaded dev vm t in
      let t' : Trace = read_cr3 ∷ t in
      let v = (unmap_page 0 start t').0.1 in
      let w = walk-Way start.mem start.pml4 0 page mapped in
      let u = unmap_page-Unmapped 0 start t' (omega arith) (omega arith) in
      let (_, gone, _) =
        unmap_page-walk Allowed ps start tree 0 page t' (omega arith) (omega arith) mapped in
      let keeps = unmapped-Keeps Allowed ps start page tree not_first w t' in
      let absent = leaf_absent Allowed ps start page tree not_first w t' in
      let (v', e, m) =
        map_page-Mapped fuel 0x500 3 v (omega arith)
          (has_tables Allowed ps start page tree not_first w v u.same.1 keeps absent)
          (omega arith) in
      (
        gone,
        record { vm = record v' { mem = first_block v'.mem }; mem_allocated = mem_allocated },
        rw (e, kheap_init),
        null_reached Allowed ps start page tree not_first w v u.same.1 keeps absent v' m,
      )
