-- ===== src/Vmm/Upper.antt =====
-- The way to a page survives what is written to its leaf entry and to the first page
-- (kernel/src/arch/memory/vmm.c).
use faceless_os.Base.{ℕ, ◌+◌, ◌*◌, ◌%◌, ◌^◌, ◌≤◌, ◌<◌, ◌≡◌, ◌≢◌, ◌⊎◌, arith, ap}
use faceless_os.Machine.Memory.{Mem, read_le_same}
use faceless_os.Vmm.{Vm, entry_at, get_entry, pml4_idx, pdpt_idx, pd_idx, pt_idx, find_pt}
use faceless_os.Vmm.Tree.{Places, Tree}
use faceless_os.Vmm.Links.{Link, Way, below_512}
use faceless_os.Vmm.Forget.{level3, level2, leaf_place}

pub find_pt-Links :
    (vm : Vm) (addr t3 t2 t1 : ℕ)
    → Link vm.mem vm.pml4 (pml4_idx addr) t3
    → Link vm.mem t3 (pdpt_idx addr) t2
    → Link vm.mem t2 (pd_idx addr) t1
    → find_pt vm addr ≡ t1
unfolding find_pt
find_pt-Links vm addr t3 t2 t1 a b c = rw (a.1, b.1, c.1)

module _ (Allowed : ℕ → ℕ → Type 0) (ps : Places) (vm : Vm) (tree : Tree Allowed ps vm)
    (not_first : ps.level 0 ≡ 0) (addr page : ℕ) (low : addr < 2 ^ 48)
    (w : Way vm.mem vm.pml4 addr page) where
  -- A memory that differs in the leaf entry and in the first page only.
  abbrev pub Agrees : Mem → Type 0
  Agrees m' =
      (a : ℕ)
      → 0x1000 ≤ a
      → (a < entry_at w.t1 (pt_idx addr)) ⊎ (entry_at w.t1 (pt_idx addr) + 8 ≤ a)
      → m' a ≡ vm.mem a

  pub leaf_above : (0x1000 ≤ w.t1) × (w.t1 % 0x1000 ≡ 0)
  leaf_above =
      let (l, _) = leaf_place Allowed ps vm tree addr w.t3 w.t2 w.t1 w.link4 w.link3 w.link2 low in
      let aligned = tree.paged w.t1 (omega (arith, l)) in
      let ne : w.t1 ≢ 0 = λ e. omega (arith, l, not_first, ap ps.level e) in
      (omega (arith, ne), aligned)

  module _ (m' : Mem) (agrees : Agrees m') where
    upper_kept : (t i : ℕ) → 1 < ps.level t → i < 512 → get_entry m' t i ≡ get_entry vm.mem t i
    unfolding get_entry
    upper_kept t i l lt =
        let (l', _) =
          leaf_place Allowed ps vm tree addr w.t3 w.t2 w.t1 w.link4 w.link3 w.link2 low in
        let aligned = tree.paged t (omega (arith, l)) in
        let aligned' = leaf_above.1 in
        let ne : t ≢ 0 = λ e. omega (arith, l, not_first, ap ps.level e) in
        let ne' : t ≢ w.t1 = λ e. omega (arith, l, l', ap ps.level e) in
        let (_, _, _, small) = below_512 addr in
        let cells : (t + 8 * i + 8 ≤ w.t1 + 8 * pt_idx addr)
            ⊎ (w.t1 + 8 * pt_idx addr + 8 ≤ t + 8 * i) =
          omega (arith, ne') in
        read_le_same m' vm.mem (t + 8 * i) 8 (λ a lo hi. agrees a (omega (arith, ne)) (omega arith))

    pub links_kept :
        Link m' vm.pml4 (pml4_idx addr) w.t3
        × Link m' w.t3 (pdpt_idx addr) w.t2
        × Link m' w.t2 (pd_idx addr) w.t1
    links_kept =
        let (i4, i3, i2, _) = below_512 addr in
        let (l4, _) = tree.top in
        let (l3, _) = level3 Allowed ps vm tree addr w.t3 w.link4 in
        let (l2, _) = level2 Allowed ps vm tree addr w.t3 w.t2 w.link4 w.link3 in
        (
          rw (upper_kept vm.pml4 (pml4_idx addr) (omega (arith, l4)) i4) w.link4,
          rw (upper_kept w.t3 (pdpt_idx addr) (omega (arith, l3)) i3) w.link3,
          rw (upper_kept w.t2 (pd_idx addr) (omega (arith, l2)) i2) w.link2,
        )
