-- ===== src/Vmm/Forget.antt =====
-- What `unmap_page` (kernel/src/arch/memory/vmm.c) does to the translations of the processor.
use faceless_os.Base.{
  ℕ, ◌+◌, ◌*◌, ◌/◌, ◌%◌, ◌^◌, ◌≤◌, ◌<◌, ◌≡◌, refl, ◌≢◌, ◌⊎◌, inl, inr, false, arith, Option, none,
  some, ap, Bool-cases, ==_iff, ◌==◌,
}
use faceless_os.Machine.Memory.{Mem, read_le_same}
use faceless_os.Machine.Io.{Trace}
use faceless_os.Vmm.{
  Vm, entry_at, get_entry, is_present, pml4_idx, pdpt_idx, pd_idx, pt_idx, find_pt, unmap_page,
  ◌>>=?◌,
}
use faceless_os.Vmm.Walk.{walk_level, walk_leaf}
use faceless_os.Vmm.Tree.{Places, Tree, walk}
use faceless_os.Vmm.Links.{Link, Way, walk-Way, Link-walk_level, Link-leads, below_512, page_number}
use faceless_os.Vmm.Unmap.{unmap_page-Unmapped}

walk_level-same :
    (m m' : Mem) (t i : ℕ)
    → get_entry m' t i ≡ get_entry m t i
    → walk_level m' t i ≡ walk_level m t i
unfolding walk_level
walk_level-same m m' t i e = rw e

walk_leaf-same :
    (m m' : Mem) (t i : ℕ) → get_entry m' t i ≡ get_entry m t i → walk_leaf m' t i ≡ walk_leaf m t i
unfolding walk_leaf
walk_leaf-same m m' t i e = rw e

-- Two walks agree if they agree at every table that the first one goes through.
module _ (m m' : Mem) (pml4 a : ℕ) where
  bind-same :
      (r r' : Option ℕ) (k k' : ℕ → Option ℕ)
      → r' ≡ r
      → ((t : ℕ) → r ≡ some t → k' t ≡ k t)
      → (r' >>=? k') ≡ (r >>=? k)
  bind-same none r' k k' e h = rw e
  bind-same (some t) r' k k' e h = rw e (h t refl)

  walk-same :
      get_entry m' pml4 (pml4_idx a) ≡ get_entry m pml4 (pml4_idx a)
      → ((t3 : ℕ)
          → Link m pml4 (pml4_idx a) t3
          → get_entry m' t3 (pdpt_idx a) ≡ get_entry m t3 (pdpt_idx a))
      → ((t3 t2 : ℕ)
          → Link m pml4 (pml4_idx a) t3
          → Link m t3 (pdpt_idx a) t2
          → get_entry m' t2 (pd_idx a) ≡ get_entry m t2 (pd_idx a))
      → ((t3 t2 t1 : ℕ)
          → Link m pml4 (pml4_idx a) t3
          → Link m t3 (pdpt_idx a) t2
          → Link m t2 (pd_idx a) t1
          → get_entry m' t1 (pt_idx a) ≡ get_entry m t1 (pt_idx a))
      → walk m' pml4 a ≡ walk m pml4 a
  unfolding walk
  walk-same e4 e3 e2 e1 = bind-same _ _ _ _ (walk_level-same m m' pml4 _ e4) (λ t3 p3.
      let l4 = Link-walk_level m pml4 (pml4_idx a) t3 p3 in
      bind-same _ _ _ _ (walk_level-same m m' t3 _ (e3 t3 l4)) (λ t2 p2.
        let l3 = Link-walk_level m t3 (pdpt_idx a) t2 p2 in
        bind-same _ _ _ _ (walk_level-same m m' t2 _ (e2 t3 t2 l4 l3)) (λ t1 p1.
          walk_leaf-same m m' t1 _ (e1 t3 t2 t1 l4 l3 (Link-walk_level m t2 (pd_idx a) t1 p1)))))

module _ (Allowed : ℕ → ℕ → Type 0) (ps : Places) (vm : Vm) (tree : Tree Allowed ps vm) where
  -- The places of the tables on the way to an address.
  pub level3 :
      (a t3 : ℕ)
      → Link vm.mem vm.pml4 (pml4_idx a) t3
      → (ps.level t3 ≡ 3) × (ps.base t3 ≡ pml4_idx a)
  level3 a t3 l4 =
      let (l, b) = tree.top in
      let up =
        Link-leads Allowed ps vm tree vm.pml4 (pml4_idx a) t3 (omega (arith, l)) (below_512 a).0
          l4 in
      (omega (arith, up, l), omega (arith, up, b))

  pub level2 :
      (a t3 t2 : ℕ)
      → Link vm.mem vm.pml4 (pml4_idx a) t3
      → Link vm.mem t3 (pdpt_idx a) t2
      → (ps.level t2 ≡ 2) × (ps.base t2 ≡ pml4_idx a * 512 + pdpt_idx a)
  level2 a t3 t2 l4 l3 =
      let (l, b) = level3 a t3 l4 in
      let up =
        Link-leads Allowed ps vm tree t3 (pdpt_idx a) t2 (omega (arith, l)) (below_512 a).1 l3 in
      (omega (arith, up, l), omega (arith, up, b))

  pub leaf_place :
      (a t3 t2 t1 : ℕ)
      → Link vm.mem vm.pml4 (pml4_idx a) t3
      → Link vm.mem t3 (pdpt_idx a) t2
      → Link vm.mem t2 (pd_idx a) t1
      → a < 2 ^ 48
      → (ps.level t1 ≡ 1) × (ps.base t1 * 512 + pt_idx a ≡ a / 0x1000)
  leaf_place a t3 t2 t1 l4 l3 l2 low =
      let (l, b) = level2 a t3 t2 l4 l3 in
      let up =
        Link-leads Allowed ps vm tree t2 (pd_idx a) t1 (omega (arith, l)) (below_512 a).2 l2 in
      (omega (arith, up, l), page_number a _ _ (ps.base t1) low refl refl (omega (arith, up, b)))

  pub find_pt-Way : (addr page : ℕ) (w : Way vm.mem vm.pml4 addr page) → find_pt vm addr ≡ w.t1
  unfolding find_pt
  find_pt-Way addr page w = rw (w.link4.1, w.link3.1, w.link2.1)

  -- One leaf entry has been taken away, that of a page at `addr`, and no other byte has changed.
  module _ (addr page : ℕ) (low : addr < 2 ^ 48) (w : Way vm.mem vm.pml4 addr page) (m' : Mem)
      (gone : is_present (get_entry m' w.t1 (pt_idx addr)) ≡ false)
      (others : (a : ℕ)
        → (a < entry_at w.t1 (pt_idx addr)) ⊎ (entry_at w.t1 (pt_idx addr) + 8 ≤ a)
        → m' a ≡ vm.mem a) where
    own_place : (ps.level w.t1 ≡ 1) × (ps.base w.t1 * 512 + pt_idx addr ≡ addr / 0x1000)
    own_place = leaf_place addr w.t3 w.t2 w.t1 w.link4 w.link3 w.link2 low

    unchanged :
        (t i : ℕ)
        → ps.level t ≢ 0
        → i < 512
        → (t ≢ w.t1) ⊎ (i ≢ pt_idx addr)
        → get_entry m' t i ≡ get_entry vm.mem t i
    unfolding get_entry
    unchanged t i h lt apart =
        let aligned = tree.paged t h in
        let aligned' = tree.paged w.t1 (omega (arith, own_place)) in
        let small = (below_512 addr).3 in
        let cells : (t + 8 * i + 8 ≤ w.t1 + 8 * pt_idx addr)
            ⊎ (w.t1 + 8 * pt_idx addr + 8 ≤ t + 8 * i) =
          ground arith in
        read_le_same m' vm.mem (t + 8 * i) 8 (λ a lo hi. others a (omega arith))

    upper : (t i : ℕ) → 1 < ps.level t → i < 512 → get_entry m' t i ≡ get_entry vm.mem t i
    upper t i l lt =
        unchanged t i (omega (arith, l)) lt (inl (λ e. omega (arith, l, own_place, ap ps.level e)))

    leaf_apart :
        (a t : ℕ)
        → a / 0x1000 ≢ addr / 0x1000
        → ps.base t * 512 + pt_idx a ≡ a / 0x1000
        → (t ≢ w.t1) ⊎ (pt_idx a ≢ pt_idx addr)
    leaf_apart a t ne number = elim (Bool-cases (t == w.t1)) [
      | inr differ ↦ inl (λ e. cc (differ, (==_iff t w.t1).1 e))
      | inl same ↦
          inr (λ e. ne (omega (arith, number, own_place, ap ps.base ((==_iff t w.t1).0 same), e)))
    ]

    other_walks :
        (a : ℕ)
        → a < 2 ^ 48
        → a / 0x1000 ≢ addr / 0x1000
        → walk m' vm.pml4 a ≡ walk vm.mem vm.pml4 a
    other_walks a low' ne =
        let (i4, i3, i2, i1) = below_512 a in
        walk-same vm.mem m' vm.pml4 a (upper vm.pml4 (pml4_idx a) (omega (arith, tree.top)) i4)
          (λ t3 l4. upper t3 (pdpt_idx a) (omega (arith, level3 a t3 l4)) i3)
          (λ t3 t2 l4 l3. upper t2 (pd_idx a) (omega (arith, level2 a t3 t2 l4 l3)) i2)
          (λ t3 t2 t1 l4 l3 l2.
            let (l, number) = leaf_place a t3 t2 t1 l4 l3 l2 low' in
            unchanged t1 (pt_idx a) (omega (arith, l)) i1 (leaf_apart a t1 ne number))

    no_walk : walk m' vm.pml4 addr ≡ none
    unfolding walk walk_level walk_leaf
    no_walk =
        let (i4, i3, i2, i1) = below_512 addr in
        let (p4, n4, s4) = w.link4 in
        let (p3, n3, s3) = w.link3 in
        let (p2, n2, s2) = w.link2 in
        rw (
          upper vm.pml4 (pml4_idx addr) (omega (arith, tree.top)) i4,
          p4,
          n4,
          s4,
          upper w.t3 (pdpt_idx addr) (omega (arith, level3 addr w.t3 w.link4)) i3,
          p3,
          n3,
          s3,
          upper w.t2 (pd_idx addr) (omega (arith, level2 addr w.t3 w.t2 w.link4 w.link3)) i2,
          p2,
          n2,
          s2,
          gone,
        )

  -- Where the page tables are a tree without large pages and a page below 2 ^ 48 is mapped, the
  -- processor does not reach it after `unmap_page`, and reaches every other page below 2 ^ 48 as
  -- before.
  pub unmap_page-walk :
      (addr page : ℕ) (t : Trace)
      → addr < 2 ^ 48
      → addr % 0x1000 ≡ 0
      → walk vm.mem vm.pml4 addr ≡ some page
      → let r = (unmap_page addr vm t).0 in
        (r.0 ≡ 1)
        × (walk r.1.mem r.1.pml4 addr ≡ none)
        × ((a : ℕ)
            → a < 2 ^ 48
            → a / 0x1000 ≢ addr / 0x1000
            → walk r.1.mem r.1.pml4 a ≡ walk vm.mem vm.pml4 a)
  unmap_page-walk addr page t low aligned mapped =
      let u = unmap_page-Unmapped addr vm t (omega arith) aligned in
      let w = walk-Way vm.mem vm.pml4 addr page mapped in
      let pt = find_pt-Way addr page w in
      let gone = rw pt at u.absent in
      let others = rw pt at u.others in
      let same = u.same.1 in
      (
        u.answer,
        rw same (no_walk addr page low w _ gone others),
        λ a low' ne. rw same (other_walks addr page low w _ gone others a low' ne),
      )
