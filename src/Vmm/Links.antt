-- ===== src/Vmm/Links.antt =====
-- The walk of the processor through the tables of kernel/src/arch/memory/vmm.c, entry by entry, in a
-- tree that grows.
use faceless_os.Base.{
  ℕ, suc, ◌+◌, ◌*◌, ◌/◌, ◌^◌, ◌<◌, ◌≡◌, ◌≢◌, true, false, inl, inr, Bool-cases, arith, some,
}
use faceless_os.Machine.Memory.{Mem}
use faceless_os.Vmm.{Vm, get_entry, is_present, next_table, pml4_idx, pdpt_idx, pd_idx, pt_idx}
use faceless_os.Vmm.Walk.{indices, is_large, walk_level, walk_leaf}
use faceless_os.Vmm.Tree.{Places, Tree, Extends, Grown, walk}
use faceless_os.Vmm.Shrink.{bind-some, some-injective}

-- An entry that is present and leads to a table.
abbrev pub Link : Mem → (table idx target : ℕ) → Type 0
Link m table idx target =
    (is_present (get_entry m table idx) ≡ true)
    × (next_table (get_entry m table idx) ≡ target)
    × (is_large (get_entry m table idx) ≡ false)

-- An entry of a page table that is present and leads to a page.
abbrev pub Leaf : Mem → (table idx page : ℕ) → Type 0
Leaf m table idx page =
    (is_present (get_entry m table idx) ≡ true) × (next_table (get_entry m table idx) ≡ page)

walk_level-Link :
    (m : Mem) (table idx target : ℕ)
    → Link m table idx target
    → walk_level m table idx ≡ some target
unfolding walk_level
walk_level-Link m table idx target (p, n, s) = rw (p, n, s)

walk_leaf-Leaf :
    (m : Mem) (table idx page : ℕ) → Leaf m table idx page → walk_leaf m table idx ≡ some page
unfolding walk_leaf
walk_leaf-Leaf m table idx page (p, n) = rw (p, n)

pub walk-Links :
    (m : Mem) (pml4 addr t3 t2 t1 page : ℕ)
    → Link m pml4 (pml4_idx addr) t3
    → Link m t3 (pdpt_idx addr) t2
    → Link m t2 (pd_idx addr) t1
    → Leaf m t1 (pt_idx addr) page
    → walk m pml4 addr ≡ some page
unfolding walk
walk-Links m pml4 addr t3 t2 t1 page a b c d = rw (
  walk_level-Link m pml4 (pml4_idx addr) t3 a,
  walk_level-Link m t3 (pdpt_idx addr) t2 b,
  walk_level-Link m t2 (pd_idx addr) t1 c,
  walk_leaf-Leaf m t1 (pt_idx addr) page d,
)

pub Link-kept :
    (ps : Places) (vm : Vm) (ps' : Places) (vm' : Vm)
    → Extends ps vm ps' vm'
    → (table idx target : ℕ) → ps.level table ≢ 0
    → idx < 512
    → Link vm.mem table idx target
    → Link vm'.mem table idx target
Link-kept ps vm ps' vm' x table idx target h lt (p, n, s) =
    let same = x.kept table idx h lt p in (rw same p, rw same n, rw same s)

pub Leaf-kept :
    (ps : Places) (vm : Vm) (ps' : Places) (vm' : Vm)
    → Extends ps vm ps' vm'
    → (table idx page : ℕ) → ps.level table ≢ 0
    → idx < 512
    → Leaf vm.mem table idx page
    → Leaf vm'.mem table idx page
Leaf-kept ps vm ps' vm' x table idx page h lt (p, n) =
    let same = x.kept table idx h lt p in (rw same p, rw same n)

-- The four indices are below 512.
pub below_512 :
    (addr : ℕ)
    → (pml4_idx addr < 512) × (pdpt_idx addr < 512) × (pd_idx addr < 512) × (pt_idx addr < 512)
below_512 addr =
    let (a, b, c, d) = indices addr in
    (omega (arith, a), omega (arith, b), omega (arith, c), omega (arith, d))

-- The pages that the tables on the way cover, down to the page itself.
pub page_number :
    (addr b3 b2 b1 : ℕ)
    → addr < 2 ^ 48
    → b3 ≡ pml4_idx addr
    → b2 ≡ b3 * 512 + pdpt_idx addr
    → b1 ≡ b2 * 512 + pd_idx addr
    → b1 * 512 + pt_idx addr ≡ addr / 0x1000
page_number addr b3 b2 b1 low e3 e2 e1 = omega (arith, indices addr)

pub Link-walk_level :
    (m : Mem) (table idx target : ℕ)
    → walk_level m table idx ≡ some target
    → Link m table idx target
unfolding walk_level
Link-walk_level m table idx target e = elim (Bool-cases (is_present (get_entry m table idx))) [
  | inl p ↦ elim (Bool-cases (is_large (get_entry m table idx))) [
    | inl l ↦ absurd (cc (rw (p, l) at e))
    | inr s ↦ (p, some-injective (next_table (get_entry m table idx)) target (rw (p, s) at e), s)
  ]
  | inr a ↦ absurd (cc (rw a at e))
]

Leaf-walk_leaf :
    (m : Mem) (table idx page : ℕ) → walk_leaf m table idx ≡ some page → Leaf m table idx page
unfolding walk_leaf
Leaf-walk_leaf m table idx page e = elim (Bool-cases (is_present (get_entry m table idx))) [
  | inl p ↦ (p, some-injective (next_table (get_entry m table idx)) page (rw p at e))
  | inr a ↦ absurd (cc (rw a at e))
]

-- A walk that reaches a page goes through four entries.
pub record Way (m : Mem) (pml4 addr page : ℕ) : Type 0 where
  pub t3 : ℕ
  pub t2 : ℕ
  pub t1 : ℕ
  pub link4 : Link m pml4 (pml4_idx addr) t3
  pub link3 : Link m t3 (pdpt_idx addr) t2
  pub link2 : Link m t2 (pd_idx addr) t1
  pub link1 : Leaf m t1 (pt_idx addr) page

pub walk-Way : (m : Mem) (pml4 addr page : ℕ) → walk m pml4 addr ≡ some page → Way m pml4 addr page
unfolding walk
walk-Way m pml4 addr page e =
    let (t3, a, rest3) = bind-some _ _ page e in
    let (t2, b, rest2) = bind-some _ _ page rest3 in
    let (t1, c, d) = bind-some _ _ page rest2 in
    record {
      t3 = t3;
      t2 = t2;
      t1 = t1;
      link4 = Link-walk_level m pml4 (pml4_idx addr) t3 a;
      link3 = Link-walk_level m t3 (pdpt_idx addr) t2 b;
      link2 = Link-walk_level m t2 (pd_idx addr) t1 c;
      link1 = Leaf-walk_leaf m t1 (pt_idx addr) page d;
    }

module _ (Allowed : ℕ → ℕ → Type 0) where
  -- What an entry of a table above level 1 leads to.
  pub Link-leads :
      (ps : Places) (vm : Vm)
      → Tree Allowed ps vm
      → (table idx target : ℕ) → 1 < ps.level table
      → idx < 512
      → Link vm.mem table idx target
      → (suc (ps.level target) ≡ ps.level table) × (ps.base target ≡ ps.base table * 512 + idx)
  Link-leads ps vm tree table idx target l lt (p, n, _) =
      let r = tree.leads table idx l lt p in rw n at r

  -- Translations stay.
  pub walk-kept :
      (ps : Places) (vm : Vm) (after : Vm)
      → Tree Allowed ps vm
      → Grown Allowed ps vm after
      → (addr page : ℕ) → walk vm.mem vm.pml4 addr ≡ some page
      → walk after.mem after.pml4 addr ≡ some page
  walk-kept ps vm after tree g addr page e =
      let w = walk-Way vm.mem vm.pml4 addr page e in
      let (i4, i3, i2, i1) = below_512 addr in
      let (l4, _) = tree.top in
      let (l3, _) =
        Link-leads ps vm tree vm.pml4 (pml4_idx addr) w.t3 (omega (arith, l4)) i4 w.link4 in
      let (l2, _) =
        Link-leads ps vm tree w.t3 (pdpt_idx addr) w.t2 (omega (arith, l4, l3)) i3 w.link3 in
      let (l1, _) =
        Link-leads ps vm tree w.t2 (pd_idx addr) w.t1 (omega (arith, l4, l3, l2)) i2 w.link2 in
      let keep = Link-kept ps vm g.places after g.extends in
      rw g.extends.pml4 (
        walk-Links after.mem vm.pml4 addr w.t3 w.t2 w.t1 page
          (keep vm.pml4 (pml4_idx addr) w.t3 (omega (arith, l4)) i4 w.link4)
          (keep w.t3 (pdpt_idx addr) w.t2 (omega (arith, l4, l3)) i3 w.link3)
          (keep w.t2 (pd_idx addr) w.t1 (omega (arith, l4, l3, l2)) i2 w.link2)
          (Leaf-kept ps vm g.places after g.extends w.t1 (pt_idx addr) page
            (omega (arith, l4, l3, l2, l1)) i1 w.link1))
