-- ===== src/Vmm/Tree.antt =====
-- Page tables as a tree (kernel/src/arch/memory/vmm.c): every table has a level, 4 for the top one and
-- 1 for page tables, and the pages that it covers.
use faceless_os.Base.{
  ℕ, suc, ◌+◌, ◌*◌, ◌/◌, ◌%◌, ◌^◌, ◌<◌, ◌≡◌, refl, ◌≢◌, ◌⊎◌, inl, inr, true, arith, List, [], ◌∷◌,
  All, Option, false, ◌==◌, ==_iff, Bool-cases, ◌∙◌,
}
use faceless_os.Machine.Memory.{Mem}
use faceless_os.Pmm.Refine.{free_frames, IsAligned}
use faceless_os.Vmm.{
  Vm, get_entry, set_entry, is_present, next_table, pml4_idx, pdpt_idx, pd_idx, pt_idx, ◌>>=?◌,
}
use faceless_os.Vmm.Walk.{
  is_large, walk_level, walk_leaf, get_entry-set_entry_self, get_entry-set_entry_ne,
}

-- The page of 4 KB that the processor reaches from the table in CR3: `none` is a page fault or a
-- large page.
unfoldable pub walk : Mem → (pml4 addr : ℕ) → Option ℕ
walk m pml4 addr = walk_level m pml4 (pml4_idx addr) >>=? λ pdpt.
    walk_level m pdpt (pdpt_idx addr) >>=? λ pd.
    walk_level m pd (pd_idx addr) >>=? λ pt. walk_leaf m pt (pt_idx addr)

abbrev pub Distinct : List ℕ → Type 0
Distinct [] = Unit
Distinct (x ∷ xs) = All (λ y. y ≢ x) xs × Distinct xs

-- Where the tables are: `level` is 0 for what is no table, and a table of level `k` has the tables
-- or pages from number `512 * base` on.
pub record Places : Type 0 where
  pub level : ℕ → ℕ
  pub base : ℕ → ℕ

-- A frame that may become a table.
abbrev pub IsSpare : Places → ℕ → Type 0
IsSpare ps f = (ps.level f ≡ 0) × (f % 0x1000 ≡ 0) × (f < 2 ^ 48)

-- `Allowed` says which page may lead to which page.
pub record Tree (Allowed : ℕ → ℕ → Type 0) (ps : Places) (vm : Vm) : Type 0 where
  pub top : (ps.level vm.pml4 ≡ 4) × (ps.base vm.pml4 ≡ 0)
  pub paged : (t : ℕ) → ps.level t ≢ 0 → t % 0x1000 ≡ 0
  pub leads :
      (t idx : ℕ)
      → 1 < ps.level t
      → idx < 512
      → is_present (get_entry vm.mem t idx) ≡ true
      → (suc (ps.level (next_table (get_entry vm.mem t idx))) ≡ ps.level t)
        × (ps.base (next_table (get_entry vm.mem t idx)) ≡ ps.base t * 512 + idx)
  pub small :
      (t idx : ℕ)
      → 1 < ps.level t
      → idx < 512
      → is_present (get_entry vm.mem t idx) ≡ true
      → is_large (get_entry vm.mem t idx) ≡ false
  pub leaves :
      (t idx : ℕ)
      → ps.level t ≡ 1
      → idx < 512
      → is_present (get_entry vm.mem t idx) ≡ true
      → Allowed (ps.base t * 512 + idx) (next_table (get_entry vm.mem t idx) / 0x1000)
  pub whole : All IsAligned vm.gmmap
  pub spare : All (IsSpare ps) (free_frames vm.gmmap)
  pub distinct : Distinct (free_frames vm.gmmap)

-- The tables stay, and so does every entry that is present.
pub record Extends (ps : Places) (vm : Vm) (ps' : Places) (vm' : Vm) : Type 0 where
  pub pml4 : vm'.pml4 ≡ vm.pml4
  pub stays : (t : ℕ) → ps.level t ≢ 0 → (ps'.level t ≡ ps.level t) × (ps'.base t ≡ ps.base t)
  pub kept :
      (t idx : ℕ)
      → ps.level t ≢ 0
      → idx < 512
      → is_present (get_entry vm.mem t idx) ≡ true
      → get_entry vm'.mem t idx ≡ get_entry vm.mem t idx

pub record Grown (Allowed : ℕ → ℕ → Type 0) (ps : Places) (vm vm' : Vm) : Type 0 where
  pub places : Places
  pub tree : Tree Allowed places vm'
  pub extends : Extends ps vm places vm'

pub Extends-refl : (ps : Places) (vm : Vm) → Extends ps vm ps vm
Extends-refl ps vm = record {
  pml4 = refl;
  stays = λ t h. (refl, refl);
  kept = λ t idx h lt p. refl;
}

pub Extends-trans :
    (ps : Places) (vm : Vm) (ps1 : Places) (vm1 : Vm) (ps2 : Places) (vm2 : Vm)
    → Extends ps vm ps1 vm1
    → Extends ps1 vm1 ps2 vm2
    → Extends ps vm ps2 vm2
Extends-trans ps vm ps1 vm1 ps2 vm2 a b = record {
  pml4 = b.pml4 ∙ a.pml4;
  stays = λ t h. let (l, c) = a.stays t h in let (l', c') = b.stays t (rw l h) in (l' ∙ l, c' ∙ c);
  kept = λ t idx h lt p.
      let same = a.kept t idx h lt p in
      let (l, _) = a.stays t h in b.kept t idx (rw l h) lt (rw same p) ∙ same;
}

pub Grown-trans :
    (Allowed : ℕ → ℕ → Type 0) (ps : Places) (vm : Vm) (ps1 : Places) (vm1 vm2 : Vm)
    → Extends ps vm ps1 vm1
    → Grown Allowed ps1 vm1 vm2
    → Grown Allowed ps vm vm2
Grown-trans Allowed ps vm ps1 vm1 vm2 a g = record {
  places = g.places;
  tree = g.tree;
  extends = Extends-trans ps vm ps1 vm1 g.places vm2 a g.extends;
}

-- An entry after a write to an entry: the one that was written, or as before.
pub get_entry-set_entry_cases :
    (m : Mem) (table idx entry t i : ℕ)
    → table % 0x1000 ≡ 0
    → t % 0x1000 ≡ 0
    → idx < 512
    → i < 512
    → entry < 2 ^ 64
    → ((t ≡ table) × (i ≡ idx) × (get_entry (set_entry m table idx entry) t i ≡ entry))
      ⊎ (get_entry (set_entry m table idx entry) t i ≡ get_entry m t i)
get_entry-set_entry_cases m table idx entry t i p q lt lt' fits =
    elim (Bool-cases (table + 8 * idx == t + 8 * i)) [
      | inl e ↦
          let same : t ≡ table = omega (arith, (==_iff (table + 8 * idx) (t + 8 * i)).0 e) in
          let also : i ≡ idx = omega (arith, (==_iff (table + 8 * idx) (t + 8 * i)).0 e) in
          inl (same, also, rw (same, also) (get_entry-set_entry_self m table idx entry fits))
      | inr e ↦ inr (get_entry-set_entry_ne m table idx entry t i (ground arith))
    ]
