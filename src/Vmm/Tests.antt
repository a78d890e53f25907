-- ===== src/Vmm/Tests.antt =====
-- Mapping and unmapping a page in small page tables (kernel/src/arch/memory/vmm.c).
use mathlib.Core.Path.{subst}
use faceless_os.Pmm.{Entry, is_usable, take_frame, pmm_alloc, pmm_allocz}
use faceless_os.Pmm.Zero.{pmm_allocz-cleared}
use faceless_os.Pmm.Refine.{IsAligned, frames, free_frames}
use faceless_os.Vmm.Supply.{Supplied, Returns}
use faceless_os.Vmm.Returns.{map_page-Returns}
use faceless_os.Machine.Io.{Device}
use faceless_os.Vmm.Tree.{Places, Tree, IsSpare, Distinct, walk}
use faceless_os.Vmm.Forget.{unmap_page-walk}
use faceless_os.Kheap.{Heap, mem_of, kheap_init}
use faceless_os.Kheap.NullPage.{kheap_init-null_page}
use faceless_os.Vmm.Init.{loaded, Initialized, vmm_init-Initialized}
use faceless_os.Vmm.Translate.{Translated, map_page-Translated}
use faceless_os.Vmm.Walk.{is_present-odd, is_large, walk_level, walk_leaf}
use faceless_os.Base.{
  List, All, none, fun_ext, ap, ◌∙◌, ℕ, suc, inl, inr, false, sym, ◌<◌, ◌≢◌, ◌⊎◌, [], ◌+◌, ◌*◌, ◌/◌,
  ◌^◌, true, ◌==◌, if◌then◌else◌, length, ◌∷◌, ◌≡◌, refl, [], some, arith,
}
use faceless_os.Machine.Memory.{read_le}
use faceless_os.Vmm.{
  Vm, get_entry, is_present, next_table, pml4_idx, pdpt_idx, pd_idx, map_page, unmap_page, pt_idx,
  vmm_init,
}
use faceless_os.Vmm.Map.{HasTables, Mapped, map_page-Mapped}
use faceless_os.Vmm.Unmap.{OnTheWay, Cleared, unmap_page-Cleared}
use faceless_os.Vmm.Sample.{tables, sample_vm}

sample_vm-HasTables : HasTables sample_vm 0x5000
unfolding get_entry read_le is_present next_table pml4_idx pdpt_idx pd_idx
sample_vm-HasTables = record { in_pml4 = refl; in_pdpt = refl; in_pd = refl }

map_page-Mapped_example :
    (vm' : Vm) × (map_page 1 0x5000 3 sample_vm ≡ some vm') × Mapped 0x5000 3 sample_vm vm'
map_page-Mapped_example =
    map_page-Mapped 0 0x5000 3 sample_vm (omega arith) sample_vm-HasTables (omega arith)

sample-OnTheWay : OnTheWay tables 0x1000 0 0x2000 0x3000 0x4000
unfolding read_le
sample-OnTheWay = record { in_pml4 = refl; in_pdpt = refl; in_pd = refl }

unmap_page-Cleared_example : Cleared 0 0x4000 sample_vm [] (unmap_page 0 sample_vm [])
unmap_page-Cleared_example =
    unmap_page-Cleared 0 sample_vm [] (omega arith) (omega arith) 0x2000 0x3000 0x4000
      sample-OnTheWay

-- The same tables with two frames left.
abbrev two_frames : Vm
two_frames = record sample_vm { gmmap = record { base = 0x10000; length = 0x2000; type = 1 } ∷ [] }

two_frames-left : length (free_frames two_frames.gmmap) ≡ 2
unfolding free_frames is_usable frames
two_frames-left = refl

page_0 : walk tables 0x1000 0 ≡ some 0
unfolding walk walk_level walk_leaf get_entry read_le is_present next_table pml4_idx pdpt_idx pd_idx
    pt_idx
page_0 = refl

two_frames-Supplied : Supplied 2 two_frames
unfolding is_usable
two_frames-Supplied = record {
  whole = ((λ u. omega arith), tt);
  left = omega (arith, two_frames-left);
  above = omega arith;
  paged = refl;
}

map_page-Returns_example : Returns 2 (map_page 6 0x400000 3 two_frames)
map_page-Returns_example =
    map_page-Returns 6 2 0x400000 3 two_frames (omega arith) (omega arith) two_frames-Supplied

abbrev sample_places : Places
sample_places = record {
  level = λ t.
      if t == 0x1000
      then 4
      else if t == 0x2000
      then 3
      else if t == 0x3000
      then 2
      else if t == 0x4000
      then 1
      else 0;
  base = λ t. 0;
}

-- Only the first entries are present.
first_only :
    (t idx : ℕ)
    → sample_places.level t ≢ 0
    → idx < 512
    → is_present (get_entry tables t idx) ≡ true
    → idx ≡ 0
unfolding get_entry read_le
first_only t idx h lt p = ground (arith, is_present-odd (get_entry tables t idx))

-- The first entries of the four tables.
chain_is :
    (next_table (get_entry tables 0x1000 0) ≡ 0x2000)
    × (next_table (get_entry tables 0x2000 0) ≡ 0x3000)
    × (next_table (get_entry tables 0x3000 0) ≡ 0x4000)
    × (next_table (get_entry tables 0x4000 0) ≡ 0)
unfolding get_entry read_le next_table
chain_is = (refl, refl, refl, refl)

upper_tables : (t : ℕ) → 1 < sample_places.level t → (t ≡ 0x1000) ⊎ ((t ≡ 0x2000) ⊎ (t ≡ 0x3000))
upper_tables t l = ground arith

leaf_table : (t : ℕ) → sample_places.level t ≡ 1 → t ≡ 0x4000
leaf_table t l = ground arith

abbrev Leads : ℕ → ℕ → Type 0
Leads t idx =
    (suc (sample_places.level (next_table (get_entry tables t idx))) ≡ sample_places.level t)
    × (sample_places.base (next_table (get_entry tables t idx)) ≡ sample_places.base t * 512 + idx)

first-Leads : (t : ℕ) → (t ≡ 0x1000) ⊎ ((t ≡ 0x2000) ⊎ (t ≡ 0x3000)) → Leads t 0
first-Leads t (inl e) = rw (e, chain_is.0) (refl, refl)
first-Leads t (inr (inl e)) = rw (e, chain_is.1) (refl, refl)
first-Leads t (inr (inr e)) = rw (e, chain_is.2) (refl, refl)

first_small :
    (t : ℕ) → (t ≡ 0x1000) ⊎ ((t ≡ 0x2000) ⊎ (t ≡ 0x3000)) → is_large (get_entry tables t 0) ≡ false
unfolding get_entry read_le
first_small t (inl e) = rw e refl
first_small t (inr (inl e)) = rw e refl
first_small t (inr (inr e)) = rw e refl

-- The tables are a tree, whatever frames are left.
tables-Tree :
    (mmap : List Entry)
    → All IsAligned mmap
    → All (IsSpare sample_places) (free_frames mmap)
    → Distinct (free_frames mmap)
    → Tree ◌≡◌ sample_places (record { mem = tables; gmmap = mmap; pml4 = 0x1000 })
tables-Tree mmap whole spare distinct = record {
  top = (refl, refl);
  paged = λ t h. ground arith;
  leads = λ t idx l lt p.
      let first = first_only t idx (omega arith) lt p in
      subst (Leads t) (sym first) (first-Leads t (upper_tables t l));
  small = λ t idx l lt p.
      let first = first_only t idx (omega arith) lt p in
      subst (λ i. is_large (get_entry tables t i) ≡ false) (sym first)
        (first_small t (upper_tables t l));
  leaves = λ t idx l lt p.
      let first = first_only t idx (omega arith) lt p in
      rw (leaf_table t l, first, chain_is.3) refl;
  whole = whole;
  spare = spare;
  distinct = distinct;
}

spare_frames : free_frames two_frames.gmmap ≡ 0x10000 ∷ 0x11000 ∷ []
unfolding free_frames is_usable frames
spare_frames = refl

two_frames-Tree : Tree ◌≡◌ sample_places two_frames
two_frames-Tree =
    tables-Tree two_frames.gmmap two_frames-Supplied.whole
      (rw spare_frames ((refl, refl, omega arith), ((refl, refl, omega arith), tt)))
      (rw spare_frames (((omega arith), tt), (tt, tt)))

map_page-Translated_example :
    (after : Vm) × (map_page 6 0x400000 3 two_frames ≡ some after)
    × ((free_frames after.gmmap ≡ []) ⊎ Translated ◌≡◌ two_frames 0x400000 after)
map_page-Translated_example =
    map_page-Translated ◌≡◌ (λ page. refl) 6 0x400000 3 sample_places two_frames
      (omega (arith, two_frames-left)) (omega arith) (omega arith) (omega arith) two_frames-Tree

unmap_page-walk_example :
    let r = (unmap_page 0 sample_vm []).0 in
    (r.0 ≡ 1)
    × (walk r.1.mem r.1.pml4 0 ≡ none)
    × ((a : ℕ)
        → a < 2 ^ 48
        → a / 0x1000 ≢ 0 / 0x1000
        → walk r.1.mem r.1.pml4 a ≡ walk tables 0x1000 a)
unmap_page-walk_example =
    unmap_page-walk ◌≡◌ sample_places sample_vm
      (tables-Tree [] tt (unfold free_frames in tt) (unfold free_frames in tt)) 0 0 [] (omega arith)
      (omega arith) page_0

-- CR3 has the address of the tables.
abbrev with_cr3 : Device
with_cr3 t = 0x1000

abbrev one_left : List Entry
one_left = record { base = 0x11000; length = 0x1000; type = 1 } ∷ []

first_frame :
    ((pmm_alloc two_frames.gmmap).0 ≡ 0x10000) × ((pmm_alloc two_frames.gmmap).1 ≡ one_left)
unfolding pmm_alloc is_usable take_frame
first_frame = (refl, refl)

-- The frame that is allocated was clear.
loaded-tables :
    loaded with_cr3 two_frames [] ≡ record { mem = tables; gmmap = one_left; pml4 = 0x1000 }
loaded-tables =
    let r = pmm_allocz two_frames.gmmap tables in
    let (frame, rest) = first_frame in
    let mem : r.mem ≡ tables = fun_ext (λ a.
      let (alloc, _, cleared) = pmm_allocz-cleared two_frames.gmmap tables a in
      cleared ∙ rw (alloc, frame) (ground arith)) in
    let map : r.gmmap ≡ one_left = (pmm_allocz-cleared two_frames.gmmap tables 0).1 ∙ rest in
    ap (λ m. record { mem = m; gmmap = r.gmmap; pml4 = 0x1000 }) mem
    ∙ ap (λ g. record { mem = tables; gmmap = g; pml4 = 0x1000 }) map

one_left-frames : free_frames one_left ≡ 0x11000 ∷ []
unfolding free_frames is_usable frames
one_left-frames = refl

one_left-Tree : Tree ◌≡◌ sample_places (record { mem = tables; gmmap = one_left; pml4 = 0x1000 })
one_left-Tree =
    tables-Tree one_left ((unfold is_usable in λ u. omega arith), tt)
      (rw one_left-frames ((refl, refl, omega arith), tt)) (rw one_left-frames (tt, tt))

vmm_init-Initialized_example : Initialized with_cr3 two_frames [] (vmm_init with_cr3 two_frames [])
vmm_init-Initialized_example =
    vmm_init-Initialized ◌≡◌ sample_places with_cr3 two_frames [] 0
      (subst (Tree ◌≡◌ sample_places) (sym loaded-tables) one_left-Tree)
      (subst (λ v. walk v.mem v.pml4 0 ≡ some 0) (sym loaded-tables) page_0)

kheap_init-null_page_example :
    let v = (vmm_init with_cr3 two_frames []).0 in
    (walk v.mem v.pml4 0 ≡ none)
    × (h : Heap) × (kheap_init (map_page 1) (record { vm = v; mem_allocated = 0 }) ≡ some h)
    × (walk (mem_of h) (let v' = h.vm in v'.pml4) 0 ≡ some 0)
kheap_init-null_page_example =
    kheap_init-null_page ◌≡◌ sample_places with_cr3 two_frames [] 0 0 0
      (subst (Tree ◌≡◌ sample_places) (sym loaded-tables) one_left-Tree) refl
      (subst (λ v. walk v.mem v.pml4 0 ≡ some 0) (sym loaded-tables) page_0)
