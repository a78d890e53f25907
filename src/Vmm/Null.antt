-- ===== src/Vmm/Null.antt =====
-- `map_page` (kernel/src/arch/memory/vmm.c) when no frame is left: the allocator returns NULL, and
-- every new table is the page at address 0, which is cleared and mapped.
use faceless_os.Base.{
  ℕ, suc, ◌%◌, ◌≤◌, ◌<◌, ◌≡◌, refl, ◌≢◌, ◌⊎◌, inl, inr, true, false, arith, Option, some, ltb,
  Bool-cases, ap, ◌∙◌, sym,
}
use faceless_os.Pmm.{pmm_allocz}
use faceless_os.Vmm.{
  Vm, get_entry, set_entry, is_present, next_table, make_entry, new_table, ensure_table, map_page,
  pml4_idx, pdpt_idx, pd_idx, pt_idx, set_leaf, find_pt,
}
use faceless_os.Vmm.Wipe.{wiped, get_entry-wiped_ne, get_entry-wiped_self}
use faceless_os.Vmm.Walk.{
  next_table-page_of, is_present-odd, make_entry-sum, get_entry-set_entry_self,
  get_entry-set_entry_ne,
}
use faceless_os.Vmm.Map.{
  HasTables, with_present, with_present_odd, ensure_table-present, map_page-set_leaf,
}
use faceless_os.Vmm.Supply.{Supplied, allocated, alloc-none}

-- The first entry of a table.
abbrev pub first_entry : Vm → ℕ → ℕ
first_entry vm table = get_entry vm.mem table 0

-- The state after the page at 0 has become the table of the first entry of `table`.
abbrev pub null_table : Vm → (table flags : ℕ) → Vm
null_table vm table flags = allocated vm (set_entry (wiped 0 vm.mem) table 0 (make_entry 0 flags))

make_entry-null : (flags : ℕ) → flags < 0x1000 → make_entry 0 flags ≡ flags
make_entry-null flags h = omega (arith, make_entry-sum 0 flags h)

module _ (vm : Vm) (table flags : ℕ) (small : flags < 0x1000) where
  null_table_self : get_entry ((null_table vm table flags).mem) table 0 ≡ flags
  null_table_self =
      rw (make_entry-null flags small)
        (get_entry-set_entry_self (wiped 0 vm.mem) table 0 flags (omega arith))

  null_table_other :
      (other : ℕ)
      → table % 0x1000 ≡ 0
      → other % 0x1000 ≡ 0
      → other ≢ table
      → get_entry ((null_table vm table flags).mem) other 0 ≡ get_entry (wiped 0 vm.mem) other 0
  null_table_other other p q ne =
      get_entry-set_entry_ne (wiped 0 vm.mem) table 0 (make_entry 0 flags) other 0 (ground arith)

new_table-null :
    (map : ℕ → Vm → Option Vm) (table flags : ℕ) (vm : Vm)
    → Supplied 0 vm
    → new_table map table 0 flags vm ≡ map 0 (null_table vm table flags)
unfolding new_table pmm_allocz wiped
new_table-null map table flags vm s = let (null, _) = alloc-none vm vm.mem s in rw null

-- The first entries that lead from the top table to a page table.
pub record Route (vm : Vm) (t1 t2 t3 : ℕ) : Type 0 where
  pub is_there :
      (is_present (get_entry vm.mem vm.pml4 0) ≡ true)
      × (is_present (get_entry vm.mem t1 0) ≡ true)
      × (is_present (get_entry vm.mem t2 0) ≡ true)
  pub leads :
      (next_table (get_entry vm.mem vm.pml4 0) ≡ t1)
      × (next_table (get_entry vm.mem t1 0) ≡ t2)
      × (next_table (get_entry vm.mem t2 0) ≡ t3)

pub Route-HasTables : (vm : Vm) (t1 t2 t3 : ℕ) → Route vm t1 t2 t3 → HasTables vm 0
unfolding pml4_idx pdpt_idx pd_idx
Route-HasTables vm t1 t2 t3 h =
    let (n1, n2, n3) = h.leads in
    let (p1, p2, p3) = h.is_there in
    record { in_pml4 = p1; in_pdpt = rw n1 p2; in_pd = rw (n1, n2) p3 }

find_pt-Route : (vm : Vm) (t1 t2 t3 : ℕ) → Route vm t1 t2 t3 → find_pt vm 0 ≡ t3
unfolding find_pt pml4_idx pdpt_idx pd_idx
find_pt-Route vm t1 t2 t3 h = let (n1, n2, n3) = h.leads in rw (n1, n2, n3)

-- Where the way and the leaf are there, nothing is left to do.
pub map_page-Route :
    (fuel flags : ℕ) (vm : Vm) (t1 t2 t3 : ℕ)
    → Route vm t1 t2 t3
    → is_present (get_entry vm.mem t3 0) ≡ true
    → map_page (suc fuel) 0 flags vm ≡ some vm
map_page-Route fuel flags vm t1 t2 t3 h leaf =
    rw
      (
        map_page-set_leaf fuel 0 flags vm (omega arith) (Route-HasTables vm t1 t2 t3 h),
        find_pt-Route vm t1 t2 t3 h,
      )
      (unfold set_leaf pt_idx in rw leaf)

-- Flags with the present bit make an entry that leads to the page at 0.
flags_entry :
    (flags : ℕ)
    → flags < 0x1000
    → flags % 2 ≡ 1
    → (is_present flags ≡ true) × (next_table flags ≡ 0)
flags_entry flags h odd =
    (is_present-odd flags ∙ ground arith, next_table-page_of flags ∙ omega arith)

pub next_table-paged : (entry : ℕ) → next_table entry % 0x1000 ≡ 0
next_table-paged entry = omega (arith, next_table-page_of entry)

-- Pages at whole multiples of 4096: the first one, or at least 4096.
pub page-cases : (t : ℕ) → t % 0x1000 ≡ 0 → (t ≡ 0) ⊎ (0x1000 ≤ t)
page-cases t p = elim (Bool-cases (ltb t 0x1000)) [
  | inl e ↦ inl (ground arith)
  | inr e ↦ inr (ground arith)
]

module _ (flags : ℕ) (vm : Vm) (small : flags < 0x1000) where
  small_present : (with_present flags < 0x1000) × (with_present flags % 2 ≡ 1)
  small_present = omega (arith, with_present_odd flags small)

  -- The entry that is made leads to the page at 0.
  pub made :
      (table : ℕ)
      → (is_present (first_entry (null_table vm table (with_present flags)) table) ≡ true)
        × (next_table (first_entry (null_table vm table (with_present flags)) table) ≡ 0)
  made table =
      rw (null_table_self vm table (with_present flags) small_present.0)
        (flags_entry (with_present flags) small_present.0 small_present.1)

  pub kept :
      (table t : ℕ)
      → table % 0x1000 ≡ 0
      → t % 0x1000 ≡ 0
      → 0x1000 ≤ t
      → t ≢ table
      → first_entry (null_table vm table (with_present flags)) t ≡ first_entry vm t
  kept table t p q above ne =
      null_table_other vm table (with_present flags) small_present.0 t p q ne
      ∙ get_entry-wiped_ne 0 vm.mem 0 (omega arith) t (omega arith)

  pub emptied :
      (table : ℕ)
      → table % 0x1000 ≡ 0
      → table ≢ 0
      → is_present (first_entry (null_table vm table (with_present flags)) 0) ≡ false
  emptied table p ne =
      rw
        (
          null_table_other vm table (with_present flags) small_present.0 0 p refl (λ e. ne (sym e)),
          get_entry-wiped_self 0 vm.mem 0 (omega arith),
        )
        (is_present-odd 0)

-- Tables whose first entries differ in their present bit are different tables.
pub apart :
    (vm : Vm) (t u : ℕ)
    → is_present (first_entry vm t) ≡ true
    → is_present (first_entry vm u) ≡ false
    → t ≢ u
apart vm t u p q e = cc (ap (λ x. is_present (first_entry vm x)) e)

module _ (fuel flags : ℕ) (vm : Vm) (s : Supplied 0 vm) where
  -- One round of the recursion, by the level at which a table is missing.
  pub first_missing :
      (vm1 : Vm)
      → is_present (first_entry vm vm.pml4) ≡ false
      → map_page fuel 0 (with_present flags) (null_table vm vm.pml4 (with_present flags)) ≡ some vm1
      → HasTables vm1 0
      → map_page (suc fuel) 0 flags vm
        ≡ some (set_leaf (find_pt vm1 0) (pt_idx 0) 0 (with_present flags) vm1)
  unfolding map_page ensure_table pml4_idx find_pt
  first_missing vm1 a r h = rw (
    a,
    new_table-null (λ t. map_page fuel t (with_present flags)) vm.pml4 (with_present flags) vm s,
    r,
    ensure_table-present _ _ (pdpt_idx 0) _ vm1 h.in_pdpt,
    ensure_table-present _ _ (pd_idx 0) _ vm1 h.in_pd,
  )

  pub second_missing :
      (t1 : ℕ) (vm2 : Vm)
      → is_present (first_entry vm vm.pml4) ≡ true
      → next_table (first_entry vm vm.pml4) ≡ t1
      → is_present (first_entry vm t1) ≡ false
      → map_page fuel 0 (with_present flags) (null_table vm t1 (with_present flags)) ≡ some vm2
      → (t2 : ℕ) → next_table (get_entry vm2.mem t1 0) ≡ t2
      → is_present (get_entry vm2.mem t2 0) ≡ true
      → map_page (suc fuel) 0 flags vm
        ≡ some (set_leaf (next_table (get_entry vm2.mem t2 0)) 0 0 (with_present flags) vm2)
  unfolding map_page ensure_table pml4_idx pdpt_idx pd_idx pt_idx
  second_missing t1 vm2 p n a r t2 n2 p2 = rw (
    p,
    n,
    a,
    new_table-null (λ t. map_page fuel t (with_present flags)) t1 (with_present flags) vm s,
    r,
    n2,
    p2,
  )

  pub third_missing :
      (t1 t2 : ℕ) (vm3 : Vm)
      → is_present (first_entry vm vm.pml4) ≡ true
      → next_table (first_entry vm vm.pml4) ≡ t1
      → is_present (first_entry vm t1) ≡ true
      → next_table (first_entry vm t1) ≡ t2
      → is_present (first_entry vm t2) ≡ false
      → map_page fuel 0 (with_present flags) (null_table vm t2 (with_present flags)) ≡ some vm3
      → map_page (suc fuel) 0 flags vm
        ≡ some (set_leaf (next_table (get_entry vm3.mem t2 0)) 0 0 (with_present flags) vm3)
  unfolding map_page ensure_table pml4_idx pdpt_idx pd_idx pt_idx
  third_missing t1 t2 vm3 p n p1 n1 a r = rw (
    p,
    n,
    p1,
    n1,
    a,
    new_table-null (λ t. map_page fuel t (with_present flags)) t2 (with_present flags) vm s,
    r,
  )
