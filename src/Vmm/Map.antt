-- ===== src/Vmm/Map.antt =====
-- `map_page` (kernel/src/arch/memory/vmm.c) where the three upper tables are there.
use faceless_os.Base.{
  ℕ, suc, ◌+◌, ◌*◌, ◌/◌, ◌^◌, ◌≤◌, ◌<◌, ◌≡◌, refl, ◌⊎◌, inl, inr, true, arith, Option, some,
  if◌then◌else◌, bit_or, Bool-cases, ap, ◌∙◌,
}
use faceless_os.Machine.Bits.{bit_or_digit, bit_or-zero}
use faceless_os.Machine.Io.{u32, u64}
use faceless_os.Machine.Memory.{write_le_outside}
use faceless_os.Vmm.{
  Vm, entry_at, get_entry, set_entry, is_present, next_table, make_entry, pml4_idx, pdpt_idx,
  pd_idx, pt_idx, find_pt, ensure_table, set_leaf, map_page,
}
use faceless_os.Vmm.Walk.{page_of, make_entry-sum, make_entry-fields, get_entry-set_entry_self}

-- The entries above the leaf are present.
pub record HasTables (vm : Vm) (addr : ℕ) : Type 0 where
  pub in_pml4 : is_present (get_entry vm.mem vm.pml4 (pml4_idx addr)) ≡ true
  pub in_pdpt :
      is_present
        (get_entry vm.mem (next_table (get_entry vm.mem vm.pml4 (pml4_idx addr))) (pdpt_idx addr))
      ≡ true
  pub in_pd :
      is_present (
        get_entry vm.mem
          (next_table (
            get_entry vm.mem
              (next_table (get_entry vm.mem vm.pml4 (pml4_idx addr)))
              (pdpt_idx addr)))
          (pd_idx addr))
      ≡ true

module _ (map : ℕ → Vm → Option Vm) (table idx flags : ℕ) (vm : Vm) where
  pub ensure_table-present :
      is_present (get_entry vm.mem table idx) ≡ true → ensure_table map table idx flags vm ≡ some vm
  unfolding ensure_table
  ensure_table-present p = rw p

abbrev pub with_present : ℕ → ℕ
with_present flags = u32 (bit_or flags 1)

pub with_present_odd : (flags : ℕ) → flags < 0x1000 → with_present flags ≡ flags / 2 * 2 + 1
with_present_odd flags h = omega (arith, bit_or_digit flags 1, bit_or-zero (flags / 2))

-- The leaf after the call: the old entry if it was present, and otherwise one for the page's own
-- address with the flags and the present bit. Nothing is allocated, and no other byte changes.
pub record Mapped (addr flags : ℕ) (vm vm' : Vm) : Type 0 where
  pub leaf : get_entry vm'.mem (find_pt vm addr) (pt_idx addr) ≡ (
      if is_present (get_entry vm.mem (find_pt vm addr) (pt_idx addr))
      then get_entry vm.mem (find_pt vm addr) (pt_idx addr)
      else page_of addr + (flags / 2 * 2 + 1))
  pub present : is_present (get_entry vm'.mem (find_pt vm addr) (pt_idx addr)) ≡ true
  pub others :
      (a : ℕ)
      → (a < entry_at (find_pt vm addr) (pt_idx addr))
        ⊎ (entry_at (find_pt vm addr) (pt_idx addr) + 8 ≤ a)
      → vm'.mem a ≡ vm.mem a
  pub same : (vm'.gmmap ≡ vm.gmmap) × (vm'.pml4 ≡ vm.pml4)

module _ (fuel addr flags : ℕ) (vm : Vm) (fits : addr < 2 ^ 64) (tables : HasTables vm addr) where
  pub map_page-set_leaf :
      map_page (suc fuel) addr flags vm
      ≡ some (set_leaf (find_pt vm addr) (pt_idx addr) addr (with_present flags) vm)
  unfolding map_page find_pt
  map_page-set_leaf =
      let whole : u64 addr ≡ addr = omega arith in
      rw (
        whole,
        ensure_table-present _ vm.pml4 (pml4_idx addr) _ vm tables.in_pml4,
        ensure_table-present _ _ (pdpt_idx addr) _ vm tables.in_pdpt,
        ensure_table-present _ _ (pd_idx addr) _ vm tables.in_pd,
      )

  set_leaf-Mapped :
      flags < 0x1000
      → Mapped addr flags vm (set_leaf (find_pt vm addr) (pt_idx addr) addr (with_present flags) vm)
  unfolding set_leaf
  set_leaf-Mapped small =
      let flags' = with_present flags in
      let odd = with_present_odd flags small in
      let sum = make_entry-sum addr flags' (omega (arith, odd)) in
      let (_, made, fits) = make_entry-fields addr flags' (omega (arith, odd)) in
      let entry = make_entry addr flags' in
      let read =
        get_entry-set_entry_self vm.mem (find_pt vm addr) (pt_idx addr) entry (omega arith) in
      elim (Bool-cases (is_present (get_entry vm.mem (find_pt vm addr) (pt_idx addr)))) [
        | inl old ↦
            rw old
              (record { leaf = rw old; present = old; others = λ a _. refl; same = (refl, refl) })
        | inr new ↦ rw new (record {
          leaf = rw new (read ∙ sum ∙ ap (λ f. page_of addr + f) odd);
          present = rw read (made ∙ ground (arith, odd));
          others = λ a out. unfold set_entry in write_le_outside vm.mem _ 8 entry a out;
          same = (refl, refl);
        })
      ]

  -- For an address of 64 bits and flags of 12 bits, with the three upper tables in place,
  -- `map_page` returns after one round. A leaf entry that was present is kept, and another one
  -- becomes the page's own address with the flags and the present bit; nothing is allocated, and
  -- no other byte changes.
  pub map_page-Mapped :
      flags < 0x1000
      → (vm' : Vm) × (map_page (suc fuel) addr flags vm ≡ some vm') × Mapped addr flags vm vm'
  map_page-Mapped small = (_, map_page-set_leaf, set_leaf-Mapped small)
