-- ===== src/Vmm/Unmap.antt =====
-- `unmap_page` (kernel/src/arch/memory/vmm.c).
use faceless_os.Base.{
  ℕ, ◌+◌, ◌-◌, ◌*◌, ap, sym, ◌/◌, ◌%◌, ◌^◌, ◌≤◌, ◌<◌, ◌≡◌, refl, ◌≢◌, ◌⊎◌, inl, inr, Bool, true,
  false, arith, ◌∷◌, ◌==◌, if◌then◌else◌, bit_and, Bool-cases, ◌∙◌,
}
use faceless_os.Machine.Bits.{mask_low, mask_high}
use faceless_os.Machine.Io.{Trace, invlpg, u64}
use faceless_os.Machine.Memory.{Mem, read_le, write_le_outside}
use faceless_os.Vmm.{
  Vm, entry_at, get_entry, set_entry, is_present, next_table, pml4_idx, pdpt_idx, pd_idx, pt_idx,
  find_pt, unmap_page,
}
use faceless_os.Vmm.Walk.{
  page_of, is_present-odd, get_entry-set_entry_self, indices, next_table-page_of,
}

abbrev cleared_entry : ℕ → ℕ
cleared_entry addr = bit_and (bit_and addr 0x000ffffffffff000) (2 ^ 64 - 2)

cleared_entry-page_of : (addr : ℕ) → cleared_entry addr ≡ page_of addr
cleared_entry-page_of addr =
    let page : bit_and addr 0x000ffffffffff000 ≡ page_of addr =
      omega (arith, mask_high 12 addr (2 ^ 40 - 1), mask_low 40 (addr / 2 ^ 12)) in
    rw page (omega (arith, mask_high 1 (page_of addr) (2 ^ 63 - 1), mask_low 63 (page_of addr / 2)))

-- An address that is not that of a page is refused: `unmap_page` answers 0 and changes nothing.
pub unmap_page-unaligned :
    (logical : ℕ) (vm : Vm) (t : Trace)
    → logical % 0x1000 ≢ 0
    → unmap_page logical vm t ≡ ((0, vm), t)
unfolding unmap_page
unmap_page-unaligned logical vm t h = ground arith

-- What unmapping a page does to the state: the leaf entry is not present afterwards, and no byte
-- outside it has changed. The processor drops its copy of the entry if it was present.
pub record Unmapped (addr : ℕ) (vm : Vm) (t : Trace) (r : (ℕ × Vm) × Trace) : Type 0 where
  pub answer : r.0.0 ≡ 1
  pub absent : is_present (get_entry r.0.1.mem (find_pt vm addr) (pt_idx addr)) ≡ false
  pub left : get_entry r.0.1.mem (find_pt vm addr) (pt_idx addr) ≡ (
      if is_present (get_entry vm.mem (find_pt vm addr) (pt_idx addr))
      then page_of addr
      else get_entry vm.mem (find_pt vm addr) (pt_idx addr))
  pub others :
      (a : ℕ)
      → (a < entry_at (find_pt vm addr) (pt_idx addr))
        ⊎ (entry_at (find_pt vm addr) (pt_idx addr) + 8 ≤ a)
      → r.0.1.mem a ≡ vm.mem a
  pub same : (r.0.1.gmmap ≡ vm.gmmap) × (r.0.1.pml4 ≡ vm.pml4)
  pub flushed : r.1 ≡ (
      if is_present (get_entry vm.mem (find_pt vm addr) (pt_idx addr)) then invlpg addr ∷ t else t)

module _ (addr : ℕ) (vm : Vm) (t : Trace) (fits : addr < 2 ^ 64) (aligned : addr % 0x1000 ≡ 0) where
  abbrev leaf_present : Bool
  leaf_present = is_present (get_entry vm.mem (find_pt vm addr) (pt_idx addr))

  abbrev leaf_cleared : Mem
  leaf_cleared = set_entry vm.mem (find_pt vm addr) (pt_idx addr) (page_of addr)

  no_remainder : (addr % 0x1000 == 0) ≡ true
  no_remainder = ground arith

  whole : u64 addr ≡ addr
  whole = omega arith

  unmap_present :
      leaf_present ≡ true
      → unmap_page addr vm t ≡ ((1, record vm { mem = leaf_cleared }), invlpg addr ∷ t)
  unfolding unmap_page
  unmap_present p = rw (whole, no_remainder, p, cleared_entry-page_of addr)

  unmap_absent : leaf_present ≡ false → unmap_page addr vm t ≡ ((1, vm), t)
  unfolding unmap_page
  unmap_absent p = rw (whole, no_remainder, p)

  pub unmap_page-Unmapped : Unmapped addr vm t (unmap_page addr vm t)
  unmap_page-Unmapped = elim (Bool-cases leaf_present) [
    | inr p ↦ rw (unmap_absent p) (record {
      answer = refl;
      absent = p;
      left = rw p refl;
      others = λ a _. refl;
      same = (refl, refl);
      flushed = rw p;
    })
    | inl p ↦ rw (unmap_present p) (record {
      answer = refl;
      absent =
          rw
            (get_entry-set_entry_self vm.mem (find_pt vm addr) (pt_idx addr) (page_of addr)
              (omega arith))
            (is_present-odd (page_of addr) ∙ ground arith);
      left = rw p (
          get_entry-set_entry_self vm.mem (find_pt vm addr) (pt_idx addr) (page_of addr)
            (omega arith));
      others = λ a out. unfold set_entry in write_le_outside vm.mem _ 8 (page_of addr) a out;
      same = (refl, refl);
      flushed = rw p;
    })
  ]

-- A word of a table, and the fields of an address that say which one is read at each level.
abbrev pub word_at : Mem → (table index : ℕ) → ℕ
word_at m table index = read_le m (table + 8 * index) 8

-- The three tables below the top one on the way to an address.
pub record OnTheWay (m : Mem) (pml4 addr pdpt pd pt : ℕ) : Type 0 where
  pub in_pml4 : page_of (word_at m pml4 (addr / 2 ^ 39 % 512)) ≡ pdpt
  pub in_pdpt : page_of (word_at m pdpt (addr / 2 ^ 30 % 512)) ≡ pd
  pub in_pd : page_of (word_at m pd (addr / 2 ^ 21 % 512)) ≡ pt

-- The word of the leaf afterwards has the page's own address and no flags if it was present, and is
-- as before otherwise; no byte outside it has changed.
pub record Cleared (addr leaf : ℕ) (vm : Vm) (t : Trace) (r : (ℕ × Vm) × Trace) : Type 0 where
  pub answer : r.0.0 ≡ 1
  pub word :
      read_le r.0.1.mem leaf 8
      ≡ (if read_le vm.mem leaf 8 % 2 == 1 then addr % 2 ^ 52 else read_le vm.mem leaf 8)
  pub others : (a : ℕ) → (a < leaf) ⊎ (leaf + 8 ≤ a) → r.0.1.mem a ≡ vm.mem a
  pub same : (r.0.1.gmmap ≡ vm.gmmap) × (r.0.1.pml4 ≡ vm.pml4)
  pub flushed : r.1 ≡ (if read_le vm.mem leaf 8 % 2 == 1 then invlpg addr ∷ t else t)

find_pt-OnTheWay :
    (vm : Vm) (addr pdpt pd pt : ℕ) → OnTheWay vm.mem vm.pml4 addr pdpt pd pt → find_pt vm addr ≡ pt
unfolding find_pt get_entry
find_pt-OnTheWay vm addr pdpt pd pt w =
    let (i4, i3, i2, _) = indices addr in
    let step : (table i idx : ℕ)
        → i ≡ idx
        → next_table (word_at vm.mem table i) ≡ page_of (word_at vm.mem table idx) =
      λ table i idx e. next_table-page_of _ ∙ ap (λ k. page_of (word_at vm.mem table k)) e in
    let first : next_table (word_at vm.mem vm.pml4 (pml4_idx addr)) ≡ pdpt =
      step _ _ _ i4 ∙ w.in_pml4 in
    let second : next_table (word_at vm.mem pdpt (pdpt_idx addr)) ≡ pd =
      step _ _ _ i3 ∙ w.in_pdpt in
    let third : next_table (word_at vm.mem pd (pd_idx addr)) ≡ pt = step _ _ _ i2 ∙ w.in_pd in
    rw (first, second, third) refl

module _ (addr : ℕ) (vm : Vm) (t : Trace) (fits : addr < 2 ^ 64) (aligned : addr % 0x1000 ≡ 0)
    (pdpt pd pt : ℕ) (way : OnTheWay vm.mem vm.pml4 addr pdpt pd pt) where
  abbrev leaf : ℕ
  leaf = pt + 8 * (addr / 2 ^ 12 % 512)

  leaf_is : entry_at (find_pt vm addr) (pt_idx addr) ≡ leaf
  leaf_is =
      let (_, _, _, i1) = indices addr in rw (find_pt-OnTheWay vm addr pdpt pd pt way, i1) refl

  read_leaf : (m : Mem) → get_entry m (find_pt vm addr) (pt_idx addr) ≡ read_le m leaf 8
  unfolding get_entry
  read_leaf m = ap (λ a. read_le m a 8) leaf_is

  -- At a page address of 64 bits, with the three lower tables that the four fields of the address
  -- lead to, `unmap_page` answers 1. If the word of the leaf was present, it becomes the low 52
  -- bits of the address itself: not only the present bit, but the frame and the flags are gone,
  -- and the processor is told to drop its copy. Otherwise the word stays. No byte outside it
  -- changes.
  pub unmap_page-Cleared : Cleared addr leaf vm t (unmap_page addr vm t)
  unmap_page-Cleared =
      let u = unmap_page-Unmapped addr vm t fits aligned in
      let there : leaf_present addr vm t fits aligned ≡ (read_le vm.mem leaf 8 % 2 == 1) =
        is_present-odd _ ∙ ap (λ e. e % 2 == 1) (read_leaf vm.mem) in
      let page : page_of addr ≡ addr % 2 ^ 52 = omega arith in
      record {
        answer = u.answer;
        word =
            sym (read_leaf (unmap_page addr vm t).0.1.mem)
            ∙ u.left
            ∙ ap (λ b. if b then page_of addr else get_entry vm.mem (find_pt vm addr) (pt_idx addr))
                there
            ∙ ap
                (λ x.
                  if read_le vm.mem leaf 8 % 2 == 1
                  then x
                  else get_entry vm.mem (find_pt vm addr) (pt_idx addr))
                page
            ∙ ap (λ y. if read_le vm.mem leaf 8 % 2 == 1 then addr % 2 ^ 52 else y)
                (read_leaf vm.mem);
        others = λ a out. u.others a (rw leaf_is out);
        same = u.same;
        flushed = u.flushed ∙ ap (λ b. if b then invlpg addr ∷ t else t) there;
      }
