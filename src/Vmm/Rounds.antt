-- ===== src/Vmm/Rounds.antt =====
-- One round of `map_page` (kernel/src/arch/memory/vmm.c) after the other, where it makes the tables that
-- are missing.
use mathlib.Core.Path.{subst}
use faceless_os.Base.{
  ℕ, zero, suc, ◌+◌, ◌*◌, ◌/◌, ◌^◌, ◌<◌, ◌≡◌, refl, ◌≢◌, true, arith, [], All, some, ap, ◌∙◌, sym,
}
use faceless_os.Machine.Io.{u64}
use faceless_os.Pmm.Refine.{free_frames, IsAligned}
use faceless_os.Vmm.{
  Vm, get_entry, is_present, next_table, ensure_table, map_page, pml4_idx, pdpt_idx, pd_idx, pt_idx,
}
use faceless_os.Vmm.Map.{with_present}
use faceless_os.Vmm.Walk.{Plain}
use faceless_os.Vmm.NewTable.{with_present-Plain}
use faceless_os.Vmm.Tree.{Places, Tree, Grown, Grown-trans, walk}
use faceless_os.Vmm.NewTable.{Step, Safe, set_leaf-Step, ensure_table-Step, left_over}
use faceless_os.Vmm.Links.{Link, walk-Links, Link-kept, Link-leads, below_512, page_number}
use faceless_os.Vmm.Shrink.{
  Shrinks, recur, Rounds, map_page-Rounds, map_page-Shrinks, ensure_table-Shrinks, set_leaf-gmmap,
  set_leaf-gmmap,
}

-- After a call the tree has grown, the page is reached, and what it leads to is allowed.
pub record Reached (Allowed : ℕ → ℕ → Type 0) (ps : Places) (vm : Vm) (addr : ℕ) (after : Vm)
    : Type 0 where
  pub grown : Grown Allowed ps vm after
  pub page : ℕ
  pub walked : walk after.mem after.pml4 addr ≡ some page
  pub allowed : Allowed (addr / 0x1000) (page / 0x1000)

module _ (Allowed : ℕ → ℕ → Type 0) (identity : (page : ℕ) → Allowed page page) where
  module _ (ps : Places) (vm : Vm) (tree : Tree Allowed ps vm) (fuel addr flags : ℕ)
      (small : Plain flags) (low : addr < 2 ^ 48) (safe : Safe Allowed (recur fuel flags)) where
    shrinks : (a : ℕ) (v : Vm) → All IsAligned v.gmmap → Shrinks v (recur fuel flags a v)
    shrinks a v w = map_page-Shrinks fuel a (with_present flags) v w

    step :
        (ps' : Places) (v : Vm)
        → Tree Allowed ps' v
        → (table idx : ℕ) (v' : Vm) → idx < 512
        → 1 < ps'.level table
        → ensure_table (recur fuel flags) table idx (with_present flags) v ≡ some v'
        → free_frames v'.gmmap ≢ []
        → Step Allowed ps' v table idx v'
    step ps' v t table idx v' below level e left =
        ensure_table-Step Allowed (recur fuel flags) safe shrinks flags small ps' v t table idx v'
          below level e left

    before :
        (table idx : ℕ) (v v' : Vm)
        → All IsAligned v.gmmap
        → ensure_table (recur fuel flags) table idx (with_present flags) v ≡ some v'
        → free_frames v'.gmmap ≢ []
        → free_frames v.gmmap ≢ []
    before table idx v v' whole e left =
        left_over Allowed (recur fuel flags) safe shrinks flags small table idx v v' whole e left

    whole-after :
        (table idx : ℕ) (v v' : Vm)
        → All IsAligned v.gmmap
        → ensure_table (recur fuel flags) table idx (with_present flags) v ≡ some v'
        → All IsAligned v'.gmmap
    whole-after table idx v v' whole e =
        (ensure_table-Shrinks (recur fuel flags) shrinks table idx (with_present flags) v whole v'
          e).0

    module _ (after : Vm) (r : Rounds fuel addr flags vm after)
        (left : free_frames after.gmmap ≢ []) where
      i4 : pml4_idx (u64 addr) < 512
      i4 = (below_512 (u64 addr)).0

      i3 : pdpt_idx (u64 addr) < 512
      i3 = (below_512 (u64 addr)).1

      i2 : pd_idx (u64 addr) < 512
      i2 = (below_512 (u64 addr)).2

      i1 : pt_idx (u64 addr) < 512
      i1 = (below_512 (u64 addr)).3

      whole1 : All IsAligned r.vm1.gmmap
      whole1 = whole-after _ _ vm r.vm1 tree.whole r.first

      whole2 : All IsAligned r.vm2.gmmap
      whole2 = whole-after _ _ r.vm1 r.vm2 whole1 r.second

      left3 : free_frames r.vm3.gmmap ≢ []
      left3 =
          subst (λ g. free_frames g ≢ [])
            (ap (λ v. v.gmmap) (sym r.last) ∙ set_leaf-gmmap r.pt _ _ _ r.vm3) left

      left2 : free_frames r.vm2.gmmap ≢ []
      left2 = before _ _ r.vm2 r.vm3 whole2 r.third left3

      left1 : free_frames r.vm1.gmmap ≢ []
      left1 = before _ _ r.vm1 r.vm2 whole1 r.second left2

      step1 : Step Allowed ps vm vm.pml4 (pml4_idx (u64 addr)) r.vm1
      step1 = step ps vm tree vm.pml4 _ r.vm1 i4 (omega (arith, tree.top)) r.first left1

      abbrev g1 : Grown Allowed ps vm r.vm1
      g1 = step1.grown

      link4 : Link r.vm1.mem r.vm1.pml4 (pml4_idx (u64 addr)) r.pdpt
      link4 =
          let there : is_present (get_entry r.vm1.mem r.vm1.pml4 (pml4_idx (u64 addr))) ≡ true =
            rw g1.extends.pml4 step1.there in
          (there, r.pdpt_is, g1.tree.small r.vm1.pml4 _ (omega (arith, g1.tree.top)) i4 there)

      place3 : (g1.places.level r.pdpt ≡ 3) × (g1.places.base r.pdpt ≡ pml4_idx (u64 addr))
      place3 =
          let (l, b) = g1.tree.top in
          let up =
            Link-leads Allowed g1.places r.vm1 g1.tree r.vm1.pml4 _ r.pdpt (omega (arith, l)) i4
              link4 in
          (omega (arith, up, l), omega (arith, up, b))

      step2 : Step Allowed g1.places r.vm1 r.pdpt (pdpt_idx (u64 addr)) r.vm2
      step2 = step g1.places r.vm1 g1.tree r.pdpt _ r.vm2 i3 (omega (arith, place3)) r.second left2

      abbrev g2 : Grown Allowed g1.places r.vm1 r.vm2
      g2 = step2.grown

      link3 : Link r.vm2.mem r.pdpt (pdpt_idx (u64 addr)) r.pdt
      link3 =
          let (l, _) = g2.extends.stays r.pdpt (omega (arith, place3)) in
          (step2.there, r.pdt_is, g2.tree.small r.pdpt _ (omega (arith, l, place3)) i3 step2.there)

      place2 :
          (g2.places.level r.pdt ≡ 2)
          × (g2.places.base r.pdt ≡ pml4_idx (u64 addr) * 512 + pdpt_idx (u64 addr))
      place2 =
          let (l, b) = g2.extends.stays r.pdpt (omega (arith, place3)) in
          let up =
            Link-leads Allowed g2.places r.vm2 g2.tree r.pdpt _ r.pdt (omega (arith, l, place3)) i3
              link3 in
          (omega (arith, up, l, place3), omega (arith, up, b, place3))

      step3 : Step Allowed g2.places r.vm2 r.pdt (pd_idx (u64 addr)) r.vm3
      step3 = step g2.places r.vm2 g2.tree r.pdt _ r.vm3 i2 (omega (arith, place2)) r.third left3

      abbrev g3 : Grown Allowed g2.places r.vm2 r.vm3
      g3 = step3.grown

      link2 : Link r.vm3.mem r.pdt (pd_idx (u64 addr)) r.pt
      link2 =
          let (l, _) = g3.extends.stays r.pdt (omega (arith, place2)) in
          (step3.there, r.pt_is, g3.tree.small r.pdt _ (omega (arith, l, place2)) i2 step3.there)

      place1 :
          (g3.places.level r.pt ≡ 1)
          × (g3.places.base r.pt
              ≡ (pml4_idx (u64 addr) * 512 + pdpt_idx (u64 addr)) * 512 + pd_idx (u64 addr))
      place1 =
          let (l, b) = g3.extends.stays r.pdt (omega (arith, place2)) in
          let up =
            Link-leads Allowed g3.places r.vm3 g3.tree r.pdt _ r.pt (omega (arith, l, place2)) i2
              link2 in
          (omega (arith, up, l, place2), omega (arith, up, b, place2))

      number : g3.places.base r.pt * 512 + pt_idx (u64 addr) ≡ addr / 0x1000
      number =
          page_number (u64 addr) _ _ (g3.places.base r.pt) (omega arith) refl refl place1.1
          ∙ omega arith

      step4 : Step Allowed g3.places r.vm3 r.pt (pt_idx (u64 addr)) after
      step4 = subst (Step Allowed g3.places r.vm3 r.pt (pt_idx (u64 addr))) r.last (
          set_leaf-Step Allowed g3.places r.vm3 g3.tree flags small r.pt _ i1 (u64 addr) place1.0
            (rw number (subst (Allowed (addr / 0x1000)) (omega arith) (identity (addr / 0x1000)))))

      abbrev g4 : Grown Allowed g3.places r.vm3 after
      g4 = step4.grown

      from3 : Grown Allowed g2.places r.vm2 after
      from3 = Grown-trans Allowed g2.places r.vm2 g3.places r.vm3 after g3.extends g4

      from2 : Grown Allowed g1.places r.vm1 after
      from2 = Grown-trans Allowed g1.places r.vm1 g2.places r.vm2 after g2.extends from3

      from1 : Grown Allowed ps vm after
      from1 = Grown-trans Allowed ps vm g1.places r.vm1 after g1.extends from2

      leaf : ℕ
      leaf = next_table (get_entry after.mem r.pt (pt_idx (u64 addr)))

      rounds-Reached : Reached Allowed ps vm (u64 addr) after
      unfolding leaf
      rounds-Reached = record {
        grown = from1;
        page = leaf;
        walked = rw from2.extends.pml4 (
            walk-Links after.mem r.vm1.pml4 (u64 addr) r.pdpt r.pdt r.pt leaf
              (Link-kept g1.places r.vm1 from2.places after from2.extends r.vm1.pml4 _ r.pdpt
                (omega (arith, g1.tree.top)) i4 link4)
              (Link-kept g2.places r.vm2 from3.places after from3.extends r.pdpt _ r.pdt
                (omega (arith, g2.extends.stays r.pdpt (omega (arith, place3)), place3)) i3 link3)
              (Link-kept g3.places r.vm3 g4.places after g4.extends r.pdt _ r.pt
                (omega (arith, g3.extends.stays r.pdt (omega (arith, place2)), place2)) i2 link2)
              (step4.there, refl));
        allowed =
            let (l, b) = g4.extends.stays r.pt (omega (arith, place1)) in
            subst (λ n. Allowed n (leaf / 0x1000))
              (ap (λ n. n * 512 + pt_idx (u64 addr)) b ∙ number ∙ omega arith)
              (g4.tree.leaves r.pt _ (l ∙ place1.0) i1 step4.there);
      }

  -- By the fuel, for the recursive calls too.
  pub map_page-grows :
      (fuel addr flags : ℕ) (ps : Places) (vm after : Vm)
      → Plain flags
      → addr < 2 ^ 48
      → Tree Allowed ps vm
      → map_page fuel addr flags vm ≡ some after
      → free_frames after.gmmap ≢ []
      → Reached Allowed ps vm addr after
  map_page-grows zero addr flags ps vm after small low tree e left =
      absurd (unfold map_page in cc e)
  map_page-grows (suc fuel) addr flags ps vm after small low tree e left =
      let safe : Safe Allowed (recur fuel flags) = λ a ps' v v' low' t e' left'.
        (map_page-grows fuel a (with_present flags) ps' v v' (with_present-Plain flags small) low' t
          e' left').grown in
      subst (λ a. Reached Allowed ps vm a after) {x = u64 addr} (omega arith)
        (rounds-Reached ps vm tree fuel addr flags small low safe after
          (map_page-Rounds fuel addr flags vm after e) left)
