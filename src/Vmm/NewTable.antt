-- ===== src/Vmm/NewTable.antt =====
-- One table of the tree, where `map_page` (kernel/src/arch/memory/vmm.c) gives an entry to it or makes
-- the table below it.
use mathlib.Core.Path.{subst}
use faceless_os.Base.{
  ℕ, ◌+◌, ◌-◌, ◌*◌, ◌/◌, ◌^◌, ◌<◌, ◌≡◌, refl, ◌≢◌, inl, inr, true, false, arith, List, [], ◌∷◌,
  length, All, Option, some, Bool-cases, ap, ◌∙◌, sym,
}
use faceless_os.Pmm.{pmm_alloc, pmm_allocz}
use faceless_os.Pmm.Refine.{free_frames, IsAligned, head_or_null, pmm_alloc-free_frames}
use faceless_os.Vmm.{
  Vm, get_entry, make_entry, is_present, next_table, new_table, ensure_table, set_leaf,
}
use faceless_os.Vmm.Map.{with_present, with_present_odd, ensure_table-present}
use faceless_os.Vmm.Wipe.{wiped}
use faceless_os.Vmm.Walk.{
  Plain, is_large, page_of, make_entry-sum, make_entry-fields, get_entry-set_entry_self,
}
use faceless_os.Vmm.Tree.{Places, Tree, Extends, Grown, Extends-refl, Extends-trans, Grown-trans}
use faceless_os.Vmm.Grow.{
  with_entry, write-Extends, write-Tree, more_places, with_table, table-Extends, table-Tree,
  frame_place, same_entry, spares,
}
use faceless_os.Vmm.Shrink.{Shrinks, ensure_table-Shrinks, some-injective}

-- After a step the tree has grown, and the entry is present.
pub record Step (Allowed : ℕ → ℕ → Type 0) (ps : Places) (vm : Vm) (table idx : ℕ) (after : Vm)
    : Type 0 where
  pub grown : Grown Allowed ps vm after
  pub there : is_present (get_entry after.mem table idx) ≡ true

length-zero : (fs : List ℕ) → length fs ≡ 0 → fs ≡ []
length-zero [] e = refl
length-zero (f ∷ fs) e = absurd (omega (arith, e))

-- Entries that `map_page` makes.
entry_fields :
    (addr flags : ℕ)
    → Plain flags
    → (next_table (make_entry addr (with_present flags)) ≡ page_of addr)
      × (is_present (make_entry addr (with_present flags)) ≡ true)
      × (make_entry addr (with_present flags) < 2 ^ 64)
      × (is_large (make_entry addr (with_present flags)) ≡ false)
entry_fields addr flags (small, plain) =
    let odd = with_present_odd flags small in
    let sum = make_entry-sum addr (with_present flags) (omega (arith, odd)) in
    let (leads, there, fits) = make_entry-fields addr (with_present flags) (omega (arith, odd)) in
    (leads, there ∙ ground (arith, odd), omega (arith, fits), ground (arith, odd, sum))

pub with_present-Plain : (flags : ℕ) → Plain flags → Plain (with_present flags)
with_present-Plain flags (small, plain) =
    let odd = with_present_odd flags small in (omega (arith, odd), omega (arith, odd))

module _ (Allowed : ℕ → ℕ → Type 0) (ps : Places) (vm : Vm) (tree : Tree Allowed ps vm) (flags : ℕ)
    (small : Plain flags) (table idx : ℕ) (below : idx < 512) where
  -- A page table gets the entry for an address.
  pub set_leaf-Step :
      (addr : ℕ)
      → ps.level table ≡ 1
      → Allowed (ps.base table * 512 + idx) (page_of addr / 0x1000)
      → Step Allowed ps vm table idx (set_leaf table idx addr (with_present flags) vm)
  unfolding set_leaf
  set_leaf-Step addr level allowed = elim (Bool-cases (is_present (get_entry vm.mem table idx))) [
    | inl p ↦ rw p (record {
      grown = record { places = ps; tree = tree; extends = Extends-refl ps vm };
      there = p;
    })
    | inr a ↦
        let (leads, there, fits, _) = entry_fields addr flags small in
        let entry = make_entry addr (with_present flags) in
        rw a (record {
          grown = record {
            places = ps;
            tree =
                write-Tree Allowed ps vm tree table idx entry (omega (arith, level)) below fits a
                  (λ more. absurd (omega (arith, level, more)))
                  (λ more. absurd (omega (arith, level, more))) (λ _. rw leads allowed);
            extends =
                write-Extends Allowed ps vm tree table idx entry (omega (arith, level)) below fits
                  a;
          };
          there = rw (get_entry-set_entry_self vm.mem table idx entry fits) there;
        })
  ]

  -- A missing table is made of the next free frame, and mapped.
  module _ (level : 1 < ps.level table) (absent : is_present (get_entry vm.mem table idx) ≡ false)
      (frame : ℕ) (rest : List ℕ) (frames : free_frames vm.gmmap ≡ frame ∷ rest) where
    abbrev level' : ℕ
    level' = ps.level table - 1

    abbrev base' : ℕ
    base' = ps.base table * 512 + idx

    abbrev entry : ℕ
    entry = make_entry frame (with_present flags)

    positive : level' ≢ 0
    positive = omega (arith, level)

    is_table : ps.level table ≢ 0
    is_table = omega (arith, level)

    abbrev places' : Places
    places' = more_places Allowed ps vm tree frame level' base' rest frames positive

    abbrev vm' : Vm
    vm' = with_table Allowed ps vm tree frame level' base' rest frames positive

    tree' : Tree Allowed places' vm'
    tree' = table-Tree Allowed ps vm tree frame level' base' rest frames positive

    extends' : Extends ps vm places' vm'
    extends' = table-Extends Allowed ps vm tree frame level' base' rest frames positive

    stays : (places'.level table ≡ ps.level table) × (places'.base table ≡ ps.base table)
    stays = extends'.stays table is_table

    still_table : places'.level table ≢ 0
    still_table e = is_table (sym stays.0 ∙ e)

    still_absent : is_present (get_entry vm'.mem table idx) ≡ false
    still_absent =
        rw
          (same_entry Allowed ps vm tree frame level' base' rest frames positive table idx is_table
            below)
          absent

    abbrev vm'' : Vm
    vm'' =
        with_entry Allowed places' vm' tree' table idx entry still_table below
          (entry_fields frame flags small).2 still_absent

    frame_low : frame < 2 ^ 48
    frame_low = (spares Allowed ps vm tree frame level' base' rest frames positive).0.2

    leads_to_frame : next_table entry ≡ frame
    leads_to_frame =
        let (zero_level, aligned, low) =
          (spares Allowed ps vm tree frame level' base' rest frames positive).0 in
        (entry_fields frame flags small).0 ∙ omega arith

    tree'' : Tree Allowed places' vm''
    tree'' =
        write-Tree Allowed places' vm' tree' table idx entry still_table below
          (entry_fields frame flags small).2 still_absent
          (λ _.
            let (l, b) = frame_place Allowed ps vm tree frame level' base' rest frames positive in
            rw leads_to_frame (rw (stays.0, stays.1, l, b) (omega (arith, level), refl)))
          (λ _. (entry_fields frame flags small).3)
          (λ one. absurd (omega (arith, one, stays.0, level)))

    extends'' : Extends ps vm places' vm''
    extends'' = Extends-trans ps vm places' vm' places' vm'' extends' (
        write-Extends Allowed places' vm' tree' table idx entry still_table below
          (entry_fields frame flags small).2 still_absent)

    made_Step : (after : Vm) → Grown Allowed places' vm'' after → Step Allowed ps vm table idx after
    made_Step after g =
        let (_, there, fits, _) = entry_fields frame flags small in
        let own : get_entry vm''.mem table idx ≡ entry =
          get_entry-set_entry_self vm'.mem table idx entry fits in
        record {
          grown = Grown-trans Allowed ps vm places' vm'' after extends'' g;
          there = rw (g.extends.kept table idx still_table below (rw own there), own) there;
        }

    new_table-made :
        (map : ℕ → Vm → Option Vm)
        → new_table map table idx (with_present flags) vm ≡ map frame vm''
    unfolding new_table pmm_allocz wiped
    new_table-made map =
        let (first, _, _) = pmm_alloc-free_frames vm.gmmap tree.whole in
        let given : (pmm_alloc vm.gmmap).0 ≡ frame = first ∙ ap head_or_null frames in rw given

-- What a step needs of the recursive call: where it returns and frames are left, the tree has grown.
abbrev pub Safe : (ℕ → ℕ → Type 0) → (ℕ → Vm → Option Vm) → Type 0
Safe Allowed map =
    (a : ℕ) (ps : Places) (vm after : Vm)
    → a < 2 ^ 48
    → Tree Allowed ps vm
    → map a vm ≡ some after
    → free_frames after.gmmap ≢ []
    → Grown Allowed ps vm after

module _ (Allowed : ℕ → ℕ → Type 0) (map : ℕ → Vm → Option Vm) (safe : Safe Allowed map)
    (shrinks : (a : ℕ) (v : Vm) → All IsAligned v.gmmap → Shrinks v (map a v)) (flags : ℕ)
    (small : Plain flags) where
  ensure_table-absent :
      (table idx flags' : ℕ) (vm : Vm)
      → is_present (get_entry vm.mem table idx) ≡ false
      → ensure_table map table idx flags' vm ≡ new_table map table idx flags' vm
  unfolding ensure_table
  ensure_table-absent table idx flags' vm a = rw a

  pub left_over :
      (table idx : ℕ) (vm after : Vm)
      → All IsAligned vm.gmmap
      → ensure_table map table idx (with_present flags) vm ≡ some after
      → free_frames after.gmmap ≢ []
      → free_frames vm.gmmap ≢ []
  left_over table idx vm after whole e left none_left =
      let (_, le) =
        ensure_table-Shrinks map shrinks table idx (with_present flags) vm whole after e in
      left (length-zero (free_frames after.gmmap) (omega (arith, le, ap length none_left)))

  pub ensure_table-Step :
      (ps : Places) (vm : Vm) (tree : Tree Allowed ps vm) (table idx : ℕ) (after : Vm)
      → idx < 512
      → 1 < ps.level table
      → ensure_table map table idx (with_present flags) vm ≡ some after
      → free_frames after.gmmap ≢ []
      → Step Allowed ps vm table idx after
  ensure_table-Step ps vm tree table idx after below level e left =
      elim (Bool-cases (is_present (get_entry vm.mem table idx))) [
        | inl p ↦
            let same =
              some-injective vm after (sym (ensure_table-present map table idx _ vm p) ∙ e) in
            subst (λ v. Step Allowed ps vm table idx v) same
              (record {
                grown = record { places = ps; tree = tree; extends = Extends-refl ps vm };
                there = p;
              })
        | inr a ↦ go (free_frames vm.gmmap) refl a
      ]
    where
      go :
          (fs : List ℕ)
          → free_frames vm.gmmap ≡ fs
          → is_present (get_entry vm.mem table idx) ≡ false
          → Step Allowed ps vm table idx after
      go [] none_left a = absurd (left_over table idx vm after tree.whole e left none_left)
      go (frame ∷ rest) frames a =
          made_Step Allowed ps vm tree flags small table idx below level a frame rest frames after (
            safe frame _ _ after
              (frame_low Allowed ps vm tree flags small table idx below level a frame rest frames)
              (tree'' Allowed ps vm tree flags small table idx below level a frame rest frames)
              (sym (
                  new_table-made Allowed ps vm tree flags small table idx below level a frame rest
                    frames map)
                ∙ sym (ensure_table-absent table idx (with_present flags) vm a)
                ∙ e)
              left)
