-- ===== src/Vmm/Grow.antt =====
-- How the two kinds of writes of `map_page` (kernel/src/arch/memory/vmm.c) keep the tree of page tables:
-- a frame that becomes an empty table, and an entry that was not present.
use faceless_os.Base.{
  ℕ, suc, ◌+◌, ◌*◌, ◌/◌, ◌^◌, ◌<◌, ◌≡◌, refl, ◌≢◌, ◌⊎◌, inl, inr, true, false, arith, List, [], ◌∷◌,
  All, ◌==◌, if◌then◌else◌, ==_iff, Bool-cases, ◌∙◌, ap, sym,
}
use mathlib.Core.Path.{subst}
use faceless_os.Pmm.{pmm_alloc}
use faceless_os.Pmm.Refine.{free_frames, pmm_alloc-free_frames}
use faceless_os.Vmm.{Vm, get_entry, set_entry, is_present, next_table}
use faceless_os.Vmm.Walk.{is_present-odd, is_large}
use faceless_os.Vmm.Wipe.{wiped, get_entry-wiped_ne, get_entry-wiped_self}
use faceless_os.Vmm.Tree.{Places, Tree, Extends, IsSpare, Distinct, get_entry-set_entry_cases}

module _ (Allowed : ℕ → ℕ → Type 0) (ps : Places) (vm : Vm) (tree : Tree Allowed ps vm) where
  -- An entry that was not present is written.
  module _ (table idx entry : ℕ) (is_table : ps.level table ≢ 0) (below : idx < 512)
      (fits : entry < 2 ^ 64) (absent : is_present (get_entry vm.mem table idx) ≡ false) where
    abbrev pub with_entry : Vm
    with_entry = record vm { mem = set_entry vm.mem table idx entry }

    cases :
        (t i : ℕ)
        → ps.level t ≢ 0
        → i < 512
        → ((t ≡ table) × (i ≡ idx) × (get_entry with_entry.mem t i ≡ entry))
          ⊎ (get_entry with_entry.mem t i ≡ get_entry vm.mem t i)
    cases t i h lt =
        get_entry-set_entry_cases vm.mem table idx entry t i (tree.paged table is_table)
          (tree.paged t h) below lt fits

    pub write-Extends : Extends ps vm ps with_entry
    write-Extends = record {
      pml4 = refl;
      stays = λ t h. (refl, refl);
      kept = λ t i h lt p. elim (cases t i h lt) [
        | inl (e, e', _) ↦ absurd (
            cc (
              p,
              absent,
              ap (λ x. is_present (get_entry vm.mem x i)) e,
              ap (λ x. is_present (get_entry vm.mem table x)) e',
            ))
        | inr same ↦ same
      ];
    }

    pub write-Tree :
        (1 < ps.level table
          → (suc (ps.level (next_table entry)) ≡ ps.level table)
            × (ps.base (next_table entry) ≡ ps.base table * 512 + idx))
        → (1 < ps.level table → is_large entry ≡ false)
        → (ps.level table ≡ 1 → Allowed (ps.base table * 512 + idx) (next_table entry / 0x1000))
        → Tree Allowed ps with_entry
    write-Tree up flat down = record {
      top = tree.top;
      paged = tree.paged;
      leads = λ t i l lt p. elim (cases t i (omega arith) lt) [
        | inl (e, e', new) ↦ rw (new, e, e') (up (rw e at l))
        | inr same ↦ rw same (tree.leads t i l lt (rw same at p))
      ];
      small = λ t i l lt p. elim (cases t i (omega arith) lt) [
        | inl (e, e', new) ↦ rw new (flat (rw e at l))
        | inr same ↦ rw same (tree.small t i l lt (rw same at p))
      ];
      leaves = λ t i l lt p. elim (cases t i (omega arith) lt) [
        | inl (e, e', new) ↦ rw (new, e, e') (down (rw e at l))
        | inr same ↦ rw same (tree.leaves t i l lt (rw same at p))
      ];
      whole = tree.whole;
      spare = tree.spare;
      distinct = tree.distinct;
    }

  -- The next free frame becomes a table.
  module _ (frame level base : ℕ) (rest : List ℕ) (next_frame : free_frames vm.gmmap ≡ frame ∷ rest)
      (positive : level ≢ 0) where
    abbrev pub more_places : Places
    more_places = record {
      level = λ t. if t == frame then level else ps.level t;
      base = λ t. if t == frame then base else ps.base t;
    }

    abbrev pub with_table : Vm
    with_table = record vm { mem = wiped frame vm.mem; gmmap = (pmm_alloc vm.gmmap).1 }

    pub spares : IsSpare ps frame × All (IsSpare ps) rest
    spares = let s = tree.spare in rw next_frame at s

    others : All (λ y. y ≢ frame) rest × Distinct rest
    others = let d = tree.distinct in rw next_frame at d

    pub other_than : (t : ℕ) → ps.level t ≢ 0 → t ≢ frame
    other_than t h e = h (ap ps.level e ∙ spares.0.0)

    pub same_place :
        (t : ℕ) → t ≢ frame → (more_places.level t ≡ ps.level t) × (more_places.base t ≡ ps.base t)
    same_place t ne = let test : (t == frame) ≡ false = ground arith in (rw test, rw test)

    pub frame_place : (more_places.level frame ≡ level) × (more_places.base frame ≡ base)
    frame_place = let test : (frame == frame) ≡ true = ground arith in (rw test, rw test)

    pub same_entry :
        (t i : ℕ) → ps.level t ≢ 0 → i < 512 → get_entry with_table.mem t i ≡ get_entry vm.mem t i
    same_entry t i h lt =
        get_entry-wiped_ne frame vm.mem i lt t
          (omega (arith, tree.paged t h, spares.0.1, other_than t h))

    pub new_absent : (i : ℕ) → i < 512 → is_present (get_entry with_table.mem frame i) ≡ false
    new_absent i lt = rw (get_entry-wiped_self frame vm.mem i lt) (is_present-odd 0)

    -- A table afterwards is the new one or an old one.
    table-cases : (t : ℕ) → more_places.level t ≢ 0 → (t ≡ frame) ⊎ ((t ≢ frame) × (ps.level t ≢ 0))
    table-cases t h = elim (Bool-cases (t == frame)) [
      | inl e ↦ inl ((==_iff t frame).0 e)
      | inr e ↦ inr ((λ same. cc (e, (==_iff t frame).1 same)), rw e at h)
    ]

    pub table-Extends : Extends ps vm more_places with_table
    table-Extends = record {
      pml4 = refl;
      stays = λ t h. same_place t (other_than t h);
      kept = λ t i h lt p. same_entry t i h lt;
    }

    still-IsSpare :
        (fs : List ℕ) → All (IsSpare ps) fs → All (λ y. y ≢ frame) fs → All (IsSpare more_places) fs
    still-IsSpare [] a b = tt
    still-IsSpare (f ∷ fs) (h, hs) (ne, nes) =
        let (l, _) = same_place f ne in ((l ∙ h.0, h.1, h.2), still-IsSpare fs hs nes)

    not_new : (t i : ℕ) → i < 512 → is_present (get_entry with_table.mem t i) ≡ true → t ≢ frame
    not_new t i lt p e =
        cc (p, new_absent i lt, ap (λ x. is_present (get_entry with_table.mem x i)) e)

    old_leads :
        (t i : ℕ)
        → t ≢ frame
        → ps.level t ≢ 0
        → 1 < more_places.level t
        → i < 512
        → is_present (get_entry with_table.mem t i) ≡ true
        → (suc (more_places.level (next_table (get_entry with_table.mem t i)))
            ≡ more_places.level t)
          × (more_places.base (next_table (get_entry with_table.mem t i))
              ≡ more_places.base t * 512 + i)
    old_leads t i ne old l lt p =
        let entry = same_entry t i old lt in
        let (lt', bt) = same_place t ne in
        let (up, b) = tree.leads t i (rw lt' at l) lt (rw entry at p) in
        let n = next_table (get_entry vm.mem t i) in
        let (ln, bn) = same_place n (other_than n (omega (arith, up, rw lt' at l))) in
        subst
          (λ e.
            (suc (more_places.level (next_table e)) ≡ more_places.level t)
            × (more_places.base (next_table e) ≡ more_places.base t * 512 + i))
          (sym entry) (ap suc ln ∙ up ∙ sym lt', bn ∙ b ∙ ap (λ x. x * 512 + i) (sym bt))

    old_leaves :
        (t i : ℕ)
        → t ≢ frame
        → ps.level t ≢ 0
        → more_places.level t ≡ 1
        → i < 512
        → is_present (get_entry with_table.mem t i) ≡ true
        → Allowed
            (more_places.base t * 512 + i)
            (next_table (get_entry with_table.mem t i) / 0x1000)
    old_leaves t i ne old l lt p =
        let entry = same_entry t i old lt in
        let (lt', bt) = same_place t ne in
        subst (λ e. Allowed (more_places.base t * 512 + i) (next_table e / 0x1000)) (sym entry)
          (subst (λ b. Allowed (b * 512 + i) (next_table (get_entry vm.mem t i) / 0x1000)) (sym bt)
            (tree.leaves t i (sym lt' ∙ l) lt (rw entry at p)))

    pub table-Tree : Tree Allowed more_places with_table
    table-Tree = record {
      top =
          let (l, b) = same_place vm.pml4 (other_than vm.pml4 (omega (arith, tree.top))) in
          (l ∙ tree.top.0, b ∙ tree.top.1);
      paged = λ t h. elim (table-cases t h) [
        | inl e ↦ rw e spares.0.1
        | inr (ne, old) ↦ tree.paged t old
      ];
      leads = λ t i l lt p. elim (table-cases t (omega arith)) [
        | inl e ↦ absurd (not_new t i lt p e)
        | inr (ne, old) ↦ old_leads t i ne old l lt p
      ];
      small = λ t i l lt p. elim (table-cases t (omega arith)) [
        | inl e ↦ absurd (not_new t i lt p e)
        | inr (ne, old) ↦
            let entry = same_entry t i old lt in
            rw entry (tree.small t i (rw (same_place t ne).0 at l) lt (rw entry at p))
      ];
      leaves = λ t i l lt p. elim (table-cases t (omega arith)) [
        | inl e ↦ absurd (not_new t i lt p e)
        | inr (ne, old) ↦ old_leaves t i ne old l lt p
      ];
      whole = (pmm_alloc-free_frames vm.gmmap tree.whole).2;
      spare =
          rw ((pmm_alloc-free_frames vm.gmmap tree.whole).1, next_frame)
            (still-IsSpare rest spares.1 others.0);
      distinct = rw ((pmm_alloc-free_frames vm.gmmap tree.whole).1, next_frame) others.1;
    }
