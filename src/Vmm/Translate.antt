-- ===== src/Vmm/Translate.antt =====
-- What `map_page` (kernel/src/arch/memory/vmm.c) does to the translations of the processor, where it
-- makes the tables that are missing.
use faceless_os.Base.{
  ℕ, ◌+◌, ◌/◌, ◌^◌, ◌≤◌, ◌<◌, ◌≡◌, refl, ◌≢◌, ◌⊎◌, ◌∷◌, length, inl, inr, arith, List, [], some,
}
use faceless_os.Pmm.Refine.{free_frames}
use faceless_os.Vmm.{Vm, map_page}
use faceless_os.Vmm.Supply.{Supplied}
use faceless_os.Vmm.Returns.{map_page-Returns}
use faceless_os.Vmm.Walk.{Plain}
use faceless_os.Vmm.Tree.{Places, Tree, walk}
use faceless_os.Vmm.Links.{walk-kept}
use faceless_os.Vmm.Rounds.{map_page-grows}

-- What a call does to the translations: the tables are a tree again, every translation stays, and the
-- page of the address is reached.
pub record Translated (Allowed : ℕ → ℕ → Type 0) (vm : Vm) (addr : ℕ) (after : Vm) : Type 0 where
  pub places : Places
  pub tree : Tree Allowed places after
  pub stays :
      (a page : ℕ) → walk vm.mem vm.pml4 a ≡ some page → walk after.mem after.pml4 a ≡ some page
  pub page : ℕ
  pub walked : walk after.mem after.pml4 addr ≡ some page
  pub allowed : Allowed (addr / 0x1000) (page / 0x1000)

module _ (Allowed : ℕ → ℕ → Type 0) (identity : (page : ℕ) → Allowed page page) where
  -- `Allowed` is any relation of pages that lets each page lead to itself. Where the page tables
  -- are a tree without large pages in which every leaf is allowed, the free frames are whole,
  -- distinct, below 2 ^ 48 and no tables, the top table is not the first page, the address has 48
  -- bits and the flags 12 without the bit PS, `map_page` returns in a fuel of four more than the
  -- free frames. Then no frame is left, or the tables are such a tree again, every translation of
  -- the processor is as before, and the page of the address leads to an allowed page.
  pub map_page-Translated :
      (fuel addr flags : ℕ) (ps : Places) (vm : Vm)
      → length (free_frames vm.gmmap) + 4 ≤ fuel
      → Plain flags
      → addr < 2 ^ 48
      → 0x1000 ≤ vm.pml4
      → Tree Allowed ps vm
      → (after : Vm) × (map_page fuel addr flags vm ≡ some after)
        × ((free_frames after.gmmap ≡ []) ⊎ Translated Allowed vm addr after)
  map_page-Translated fuel addr flags ps vm enough small low above tree =
      let supplied : Supplied (length (free_frames vm.gmmap)) vm = record {
        whole = tree.whole;
        left = omega arith;
        above = above;
        paged = tree.paged vm.pml4 (omega (arith, tree.top));
      } in
      let r =
        map_page-Returns fuel (length (free_frames vm.gmmap)) addr flags vm enough small.0
          supplied in
      (
        r.after,
        r.returns,
        elim (no_frames (free_frames r.after.gmmap)) [
          | inl none_left ↦ inl none_left
          | inr left ↦
              let g =
                map_page-grows Allowed identity fuel addr flags ps vm r.after small low tree
                  r.returns left in
              inr (record {
                places = g.grown.places;
                tree = g.grown.tree;
                stays = walk-kept Allowed ps vm r.after tree g.grown;
                page = g.page;
                walked = g.walked;
                allowed = g.allowed;
              })
        ],
      )
    where
      no_frames : (fs : List ℕ) → (fs ≡ []) ⊎ (fs ≢ [])
      no_frames [] = inl refl
      no_frames (f ∷ fs) = inr (λ e. cc e)
