-- ===== src/Vmm/Returns.antt =====
-- `map_page` (kernel/src/arch/memory/vmm.c) always returns: its recursion ends.
use faceless_os.Base.{ℕ, zero, suc, ◌+◌, ◌≤◌, ◌<◌, ◌≡◌, sym, inl, inr, arith, Option, Bool-cases}
use mathlib.Core.Path.{subst}
use faceless_os.Text.{memzero_loop}
use faceless_os.Pmm.{pmm_allocz}
use faceless_os.Vmm.{
  Vm, get_entry, set_entry, make_entry, is_present, new_table, ensure_table, map_page,
}
use faceless_os.Vmm.Map.{with_present}
use faceless_os.Vmm.Supply.{
  Supplied, Returns, Returns-some, Returns-bind, Returns-weaken, Supplied-set_leaf, allocated,
  alloc-cases,
}
use faceless_os.Vmm.NullPage.{with_present-small}
use faceless_os.Vmm.Exhausted.{map_page-null}

-- What a step needs of the recursive call: it returns where a frame has been taken, and where none
-- was left it returns for the page at 0.
record Recurs (map : ℕ → Vm → Option Vm) (n : ℕ) : Type 0 where
  taken : (k : ℕ) → n ≡ suc k → (a : ℕ) (vm : Vm) → Supplied k vm → Returns k (map a vm)
  empty : (vm : Vm) → Supplied 0 vm → Returns 0 (map 0 vm)

module _ (map : ℕ → Vm → Option Vm) (n : ℕ) (recurs : Recurs map n) (table idx flags : ℕ) (vm : Vm)
    (s : Supplied n vm) where
  -- The state in which the new table is mapped.
  abbrev linked : Vm
  linked =
      let a = pmm_allocz vm.gmmap vm.mem in
      allocated vm
        (set_entry (memzero_loop 0x1000 a.alloc a.mem) table idx (make_entry a.alloc flags))

  new_table-Returns : Returns n (new_table map table idx flags vm)
  unfolding new_table pmm_allocz
  new_table-Returns = elim (alloc-cases vm linked.mem n s) [
    | inl (null, after) ↦
        Returns-weaken 0 n _ (omega arith)
          (subst (λ a. Returns 0 (map a linked)) (sym null) (recurs.empty linked after))
    | inr (k, e, after) ↦ Returns-weaken k n _ (omega arith) (recurs.taken k e _ linked after)
  ]

  ensure_table-Returns : Returns n (ensure_table map table idx flags vm)
  unfolding ensure_table
  ensure_table-Returns = elim (Bool-cases (is_present (get_entry vm.mem table idx))) [
    | inl p ↦ rw p (Returns-some n vm s)
    | inr a ↦ rw a new_table-Returns
  ]

map_page-null_at :
    (fuel flags : ℕ) (vm : Vm)
    → 3 ≤ fuel
    → flags < 0x1000
    → Supplied 0 vm
    → Returns 0 (map_page fuel 0 flags vm)
map_page-null_at (suc (suc (suc fuel))) flags vm le small s = map_page-null fuel flags vm small s
map_page-null_at (suc (suc zero)) flags vm le small s = absurd (omega arith)
map_page-null_at (suc zero) flags vm le small s = absurd (omega arith)
map_page-null_at zero flags vm le small s = absurd (omega arith)

-- Where the usable memory is whole frames, the top table is a page other than the first one, and
-- the flags have 12 bits, `map_page` of any address returns in a fuel of four more than the
-- frames that are left, whatever the memory holds. It also returns when the frames run out on the
-- way. Of frames there are not more afterwards, and what it needs holds again.
pub map_page-Returns :
    (fuel n logical flags : ℕ) (vm : Vm)
    → n + 4 ≤ fuel
    → flags < 0x1000
    → Supplied n vm
    → Returns n (map_page fuel logical flags vm)
unfolding map_page
map_page-Returns zero n logical flags vm le small s = absurd (omega arith)
map_page-Returns (suc fuel) n logical flags vm le small s =
    let small' = with_present-small flags small in
    let recurs : Recurs (λ t. map_page fuel t (with_present flags)) n = record {
      taken = λ k e a vm' s'.
          map_page-Returns fuel k a (with_present flags) vm' (omega arith) small' s';
      empty = λ vm' s'. map_page-null_at fuel (with_present flags) vm' (omega arith) small' s';
    } in
    Returns-bind n _ _ (ensure_table-Returns _ n recurs _ _ _ vm s) (λ vm1 s1.
      Returns-bind n _ _ (ensure_table-Returns _ n recurs _ _ _ vm1 s1) (λ vm2 s2.
        Returns-bind n _ _ (ensure_table-Returns _ n recurs _ _ _ vm2 s2)
          (λ vm3 s3. Returns-some n _ (Supplied-set_leaf n _ _ _ _ vm3 s3))))
