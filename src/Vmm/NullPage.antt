-- ===== src/Vmm/NullPage.antt =====
-- `map_page` of the page at 0 (kernel/src/arch/memory/vmm.c) when no frame is left: the calls
-- whose result is exact.
use faceless_os.Base.{
  ℕ, suc, ◌%◌, ◌≤◌, ◌<◌, ◌≡◌, refl, ◌≢◌, true, false, arith, Option, some, ◌∙◌, ap,
}
use faceless_os.Vmm.{
  Vm, get_entry, is_present, next_table, map_page, set_leaf, set_entry, make_entry,
}
use faceless_os.Vmm.Map.{with_present, with_present_odd}
use faceless_os.Vmm.Wipe.{wiped}
use faceless_os.Vmm.Supply.{Supplied, Returns, Returns-some, Supplied-set_leaf, alloc-none}
use faceless_os.Vmm.Null.{
  null_table, Route, map_page-Route, first_entry, made, kept, second_missing, third_missing,
}

set_leaf-present :
    (table flags : ℕ) (vm : Vm)
    → is_present (get_entry vm.mem table 0) ≡ true
    → set_leaf table 0 0 flags vm ≡ vm
unfolding set_leaf
set_leaf-present table flags vm p = rw p

pub Supplied-null_table :
    (vm : Vm) (table flags : ℕ) → Supplied 0 vm → Supplied 0 (null_table vm table flags)
Supplied-null_table vm table flags s =
    (alloc-none vm (set_entry (wiped 0 vm.mem) table 0 (make_entry 0 flags)) s).1

pub Returns-set_leaf :
    (table idx flags : ℕ) (vm : Vm) (r : Option Vm)
    → r ≡ some (set_leaf table idx 0 flags vm)
    → Supplied 0 vm
    → Returns 0 r
Returns-set_leaf table idx flags vm r e s =
    rw e (Returns-some 0 _ (Supplied-set_leaf 0 table idx 0 flags vm s))

pub with_present-small : (flags : ℕ) → flags < 0x1000 → with_present flags < 0x1000
with_present-small flags h = omega (arith, with_present_odd flags h)

-- The state after a missing table has become the page at 0.
abbrev pub after : (flags : ℕ) → Vm → ℕ → Vm
after flags vm table = null_table vm table (with_present flags)

module _ (flags : ℕ) (vm : Vm) (small : flags < 0x1000) (s : Supplied 0 vm) where
  pub not_null : vm.pml4 ≢ 0
  not_null = omega (arith, s.above)

  -- The top entry stays where the page at 0 or a table with a missing entry is filled.
  pub top_kept :
      (table : ℕ)
      → table % 0x1000 ≡ 0
      → vm.pml4 ≢ table
      → first_entry (after flags vm table) vm.pml4 ≡ first_entry vm vm.pml4
  top_kept table p ne = kept flags vm small table vm.pml4 p s.paged s.above ne

  -- The page at 0 is the second table, and its first entry is missing.
  pub second_null :
      (fuel : ℕ)
      → is_present (first_entry vm vm.pml4) ≡ true
      → next_table (first_entry vm vm.pml4) ≡ 0
      → is_present (first_entry vm 0) ≡ false
      → map_page (suc (suc fuel)) 0 flags vm ≡ some (after flags vm 0)
  second_null fuel p n a =
      let (there, leads) = made flags vm small 0 in
      let top = top_kept 0 refl not_null in
      let path : Route (after flags vm 0) 0 0 0 = record {
        is_there = (rw top p, there, there);
        leads = (rw top n, leads, leads);
      } in
      let inner = map_page-Route fuel (with_present flags) (after flags vm 0) 0 0 0 path there in
      second_missing (suc fuel) flags vm s 0 (after flags vm 0) p n a inner 0 leads there
      ∙ rw leads (ap some (set_leaf-present 0 (with_present flags) (after flags vm 0) there))

  -- The page at 0 is the third table, and its first entry is missing.
  pub third_null :
      (fuel t1 : ℕ)
      → 0x1000 ≤ t1
      → t1 % 0x1000 ≡ 0
      → is_present (first_entry vm vm.pml4) ≡ true
      → next_table (first_entry vm vm.pml4) ≡ t1
      → is_present (first_entry vm t1) ≡ true
      → next_table (first_entry vm t1) ≡ 0
      → is_present (first_entry vm 0) ≡ false
      → map_page (suc (suc fuel)) 0 flags vm ≡ some (after flags vm 0)
  third_null fuel t1 above q p n p1 n1 a =
      let (there, leads) = made flags vm small 0 in
      let top = top_kept 0 refl not_null in
      let mid = kept flags vm small 0 t1 refl q above (omega arith) in
      let path : Route (after flags vm 0) t1 0 0 = record {
        is_there = (rw top p, rw mid p1, there);
        leads = (rw top n, rw mid n1, leads);
      } in
      let inner = map_page-Route fuel (with_present flags) (after flags vm 0) t1 0 0 path there in
      third_missing (suc fuel) flags vm s t1 0 (after flags vm 0) p n p1 n1 a inner
      ∙ rw leads (ap some (set_leaf-present 0 (with_present flags) (after flags vm 0) there))
