-- ===== src/Vmm/Exhausted.antt =====
-- `map_page` of the page at 0 (kernel/src/arch/memory/vmm.c) when no frame is left: it always
-- returns.
use faceless_os.Base.{
  ℕ, suc, ◌%◌, ◌≤◌, ◌<◌, ◌≡◌, refl, ◌⊎◌, inl, inr, true, false, arith, Option, Bool-cases, ◌∙◌, sym,
  ap,
}
use faceless_os.Vmm.{Vm, is_present, next_table, map_page}
use faceless_os.Vmm.Map.{with_present, map_page-set_leaf}
use faceless_os.Vmm.Supply.{Supplied, Returns, Returns-some, Supplied-set_leaf}
use faceless_os.Vmm.Null.{
  Route, Route-HasTables, next_table-paged, page-cases, first_entry, made, kept, emptied, apart,
  first_missing, second_missing, third_missing,
}
use faceless_os.Vmm.NullPage.{
  Supplied-null_table, Returns-set_leaf, with_present-small, after, not_null, top_kept, second_null,
  third_null,
}

-- The page at 0 is mapped in at most three rounds when no frame is left.
module _ (fuel flags : ℕ) (vm : Vm) (small : flags < 0x1000) (s : Supplied 0 vm) where
  abbrev flags' : ℕ
  flags' = with_present flags

  small' : flags' < 0x1000
  small' = with_present-small flags small

  s' : (table : ℕ) → Supplied 0 (after flags vm table)
  s' table = Supplied-null_table vm table flags' s

  abbrev result : Option Vm
  result = map_page (suc (suc (suc fuel))) 0 flags vm

  top_missing : is_present (first_entry vm vm.pml4) ≡ false → Returns 0 result
  top_missing a =
      let (there, leads) = made flags vm small vm.pml4 in
      let empty = emptied flags vm small vm.pml4 s.paged (not_null flags vm small s) in
      let inner =
        second_null flags' (after flags vm vm.pml4) small' (s' vm.pml4) fuel there leads empty in
      let (there', leads') = made flags' (after flags vm vm.pml4) small' 0 in
      let top =
        top_kept flags' (after flags vm vm.pml4) small' (s' vm.pml4) 0 refl
          (not_null flags vm small s) in
      let path : Route (after flags' (after flags vm vm.pml4) 0) 0 0 0 = record {
        is_there = (rw top there, there', there');
        leads = (rw top leads, leads', leads');
      } in
      Returns-set_leaf _ _ _ _ result
        (first_missing (suc (suc fuel)) flags vm s (after flags' (after flags vm vm.pml4) 0) a inner
          (Route-HasTables (after flags' (after flags vm vm.pml4) 0) 0 0 0 path))
        (Supplied-null_table (after flags vm vm.pml4) 0 (with_present flags') (s' vm.pml4))

  abbrev t1 : ℕ
  t1 = next_table (first_entry vm vm.pml4)

  abbrev t2 : ℕ
  t2 = next_table (first_entry vm t1)

  t1-paged : t1 % 0x1000 ≡ 0
  t1-paged = next_table-paged (first_entry vm vm.pml4)

  t2-paged : t2 % 0x1000 ≡ 0
  t2-paged = next_table-paged (first_entry vm t1)

  -- The second table is a page above the first one, and its first entry is missing.
  second_above :
      is_present (first_entry vm vm.pml4) ≡ true
      → is_present (first_entry vm t1) ≡ false
      → 0x1000 ≤ t1
      → Returns 0 result
  second_above p a above =
      let (there, leads) = made flags vm small t1 in
      let empty = emptied flags vm small t1 t1-paged (omega arith) in
      let top = top_kept flags vm small s t1 t1-paged (apart vm vm.pml4 t1 p a) in
      let inner =
        third_null flags' (after flags vm t1) small' (s' t1) fuel t1 above t1-paged (rw top p)
          (rw top refl) there leads empty in
      let mid = kept flags' (after flags vm t1) small' 0 t1 refl t1-paged above (omega arith) in
      let (there', _) = made flags' (after flags vm t1) small' 0 in
      Returns-set_leaf _ _ _ _ result
        (second_missing (suc (suc fuel)) flags vm s t1 (after flags' (after flags vm t1) 0) p refl a
          inner 0 (rw mid leads) there')
        (Supplied-null_table (after flags vm t1) 0 (with_present flags') (s' t1))

  -- The second table is the page at 0, and the third is another page with a missing entry.
  third_above :
      is_present (first_entry vm vm.pml4) ≡ true
      → is_present (first_entry vm t1) ≡ true
      → is_present (first_entry vm t2) ≡ false
      → 0x1000 ≤ t2
      → (t1 ≡ 0) ⊎ (0x1000 ≤ t1)
      → Returns 0 result
  third_above p p1 a above (inl null) =
      let top = top_kept flags vm small s t2 t2-paged (apart vm vm.pml4 t2 p a) in
      let empty = emptied flags vm small t2 t2-paged (omega arith) in
      let inner =
        second_null flags' (after flags vm t2) small' (s' t2) fuel (rw top p) (rw top null) empty in
      Returns-set_leaf _ _ _ _ result
        (third_missing (suc (suc fuel)) flags vm s t1 t2 (after flags' (after flags vm t2) 0) p refl
          p1 refl a inner)
        (Supplied-null_table (after flags vm t2) 0 (with_present flags') (s' t2))
  third_above p p1 a above (inr high) =
      let top = top_kept flags vm small s t2 t2-paged (apart vm vm.pml4 t2 p a) in
      let mid = kept flags vm small t2 t1 t2-paged t1-paged high (apart vm t1 t2 p1 a) in
      let (there, leads) = made flags vm small t2 in
      let path : Route (after flags vm t2) t1 t2 0 = record {
        is_there = (rw top p, rw mid p1, there);
        leads = (rw top refl, rw mid refl, leads);
      } in
      let inner =
        map_page-set_leaf (suc fuel) 0 flags' (after flags vm t2) (omega arith)
          (Route-HasTables (after flags vm t2) t1 t2 0 path) in
      Returns-set_leaf _ _ _ _ result
        (third_missing (suc (suc fuel)) flags vm s t1 t2 _ p refl p1 refl a inner)
        (Supplied-set_leaf 0 _ _ 0 _ (after flags vm t2) (s' t2))

  all_there :
      is_present (first_entry vm vm.pml4) ≡ true
      → is_present (first_entry vm t1) ≡ true
      → is_present (first_entry vm t2) ≡ true
      → Returns 0 result
  all_there p p1 p2 =
      let path : Route vm t1 t2 (next_table (first_entry vm t2)) = record {
        is_there = (p, p1, p2);
        leads = (refl, refl, refl);
      } in
      Returns-set_leaf _ _ _ _ result
        (map_page-set_leaf (suc (suc fuel)) 0 flags vm (omega arith)
          (Route-HasTables vm t1 t2 (next_table (first_entry vm t2)) path))
        s

  -- The third table is the page at 0, and its first entry is missing.
  third_is_null :
      is_present (first_entry vm vm.pml4) ≡ true
      → is_present (first_entry vm t1) ≡ true
      → is_present (first_entry vm t2) ≡ false
      → t2 ≡ 0
      → (t1 ≡ 0) ⊎ (0x1000 ≤ t1)
      → Returns 0 result
  third_is_null p p1 a null (inl e) = elim (apart vm t1 t2 p1 a (e ∙ sym null)) [ ]
  third_is_null p p1 a null (inr high) =
      let empty : is_present (first_entry vm 0) ≡ false =
        ap (λ t. is_present (first_entry vm t)) (sym null) ∙ a in
      rw (third_null flags vm small s (suc fuel) t1 high t1-paged p refl p1 null empty)
        (Returns-some 0 (after flags vm 0) (s' 0))

  second_missing_Returns :
      is_present (first_entry vm vm.pml4) ≡ true
      → is_present (first_entry vm t1) ≡ false
      → Returns 0 result
  second_missing_Returns p a = elim (page-cases t1 t1-paged) [
    | inl e ↦
        let empty : is_present (first_entry vm 0) ≡ false =
          ap (λ t. is_present (first_entry vm t)) (sym e) ∙ a in
        rw (second_null flags vm small s (suc fuel) p e empty)
          (Returns-some 0 (after flags vm 0) (s' 0))
    | inr high ↦ second_above p a high
  ]

  third_missing_Returns :
      is_present (first_entry vm vm.pml4) ≡ true
      → is_present (first_entry vm t1) ≡ true
      → is_present (first_entry vm t2) ≡ false
      → Returns 0 result
  third_missing_Returns p p1 a = elim (page-cases t2 t2-paged) [
    | inl e ↦ third_is_null p p1 a e (page-cases t1 t1-paged)
    | inr high ↦ third_above p p1 a high (page-cases t1 t1-paged)
  ]

  pub map_page-null : Returns 0 result
  map_page-null = elim (Bool-cases (is_present (first_entry vm vm.pml4))) [
    | inr a ↦ top_missing a
    | inl p ↦ elim (Bool-cases (is_present (first_entry vm t1))) [
      | inr a ↦ second_missing_Returns p a
      | inl p1 ↦ elim (Bool-cases (is_present (first_entry vm t2))) [
        | inr a ↦ third_missing_Returns p p1 a
        | inl p2 ↦ all_there p p1 p2
      ]
    ]
  ]
