-- ===== src/Vmm/Shrink.antt =====
-- `map_page` (kernel/src/arch/memory/vmm.c) gives no frame back to the allocator.
use faceless_os.Base.{
  ℕ, zero, suc, ◌≤◌, ◌≡◌, refl, inl, inr, arith, List, [], ◌∷◌, length, All, Option, none, some,
  Bool-cases, ap, ◌∙◌, sym,
}
use mathlib.Core.Path.{subst}
use faceless_os.Pmm.{pmm_allocz}
use faceless_os.Pmm.Refine.{free_frames, IsAligned, tail, pmm_alloc-free_frames}
use faceless_os.Vmm.{
  Vm, get_entry, is_present, new_table, ensure_table, set_leaf, map_page, ◌>>=?◌, next_table,
  pml4_idx, pdpt_idx, pd_idx, pt_idx,
}
use faceless_os.Vmm.Map.{with_present}
use faceless_os.Machine.Io.{u64}

-- A chain of two calls that returns: what the first one returned.
module _ {A B : Type 0} where
  pub bind-some :
      (r : Option A) (k : A → Option B) (after : B)
      → (r >>=? k) ≡ some after
      → (a : A) × (r ≡ some a) × (k a ≡ some after)
  bind-some none k after e = absurd (cc e)
  bind-some (some a) k after e = (a, refl, e)

pub some-injective : {A : Type 0} (a b : A) → some a ≡ some b → a ≡ b
some-injective a b e = ap (λ o. elim o [ none ↦ a | some x ↦ x ]) e

-- If a call returns, there are not more frames afterwards, and they are whole.
abbrev pub Shrinks : Vm → Option Vm → Type 0
Shrinks vm r =
    (after : Vm)
    → r ≡ some after
    → All IsAligned after.gmmap × (length (free_frames after.gmmap) ≤ length (free_frames vm.gmmap))

pub set_leaf-gmmap :
    (table idx addr flags : ℕ) (vm : Vm) → (set_leaf table idx addr flags vm).gmmap ≡ vm.gmmap
unfolding set_leaf
set_leaf-gmmap table idx addr flags vm =
    elim (Bool-cases (is_present (get_entry vm.mem table idx))) [ inl p ↦ rw p | inr a ↦ rw a ]

length-tail : (fs : List ℕ) → length (tail fs) ≤ length fs
length-tail [] = omega arith
length-tail (f ∷ fs) = omega arith

module _ (map : ℕ → Vm → Option Vm)
    (shrinks : (a : ℕ) (vm : Vm) → All IsAligned vm.gmmap → Shrinks vm (map a vm)) where
  new_table-Shrinks :
      (table idx flags : ℕ) (vm : Vm)
      → All IsAligned vm.gmmap
      → Shrinks vm (new_table map table idx flags vm)
  unfolding new_table pmm_allocz
  new_table-Shrinks table idx flags vm whole after e =
      let (_, fs, a) = pmm_alloc-free_frames vm.gmmap whole in
      let (whole', le) = shrinks _ _ a after e in
      (whole', omega (arith, le, ap length fs, length-tail (free_frames vm.gmmap)))

  pub ensure_table-Shrinks :
      (table idx flags : ℕ) (vm : Vm)
      → All IsAligned vm.gmmap
      → Shrinks vm (ensure_table map table idx flags vm)
  unfolding ensure_table
  ensure_table-Shrinks table idx flags vm whole after e =
      elim (Bool-cases (is_present (get_entry vm.mem table idx))) [
        | inl p ↦
            let same = some-injective vm after (rw p at e) in
            subst
              (λ v.
                All IsAligned v.gmmap
                × (length (free_frames v.gmmap) ≤ length (free_frames vm.gmmap)))
              same (whole, omega arith)
        | inr a ↦ new_table-Shrinks table idx flags vm whole after (rw a at e)
      ]

-- The recursive call.
abbrev pub recur : (fuel flags : ℕ) → ℕ → Vm → Option Vm
recur fuel flags table vm = map_page fuel table (with_present flags) vm

-- The states between the steps of a call that returns.
pub record Rounds (fuel addr flags : ℕ) (vm after : Vm) : Type 0 where
  pub vm1 : Vm
  pub first :
      ensure_table (recur fuel flags) vm.pml4 (pml4_idx (u64 addr)) (with_present flags) vm
      ≡ some vm1
  pub pdpt : ℕ
  pub pdpt_is : next_table (get_entry vm1.mem vm1.pml4 (pml4_idx (u64 addr))) ≡ pdpt
  pub vm2 : Vm
  pub second :
      ensure_table (recur fuel flags) pdpt (pdpt_idx (u64 addr)) (with_present flags) vm1 ≡ some vm2
  pub pdt : ℕ
  pub pdt_is : next_table (get_entry vm2.mem pdpt (pdpt_idx (u64 addr))) ≡ pdt
  pub vm3 : Vm
  pub third :
      ensure_table (recur fuel flags) pdt (pd_idx (u64 addr)) (with_present flags) vm2 ≡ some vm3
  pub pt : ℕ
  pub pt_is : next_table (get_entry vm3.mem pdt (pd_idx (u64 addr))) ≡ pt
  pub last : set_leaf pt (pt_idx (u64 addr)) (u64 addr) (with_present flags) vm3 ≡ after

pub map_page-Rounds :
    (fuel addr flags : ℕ) (vm after : Vm)
    → map_page (suc fuel) addr flags vm ≡ some after
    → Rounds fuel addr flags vm after
unfolding map_page
map_page-Rounds fuel addr flags vm after e =
    let (vm1, e1, rest1) = bind-some _ _ after e in
    let (vm2, e2, rest2) = bind-some _ _ after rest1 in
    let (vm3, e3, rest3) = bind-some _ _ after rest2 in
    record {
      vm1 = vm1;
      first = e1;
      pdpt = _;
      pdpt_is = refl;
      vm2 = vm2;
      second = e2;
      pdt = _;
      pdt_is = refl;
      vm3 = vm3;
      third = e3;
      pt = _;
      pt_is = refl;
      last = some-injective _ after rest3;
    }

pub map_page-Shrinks :
    (fuel logical flags : ℕ) (vm : Vm)
    → All IsAligned vm.gmmap
    → Shrinks vm (map_page fuel logical flags vm)
map_page-Shrinks zero logical flags vm whole after e = absurd (unfold map_page in cc e)
map_page-Shrinks (suc fuel) logical flags vm whole after e =
    let shrinks : (a : ℕ) (v : Vm) → All IsAligned v.gmmap → Shrinks v (recur fuel flags a v) =
      λ a v w. map_page-Shrinks fuel a (with_present flags) v w in
    let r = map_page-Rounds fuel logical flags vm after e in
    let (w1, le1) = ensure_table-Shrinks _ shrinks _ _ _ vm whole r.vm1 r.first in
    let (w2, le2) = ensure_table-Shrinks _ shrinks _ _ _ r.vm1 w1 r.vm2 r.second in
    let (w3, le3) = ensure_table-Shrinks _ shrinks _ _ _ r.vm2 w2 r.vm3 r.third in
    let same = sym (set_leaf-gmmap r.pt _ _ _ r.vm3) ∙ ap (λ v. v.gmmap) r.last in
    subst (λ g. All IsAligned g × (length (free_frames g) ≤ length (free_frames vm.gmmap))) same
      (w3, omega (arith, le1, le2, le3))
