-- ===== src/Vmm/Supply.antt =====
-- What `map_page` (kernel/src/arch/memory/vmm.c) needs of the frame allocator to return, and how its
-- steps keep it.
use faceless_os.Base.{
  ℕ, suc, ◌%◌, ◌-◌, ◌≤◌, ◌<◌, ◌≡◌, ◌⊎◌, refl, [], ◌∷◌, List, length, Option, some, All, arith,
  Bool-cases, inl, inr, ap,
}
use faceless_os.Machine.Memory.{Mem}
use faceless_os.Pmm.{pmm_alloc}
use faceless_os.Pmm.Refine.{free_frames, IsAligned, head_or_null, tail, pmm_alloc-free_frames}
use faceless_os.Vmm.{Vm, get_entry, is_present, set_leaf, ◌>>=?◌}

-- The allocator has at most `n` frames left, all of them whole, and the top table is a page that is
-- not the first one.
pub record Supplied (n : ℕ) (vm : Vm) : Type 0 where
  pub whole : All IsAligned vm.gmmap
  pub left : length (free_frames vm.gmmap) ≤ n
  pub above : 0x1000 ≤ vm.pml4
  pub paged : vm.pml4 % 0x1000 ≡ 0

pub record Returns (n : ℕ) (r : Option Vm) : Type 0 where
  pub after : Vm
  pub returns : r ≡ some after
  pub supplied : Supplied n after

pub Supplied-weaken : (k n : ℕ) (vm : Vm) → k ≤ n → Supplied k vm → Supplied n vm
Supplied-weaken k n vm le s = record {
  whole = s.whole;
  left = omega (arith, s.left);
  above = s.above;
  paged = s.paged;
}

pub Returns-weaken : (k n : ℕ) (r : Option Vm) → k ≤ n → Returns k r → Returns n r
Returns-weaken k n r le h = record {
  after = h.after;
  returns = h.returns;
  supplied = Supplied-weaken k n h.after le h.supplied;
}

pub Returns-some : (n : ℕ) (vm : Vm) → Supplied n vm → Returns n (some vm)
Returns-some n vm s = record { after = vm; returns = refl; supplied = s }

pub Returns-bind :
    (n : ℕ) (r : Option Vm) (k : Vm → Option Vm)
    → Returns n r
    → ((vm : Vm) → Supplied n vm → Returns n (k vm))
    → Returns n (r >>=? k)
Returns-bind n r k h rest = rw h.returns (rest h.after h.supplied)

pub Supplied-set_leaf :
    (n table idx addr flags : ℕ) (vm : Vm)
    → Supplied n vm
    → Supplied n (set_leaf table idx addr flags vm)
unfolding set_leaf
Supplied-set_leaf n table idx addr flags vm s =
    elim (Bool-cases (is_present (get_entry vm.mem table idx))) [
      | inl e ↦ rw e s
      | inr e ↦ rw e (record { whole = s.whole; left = s.left; above = s.above; paged = s.paged })
    ]

-- The state after an allocation, with the memory replaced.
abbrev pub allocated : Vm → Mem → Vm
allocated vm m = record vm { mem = m; gmmap = (pmm_alloc vm.gmmap).1 }

module _ (vm : Vm) (m : Mem) where
  left_after :
      (n : ℕ) (fs : List ℕ)
      → free_frames vm.gmmap ≡ fs
      → Supplied n vm
      → Supplied (length (tail fs)) (allocated vm m) × ((pmm_alloc vm.gmmap).0 ≡ head_or_null fs)
  left_after n fs e s =
      let (null, rest, a) = pmm_alloc-free_frames vm.gmmap s.whole in
      (
        record { whole = a; left = rw (rest, e) (omega arith); above = s.above; paged = s.paged },
        rw e at null,
      )

  -- An allocation takes one frame, or there was none and it returns NULL.
  pub alloc-cases :
      (n : ℕ)
      → Supplied n vm
      → (((pmm_alloc vm.gmmap).0 ≡ 0) × Supplied 0 (allocated vm m))
        ⊎ ((k : ℕ) × (n ≡ suc k) × Supplied k (allocated vm m))
  alloc-cases n s = split (free_frames vm.gmmap) refl
    where
      split :
          (fs : List ℕ)
          → free_frames vm.gmmap ≡ fs
          → (((pmm_alloc vm.gmmap).0 ≡ 0) × Supplied 0 (allocated vm m))
            ⊎ ((k : ℕ) × (n ≡ suc k) × Supplied k (allocated vm m))
      split [] e = let (after, null) = left_after n [] e s in inl (null, after)
      split (f ∷ fs) e =
          let (after, _) = left_after n (f ∷ fs) e s in
          let some_left : suc (length fs) ≤ n = omega (arith, s.left, ap length e) in
          inr (
            n - 1,
            omega arith,
            Supplied-weaken (length fs) (n - 1) (allocated vm m) (omega arith) after,
          )

  -- When there was none, there is none afterwards.
  pub alloc-none : Supplied 0 vm → ((pmm_alloc vm.gmmap).0 ≡ 0) × Supplied 0 (allocated vm m)
  alloc-none s = elim (alloc-cases 0 s) [
    | inl h ↦ h
    | inr h ↦ let bad : 0 < 0 = omega (arith, h.1) in elim bad [ ]
  ]
