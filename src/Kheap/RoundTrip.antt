-- ===== src/Kheap/RoundTrip.antt =====
-- `kmalloc` and then `kfree` (kernel/src/arch/memory/kheap.c).
use faceless_os.Base.{
  ℕ, ◌+◌, ◌-◌, ◌^◌, ◌<◌, ◌≡◌, ◌≢◌, refl, true, List, ◌∷◌, ◌++◌, some, arith, length, All, ◌==◌,
  if◌then◌else◌, ◌∙◌, ap, sym, inl, inr, Bool-cases, ==_iff,
}
use faceless_os.Machine.Memory.{store, read_le_same}
use faceless_os.Machine.Io.{Trace, u64}
use faceless_os.Vmm.{Vm}
use faceless_os.Kheap.{
  Heap, kheap_limit, kheap_start, kheap_magic, data_start, is_free, size, magic, mem_of, kmalloc,
  kfree,
}
use faceless_os.Kheap.Chain.{Chain}
use faceless_os.Kheap.Alloc.{Maps, kmalloc-hole}
use faceless_os.Kheap.Free.{kfree-Freed}

module _ (map_page : ℕ → ℕ → Vm → _) (fuel sz : ℕ) (h : Heap) (vm : Vm)
    (page : Maps map_page h vm) where
  abbrev taken : ℕ → Heap
  taken p = record {
    vm = record vm { mem = store vm.mem p 0 };
    mem_allocated = h.mem_allocated + sz;
  }

  size-taken : (p : ℕ) → size (mem_of (taken p)) p ≡ size vm.mem p
  unfolding size
  size-taken p = read_le_same (store vm.mem p 0) vm.mem (p + 17) 8 (λ a lo hi. ground arith)

  magic-taken : (p : ℕ) → magic (mem_of (taken p)) p ≡ magic vm.mem p
  unfolding magic
  magic-taken p = read_le_same (store vm.mem p 0) vm.mem (p + 25) 4 (λ a lo hi. ground arith)

  restored :
      (p a : ℕ) → is_free vm.mem p ≡ 1 → (if a == p then 1 else store vm.mem p 0 a) ≡ vm.mem a
  unfolding is_free
  restored p a free = elim (Bool-cases (a == p)) [
    | inl e ↦ rw e (sym free ∙ ap vm.mem (sym ((==_iff a p).0 e)))
    | inr e ↦ rw e
  ]

  -- Where the page can be mapped, the limit is not reached, and a chain of blocks shorter than
  -- the fuel has a first free block that is marked, below 2 ^ 64, `kmalloc` succeeds, and `kfree`
  -- of what it returns reports nothing and restores every byte of the memory. Of the bytes that
  -- are allocated then, the size in the block is taken off modulo 2 ^ 64: unless it is the size
  -- that was asked for, the count is not what it was, and it wraps where that size is the greater
  -- one of the two.
  pub kfree-kmalloc :
      (before : List ℕ) (p : ℕ) (after : List ℕ) (t : Trace)
      → h.mem_allocated + sz < kheap_limit
      → Chain vm.mem kheap_start (before ++ p ∷ after)
      → length (before ++ p ∷ after) < fuel
      → All (λ q. is_free vm.mem q ≡ 0) before
      → is_free vm.mem p ≡ 1
      → magic vm.mem p ≡ kheap_magic
      → p ≢ 0
      → p + data_start < 2 ^ 64
      → (address : ℕ) × (h1 h2 : Heap) × (kmalloc map_page fuel sz h ≡ some (address, h1))
        × (kfree address h1 t ≡ (h2, t))
        × ((a : ℕ) → mem_of h2 a ≡ vm.mem a)
        × (h2.mem_allocated ≡ u64 (h.mem_allocated + sz + 2 ^ 64 - size vm.mem p))
  kfree-kmalloc before p after t room chain enough used free marked real fits =
      let there : (magic (mem_of (taken p)) p == kheap_magic) ≡ true =
        rw (magic-taken p, marked) refl in
      let freed = kfree-Freed p (taken p) t fits in
      (
        p + data_start,
        taken p,
        (kfree (p + data_start) (taken p) t).0,
        kmalloc-hole map_page fuel sz h vm page before p after room chain enough used
            (omega (arith, free)) real,
        ap (λ t'. ((kfree (p + data_start) (taken p) t).0, t')) (freed.reported ∙ rw there),
        (λ a. freed.flagged a ∙ rw there (restored p a free)),
        freed.allocated ∙ rw (there, size-taken p),
      )
