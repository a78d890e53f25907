-- ===== src/Kheap/Full.antt =====
-- `kmalloc` (kernel/src/arch/memory/kheap.c) where there is no room.
use faceless_os.Base.{
  ℕ, ◌+◌, ◌*◌, ◌^◌, ◌≤◌, ◌<◌, ◌≡◌, ◌⊎◌, inl, inr, List, [], ◌∷◌, ◌++◌, Option, some, arith, length,
  All, ltb, true,
}
use faceless_os.Machine.Io.{u64}
use faceless_os.Vmm.{Vm}
use faceless_os.Kheap.{
  Heap, kheap_limit, kheap_start, kheap_end, block_size, is_free, after_search, append_block,
  take_block, kmalloc,
}
use faceless_os.Kheap.Chain.{Chain, first_free-no_hole}
use faceless_os.Kheap.Alloc.{Maps, mapped, kmalloc-fit_mapped, kmalloc-limit, fit_mapped-search}

-- The last block lies too near the end of the heap, and no block is free.
pub record IsFull (fuel : ℕ) (vm : Vm) : Type 0 where
  pub before : List ℕ
  pub last : ℕ
  pub chain : Chain vm.mem kheap_start (before ++ last ∷ [])
  pub enough : length (before ++ last ∷ []) < fuel
  pub used : All (λ q. is_free vm.mem q ≡ 0) (before ++ last ∷ [])
  pub near : (kheap_end < last + 900) × (last + 900 < 2 ^ 64)

module _ (map_page : ℕ → ℕ → Vm → Option Vm) (fuel sz : ℕ) (h : Heap) (vm : Vm)
    (page : Maps map_page h vm) where
  append_block-full :
      (last : ℕ)
      → (kheap_end < last + 900) × (last + 900 < 2 ^ 64)
      → append_block last sz (mapped h vm) ≡ (0, mapped h vm)
  unfolding append_block
  append_block-full last near =
      let test : ltb kheap_end (u64 (last + block_size * block_size)) ≡ true = ground arith in
      rw test

  kmalloc-full :
      h.mem_allocated + sz < kheap_limit
      → IsFull fuel vm
      → kmalloc map_page fuel sz h ≡ some (0, mapped h vm)
  kmalloc-full room full =
      rw
        (
          kmalloc-fit_mapped map_page fuel sz h vm page,
          fit_mapped-search map_page fuel sz h vm page room full.chain full.enough,
          first_free-no_hole vm.mem full.before full.last 0 full.used,
        )
        (unfold after_search take_block in rw (append_block-full full.last full.near))

  -- Where the page can be mapped, `kmalloc` returns NULL, and nothing changes but the mapping, if
  -- the bytes that are allocated and asked for reach the limit, below 2 ^ 64, or if they do not,
  -- no block is free and the last one lies within 900 bytes of the end of the heap.
  pub kmalloc-null :
      ((kheap_limit ≤ h.mem_allocated + sz) × (h.mem_allocated + sz < 2 ^ 64))
        ⊎ ((h.mem_allocated + sz < kheap_limit) × IsFull fuel vm)
      → kmalloc map_page fuel sz h ≡ some (0, mapped h vm)
  kmalloc-null (inl (over, fits)) = kmalloc-limit map_page fuel sz h vm page over fits
  kmalloc-null (inr (room, full)) = kmalloc-full room full
