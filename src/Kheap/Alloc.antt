-- ===== src/Kheap/Alloc.antt =====
-- `kmalloc` (kernel/src/arch/memory/kheap.c) on every branch.
use faceless_os.Base.{
  ℕ, ◌+◌, ◌-◌, ◌*◌, ◌^◌, ◌≤◌, ◌<◌, ◌≡◌, refl, ◌≢◌, ◌⊎◌, List, [], ◌∷◌, ◌++◌, Option, none, some,
  arith, length, All, ◌==◌, leb, ltb, ap, false,
}
use faceless_os.Machine.Memory.{store, read_le-write_le_self}
use faceless_os.Machine.Io.{u64}
use faceless_os.Vmm.{Vm}
use faceless_os.Kheap.{
  Heap, kheap_limit, kheap_start, kheap_end, kheap_magic, data_start, block_size, no_hole, is_free,
  next, size, magic, set_is_free, set_next, mem_of, with_mem, append_block, after_search,
  fit_mapped, take_block, first_fit, kmalloc,
}
use faceless_os.Kheap.Append.{
  sized_mem, appended_mem, next-sized_mem, next-appended_mem, next-appended_mem_new,
  flag-appended_mem_last, magic-appended_mem_last, size-appended_mem, magic-appended_mem,
  appended_mem_outside,
}
use faceless_os.Kheap.Chain.{
  Chain, first_free, search_loop-first_free, first_free-hole, first_free-no_hole,
}

-- The state after the call of `map_page`.
abbrev pub mapped : Heap → Vm → Heap
mapped h vm = record h { vm = vm }

-- A call whose page can be mapped.
pub record Maps (map_page : ℕ → ℕ → Vm → Option Vm) (h : Heap) (vm : Vm) : Type 0 where
  pub maps : map_page (u64 (kheap_start + h.mem_allocated)) 3 h.vm ≡ some vm

module _ (map_page : ℕ → ℕ → Vm → Option Vm) (fuel sz : ℕ) (h : Heap) (vm : Vm)
    (page : Maps map_page h vm) where
  pub kmalloc-fit_mapped :
      kmalloc map_page fuel sz h
      ≡ (elim (fit_mapped fuel sz (mapped h vm)) [ none ↦ none | some r ↦ some (take_block sz r) ])
  unfolding kmalloc first_fit
  kmalloc-fit_mapped = rw (page.maps, kmalloc, first_fit)

  -- Where the page can be mapped and the bytes that are allocated and asked for reach the limit,
  -- below 2 ^ 64, `kmalloc` returns NULL, and nothing changes but the mapping.
  pub kmalloc-limit :
      kheap_limit ≤ h.mem_allocated + sz
      → h.mem_allocated + sz < 2 ^ 64
      → kmalloc map_page fuel sz h ≡ some (0, mapped h vm)
  kmalloc-limit full fits = rw kmalloc-fit_mapped (unfold fit_mapped take_block in ground arith)

  pub fit_mapped-search :
      {ps : List ℕ}
      → h.mem_allocated + sz < kheap_limit
      → Chain vm.mem kheap_start ps
      → length ps < fuel
      → fit_mapped fuel sz (mapped h vm)
        ≡ some (after_search (first_free vm.mem ps 0) sz (mapped h vm))
  unfolding fit_mapped
  fit_mapped-search room chain enough =
      let below : leb kheap_limit (u64 (h.mem_allocated + sz)) ≡ false = ground arith in
      rw (below, search_loop-first_free fuel 0 chain enough)

  -- Where the page can be mapped, the limit is not reached, and a chain of blocks shorter than
  -- the fuel has a free one, the first free block is taken, whatever its size and the size that
  -- is asked for: its data is returned, its flag is cleared, and no other byte changes.
  pub kmalloc-hole :
      (before : List ℕ) (p : ℕ) (after : List ℕ)
      → h.mem_allocated + sz < kheap_limit
      → Chain vm.mem kheap_start (before ++ p ∷ after)
      → length (before ++ p ∷ after) < fuel
      → All (λ q. is_free vm.mem q ≡ 0) before
      → is_free vm.mem p ≢ 0
      → p ≢ 0
      → kmalloc map_page fuel sz h
        ≡ some (
          p + data_start,
          record {
            vm = record vm { mem = store vm.mem p 0 };
            mem_allocated = h.mem_allocated + sz;
          },
        )
  kmalloc-hole before p after room chain enough used free real =
      let found = fit_mapped-search room chain enough in
      let first = first_free-hole vm.mem before p after 0 used free in
      let test : (p == 0) ≡ false = ground arith in
      let sum : u64 (h.mem_allocated + sz) ≡ h.mem_allocated + sz = omega arith in
      rw (kmalloc-fit_mapped, found, first)
        (unfold after_search take_block set_is_free in rw (test, sum))

  -- Where the new block goes: as many bytes above the start of the heap as are allocated then.
  abbrev new_block : ℕ
  new_block = kheap_start + h.mem_allocated + sz

  -- The state after an allocation that appends a block behind `last`.
  pub record Appended (last : ℕ) (r : Option (ℕ × Heap)) : Type 0 where
    pub after : Heap
    pub returns : r ≡ some (new_block + data_start, after)
    pub allocated : after.mem_allocated ≡ h.mem_allocated + sz
    pub linked : next (mem_of after) last ≡ new_block
    pub sized : size (mem_of after) last ≡ sz
    pub marked :
        (magic (mem_of after) new_block ≡ kheap_magic) × (is_free (mem_of after) new_block ≡ 0)
    pub last_kept :
        (is_free (mem_of after) last ≡ is_free vm.mem last)
        × (magic (mem_of after) last ≡ magic vm.mem last)
    pub unlinked : next (mem_of after) new_block ≡ next vm.mem new_block
    pub others :
        (a : ℕ)
        → (a < last) ⊎ (last + block_size ≤ a)
        → (a < new_block) ⊎ (new_block + block_size ≤ a)
        → mem_of after a ≡ vm.mem a

  append_block-sized_mem :
      (last : ℕ)
      → h.mem_allocated + sz < kheap_limit
      → last + 900 ≤ kheap_end
      → (last + block_size ≤ new_block) ⊎ (new_block + block_size ≤ last)
      → append_block last sz (mapped h vm)
        ≡ (new_block, with_mem (mapped h vm) (sized_mem vm.mem last new_block sz))
  unfolding append_block
  append_block-sized_mem last room below apart =
      let whole : u64 (kheap_start + h.mem_allocated + sz) ≡ new_block = omega arith in
      let test : ltb kheap_end (u64 (last + block_size * block_size)) ≡ false = ground arith in
      let first : next (set_next vm.mem last new_block) last ≡ new_block =
        unfold next set_next in read_le-write_le_self vm.mem (last + 1) 8 new_block (omega arith) in
      rw (whole, test, first)
        (ap (λ (b : ℕ). (b, with_mem (mapped h vm) (sized_mem vm.mem last new_block sz)))
          (next-sized_mem vm.mem last new_block sz apart (omega arith) (omega arith)))

  -- Where the page can be mapped, the limit is not reached, the blocks form a chain shorter than
  -- the fuel in which none is free, the last block lies at least 900 bytes below the end of the
  -- heap, and the header of the new block lies apart from that of the last block, `kmalloc`
  -- returns the data of the new block. The last block points to it and has its size, it is marked
  -- as a block in use with the link that the memory held, and no byte outside the two headers
  -- changes.
  pub kmalloc-Appended :
      (before : List ℕ) (last : ℕ)
      → h.mem_allocated + sz < kheap_limit
      → Chain vm.mem kheap_start (before ++ last ∷ [])
      → length (before ++ last ∷ []) < fuel
      → All (λ q. is_free vm.mem q ≡ 0) (before ++ last ∷ [])
      → last + 900 ≤ kheap_end
      → (last + block_size ≤ new_block) ⊎ (new_block + block_size ≤ last)
      → Appended last (kmalloc map_page fuel sz h)
  kmalloc-Appended before last room chain enough used below apart = record {
    after = record {
      vm = record vm { mem = appended_mem vm.mem last new_block sz };
      mem_allocated = h.mem_allocated + sz;
    };
    returns = rw (kmalloc-fit_mapped, found, end) done;
    allocated = refl;
    linked = next-appended_mem vm.mem last new_block sz apart (omega arith) (omega arith);
    sized = size-appended_mem vm.mem last new_block sz apart (omega arith) (omega arith);
    marked = (
      magic-appended_mem vm.mem last new_block sz apart (omega arith) (omega arith),
      unfold is_free in ground arith,
    );
    last_kept = (
      unfold is_free in
          flag-appended_mem_last vm.mem last new_block sz apart (omega arith) (omega arith),
      magic-appended_mem_last vm.mem last new_block sz apart (omega arith) (omega arith),
    );
    unlinked = next-appended_mem_new vm.mem last new_block sz apart (omega arith) (omega arith);
    others = appended_mem_outside vm.mem last new_block sz apart (omega arith) (omega arith);
  }
    where
      found :
          fit_mapped fuel sz (mapped h vm)
          ≡ some (after_search (first_free vm.mem (before ++ last ∷ []) 0) sz (mapped h vm))
      found = fit_mapped-search room chain enough

      end : first_free vm.mem (before ++ last ∷ []) 0 ≡ no_hole last
      end = first_free-no_hole vm.mem before last 0 used

      done :
          some (take_block sz (after_search (no_hole last) sz (mapped h vm)))
          ≡ some (
            new_block + data_start,
            record {
              vm = record vm { mem = appended_mem vm.mem last new_block sz };
              mem_allocated = h.mem_allocated + sz;
            },
          )
      done =
          let test : (new_block == 0) ≡ false = ground arith in
          let sum : u64 (h.mem_allocated + sz) ≡ h.mem_allocated + sz = omega arith in
          unfold after_search take_block set_is_free in
          rw (append_block-sized_mem last room below apart, test, sum)

  -- Behind a single block in use, where the page can be mapped, the limit is not reached, and at
  -- least the size of a header is allocated and asked for, a request for fewer than 29 bytes
  -- returns a block whose header overlaps the bytes that are allocated behind the header of the
  -- first block.
  pub kmalloc-overlap :
      h.mem_allocated + sz < kheap_limit
      → Chain vm.mem kheap_start (kheap_start ∷ [])
      → 1 < fuel
      → is_free vm.mem kheap_start ≡ 0
      → block_size ≤ h.mem_allocated + sz
      → sz < data_start
      → (address : ℕ) × (after : Heap) × (kmalloc map_page fuel sz h ≡ some (address, after))
        × (kheap_start + data_start < address - data_start + block_size)
        × (address - data_start < kheap_start + data_start + h.mem_allocated)
  kmalloc-overlap room chain enough used apart small =
      let r =
        kmalloc-Appended [] kheap_start room chain enough (used, tt) (omega arith) (omega arith) in
      (new_block + data_start, r.after, r.returns, omega arith, omega arith)
