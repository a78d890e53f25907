-- ===== src/Kheap/Append.antt =====
-- The memory after a block has been appended to the heap (kernel/src/arch/memory/kheap.c).
use faceless_os.Base.{ℕ, ◌+◌, ◌^◌, ◌≤◌, ◌<◌, ◌≡◌, ◌⊎◌, arith, ◌∙◌}
use faceless_os.Machine.Memory.{
  Mem, store, write_le_outside, read_le-write_le_self, read_le-write_le_ne, read_le_same,
}
use faceless_os.Kheap.{block_size, kheap_magic, next, size, magic, set_next, set_size, set_magic}

module _ (m : Mem) (last new sz : ℕ) where
  abbrev pub linked_mem : Mem
  linked_mem = set_magic (set_next m last new) new kheap_magic

  abbrev pub sized_mem : Mem
  sized_mem = set_size linked_mem last sz

  abbrev pub appended_mem : Mem
  appended_mem = store sized_mem new 0

  module _ (apart : (last + block_size ≤ new) ⊎ (new + block_size ≤ last)) (new_fits : new < 2 ^ 64)
      (sz_fits : sz < 2 ^ 64) where
    pub next-sized_mem : next sized_mem last ≡ new
    unfolding next set_size set_magic set_next
    next-sized_mem =
        read_le-write_le_ne linked_mem (last + 1) 8 (last + 17) 8 sz (omega arith)
        ∙ read_le-write_le_ne (set_next m last new) (last + 1) 8 (new + 25) 4 kheap_magic
            (omega arith)
        ∙ read_le-write_le_self m (last + 1) 8 new new_fits

    pub next-appended_mem : next appended_mem last ≡ new
    unfolding next
    next-appended_mem =
        read_le_same appended_mem sized_mem (last + 1) 8 (λ a lo hi. ground arith) ∙ next-sized_mem

    pub size-appended_mem : size appended_mem last ≡ sz
    unfolding size set_size
    size-appended_mem =
        read_le_same appended_mem sized_mem (last + 17) 8 (λ a lo hi. ground arith)
        ∙ read_le-write_le_self linked_mem (last + 17) 8 sz sz_fits

    pub magic-appended_mem : magic appended_mem new ≡ kheap_magic
    unfolding magic set_size set_magic
    magic-appended_mem =
        read_le_same appended_mem sized_mem (new + 25) 4 (λ a lo hi. ground arith)
        ∙ read_le-write_le_ne linked_mem (new + 25) 4 (last + 17) 8 sz (omega arith)
        ∙ read_le-write_le_self (set_next m last new) (new + 25) 4 kheap_magic (omega arith)

    -- The flag and the mark of the last block stay.
    pub flag-appended_mem_last : appended_mem last ≡ m last
    unfolding set_size set_magic set_next
    flag-appended_mem_last =
        (let flag : appended_mem last ≡ sized_mem last = ground arith in flag)
        ∙ write_le_outside linked_mem (last + 17) 8 sz last (omega arith)
        ∙ write_le_outside (set_next m last new) (new + 25) 4 kheap_magic last (omega arith)
        ∙ write_le_outside m (last + 1) 8 new last (omega arith)

    pub magic-appended_mem_last : magic appended_mem last ≡ magic m last
    unfolding magic set_size set_magic set_next
    magic-appended_mem_last = read_le_same appended_mem m (last + 25) 4 (λ a lo hi.
        (let flag : appended_mem a ≡ sized_mem a = ground arith in flag)
        ∙ write_le_outside linked_mem (last + 17) 8 sz a (omega arith)
        ∙ write_le_outside (set_next m last new) (new + 25) 4 kheap_magic a (omega arith)
        ∙ write_le_outside m (last + 1) 8 new a (omega arith))

    -- The link of the new block is not set.
    pub next-appended_mem_new : next appended_mem new ≡ next m new
    unfolding next set_size set_magic set_next
    next-appended_mem_new = read_le_same appended_mem m (new + 1) 8 (λ a lo hi.
        (let flag : appended_mem a ≡ sized_mem a = ground arith in flag)
        ∙ write_le_outside linked_mem (last + 17) 8 sz a (omega arith)
        ∙ write_le_outside (set_next m last new) (new + 25) 4 kheap_magic a (omega arith)
        ∙ write_le_outside m (last + 1) 8 new a (omega arith))

    pub appended_mem_outside :
        (a : ℕ)
        → (a < last) ⊎ (last + block_size ≤ a)
        → (a < new) ⊎ (new + block_size ≤ a)
        → appended_mem a ≡ m a
    unfolding set_size set_magic set_next
    appended_mem_outside a out_last out_new =
        (let flag : appended_mem a ≡ sized_mem a = ground arith in flag)
        ∙ write_le_outside linked_mem (last + 17) 8 sz a (omega arith)
        ∙ write_le_outside (set_next m last new) (new + 25) 4 kheap_magic a (omega arith)
        ∙ write_le_outside m (last + 1) 8 new a (omega arith)
