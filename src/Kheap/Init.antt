-- ===== src/Kheap/Init.antt =====
-- `kheap_init` (kernel/src/arch/memory/kheap.c): the first block.
use faceless_os.Base.{ℕ, ◌≤◌, inr, ◌≡◌, refl, [], ◌∷◌, some, arith, ◌∙◌}
use faceless_os.Machine.Memory.{
  Mem, read_le_same, read_le-write_le_self, read_le-write_le_ne, write_le_outside,
}
use faceless_os.Kheap.{
  Heap, kheap_start, kheap_magic, is_free, next, size, magic, set_is_free, set_next, set_size,
  set_magic, mem_of, kheap_init,
}
use faceless_os.Kheap.Chain.{Chain, block, end}
use faceless_os.Kheap.Mapper.{Mapper}

-- A heap with one block, which is free, has no size and is marked.
pub record OneBlock (m : Mem) : Type 0 where
  pub chain : Chain m kheap_start (kheap_start ∷ [])
  pub free : is_free m kheap_start ≡ 1
  pub no_size : size m kheap_start ≡ 0
  pub marked : magic m kheap_start ≡ kheap_magic

abbrev pub first_block : Mem → Mem
first_block m =
    set_magic (set_size (set_is_free (set_next m kheap_start 0) kheap_start 1) kheap_start 0)
      kheap_start kheap_magic

module _ (m : Mem) where
  first_block-next : next (first_block m) kheap_start ≡ 0
  unfolding next set_magic set_size set_is_free set_next
  first_block-next =
      read_le-write_le_ne _ 0x501 8 0x519 4 kheap_magic (omega arith)
      ∙ read_le-write_le_ne _ 0x501 8 0x511 8 0 (omega arith)
      ∙ read_le_same _ (set_next m kheap_start 0) 0x501 8 (λ a lo hi. ground arith)
      ∙ read_le-write_le_self m 0x501 8 0 (omega arith)

  first_block-size : size (first_block m) kheap_start ≡ 0
  unfolding size set_magic set_size
  first_block-size =
      read_le-write_le_ne _ 0x511 8 0x519 4 kheap_magic (omega arith)
      ∙ read_le-write_le_self (set_is_free (set_next m kheap_start 0) kheap_start 1) 0x511 8 0
          (omega arith)

  first_block-magic : magic (first_block m) kheap_start ≡ kheap_magic
  unfolding magic set_magic
  first_block-magic =
      read_le-write_le_self
        (set_size (set_is_free (set_next m kheap_start 0) kheap_start 1) kheap_start 0) 0x519 4
        kheap_magic (omega arith)

  first_block-is_free : is_free (first_block m) kheap_start ≡ 1
  unfolding is_free set_magic set_size set_is_free
  first_block-is_free =
      write_le_outside _ 0x519 4 kheap_magic 0x500 (omega arith)
      ∙ write_le_outside (set_is_free (set_next m kheap_start 0) kheap_start 1) 0x511 8 0 0x500
          (omega arith)

  pub first_block-outside : (a : ℕ) → 0x51d ≤ a → first_block m a ≡ m a
  unfolding set_magic set_size set_is_free set_next
  first_block-outside a far =
      write_le_outside _ 0x519 4 kheap_magic a (inr far)
      ∙ write_le_outside (set_is_free (set_next m kheap_start 0) kheap_start 1) 0x511 8 0 a
          (inr (omega arith))
      ∙ ground (arith, write_le_outside m 0x501 8 0 a (inr (omega arith)))

  first_block-OneBlock : OneBlock (first_block m)
  first_block-OneBlock = record {
    chain = block (omega arith) (rw first_block-next end);
    free = first_block-is_free;
    no_size = first_block-size;
    marked = first_block-magic;
  }

module _ (mapper : Mapper) (h : Heap) (ready : mapper.IsReady h.vm) where
  -- `kheap_init` returns where pages can be mapped. Afterwards the heap is a single block, at its
  -- start, that is free, has no size and is marked; the count of allocated bytes is unchanged,
  -- and pages can be mapped again.
  pub kheap_init-OneBlock :
      (h' : Heap) × (kheap_init mapper.map_page h ≡ some h')
      × OneBlock (mem_of h')
      × (h'.mem_allocated ≡ h.mem_allocated)
      × mapper.IsReady h'.vm
  unfolding kheap_init
  kheap_init-OneBlock =
      let (vm, e, again) = mapper.maps kheap_start h.vm ready in
      (
        record { vm = record vm { mem = first_block vm.mem }; mem_allocated = h.mem_allocated },
        rw (e, kheap_init),
        first_block-OneBlock vm.mem,
        refl,
        mapper.written vm (first_block vm.mem) again,
      )
