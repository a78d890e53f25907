-- ===== src/Kheap/Free.antt =====
-- `kfree` (kernel/src/arch/memory/kheap.c).
use faceless_os.Base.{
  ℕ, ◌+◌, ◌-◌, ◌^◌, ◌<◌, ◌≡◌, arith, ◌==◌, ◌&&◌, if◌then◌else◌, true, false, Bool-cases, inl, inr,
}
use faceless_os.Machine.Memory.{store, read_le_same}
use faceless_os.Machine.Io.{Trace, u64}
use faceless_os.Panic.{panic}
use faceless_os.Kheap.{
  Heap, data_start, kheap_magic, size, magic, set_is_free, mem_of, block_of, kfree,
}

block_of-data_start : (p : ℕ) → p + data_start < 2 ^ 64 → block_of (p + data_start) ≡ p
unfolding block_of
block_of-data_start p h = omega arith

-- Freeing the data of a marked block sets its flag and no other byte, and takes its size off the bytes
-- that are allocated. Without the magic number nothing changes but for the report of an error, behind
-- which the processor stops.
pub record Freed (p : ℕ) (h : Heap) (t : Trace) (r : Heap × Trace) : Type 0 where
  pub flagged :
      (a : ℕ)
      → mem_of r.0 a ≡ (if (magic (mem_of h) p == kheap_magic) && (a == p) then 1 else mem_of h a)
  pub allocated : r.0.mem_allocated ≡ (
      if magic (mem_of h) p == kheap_magic
      then u64 (h.mem_allocated + 2 ^ 64 - size (mem_of h) p)
      else h.mem_allocated)
  pub reported : r.1 ≡ (
      if magic (mem_of h) p == kheap_magic
      then t
      else (panic "Invalid free or kernel heap corruption detected..\n" t).1)

module _ (p : ℕ) (h : Heap) (t : Trace) (fits : p + data_start < 2 ^ 64) where
  size-set_is_free : size (set_is_free (mem_of h) p 1) p ≡ size (mem_of h) p
  unfolding size set_is_free
  size-set_is_free =
      read_le_same (store (mem_of h) p 1) (mem_of h) (p + 17) 8 (λ a lo hi. ground arith)

  abbrev freed_heap : Heap
  freed_heap = record {
    vm = (let v = h.vm in record v { mem = set_is_free (mem_of h) p 1 });
    mem_allocated = u64 (h.mem_allocated + 2 ^ 64 - size (mem_of h) p);
  }

  kfree-valid :
      (magic (mem_of h) p == kheap_magic) ≡ true → kfree (p + data_start) h t ≡ (freed_heap, t)
  unfolding kfree
  kfree-valid e = rw (block_of-data_start p fits, e, size-set_is_free)

  kfree-corrupt :
      (magic (mem_of h) p == kheap_magic) ≡ false
      → kfree (p + data_start) h t
        ≡ (h, (panic "Invalid free or kernel heap corruption detected..\n" t).1)
  unfolding kfree
  kfree-corrupt e = rw (block_of-data_start p fits, e)

  -- For the data of a block below 2 ^ 64, `kfree` sets the flag of the block and no other byte
  -- and takes its size off the bytes that are allocated, modulo 2 ^ 64, if the magic number is
  -- there; otherwise it panics, and changes nothing.
  pub kfree-Freed : Freed p h t (kfree (p + data_start) h t)
  kfree-Freed = elim (Bool-cases (magic (mem_of h) p == kheap_magic)) [
    | inl e ↦
        rw (kfree-valid e)
          (record { flagged = λ a. unfold set_is_free in rw e; allocated = rw e; reported = rw e })
    | inr e ↦
        rw (kfree-corrupt e) (record { flagged = λ a. rw e; allocated = rw e; reported = rw e })
  ]
