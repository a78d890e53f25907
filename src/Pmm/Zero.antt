-- ===== src/Pmm/Zero.antt =====
-- `pmm_allocz` (kernel/src/arch/memory/pmm.c): the frame that it returns is cleared.
use faceless_os.Base.{
  ℕ, zero, suc, ◌+◌, ◌*◌, ◌≡◌, refl, List, ◌&&◌, arith, leb, ltb, if◌then◌else◌, ◌∙◌,
}
use faceless_os.Machine.Memory.{Mem, write_le, write_le-zero}
use faceless_os.Pmm.{Entry, pmm_alloc, zero_words, pmm_allocz}

-- The loop clears its words and nothing else.
pub zero_words_lem :
    (left i alloc : ℕ) (m : Mem) (a : ℕ)
    → zero_words left i alloc m a
      ≡ (if leb (alloc + 8 * i) a && ltb a (alloc + 8 * (i + left)) then 0 else m a)
unfolding zero_words
zero_words_lem zero i alloc m a = ground arith
zero_words_lem (suc left) i alloc m a =
    zero_words_lem left (i + 1) alloc (write_le m (alloc + 8 * i) 8 0) a
    ∙ ground (arith, write_le-zero m (alloc + 8 * i) 8 a)

-- The frame of `pmm_allocz` is the one that `pmm_alloc` gives, and of the memory exactly the 4096
-- bytes from its address on are cleared.
pub pmm_allocz-cleared :
    (mmap : List Entry) (m : Mem) (a : ℕ)
    → let r = pmm_allocz mmap m in
      (r.alloc ≡ (pmm_alloc mmap).0)
      × (r.gmmap ≡ (pmm_alloc mmap).1)
      × (r.mem a ≡ (if leb r.alloc a && ltb a (r.alloc + 0x1000) then 0 else m a))
unfolding pmm_allocz
pmm_allocz-cleared mmap m a =
    (refl, refl, zero_words_lem 512 0 (pmm_alloc mmap).0 m a ∙ ground arith)
