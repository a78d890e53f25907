-- ===== src/Pmm.antt =====
-- The physical frame allocator: kernel/src/arch/memory/pmm.c. The memory map of the boot loader
-- is the allocator's state: an allocation cuts a frame off the front of a usable entry.
pub mod Refine
pub mod Owners
pub mod Zero
pub mod Init
mod Tests
use faceless_os.Base.{
  ℕ, zero, suc, ◌+◌, ◌-◌, ◌*◌, ◌/◌, ◌%◌, ◌^◌, List, [], ◌∷◌, Bool, ◌&&◌, ◌||◌, not, ltb, ◌==◌,
  if◌then◌else◌,
}
use faceless_os.Machine.Memory.{Mem, write_le}
use faceless_os.Machine.Io.{Arg, num, Io, pure, ◌>>=◌, ◌>>◌, log, u64}

abbrev pub mmap_usable : ℕ
mmap_usable = 1

abbrev pub mmap_bootloader_reclaimable : ℕ
mmap_bootloader_reclaimable = 0x1000

abbrev pub mmap_kernel_and_modules : ℕ
mmap_kernel_and_modules = 0x1001

abbrev pub page_size : ℕ
page_size = 0x1000

-- `struct stivale2_mmap_entry`
pub record Entry : Type 0 where
  pub base : ℕ
  pub length : ℕ
  pub type : ℕ

-- The static variables of pmm.c.
pub record Pmm : Type 0 where
  pub highest_frame_top : ℕ
  pub max_frames : ℕ
  pub used_frames : ℕ
  pub gmmap : List Entry

unfoldable pub is_usable : Entry → Bool
is_usable entry = entry.type == mmap_usable && ltb 0 entry.length

-- The entry after its first frame has been taken. `-=` wraps at 64 bits.
unfoldable pub take_frame : Entry → Entry
take_frame entry = record entry {
  base = u64 (entry.base + 0x1000);
  length = u64 (entry.length + 2 ^ 64 - 0x1000);
}

-- The address of the frame, or 0 for NULL, and the memory map that is left.
unfoldable pub pmm_alloc : List Entry → ℕ × List Entry
unfolding is_usable take_frame
pmm_alloc [] = (0, [])
pmm_alloc (current ∷ rest) =
    let (ret, rest') = pmm_alloc rest in
    if is_usable current then (current.base, take_frame current ∷ rest) else (ret, current ∷ rest')

-- `for (i = 0; i < 512; ++i) alloc[i] = 0;` with `left` rounds to go, from word `i` on.
unfoldable pub zero_words : ℕ → ℕ → ℕ → Mem → Mem
zero_words zero i alloc m = m
zero_words (suc left) i alloc m = zero_words left (i + 1) alloc (write_le m (alloc + 8 * i) 8 0)

-- There is no test for NULL: with no memory left it clears the frame at address 0.
unfoldable pub pmm_allocz : List Entry → Mem → record { alloc : ℕ; gmmap : List Entry; mem : Mem }
unfolding pmm_alloc zero_words
pmm_allocz mmap m =
    let (alloc, mmap') = pmm_alloc mmap in
    record { alloc = alloc; gmmap = mmap'; mem = zero_words 512 0 alloc m }

unfoldable pub is_skipped : Entry → Bool
is_skipped entry =
    not (entry.type == mmap_usable)
    || entry.type == mmap_bootloader_reclaimable
    || entry.type == mmap_kernel_and_modules

-- One round of the loop of `pmm_init`.
unfoldable pub init_entry : Entry → Pmm → Io Pmm
unfolding is_skipped
init_entry entry pmm = do
  log "\u{1b}[0;36m\t%x-%x | %x "
      (num entry.base ∷ num (u64 (entry.base + entry.length)) ∷ num entry.length ∷ [])
  if is_skipped entry then log "\u{1b}[0;31m[Reserved]\n" [] >> pure pmm else do
    log "\u{1b}[0;32m[Usable]\n" []
    let top = u64 (entry.base + entry.length)
    let highest = if ltb pmm.highest_frame_top top then top else pmm.highest_frame_top
    let used = u64 (highest * 1024) / page_size
    pure (record pmm { highest_frame_top = highest; max_frames = used; used_frames = used })

unfoldable pub init_loop : List Entry → Pmm → Io Pmm
init_loop [] pmm = pure pmm
init_loop (entry ∷ rest) pmm = init_entry entry pmm >>= init_loop rest

-- `mmap` is the tag that `get_tag` finds.
unfoldable pub pmm_init : List Entry → Pmm → Io Pmm
unfolding init_loop init_entry
pmm_init mmap pmm = do
  log "\u{1b}[0;33m\n\n<mmap_start>\n" []
  pmm' ← init_loop mmap (record pmm { gmmap = mmap })
  log "\u{1b}[0;33m</mmap_end>\n\n" []
  pure pmm'
