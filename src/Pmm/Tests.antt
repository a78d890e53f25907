-- ===== src/Pmm/Tests.antt =====
-- The frame allocator on a small memory map (kernel/src/arch/memory/pmm.c).
use faceless_os.Base.{
  inl, inr, ℕ, ◌+◌, ◌≡◌, ◌≢◌, ◌<◌, ap, length, refl, List, [], ◌∷◌, All, arith, true, leb, ltb,
  ◌&&◌, if◌then◌else◌,
}
use faceless_os.Machine.Memory.{Mem}
use faceless_os.Pmm.{Entry, Pmm, is_usable, pmm_alloc, pmm_allocz, pmm_init}
use faceless_os.Pmm.Refine.{IsAligned, frames, free_frames, pmm_alloc-free_frames}
use faceless_os.Pmm.Owners.{owners, pmm_alloc-owners, pmm_alloc-short}
use faceless_os.Pmm.Zero.{pmm_allocz-cleared}
use faceless_os.Pmm.Init.{highest_end, pmm_init-highest_end}

-- Reserved memory, and then two usable frames.
abbrev memory_map : List Entry
memory_map =
    record { base = 0; length = 0x1000; type = 2 }
    ∷ record { base = 0x100000; length = 0x2000; type = 1 }
    ∷ []

abbrev filled : Mem
filled a = 0xFF

abbrev start : Pmm
start = record { highest_frame_top = 0; max_frames = 0; used_frames = 0; gmmap = [] }

memory_map-IsAligned : All IsAligned memory_map
memory_map-IsAligned = (λ _. omega arith, (λ _. omega arith, tt))

pmm_alloc-free_frames_example :
    ((pmm_alloc memory_map).0 ≡ 0x100000)
    × (free_frames (pmm_alloc memory_map).1 ≡ 0x101000 ∷ [])
    × All IsAligned (pmm_alloc memory_map).1
unfolding free_frames frames is_usable
pmm_alloc-free_frames_example = pmm_alloc-free_frames memory_map memory_map-IsAligned

suc-ne_zero : (n : ℕ) → n + 1 ≢ 0
suc-ne_zero n = omega arith

some_free : free_frames memory_map ≢ []
unfolding free_frames frames is_usable
some_free e = suc-ne_zero 1 (ap length e)

pmm_alloc-owners_example : owners 0x100020 memory_map ≡ owners 0x100020 (pmm_alloc memory_map).1 + 1
unfolding pmm_alloc is_usable
pmm_alloc-owners_example = pmm_alloc-owners memory_map 0x100020 memory_map-IsAligned some_free

abbrev short : Entry
short = record { base = 0x100000; length = 0x800; type = 1 }

short-is_usable : is_usable short ≡ true
unfolding is_usable
short-is_usable = refl

pmm_alloc-short_example :
    let m = (pmm_alloc (short ∷ [])).1 in
    ((pmm_alloc m).0 ≡ 0x101000) × (0x100800 < (pmm_alloc m).0)
pmm_alloc-short_example = pmm_alloc-short short [] short-is_usable (omega arith) (omega arith)

pmm_allocz-cleared_example :
    let r = pmm_allocz memory_map filled in
    (r.alloc ≡ (pmm_alloc memory_map).0)
    × (r.gmmap ≡ (pmm_alloc memory_map).1)
    × (r.mem 0x100FFF
        ≡ (if leb r.alloc 0x100FFF && ltb 0x100FFF (r.alloc + 0x1000) then 0 else 0xFF))
pmm_allocz-cleared_example = pmm_allocz-cleared memory_map filled 0x100FFF

pmm_init-highest_end_example :
    let q = (pmm_init memory_map start []).0 in
    (q.highest_frame_top ≡ 0x102000)
    × (q.max_frames ≡ 0x40800)
    × (q.used_frames ≡ q.max_frames)
    × (q.gmmap ≡ memory_map)
unfolding highest_end
pmm_init-highest_end_example =
    pmm_init-highest_end memory_map start [] ((λ u. omega arith), ((λ u. omega arith), tt))
      (inr (inl refl)) (omega arith)
