-- ===== src/Kheap/Reach.antt =====
-- The heap (kernel/src/arch/memory/kheap.c) under its callers: no block is handed out twice.
mod Tests
use faceless_os.Base.{
  ℕ, ◌+◌, ◌-◌, ◌<◌, ◌≤◌, ◌^◌, ◌≡◌, ◌≢◌, refl, ◌⊎◌, inl, inr, List, [], ◌∷◌, ◌++◌, Bool, true, false,
  Option, some, fun_ext, All, arith, ◌==◌, length, if◌then◌else◌, ◌||◌, ◌∙◌, Bool-cases,
}
use faceless_os.Machine.Memory.{Mem, store}
use faceless_os.Machine.Io.{Trace}
use faceless_os.Vmm.{Vm}
use faceless_os.Kheap.{
  Heap, kheap_start, kheap_magic, magic, kheap_end, kheap_limit, data_start, is_free, next, mem_of,
  with_mem, kmalloc, kfree,
}
use faceless_os.Kheap.Alloc.{Maps, kmalloc-hole, kmalloc-Appended}
use faceless_os.Kheap.Free.{kfree-Freed}
use faceless_os.Kheap.Blocks.{Block, starts, Apart, Clear, IsBlock, IsHeap, Keeps}
use faceless_os.Kheap.Held.{Has, here, there, set_held, IsHeap-set_held}
use faceless_os.Kheap.Grown.{add, AllClear, Joined, IsHeap-joined}
use faceless_os.Kheap.Holes.{
  AllHeld, IsFresh, Hole, Hole-or-held, AllHeld-used, IsFresh-free, IsFresh-clear, Has-middle,
  Has-real, Has-low, Has-marked, Last, Chain-Last,
}
use faceless_os.Kheap.Init.{OneBlock}
use faceless_os.Kheap.Callers.{hand_out, CanAlloc}

-- A block of the heap is given back without a report, and then nobody holds it.
pub kfree-silent :
    (start : ℕ) (bs : List Block) (h : Heap) (t : Trace)
    → Has start (starts bs)
    → IsHeap bs (mem_of h)
    → let r = kfree (start + data_start) h t in
      (r.1 ≡ t)
      × (mem_of r.0 ≡ store (mem_of h) start 1)
      × IsHeap (set_held start false bs) (mem_of r.0)
kfree-silent start bs h t has heap =
    let low = Has-low (mem_of h) start bs heap.blocks has in
    let f = kfree-Freed start h t (omega (arith, low)) in
    let there : (magic (mem_of h) start == kheap_magic) ≡ true =
      rw (Has-marked (mem_of h) start bs heap.blocks has) refl in
    let written : mem_of (kfree (start + data_start) h t).0 ≡ store (mem_of h) start 1 =
      fun_ext (λ a. f.flagged a ∙ rw there refl) in
    (
      f.reported ∙ rw there,
      written,
      rw written (IsHeap-set_held (mem_of h) start false bs has heap),
    )

-- The heap that `kheap_init` leaves.
pub OneBlock-IsHeap :
    (m : Mem) → OneBlock m → IsHeap (record { start = kheap_start; held = false } ∷ []) m
unfolding starts
OneBlock-IsHeap m one = record {
  chain = one.chain;
  apart = (tt, tt);
  blocks = (record { flagged = one.free; marked = one.marked; low = omega arith }, tt);
}

module _ (map_page : ℕ → ℕ → Vm → Option Vm) (fuel : ℕ) where
  -- What callers do: they allocate, free what they hold, and write outside the headers.
  pub data Step (bs : List Block) (h : Heap) : List Block → Heap → Type 0 where
    malloc :
        (sz start : ℕ) (vm : Vm) {h' : Heap}
        → CanAlloc map_page fuel sz bs h vm
        → kmalloc map_page fuel sz h ≡ some (start + data_start, h')
        → Step bs h (hand_out start bs) h'
    free :
        (start : ℕ) (t t' : Trace) {h' : Heap}
        → Has start (starts bs)
        → kfree (start + data_start) h t ≡ (h', t')
        → Step bs h (set_held start false bs) h'
    write : (m : Mem) → Keeps bs (mem_of h) m → Step bs h bs (with_mem h m)

  pub data Reach (bs : List Block) (h : Heap) : List Block → Heap → Type 0 where
    at_start : Reach bs h bs h
    then_step :
        {bs' bs'' : List Block} {h' h'' : Heap}
        → Reach bs h bs' h'
        → Step bs' h' bs'' h''
        → Reach bs h bs'' h''
