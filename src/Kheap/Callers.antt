-- ===== src/Kheap/Callers.antt =====
-- The blocks that `kmalloc` (kernel/src/arch/memory/kheap.c) hands out to its callers.
use faceless_os.Base.{
  ℕ, ◌+◌, ◌<◌, ◌≤◌, ◌≡◌, refl, inl, inr, List, [], ◌∷◌, Bool, true, false, Option, some, arith,
  ◌==◌, length, if◌then◌else◌, ◌||◌, ◌∙◌,
}
use faceless_os.Machine.Memory.{store}
use faceless_os.Vmm.{Vm}
use faceless_os.Kheap.{Heap, kheap_start, kheap_end, kheap_limit, data_start, next, mem_of, kmalloc}
use faceless_os.Kheap.Alloc.{Maps, kmalloc-hole, kmalloc-Appended}
use faceless_os.Kheap.Blocks.{Block, starts, Clear, IsHeap, Keeps, IsHeap-kept}
use faceless_os.Kheap.Held.{Has, here, there, set_held, IsHeap-set_held}
use faceless_os.Kheap.Grown.{add, AllClear, Joined, IsHeap-joined}
use faceless_os.Kheap.Holes.{
  AllHeld, IsFresh, Hole, Hole-or-held, AllHeld-used, IsFresh-free, IsFresh-clear, Has-middle,
  Has-real, Has-low, Chain-Last,
}

unfoldable pub is_start : ℕ → List Block → Bool
is_start p [] = false
is_start p (b ∷ bs) = b.start == p || is_start p bs

-- The block at `p` goes to a caller; it may be new.
unfoldable pub hand_out : ℕ → List Block → List Block
hand_out p bs = if is_start p bs then set_held p true bs else add p bs

is_start-Has : (p : ℕ) (bs : List Block) → Has p (starts bs) → is_start p bs ≡ true
unfolding is_start starts
is_start-Has p [] h = elim h [ ]
is_start-Has p (b ∷ bs) (here e) = ground arith
is_start-Has p (b ∷ bs) (there h) = ground (arith, is_start-Has p bs h)

is_start-clear : (p : ℕ) (bs : List Block) → AllClear p (starts bs) → is_start p bs ≡ false
unfolding is_start starts
is_start-clear p [] c = refl
is_start-clear p (b ∷ bs) c = ground (arith, is_start-clear p bs c.1)

Has-Clear : (p new : ℕ) (ps : List ℕ) → Has p ps → AllClear new ps → Clear p new
Has-Clear p new [] h c = elim h [ ]
Has-Clear p new (q ∷ ps) (here e) c = omega (arith, c.0)
Has-Clear p new (q ∷ ps) (there h) c = Has-Clear p new ps h c.1

-- Where a new block goes.
abbrev pub new_start : ℕ → Heap → ℕ
new_start sz h = kheap_start + h.mem_allocated + sz

-- What a call of `kmalloc` needs: its page can be mapped, which writes to no header, and, where all
-- blocks are held, there is room for a new header whose link is 0.
pub record CanAlloc (map_page : ℕ → ℕ → Vm → Option Vm) (fuel sz : ℕ) (bs : List Block) (h : Heap)
    (vm : Vm) : Type 0 where
  pub page : Maps map_page h vm
  pub keeps : Keeps bs (mem_of h) vm.mem
  pub room : h.mem_allocated + sz < kheap_limit
  pub enough : length (starts bs) < fuel
  pub grows :
      AllHeld bs
      → AllClear (new_start sz h) (starts bs)
        × (next vm.mem (new_start sz h) ≡ 0)
        × (new_start sz h + 900 ≤ kheap_end)

-- A block that no caller held is handed out.
pub record Allocated (bs : List Block) (r : Option (ℕ × Heap)) : Type 0 where
  pub start : ℕ
  pub after : Heap
  pub returns : r ≡ some (start + data_start, after)
  pub fresh : IsFresh start bs
  pub is_heap : IsHeap (hand_out start bs) (mem_of after)

module _ (map_page : ℕ → ℕ → Vm → Option Vm) (fuel sz : ℕ) (bs : List Block) (h : Heap) (vm : Vm)
    (can : CanAlloc map_page fuel sz bs h vm) (heap : IsHeap bs vm.mem) where
  kmalloc-Hole : Hole vm.mem (starts bs) → Allocated bs (kmalloc map_page fuel sz h)
  unfolding hand_out
  kmalloc-Hole hole =
      let p = hole.start in
      let has : Has p (starts bs) = rw hole.found (Has-middle hole.before p hole.after) in
      let found = is_start-Has p bs has in
      record {
        start = p;
        after = record {
          vm = record vm { mem = store vm.mem p 0 };
          mem_allocated = h.mem_allocated + sz;
        };
        returns =
            kmalloc-hole map_page fuel sz h vm can.page hole.before p hole.after can.room
              (rw hole.found at heap.chain) (rw hole.found at can.enough) hole.used
              (omega (arith, hole.free)) (Has-real p (starts bs) heap.chain has);
        fresh = IsFresh-free vm.mem p bs heap.blocks hole.free;
        is_heap = rw found (IsHeap-set_held vm.mem p true bs has heap);
      }

  kmalloc-AllHeld : AllHeld bs → Allocated bs (kmalloc map_page fuel sz h)
  unfolding hand_out
  kmalloc-AllHeld held =
      let l = Chain-Last (starts bs) (omega arith) heap.chain in
      let new = new_start sz h in
      let (clear, unlinked, low) = can.grows held in
      let has : Has l.last (starts bs) = rw l.found (Has-middle l.before l.last []) in
      let a =
        kmalloc-Appended map_page fuel sz h vm can.page l.before l.last can.room
          (rw l.found at heap.chain) (rw l.found at can.enough)
          (rw l.found at (AllHeld-used vm.mem bs heap.blocks held))
          (Has-low vm.mem l.last bs heap.blocks has) (Has-Clear l.last new (starts bs) has clear) in
      let joined : Joined vm.mem (mem_of a.after) l.last new = record {
        linked = a.linked;
        unlinked = a.unlinked ∙ unlinked;
        new_block = record { flagged = a.marked.1; marked = a.marked.0; low = low };
        last_kept = a.last_kept;
        others = a.others;
      } in
      record {
        start = new;
        after = a.after;
        returns = a.returns;
        fresh = IsFresh-clear new bs clear;
        is_heap = rw (is_start-clear new bs clear) (
            IsHeap-joined vm.mem (mem_of a.after) l.last new (omega arith) joined bs l.before
              l.found has clear heap);
      }

-- Where the headers of the heap are as they should be, `kmalloc` hands out a block that no caller
-- holds, a free one or a new one, and the headers are as they should be again.
pub kmalloc-Allocated :
    (map_page : ℕ → ℕ → Vm → Option Vm) (fuel sz : ℕ) (bs : List Block) (h : Heap) (vm : Vm)
    → CanAlloc map_page fuel sz bs h vm
    → IsHeap bs (mem_of h)
    → Allocated bs (kmalloc map_page fuel sz h)
kmalloc-Allocated map_page fuel sz bs h vm can heap =
    let heap' = IsHeap-kept bs (mem_of h) vm.mem can.keeps heap in
    elim (Hole-or-held vm.mem bs heap'.blocks) [
      | inl hole ↦ kmalloc-Hole map_page fuel sz bs h vm can heap' hole
      | inr held ↦ kmalloc-AllHeld map_page fuel sz bs h vm can heap' held
    ]
