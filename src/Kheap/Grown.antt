-- ===== src/Kheap/Grown.antt =====
-- A block that is appended to the heap (kernel/src/arch/memory/kheap.c).
use mathlib.Core.List.{append_assoc}
use faceless_os.Base.{
  ℕ, ◌+◌, ◌≤◌, ◌<◌, ◌≡◌, ◌≢◌, refl, ◌⊎◌, inl, inr, List, [], ◌∷◌, ◌++◌, true, All, arith, ◌∙◌, ap,
}
use faceless_os.Machine.Memory.{Mem}
use faceless_os.Kheap.{block_size, is_free, next, magic}
use faceless_os.Kheap.Chain.{Chain, block, end}
use faceless_os.Kheap.Blocks.{
  Block, starts, flag, Clear, Apart, IsBlock, IsHeap, next-kept, magic-kept,
}
use faceless_os.Kheap.Held.{Has, Around, Apart-Around}

abbrev pub add : ℕ → List Block → List Block
add p bs = bs ++ record { start = p; held = true } ∷ []

starts-add : (p : ℕ) (bs : List Block) → starts (add p bs) ≡ starts bs ++ p ∷ []
unfolding starts
starts-add p [] = refl
starts-add p (b ∷ bs) = ap (λ ps. b.start ∷ ps) (starts-add p bs)

-- All headers lie apart from the one at `new`.
abbrev pub AllClear : ℕ → List ℕ → Type 0
AllClear new ps = All (λ p. Clear p new) ps

Apart-snoc : (new : ℕ) (ps : List ℕ) → Apart ps → AllClear new ps → Apart (ps ++ new ∷ [])
Apart-snoc new [] a c = (tt, tt)
Apart-snoc new (p ∷ ps) a c = (all_snoc ps a.0 c.0, Apart-snoc new ps a.1 c.1)
  where
    all_snoc :
        {p : ℕ} (qs : List ℕ)
        → All (λ q. Clear p q) qs
        → Clear p new
        → All (λ q. Clear p q) (qs ++ new ∷ [])
    all_snoc [] h x = (x, tt)
    all_snoc (q ∷ qs) h x = (h.0, all_snoc qs h.1 x)

-- What the memory has after the block at `new` has been put behind the one at `last`.
pub record Joined (m m' : Mem) (last new : ℕ) : Type 0 where
  pub linked : next m' last ≡ new
  pub unlinked : next m' new ≡ 0
  pub new_block : IsBlock m' (record { start = new; held = true })
  pub last_kept : (is_free m' last ≡ is_free m last) × (magic m' last ≡ magic m last)
  pub others :
      (a : ℕ)
      → (a < last) ⊎ (last + block_size ≤ a)
      → (a < new) ⊎ (new + block_size ≤ a)
      → m' a ≡ m a

module _ (m m' : Mem) (last new : ℕ) (real : new ≢ 0) (j : Joined m m' last new) where
  outside : (q : ℕ) → Clear q last → Clear q new → (a : ℕ) → q ≤ a → a < q + block_size → m' a ≡ m a
  outside q l n a lo hi = j.others a (omega arith) (omega arith)

  Chain-joined :
      (before : List ℕ) {p : ℕ}
      → Chain m p (before ++ last ∷ [])
      → Apart (before ++ last ∷ [])
      → AllClear new (before ++ last ∷ [])
      → Chain m' p (before ++ last ∷ new ∷ [])
  Chain-joined [] (block at c) a n = block at (rw j.linked (block real (rw j.unlinked end)))
  Chain-joined (q ∷ before) (block at c) a n =
      let l = at_end before a.0 in
      block at (
        rw (next-kept m m' q (λ x lo hi. outside q l n.0 x (omega arith) hi))
          (Chain-joined before c a.1 n.1))
    where
      at_end : {q : ℕ} (qs : List ℕ) → All (λ r. Clear q r) (qs ++ last ∷ []) → Clear q last
      at_end [] h = h.0
      at_end (r ∷ qs) h = at_end qs h.1

  block_joined :
      (b : Block)
      → (b.start ≡ last) ⊎ Clear b.start last
      → Clear b.start new
      → IsBlock m b
      → IsBlock m' b
  block_joined b (inl e) n i =
      let (flag, mark) = j.last_kept in
      record {
        flagged = rw e (flag ∙ (rw e at i.flagged));
        marked = rw e (mark ∙ (rw e at i.marked));
        low = i.low;
      }
  block_joined b (inr l) n i = record {
    flagged =
        unfold is_free in
        outside b.start l n b.start (omega arith) (omega arith) ∙ (unfold is_free in i.flagged);
    marked = magic-kept m m' b.start (λ a lo hi. outside b.start l n a (omega arith) hi) ∙ i.marked;
    low = i.low;
  }

  blocks_joined :
      (bs : List Block)
      → Around last (starts bs)
      → AllClear new (starts bs)
      → All (IsBlock m) bs
      → All (IsBlock m') (add new bs)
  unfolding starts
  blocks_joined [] ar n all = (j.new_block, tt)
  blocks_joined (b ∷ bs) ar n all = (block_joined b ar.0 n.0 all.0, blocks_joined bs ar.1 n.1 all.1)

  pub IsHeap-joined :
      (bs : List Block) (before : List ℕ)
      → starts bs ≡ before ++ last ∷ []
      → Has last (starts bs)
      → AllClear new (starts bs)
      → IsHeap bs m
      → IsHeap (add new bs) m'
  IsHeap-joined bs before e has n h = record {
    chain =
        rw (starts-add new bs, e, append_assoc before (last ∷ []) (new ∷ []))
          (Chain-joined before (rw e at h.chain) (rw e at h.apart) (rw e at n));
    apart = rw (starts-add new bs) (Apart-snoc new (starts bs) h.apart n);
    blocks = blocks_joined bs (Apart-Around last (starts bs) has h.apart) n h.blocks;
  }
