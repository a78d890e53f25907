-- ===== src/Kheap/Blocks.antt =====
-- What the heap (kernel/src/arch/memory/kheap.c) promises its callers: a list of blocks, some of them
-- held by a caller, whose headers lie apart in the memory.
use faceless_os.Base.{
  ℕ, ◌+◌, ◌≤◌, ◌<◌, ◌≡◌, ◌⊎◌, List, [], ◌∷◌, Bool, All, arith, if◌then◌else◌, ◌∙◌,
}
use faceless_os.Machine.Memory.{Mem, read_le_same}
use faceless_os.Kheap.{kheap_start, kheap_end, kheap_magic, block_size, is_free, next, magic}
use faceless_os.Kheap.Chain.{Chain, block, end}

pub record Block : Type 0 where
  pub start : ℕ
  pub held : Bool

unfoldable pub starts : List Block → List ℕ
starts [] = []
starts (b ∷ bs) = b.start ∷ starts bs

abbrev pub flag : Bool → ℕ
flag held = if held then 0 else 1

-- Two headers do not overlap.
abbrev pub Clear : ℕ → ℕ → Type 0
Clear p q = (p + block_size ≤ q) ⊎ (q + block_size ≤ p)

abbrev pub Apart : List ℕ → Type 0
Apart [] = Unit
Apart (p ∷ ps) = All (λ q. Clear p q) ps × Apart ps

-- The header of a block in the memory.
pub record IsBlock (m : Mem) (b : Block) : Type 0 where
  pub flagged : is_free m b.start ≡ flag b.held
  pub marked : magic m b.start ≡ kheap_magic
  pub low : b.start + 900 ≤ kheap_end

pub record IsHeap (bs : List Block) (m : Mem) : Type 0 where
  pub chain : Chain m kheap_start (starts bs)
  pub apart : Apart (starts bs)
  pub blocks : All (IsBlock m) bs

-- The headers are not written to.
abbrev pub Keeps : List Block → Mem → Mem → Type 0
Keeps bs m m' =
    All (λ (b : Block). (a : ℕ) → b.start ≤ a → a < b.start + block_size → m' a ≡ m a) bs

-- The links of a chain are not written to.
abbrev pub KeepsLinks : List Block → Mem → Mem → Type 0
KeepsLinks bs m m' =
    All (λ (b : Block). (a : ℕ) → b.start < a → a < b.start + block_size → m' a ≡ m a) bs

pub next-kept :
    (m m' : Mem) (p : ℕ)
    → ((a : ℕ) → p < a → a < p + block_size → m' a ≡ m a)
    → next m' p ≡ next m p
unfolding next
next-kept m m' p same = read_le_same m' m (p + 1) 8 (λ a lo hi. same a (omega arith) (omega arith))

pub magic-kept :
    (m m' : Mem) (p : ℕ)
    → ((a : ℕ) → p < a → a < p + block_size → m' a ≡ m a)
    → magic m' p ≡ magic m p
unfolding magic
magic-kept m m' p same =
    read_le_same m' m (p + 25) 4 (λ a lo hi. same a (omega arith) (omega arith))

pub Chain-kept :
    {m : Mem} (m' : Mem) (bs : List Block) {p : ℕ}
    → Chain m p (starts bs)
    → KeepsLinks bs m m'
    → Chain m' p (starts bs)
unfolding starts
Chain-kept m' [] end k = end
Chain-kept {m} m' (b ∷ bs) (block real c) k =
    block real (rw (next-kept m m' b.start k.0) (Chain-kept m' bs c k.1))

Keeps-links : (m m' : Mem) (bs : List Block) → Keeps bs m m' → KeepsLinks bs m m'
Keeps-links m m' [] k = tt
Keeps-links m m' (b ∷ bs) k = ((λ a lo hi. k.0 a (omega arith) hi), Keeps-links m m' bs k.1)

blocks_kept :
    (m m' : Mem) (bs : List Block) → Keeps bs m m' → All (IsBlock m) bs → All (IsBlock m') bs
blocks_kept m m' [] k all = tt
blocks_kept m m' (b ∷ bs) k all =
    let i = all.0 in
    (
      record {
        flagged =
            unfold is_free in
            (k.0 b.start (omega arith) (omega arith) ∙ (unfold is_free in i.flagged));
        marked = magic-kept m m' b.start (λ a lo hi. k.0 a (omega arith) hi) ∙ i.marked;
        low = i.low;
      },
      blocks_kept m m' bs k.1 all.1,
    )

-- Whatever is written outside the headers, the heap stays as it is.
pub IsHeap-kept : (bs : List Block) (m m' : Mem) → Keeps bs m m' → IsHeap bs m → IsHeap bs m'
IsHeap-kept bs m m' k h = record {
  chain = Chain-kept m' bs h.chain (Keeps-links m m' bs k);
  apart = h.apart;
  blocks = blocks_kept m m' bs k h.blocks;
}
