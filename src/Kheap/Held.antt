-- ===== src/Kheap/Held.antt =====
-- Taking and giving back a block of the heap (kernel/src/arch/memory/kheap.c) writes its flag.
use faceless_os.Base.{
  ℕ, ◌≡◌, refl, ◌⊎◌, inl, inr, List, [], ◌∷◌, Bool, All, arith, ◌==◌, if◌then◌else◌, ◌∙◌,
  Bool-cases, ap,
}
use faceless_os.Machine.Memory.{Mem, store}
use faceless_os.Kheap.{is_free}
use faceless_os.Kheap.Blocks.{
  Block, starts, flag, Clear, Apart, IsBlock, IsHeap, KeepsLinks, Chain-kept, magic-kept,
}

-- The block at `p` changes hands.
unfoldable pub set_held : ℕ → Bool → List Block → List Block
set_held p held [] = []
set_held p held (b ∷ bs) =
    (if b.start == p then record b { held = held } else b) ∷ set_held p held bs

pub data Has (p : ℕ) : List ℕ → Type 0 where
  here : {q : ℕ} {ps : List ℕ} → q ≡ p → Has p (q ∷ ps)
  there : {q : ℕ} {ps : List ℕ} → Has p ps → Has p (q ∷ ps)

pub starts-set_held :
    (p : ℕ) (held : Bool) (bs : List Block) → starts (set_held p held bs) ≡ starts bs
unfolding starts set_held
starts-set_held p held [] = refl
starts-set_held p held (b ∷ bs) = elim (Bool-cases (b.start == p)) [
  | inl e ↦ rw e (ap (λ ps. b.start ∷ ps) (starts-set_held p held bs))
  | inr e ↦ rw e (ap (λ ps. b.start ∷ ps) (starts-set_held p held bs))
]

-- Every header is the one at `p` or lies apart from it.
abbrev pub Around : ℕ → List ℕ → Type 0
Around p ps = All (λ q. (q ≡ p) ⊎ Clear q p) ps

Clear-Has : (q p : ℕ) (ps : List ℕ) → All (λ r. Clear q r) ps → Has p ps → Clear q p
Clear-Has q p [] all h = elim h [ ]
Clear-Has q p (r ∷ ps) all (here e) = omega (arith, all.0)
Clear-Has q p (r ∷ ps) all (there h) = Clear-Has q p ps all.1 h

Around-Clear : (q p : ℕ) (ps : List ℕ) → q ≡ p → All (λ r. Clear q r) ps → Around p ps
Around-Clear q p [] e all = tt
Around-Clear q p (r ∷ ps) e all = (inr (omega (arith, all.0)), Around-Clear q p ps e all.1)

pub Apart-Around : (p : ℕ) (ps : List ℕ) → Has p ps → Apart ps → Around p ps
Apart-Around p [] h a = elim h [ ]
Apart-Around p (q ∷ ps) (here e) a = (inl e, Around-Clear q p ps e a.0)
Apart-Around p (q ∷ ps) (there h) a = (inr (Clear-Has q p ps a.0 h), Apart-Around p ps h a.1)

module _ (m : Mem) (p : ℕ) (held : Bool) where
  abbrev pub flagged_mem : Mem
  flagged_mem = store m p (flag held)

  links_kept : (bs : List Block) → Around p (starts bs) → KeepsLinks bs m flagged_mem
  unfolding starts
  links_kept [] ar = tt
  links_kept (b ∷ bs) ar = ((λ a lo hi. ground (arith, ar.0)), links_kept bs ar.1)

  blocks_flagged :
      (bs : List Block)
      → Around p (starts bs)
      → All (IsBlock m) bs
      → All (IsBlock flagged_mem) (set_held p held bs)
  unfolding starts set_held is_free
  blocks_flagged [] ar all = tt
  blocks_flagged (b ∷ bs) ar all =
      let i = all.0 in
      let flagged : m b.start ≡ flag b.held = i.flagged in
      let marked = magic-kept m flagged_mem b.start (λ a lo hi. ground (arith, ar.0)) ∙ i.marked in
      elim (Bool-cases (b.start == p)) [
        | inl e ↦ rw e (
          record { flagged = ground arith; marked = marked; low = i.low },
          blocks_flagged bs ar.1 all.1,
        )
        | inr e ↦ rw e (
          record { flagged = ground (arith, flagged); marked = marked; low = i.low },
          blocks_flagged bs ar.1 all.1,
        )
      ]

  -- The heap after the flag of a block has been written.
  pub IsHeap-set_held :
      (bs : List Block) → Has p (starts bs) → IsHeap bs m → IsHeap (set_held p held bs) flagged_mem
  IsHeap-set_held bs has h =
      let ar = Apart-Around p (starts bs) has h.apart in
      record {
        chain =
            rw (starts-set_held p held bs) (Chain-kept flagged_mem bs h.chain (links_kept bs ar));
        apart = rw (starts-set_held p held bs) h.apart;
        blocks = blocks_flagged bs ar h.blocks;
      }
