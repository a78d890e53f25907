-- ===== src/Kheap/Holes.antt =====
-- Where `kmalloc` (kernel/src/arch/memory/kheap.c) finds a block in a list of blocks.
use faceless_os.Base.{
  ℕ, ◌+◌, ◌<◌, ◌≤◌, ◌≡◌, ◌≢◌, refl, ◌⊎◌, inl, inr, List, [], ◌∷◌, ◌++◌, true, false, All, arith,
  ◌∙◌, Bool-cases, ap, sym,
}
use faceless_os.Machine.Memory.{Mem}
use faceless_os.Kheap.{kheap_end, kheap_magic, is_free, magic}
use faceless_os.Kheap.Chain.{Chain, block, end}
use faceless_os.Kheap.Blocks.{Block, starts, flag, IsBlock}
use faceless_os.Kheap.Held.{Has, here, there}
use faceless_os.Kheap.Grown.{AllClear}

abbrev pub AllHeld : List Block → Type 0
AllHeld bs = All (λ (b : Block). b.held ≡ true) bs

-- No caller holds the block at `p`.
abbrev pub IsFresh : ℕ → List Block → Type 0
IsFresh p bs = All (λ (b : Block). b.start ≡ p → b.held ≡ false) bs

-- The first free block.
pub record Hole (m : Mem) (ps : List ℕ) : Type 0 where
  pub before : List ℕ
  pub start : ℕ
  pub after : List ℕ
  pub found : ps ≡ before ++ start ∷ after
  pub used : All (λ q. is_free m q ≡ 0) before
  pub free : is_free m start ≡ 1

pub Hole-or-held :
    (m : Mem) (bs : List Block) → All (IsBlock m) bs → Hole m (starts bs) ⊎ AllHeld bs
unfolding starts
Hole-or-held m [] all = inr tt
Hole-or-held m (b ∷ bs) all = elim (Bool-cases b.held) [
  | inr free ↦ inl (record {
    before = [];
    start = b.start;
    after = starts bs;
    found = refl;
    used = tt;
    free = (let i = all.0 in i.flagged) ∙ ap flag free;
  })
  | inl held ↦ elim (Hole-or-held m bs all.1) [
    | inl h ↦ inl (record {
      before = b.start ∷ h.before;
      start = h.start;
      after = h.after;
      found = ap (λ ps. b.start ∷ ps) h.found;
      used = ((let i = all.0 in i.flagged) ∙ ap flag held, h.used);
      free = h.free;
    })
    | inr rest ↦ inr (held, rest)
  ]
]

pub AllHeld-used :
    (m : Mem) (bs : List Block)
    → All (IsBlock m) bs
    → AllHeld bs
    → All (λ q. is_free m q ≡ 0) (starts bs)
unfolding starts
AllHeld-used m [] all held = tt
AllHeld-used m (b ∷ bs) all held =
    ((let i = all.0 in i.flagged) ∙ ap flag held.0, AllHeld-used m bs all.1 held.1)

-- A block whose flag is set is held by nobody.
pub IsFresh-free :
    (m : Mem) (p : ℕ) (bs : List Block) → All (IsBlock m) bs → is_free m p ≡ 1 → IsFresh p bs
IsFresh-free m p [] all free = tt
IsFresh-free m p (b ∷ bs) all free =
    let i = all.0 in
    (
      (λ e. elim (Bool-cases b.held) [
        | inr given ↦ given
        | inl held ↦
            let bad : 0 < 0 = omega (arith, i.flagged ∙ ap flag held, ap (is_free m) e) in
            elim bad [ ]
      ]),
      IsFresh-free m p bs all.1 free,
    )

pub IsFresh-clear : (p : ℕ) (bs : List Block) → AllClear p (starts bs) → IsFresh p bs
unfolding starts
IsFresh-clear p [] c = tt
IsFresh-clear p (b ∷ bs) c =
    ((λ e. let bad : 0 < 0 = omega (arith, c.0) in elim bad [ ]), IsFresh-clear p bs c.1)

pub Has-middle : (before : List ℕ) (p : ℕ) (after : List ℕ) → Has p (before ++ p ∷ after)
Has-middle [] p after = here refl
Has-middle (q ∷ before) p after = there (Has-middle before p after)

pub Has-real : {m : Mem} (p : ℕ) (ps : List ℕ) {q : ℕ} → Chain m q ps → Has p ps → p ≢ 0
Has-real p [] end h = elim h [ ]
Has-real p (q ∷ ps) (block real c) (here e) = λ z. real (e ∙ z)
Has-real p (q ∷ ps) (block real c) (there h) = Has-real p ps c h

pub Has-low :
    (m : Mem) (p : ℕ) (bs : List Block)
    → All (IsBlock m) bs
    → Has p (starts bs)
    → p + 900 ≤ kheap_end
unfolding starts
Has-low m p [] all h = elim h [ ]
Has-low m p (b ∷ bs) all (here e) = let i = all.0 in omega (arith, i.low)
Has-low m p (b ∷ bs) all (there h) = Has-low m p bs all.1 h

pub Has-marked :
    (m : Mem) (p : ℕ) (bs : List Block)
    → All (IsBlock m) bs
    → Has p (starts bs)
    → magic m p ≡ kheap_magic
unfolding starts
Has-marked m p [] all h = elim h [ ]
Has-marked m p (b ∷ bs) all (here e) = let i = all.0 in ap (magic m) (sym e) ∙ i.marked
Has-marked m p (b ∷ bs) all (there h) = Has-marked m p bs all.1 h

-- A list with its last item apart.
pub record Last (ps : List ℕ) : Type 0 where
  pub before : List ℕ
  pub last : ℕ
  pub found : ps ≡ before ++ last ∷ []

pub Last-cons : (p : ℕ) (ps : List ℕ) → Last (p ∷ ps)
Last-cons p [] = record { before = []; last = p; found = refl }
Last-cons p (q ∷ ps) =
    let l = Last-cons q ps in
    record { before = p ∷ l.before; last = l.last; found = ap (λ qs. p ∷ qs) l.found }

pub Chain-Last : {m : Mem} {p : ℕ} (ps : List ℕ) → p ≢ 0 → Chain m p ps → Last ps
Chain-Last [] real end = absurd (real refl)
Chain-Last (p ∷ ps) real c = Last-cons p ps
