-- ===== src/Pmm/Refine.antt =====
-- `pmm_alloc` (kernel/src/arch/memory/pmm.c) against a list of free frames and a count of owners.
use faceless_os.Base.{
  ℕ, zero, suc, ◌+◌, ◌/◌, ◌%◌, ◌^◌, ◌<◌, ◌≡◌, refl, List, [], ◌∷◌, ◌++◌, true, false, arith, ltb,
  if◌then◌else◌, Bool-cases, inl, inr, All, ◌∙◌,
}
use faceless_os.Pmm.{Entry, is_usable, take_frame, pmm_alloc}

-- `count` frames from `base` on.
unfoldable pub frames : ℕ → ℕ → List ℕ
frames zero base = []
frames (suc count) base = base ∷ frames count (base + 0x1000)

-- The frames that the map still has to give, in the order in which they are given.
unfoldable pub free_frames : List Entry → List ℕ
unfolding is_usable frames
free_frames [] = []
free_frames (e ∷ es) =
    (if is_usable e then frames (e.length / 0x1000) e.base else []) ++ free_frames es

-- What the boot protocol promises of usable memory: whole frames, below the end of the address
-- space.
abbrev pub IsAligned : Entry → Type 0
IsAligned e = is_usable e ≡ true → (e.length % 0x1000 ≡ 0) × (e.base + e.length < 2 ^ 64)

abbrev pub head_or_null : List ℕ → ℕ
head_or_null [] = 0
head_or_null (f ∷ fs) = f

abbrev pub tail : List ℕ → List ℕ
tail [] = []
tail (f ∷ fs) = fs

-- One usable entry: its first frame is its base, and the entry after it has the others.
frames-take_frame :
    (e : Entry)
    → is_usable e ≡ true
    → (e.length % 0x1000 ≡ 0) × (e.base + e.length < 2 ^ 64)
    → (e.length / 0x1000 ≡ suc ((take_frame e).length / 0x1000))
      × ((take_frame e).base ≡ e.base + 0x1000)
      × ((take_frame e).length % 0x1000 ≡ 0)
      × ((take_frame e).length + 0x1000 ≡ e.length)
unfolding is_usable take_frame
frames-take_frame e u a = ground arith

is_usable-take_frame :
    (e : Entry) → is_usable e ≡ true → is_usable (take_frame e) ≡ ltb 0 (take_frame e).length
unfolding is_usable take_frame
is_usable-take_frame e u = ground arith

frames-below : (n b : ℕ) → (if ltb 0 n then frames (n / 0x1000) b else []) ≡ frames (n / 0x1000) b
unfolding frames
frames-below zero b = refl
frames-below (suc n) b = let more : ltb 0 (suc n) ≡ true = ground arith in rw more

free_frames-take_frame :
    (e : Entry) (es : List Entry)
    → is_usable e ≡ true
    → IsAligned e
    → free_frames (e ∷ es) ≡ e.base ∷ free_frames (take_frame e ∷ es)
unfolding free_frames frames
free_frames-take_frame e es u a =
    let (count, base, _, _) = frames-take_frame e u (a u) in
    rw (
      u,
      is_usable-take_frame e u,
      frames-below (take_frame e).length (take_frame e).base,
      count,
      base,
    )

take_frame-IsAligned : (e : Entry) → is_usable e ≡ true → IsAligned e → IsAligned (take_frame e)
take_frame-IsAligned e u a _ = omega (arith, frames-take_frame e u (a u), a u)

module _ (e : Entry) (es : List Entry) where
  pub free_frames-reserved : is_usable e ≡ false → free_frames (e ∷ es) ≡ free_frames es
  unfolding free_frames
  free_frames-reserved u = rw u

  pub pmm_alloc-usable : is_usable e ≡ true → pmm_alloc (e ∷ es) ≡ (e.base, take_frame e ∷ es)
  unfolding pmm_alloc
  pmm_alloc-usable u = rw u

  pub pmm_alloc-reserved :
      is_usable e ≡ false → pmm_alloc (e ∷ es) ≡ ((pmm_alloc es).0, e ∷ (pmm_alloc es).1)
  unfolding pmm_alloc
  pmm_alloc-reserved u = rw u

-- In a memory map whose usable entries are whole frames below 2 ^ 64, an allocation returns the
-- first free frame, or NULL when there is none; the map that it leaves has the other free frames,
-- in the same order, and its usable entries are whole frames again.
pub pmm_alloc-free_frames :
    (m : List Entry)
    → All IsAligned m
    → ((pmm_alloc m).0 ≡ head_or_null (free_frames m))
      × (free_frames (pmm_alloc m).1 ≡ tail (free_frames m))
      × All IsAligned (pmm_alloc m).1
pmm_alloc-free_frames [] a = unfold pmm_alloc free_frames in (refl, refl, a)
pmm_alloc-free_frames (e ∷ es) (h, hs) = elim (Bool-cases (is_usable e)) [
  | inl u ↦
      rw (pmm_alloc-usable e es u, free_frames-take_frame e es u h)
        (refl, refl, (take_frame-IsAligned e u h, hs))
  | inr u ↦
      let (r, fs, a) = pmm_alloc-free_frames es hs in
      rw (pmm_alloc-reserved e es u, free_frames-reserved e es u)
        (r, free_frames-reserved e (pmm_alloc es).1 u ∙ fs, (h, a))
]

-- `n` calls in a row, and the addresses that they return.
pub pmm_alloc_times : ℕ → List Entry → List ℕ × List Entry
pmm_alloc_times zero m = ([], m)
pmm_alloc_times (suc n) m =
    let (f, m') = pmm_alloc m in let (fs, m'') = pmm_alloc_times n m' in (f ∷ fs, m'')

abbrev pub take_or_null : ℕ → List ℕ → List ℕ
take_or_null zero fs = []
take_or_null (suc n) fs = head_or_null fs ∷ take_or_null n (tail fs)

-- In a memory map whose usable entries are whole frames below 2 ^ 64, any number of allocations
-- in a row returns the free frames in order, each once, and then only NULL.
pub pmm_alloc_times-free_frames :
    (n : ℕ) (m : List Entry)
    → All IsAligned m
    → (pmm_alloc_times n m).0 ≡ take_or_null n (free_frames m)
unfolding pmm_alloc_times
pmm_alloc_times-free_frames zero m a = refl
pmm_alloc_times-free_frames (suc n) m a =
    let (r, fs, a') = pmm_alloc-free_frames m a in
    cc (r, fs, pmm_alloc_times-free_frames n (pmm_alloc m).1 a')
