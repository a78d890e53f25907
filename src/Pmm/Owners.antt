-- ===== src/Pmm/Owners.antt =====
-- Which addresses are free: `pmm_alloc` moves one frame out of the memory map, unless an entry is
-- shorter than a frame.
use faceless_os.Base.{
  ℕ, ◌+◌, ◌^◌, ◌<◌, ◌≡◌, refl, ◌≢◌, List, [], ◌∷◌, Bool, true, ◌&&◌, arith, leb, ltb, if◌then◌else◌,
  Bool-cases, inl, inr, All, ◌∙◌,
}
use faceless_os.Pmm.{Entry, is_usable, take_frame, pmm_alloc}
use faceless_os.Pmm.Refine.{
  IsAligned, free_frames, free_frames-reserved, pmm_alloc-usable, pmm_alloc-reserved,
}

-- How many usable entries an address lies in.
pub covers : Entry → ℕ → Bool
unfolding is_usable
covers e a = is_usable e && leb e.base a && ltb a (e.base + e.length)

pub owners : ℕ → List Entry → ℕ
unfolding covers
owners a [] = 0
owners a (e ∷ es) = (if covers e a then 1 else 0) + owners a es

abbrev pub in_frame : ℕ → ℕ → ℕ
in_frame f a = if leb f a && ltb a (f + 0x1000) then 1 else 0

covers-take_frame :
    (e : Entry) (a : ℕ)
    → is_usable e ≡ true
    → IsAligned e
    → (◌+◌ (if covers e a then 1 else 0) 0)
      ≡ (if covers (take_frame e) a then 1 else 0) + in_frame e.base a
unfolding covers is_usable take_frame
covers-take_frame e a u al = ground (arith, al u)

-- Where the usable entries are whole frames and one is free, an allocation moves exactly the
-- addresses of its frame out of the free memory: an address has one owner less if it lies in the
-- frame, and as many as before if it does not.
pub pmm_alloc-owners :
    (m : List Entry) (a : ℕ)
    → All IsAligned m
    → free_frames m ≢ []
    → owners a m ≡ owners a (pmm_alloc m).1 + in_frame (pmm_alloc m).0 a
unfolding owners
pmm_alloc-owners [] a al some_left = absurd (some_left (unfold free_frames in refl))
pmm_alloc-owners (e ∷ es) a (h, hs) some_left = elim (Bool-cases (is_usable e)) [
  | inl u ↦ rw (pmm_alloc-usable e es u) (omega (arith, covers-take_frame e a u h))
  | inr u ↦
      rw (pmm_alloc-reserved e es u)
        (omega (arith, pmm_alloc-owners es a hs (λ z. some_left (free_frames-reserved e es u ∙ z))))
]

-- A usable entry shorter than a frame, and at least a frame below 2 ^ 64, stays usable after its
-- allocation, since its length wraps: the next allocation returns an address behind its end.
pub pmm_alloc-short :
    (e : Entry) (es : List Entry)
    → is_usable e ≡ true
    → e.length < 0x1000
    → e.base + 0x1000 < 2 ^ 64
    → let m = (pmm_alloc (e ∷ es)).1 in
      ((pmm_alloc m).0 ≡ e.base + 0x1000) × (e.base + e.length < (pmm_alloc m).0)
pmm_alloc-short e es u short fits =
    let (still, next) = wraps in
    rw (pmm_alloc-usable e es u, pmm_alloc-usable (take_frame e) es still)
      (rw next (refl, omega arith))
  where
    wraps : (is_usable (take_frame e) ≡ true) × ((take_frame e).base ≡ e.base + 0x1000)
    wraps = unfold is_usable take_frame in ground arith
