-- ===== src/Kheap/Chain.antt =====
-- The list of blocks that the heap walks (kernel/src/arch/memory/kheap.c).
use faceless_os.Base.{
  ℕ, zero, suc, ◌<◌, ◌≡◌, refl, ◌≢◌, List, [], ◌∷◌, ◌++◌, some, arith, length, All, ◌==◌,
  if◌then◌else◌, Bool-cases, inl, inr, true, false,
}
use faceless_os.Machine.Memory.{Mem}
use faceless_os.Kheap.{Search, hole, no_hole, is_free, next, search_loop}

-- From `p` the `next` pointers lead through the blocks `ps` to NULL.
pub data Chain (m : Mem) : ℕ → List ℕ → Type 0 where
  end : Chain m 0 []
  block : {p : ℕ} {ps : List ℕ} → p ≢ 0 → Chain m (next m p) ps → Chain m p (p ∷ ps)

-- What the walk is for: the first free block, or else the last block.
pub first_free : Mem → List ℕ → ℕ → Search
first_free m [] prev = no_hole prev
first_free m (p ∷ ps) prev = if is_free m p == 0 then first_free m ps p else hole p

-- With more fuel than blocks the walk ends, at the first free block if there is one.
pub search_loop-first_free :
    (fuel : ℕ) {m : Mem} (prev : ℕ) {p : ℕ} {ps : List ℕ}
    → Chain m p ps
    → length ps < fuel
    → search_loop fuel m p prev ≡ some (first_free m ps prev)
unfolding search_loop first_free
search_loop-first_free zero prev c h = absurd (omega arith)
search_loop-first_free (suc fuel) prev end h = refl
search_loop-first_free (suc fuel) {m} prev (block {p} nonzero c) h =
    let real : (p == 0) ≡ false = ground arith in
    elim (Bool-cases (is_free m p == 0)) [
      | inl used ↦ rw (real, used) (search_loop-first_free fuel p c (omega arith))
      | inr free ↦ rw (real, free)
    ]

-- The blocks before a free one are in use.
pub first_free-hole :
    (m : Mem) (before : List ℕ) (p : ℕ) (after : List ℕ) (prev : ℕ)
    → All (λ q. is_free m q ≡ 0) before
    → is_free m p ≢ 0
    → first_free m (before ++ p ∷ after) prev ≡ hole p
unfolding first_free
first_free-hole m [] p after prev used free = ground arith
first_free-hole m (q ∷ before) p after prev (u, used) free =
    let e : (is_free m q == 0) ≡ true = ground arith in
    rw e (first_free-hole m before p after q used free)

-- Where all are in use, the walk ends behind the last one.
pub first_free-no_hole :
    (m : Mem) (before : List ℕ) (last : ℕ) (prev : ℕ)
    → All (λ q. is_free m q ≡ 0) (before ++ last ∷ [])
    → first_free m (before ++ last ∷ []) prev ≡ no_hole last
unfolding first_free
first_free-no_hole m [] last prev (used, _) = ground arith
first_free-no_hole m (q ∷ before) last prev (u, used) =
    let e : (is_free m q == 0) ≡ true = ground arith in
    rw e (first_free-no_hole m before last q used)
