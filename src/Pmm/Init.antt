-- ===== src/Pmm/Init.antt =====
-- `pmm_init` (kernel/src/arch/memory/pmm.c): the top of the usable memory, and the frame counts.
use faceless_os.Base.{
  ℕ, ◌+◌, ◌*◌, ◌/◌, ◌^◌, ◌≤◌, ◌<◌, ◌≡◌, refl, ◌⊎◌, inl, inr, ltb, ◌==◌, ◌&&◌, if◌then◌else◌,
  Bool-cases, ap, ◌∙◌, List, [], ◌∷◌, arith, All,
}
use faceless_os.Machine.Io.{Trace, u64}
use faceless_os.Pmm.{Entry, Pmm, is_skipped, init_entry, init_loop, pmm_init}

abbrev pub top_of : Entry → ℕ
top_of e = u64 (e.base + e.length)

-- Some usable entry ends at `top`.
abbrev pub EndsAt : ℕ → List Entry → Type 0
EndsAt top [] = ⊥
EndsAt top (e ∷ es) = ((e.type ≡ 1) × (top_of e ≡ top)) ⊎ EndsAt top es

abbrev frames_of : ℕ → ℕ
frames_of top = u64 (top * 1024) / 0x1000

abbrev pub Counted : Pmm → Type 0
Counted p = (p.max_frames ≡ frames_of p.highest_frame_top) × (p.used_frames ≡ p.max_frames)

-- What one entry, and so the loop, does to the variables.
record Grows (e : Entry) (p q : Pmm) : Type 0 where
  above : p.highest_frame_top ≤ q.highest_frame_top
  covered : e.type ≡ 1 → top_of e ≤ q.highest_frame_top
  attained :
      (q.highest_frame_top ≡ p.highest_frame_top)
      ⊎ ((e.type ≡ 1) × (top_of e ≡ q.highest_frame_top))
  counted : Counted p → Counted q
  same_map : q.gmmap ≡ p.gmmap

init_entry-Grows : (e : Entry) (p : Pmm) (t : Trace) → Grows e p (init_entry e p t).0
unfolding init_entry is_skipped
init_entry-Grows e p t = record {
  above = ground arith;
  covered = ground arith;
  attained = ground arith;
  counted = ground arith;
  same_map = ground arith;
}

pub record Highest (es : List Entry) (p q : Pmm) : Type 0 where
  pub above : p.highest_frame_top ≤ q.highest_frame_top
  pub covered : All (λ e. e.type ≡ 1 → top_of e ≤ q.highest_frame_top) es
  pub attained : (q.highest_frame_top ≡ p.highest_frame_top) ⊎ EndsAt q.highest_frame_top es
  pub counted : Counted p → Counted q
  pub same_map : q.gmmap ≡ p.gmmap

init_loop-Highest : (es : List Entry) (p : Pmm) (t : Trace) → Highest es p (init_loop es p t).0
unfolding init_loop
init_loop-Highest [] p t = record {
  above = omega arith;
  covered = tt;
  attained = inl refl;
  counted = λ c. c;
  same_map = refl;
}
init_loop-Highest (e ∷ es) p t =
    let first = init_entry-Grows e p t in
    let rest = init_loop-Highest es (init_entry e p t).0 (init_entry e p t).1 in
    record {
      above = omega (arith, first.above, rest.above);
      covered = ((λ u. omega (arith, first.covered u, rest.above)), rest.covered);
      attained = ground (arith, first.attained, rest.attained);
      counted = λ c. rest.counted (first.counted c);
      same_map = ground (arith, first.same_map, rest.same_map);
    }

-- What holds in wrapping arithmetic.
pub pmm_init-Highest :
    (mmap : List Entry) (p : Pmm) (t : Trace)
    → Highest mmap (record p { gmmap = mmap }) (pmm_init mmap p t).0
unfolding pmm_init
pmm_init-Highest mmap p t = init_loop-Highest mmap (record p { gmmap = mmap }) _

-- Where the highest usable entry ends.
unfoldable pub highest_end : List Entry → ℕ
highest_end [] = 0
highest_end (e ∷ es) =
    let rest = highest_end es in
    if e.type == 1 && ltb rest (e.base + e.length) then e.base + e.length else rest

-- The greater of two numbers.
abbrev pub greater : ℕ → ℕ → ℕ
greater a b = if ltb a b then b else a

abbrev pub HasUsable : List Entry → Type 0
HasUsable [] = ⊥
HasUsable (e ∷ es) = (e.type ≡ 1) ⊎ HasUsable es

-- No usable entry wraps round the end of the address space.
abbrev pub EndsBelow : List Entry → Type 0
EndsBelow es = All (λ e. e.type ≡ 1 → e.base + e.length < 2 ^ 64) es

init_entry-highest :
    (e : Entry) (p : Pmm) (t : Trace)
    → (e.type ≡ 1 → e.base + e.length < 2 ^ 64)
    → (init_entry e p t).0.highest_frame_top ≡ (
        if e.type == 1
        then greater p.highest_frame_top (e.base + e.length)
        else p.highest_frame_top)
unfolding init_entry is_skipped
init_entry-highest e p t fits = elim (Bool-cases (e.type == 1)) [
  | inl u ↦ let below = fits (ground arith) in ground arith
  | inr n ↦ ground arith
]

init_loop-highest_end :
    (es : List Entry) (p : Pmm) (t : Trace)
    → EndsBelow es
    → (init_loop es p t).0.highest_frame_top ≡ greater p.highest_frame_top (highest_end es)
unfolding init_loop highest_end
init_loop-highest_end [] p t fits = ground arith
init_loop-highest_end (e ∷ es) p t (fit, fits) =
    let first = init_entry-highest e p t fit in
    let rest = init_loop-highest_end es (init_entry e p t).0 (init_entry e p t).1 fits in
    rest ∙ ground (arith, first)

init_entry-Counted : (e : Entry) (p : Pmm) (t : Trace) → e.type ≡ 1 → Counted (init_entry e p t).0
unfolding init_entry is_skipped
init_entry-Counted e p t u = ground arith

init_loop-Counted :
    (es : List Entry) (p : Pmm) (t : Trace) → HasUsable es → Counted (init_loop es p t).0
unfolding init_loop
init_loop-Counted [] p t u = absurd u
init_loop-Counted (e ∷ es) p t (inl u) =
    (init_loop-Highest es (init_entry e p t).0 (init_entry e p t).1).counted
      (init_entry-Counted e p t u)
init_loop-Counted (e ∷ es) p t (inr u) =
    init_loop-Counted es (init_entry e p t).0 (init_entry e p t).1 u

-- Where some entry is usable, no usable entry wraps round the end of the address space, and the
-- top stays below 2 ^ 54, `pmm_init` keeps the map, and the top of the frames becomes the highest
-- end of a usable entry, or what it was if that is higher. Both frame counts become a quarter of
-- the top in bytes, which is 1024 times the frames below it.
pub pmm_init-highest_end :
    (mmap : List Entry) (p : Pmm) (t : Trace)
    → EndsBelow mmap
    → HasUsable mmap
    → greater p.highest_frame_top (highest_end mmap) < 2 ^ 54
    → let q = (pmm_init mmap p t).0 in
      (q.highest_frame_top ≡ greater p.highest_frame_top (highest_end mmap))
      × (q.max_frames ≡ greater p.highest_frame_top (highest_end mmap) / 4)
      × (q.used_frames ≡ q.max_frames)
      × (q.gmmap ≡ mmap)
unfolding pmm_init
pmm_init-highest_end mmap p t fits usable low =
    let start : Pmm = record p { gmmap = mmap } in
    let top = init_loop-highest_end mmap start _ fits in
    let (all, used) = init_loop-Counted mmap start _ usable in
    (
      top,
      all ∙ ap (λ x. u64 (x * 1024) / 0x1000) top ∙ omega arith,
      used,
      (init_loop-Highest mmap start _).same_map,
    )
