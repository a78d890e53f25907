-- ===== src/Boot/Tags/Search.antt =====
-- The tag that `get_tag` finds (kernel/src/kernel.c).
use faceless_os.Base.{
  ℕ, zero, suc, ◌<◌, ◌≡◌, ◌≢◌, refl, List, [], ◌∷◌, length, false, some, arith, ◌==◌, if◌then◌else◌,
  Bool-cases, inl, inr,
}
use faceless_os.Machine.Memory.{Mem}
use faceless_os.Boot.Tags.{first_tag, identifier, next_tag, tag_loop, get_tag}

-- From `tag` the `next` fields lead through the tags `ts` to NULL.
pub data Tags (m : Mem) : ℕ → List ℕ → Type 0 where
  end : Tags m 0 []
  tag : {p : ℕ} {ts : List ℕ} → p ≢ 0 → Tags m (next_tag m p) ts → Tags m p (p ∷ ts)

-- The first tag with an identifier, or NULL.
unfoldable pub first_with : Mem → ℕ → List ℕ → ℕ
first_with m id [] = 0
first_with m id (t ∷ ts) = if identifier m t == id then t else first_with m id ts

tag_loop-first_with :
    (fuel : ℕ) {m : Mem} (id : ℕ) {p : ℕ} {ts : List ℕ}
    → Tags m p ts
    → length ts < fuel
    → tag_loop fuel m p id ≡ some (first_with m id ts)
unfolding first_with tag_loop
tag_loop-first_with zero id c lt = let bad : 0 < 0 = omega arith in elim bad [ ]
tag_loop-first_with (suc fuel) id end lt = refl
tag_loop-first_with (suc fuel) {m = m} id (tag {p = p} {ts = ts} ne c) lt =
    let there : (p == 0) ≡ false = ground arith in
    elim (Bool-cases (identifier m p == id)) [
      | inl e ↦ rw (there, e) refl
      | inr e ↦ rw (there, e) (tag_loop-first_with fuel id c (omega arith))
    ]

-- Where the tags form a chain to NULL shorter than the fuel, `get_tag` returns the first of them
-- with the identifier, or NULL when there is none.
pub get_tag-first_with :
    (fuel : ℕ) {m : Mem} (ss id : ℕ) {ts : List ℕ}
    → Tags m (first_tag m ss) ts
    → length ts < fuel
    → get_tag fuel m ss id ≡ some (first_with m id ts)
unfolding get_tag
get_tag-first_with fuel ss id c lt = tag_loop-first_with fuel id c lt
