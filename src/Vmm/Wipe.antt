-- ===== src/Vmm/Wipe.antt =====
-- The page of a new table, which `map_page` (kernel/src/arch/memory/vmm.c) gets cleared and clears
-- again.
use faceless_os.Base.{
  ℕ, ◌+◌, ◌*◌, ◌≤◌, ◌<◌, ◌≡◌, refl, ◌⊎◌, arith, leb, ltb, ◌&&◌, if◌then◌else◌, ◌∙◌,
}
use faceless_os.Machine.Memory.{Mem, read_le, read_le_same}
use faceless_os.Text.{memzero_loop}
use faceless_os.Text.Search.{memzero_loop_lem}
use faceless_os.Pmm.{zero_words}
use faceless_os.Pmm.Zero.{zero_words_lem}
use faceless_os.Vmm.{get_entry}

unfoldable pub wiped : ℕ → Mem → Mem
wiped frame m = memzero_loop 0x1000 frame (zero_words 512 0 frame m)

wiped_lem :
    (frame : ℕ) (m : Mem) (a : ℕ)
    → wiped frame m a ≡ (if leb frame a && ltb a (frame + 0x1000) then 0 else m a)
unfolding wiped
wiped_lem frame m a =
    memzero_loop_lem 0x1000 frame (zero_words 512 0 frame m) a
    ∙ ground (arith, zero_words_lem 512 0 frame m a)

module _ (frame : ℕ) (m : Mem) (idx : ℕ) (below : idx < 512) where
  pub get_entry-wiped_ne :
      (table : ℕ)
      → (table + 0x1000 ≤ frame) ⊎ (frame + 0x1000 ≤ table)
      → get_entry (wiped frame m) table idx ≡ get_entry m table idx
  unfolding get_entry
  get_entry-wiped_ne table apart =
      read_le_same (wiped frame m) m (table + 8 * idx) 8
        (λ a lo hi. ground (arith, wiped_lem frame m a))

  pub get_entry-wiped_self : get_entry (wiped frame m) frame idx ≡ 0
  unfolding get_entry
  get_entry-wiped_self =
      read_le_same (wiped frame m) (λ _. 0) (frame + 8 * idx) 8
        (λ a lo hi. ground (arith, wiped_lem frame m a))
      ∙ unfold read_le in refl
