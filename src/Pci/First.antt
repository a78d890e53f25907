-- ===== src/Pci/First.antt =====
-- The first result of a loop, for the search of `locate_pci_device` (kernel/src/arch/pci/pci.c).
use faceless_os.Base.{
  ℕ, zero, suc, ◌+◌, ◌≤◌, ◌<◌, ◌≡◌, Option, none, some, arith, ◌==◌, ◌∙◌, sym, Bool-cases,
  Option-cases, inl, inr,
}

module _ {A : Type 0} where
  unfoldable pub some_or : Option A → Option A → Option A
  some_or (some a) rest = some a
  some_or none rest = rest

  -- The first result from `n` on, in `left` rounds.
  unfoldable pub first : ℕ → ℕ → (ℕ → Option A) → Option A
  unfolding some_or
  first zero n p = none
  first (suc left) n p = some_or (p n) (first left (n + 1) p)

  pub first-hit :
      (left n : ℕ) (p : ℕ → Option A) {a : A} → p n ≡ some a → first (suc left) n p ≡ some a
  unfolding first
  first-hit left n p hit = rw hit

  pub first-miss :
      (left n : ℕ) (p : ℕ → Option A) → p n ≡ none → first (suc left) n p ≡ first left (n + 1) p
  unfolding first
  first-miss left n p miss = rw miss

  -- A result is that of some round, and the rounds before it have none.
  pub first-some :
      (left n : ℕ) (p : ℕ → Option A) {a : A}
      → first left n p ≡ some a
      → (k : ℕ) × (n ≤ k) × (k < n + left) × (p k ≡ some a) × ((j : ℕ) → n ≤ j → j < k → p j ≡ none)
  unfolding first
  first-some zero n p e = cc
  first-some (suc left) n p {a} e = elim (Option-cases (p n)) [
    | inl missing ↦
        let (k, lo, hi, hit, before) =
          first-some left (n + 1) p (sym (first-miss left n p missing) ∙ e) in
        (
          k,
          omega arith,
          omega arith,
          hit,
          λ j nj jk. elim (Bool-cases (j == n)) [
            | inl same ↦ ground arith
            | inr other ↦ before j (ground arith) jk
          ],
        )
    | inr (b, hit) ↦ (
      n,
      omega arith,
      omega arith,
      hit ∙ sym (first-hit left n p hit) ∙ e,
      λ j nj jk. absurd (omega arith),
    )
  ]

  -- Without a result no round has one.
  pub first-none :
      (left n : ℕ) (p : ℕ → Option A)
      → first left n p ≡ none
      → (k : ℕ) → n ≤ k
      → k < n + left
      → p k ≡ none
  unfolding first
  first-none zero n p e k lo hi = absurd (omega arith)
  first-none (suc left) n p e k lo hi = elim (Option-cases (p n)) [
    | inl missing ↦ elim (Bool-cases (k == n)) [
      | inl same ↦ ground arith
      | inr other ↦
          first-none left (n + 1) p (sym (first-miss left n p missing) ∙ e) k (ground arith)
            (omega arith)
    ]
    | inr (b, hit) ↦ absurd (cc (first-hit left n p hit))
  ]
