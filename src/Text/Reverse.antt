-- ===== src/Text/Reverse.antt =====
-- The in-place reversal at the end of `dec2str` and `hex2str` (kernel/src/libkern/string.c).
use faceless_os.Base.{
  ℕ, zero, suc, ◌+◌, ◌-◌, ◌*◌, ◌≤◌, ◌<◌, ◌≡◌, refl, Option, some, arith, ltb, Bool-cases, inl, inr,
  ap, true, false, sym,
}
use mathlib.Core.Path.{subst}
use faceless_os.Machine.Memory.{store}
use faceless_os.Machine.Io.{u8}
use faceless_os.Text.{Bytes, Buffer, swap_loop, finish}

-- The loop returns, and the bytes from `j` to `i` are turned round.
record Turned (j i : ℕ) (buf : Bytes) (r : Option Bytes) : Type 0 where
  out : Bytes
  returns : r ≡ some out
  inside : (k : ℕ) → j ≤ k → k ≤ i → out k ≡ buf (j + i - k)
  before : (k : ℕ) → k < j → out k ≡ buf k
  behind : (k : ℕ) → i < k → out k ≡ buf k

swapped : ℕ → ℕ → Bytes → Bytes
swapped j i buf = store (store buf j (buf i)) i (buf j)

Turned-swapped :
    (j i : ℕ) (buf : Bytes) {r : Option Bytes}
    → j < i
    → Turned (j + 1) (i - 1) (swapped j i buf) r
    → Turned j i buf r
unfolding swapped
Turned-swapped j i buf more rest = record {
  out = rest.out;
  returns = rest.returns;
  inside = λ k lo hi. ground (arith, rest.inside k, rest.before k, rest.behind k, mirror k);
  before = λ k h. ground (arith, rest.before k);
  behind = λ k h. ground (arith, rest.behind k);
}
  where
    mirror : (k : ℕ) → j + 1 + (i - 1) - k ≡ j + i - k
    mirror k = omega arith

module _ (fuel j i : ℕ) (buf : Bytes) where
  swap_loop-more :
      i < 256
      → j < i
      → swap_loop (suc fuel) j i buf ≡ swap_loop fuel (j + 1) (i - 1) (swapped j i buf)
  unfolding swap_loop swapped
  swap_loop-more small more =
      let up : u8 (j + 1) ≡ j + 1 = omega arith in
      let down : u8 (i + 255) ≡ i - 1 = omega arith in
      let test : ltb j i ≡ true = ground arith in rw (test, up, down)

  swap_loop-met : ltb j i ≡ false → swap_loop (suc fuel) j i buf ≡ some buf
  unfolding swap_loop
  swap_loop-met test = rw test

swap_loop-Turned :
    (fuel j i : ℕ) (buf : Bytes)
    → i < 256
    → j ≤ i + 1
    → i + 1 < j + 2 * fuel
    → Turned j i buf (swap_loop fuel j i buf)
swap_loop-Turned zero j i buf small start enough = absurd (omega arith)
swap_loop-Turned (suc fuel) j i buf small start enough = elim (Bool-cases (ltb j i)) [
  | inl t ↦
      let more : j < i = ground arith in
      rw (swap_loop-more fuel j i buf small more) (
        Turned-swapped j i buf more (
          swap_loop-Turned fuel (j + 1) (i - 1) (swapped j i buf) (omega arith) (omega arith)
            (omega arith)))
  | inr f ↦ record {
    out = buf;
    returns = swap_loop-met fuel j i buf f;
    inside = λ k lo hi. ap buf (ground arith);
    before = λ k h. refl;
    behind = λ k h. refl;
  }
]

-- The result of `finish`: the bytes of the buffer in reverse, and a 0 behind them.
pub record Reversed (b : Buffer) (r : Option Bytes) : Type 0 where
  pub out : Bytes
  pub returns : r ≡ some out
  pub mirrored : (k : ℕ) → k < b.i → out k ≡ b.bytes (b.i - 1 - k)
  pub terminated : out b.i ≡ 0

Turned-Reversed :
    (b : Buffer) {r : Option Bytes}
    → 0 < b.i
    → Turned 0 (b.i - 1) (store b.bytes b.i 0) r
    → Reversed b r
Turned-Reversed b some_bytes t = record {
  out = t.out;
  returns = t.returns;
  mirrored = λ k h. ground (arith, t.inside k);
  terminated = ground (arith, t.behind b.i);
}

pub finish-Reversed : (b : Buffer) → 0 < b.i → b.i < 256 → Reversed b (finish b)
unfolding finish
finish-Reversed b some_bytes small =
    let down : u8 (b.i + 255) ≡ b.i - 1 = omega arith in
    let buf : Bytes = store b.bytes b.i 0 in
    Turned-Reversed b some_bytes (
      subst (λ i. Turned 0 (b.i - 1) buf (swap_loop 128 0 i buf)) (sym down)
        (swap_loop-Turned 128 0 (b.i - 1) buf (omega arith) (omega arith) (omega arith)))
