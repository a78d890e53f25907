-- ===== src/Timer/Rate.antt =====
-- The rate that the timer is set to (kernel/src/arch/timer/pit.c).
use native.Mathlib.Nat.{
  mul-add, mul-one, mod-lt, mod-add-div, mul-div-le, le-div_iff_mul-le, div-lt_iff_lt-mul,
}
use faceless_os.Base.{ℕ, ◌+◌, ◌*◌, ◌/◌, ◌%◌, ◌^◌, ◌<◌, ◌≤◌, ◌≡◌, ap, ◌∷◌, arith}
use faceless_os.Machine.Io.{out8, Trace}
use faceless_os.Timer.{pit_init}

above : (f : ℕ) → 0 < f → 1193180 < f * (1193180 / f + 1)
above f pos =
    omega (arith, mod-add-div 1193180 f, mod-lt 1193180 pos, mul-add f (1193180 / f) 1, mul-one f)

written :
    (t : Trace) (q : ℕ)
    → q < 2 ^ 16
    → out8 0x40 (q / 2 ^ 8 % 2 ^ 8) ∷ out8 0x40 (q % 2 ^ 8 % 2 ^ 8) ∷ out8 0x43 0x36 ∷ t
      ≡ out8 0x40 (q / 2 ^ 8) ∷ out8 0x40 (q % 2 ^ 8) ∷ out8 0x43 0x36 ∷ t
written t q fits = ground arith

-- From 19 Hz up to the frequency of the chip, `pit_init` writes the command byte and then the two
-- bytes of a positive divisor, the low one first; the divisor is the largest with which the timer
-- is at least as fast as asked.
pub pit_init-divisor :
    (freq_hz : ℕ) (t : Trace)
    → 19 ≤ freq_hz
    → freq_hz ≤ 1193180
    → (lo : ℕ) × (hi : ℕ) × (pit_init freq_hz t
        ≡ (tt, out8 0x40 hi ∷ out8 0x40 lo ∷ out8 0x43 0x36 ∷ t))
      × (lo < 2 ^ 8)
      × (hi < 2 ^ 8)
      × (0 < lo + hi * 2 ^ 8)
      × (freq_hz * (lo + hi * 2 ^ 8) ≤ 1193180)
      × (1193180 < freq_hz * (lo + hi * 2 ^ 8 + 1))
unfolding pit_init
pit_init-divisor freq_hz t low high =
    let q = 1193180 / freq_hz in
    let some_ticks : 1 ≤ q = (le-div_iff_mul-le (omega arith)).1 (omega arith) in
    let fits : q < 2 ^ 16 = (div-lt_iff_lt-mul (omega arith)).1 (omega arith) in
    let bytes : q % 2 ^ 8 + q / 2 ^ 8 * 2 ^ 8 ≡ q = omega arith in
    (
      q % 2 ^ 8,
      q / 2 ^ 8,
      ap (λ t. (tt, t)) (written t q fits),
      omega arith,
      omega arith,
      omega arith,
      rw bytes (mul-div-le 1193180 freq_hz),
      rw bytes (above freq_hz (omega arith)),
    )
