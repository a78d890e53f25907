-- ===== src/Machine/Bits.antt =====
-- `&` with a mask and `|` of disjoint fields, as arithmetic.
use Prim.Native.Nat.{min, max, digits, bitwise, bit_and-bitwise, bit_or-bitwise}
use native.Mathlib.Nat.{pow-suc, one-le-pow, div-div-eq-div-mul, mod-add-div}
use faceless_os.Base.{
  ℕ, zero, suc, ◌+◌, ◌-◌, ◌*◌, ◌/◌, ◌%◌, ◌^◌, ◌≤◌, ◌<◌, bit_and, bit_or, ◌≡◌, refl, ap, arith,
}

-- Two fuels that cover the number give the same digits.
module _ (z : ℕ → ℕ) (f : ℕ → ℕ → ℕ) where
  enough : (n m a b : ℕ) → a ≤ n → a ≤ m → digits z f n a b ≡ digits z f m a b
  enough zero m (suc a) b p q = elim p [ ]
  enough zero zero zero b p q = refl
  enough zero (suc m) zero b p q = refl
  enough (suc n) zero (suc a) b p q = elim q [ ]
  enough (suc n) zero zero b p q = refl
  enough (suc n) (suc m) zero b p q = refl
  enough (suc n) (suc m) (suc a) b p q =
      ap (λ t. t * 2 + f (suc a % 2) (b % 2))
        (enough n m (suc a / 2) (b / 2) (omega arith) (omega arith))

  lowest :
      (a b : ℕ)
      → bitwise z f (suc a) b ≡ bitwise z f (suc a / 2) (b / 2) * 2 + f (suc a % 2) (b % 2)
  lowest a b =
      ap (λ t. t * 2 + f (suc a % 2) (b % 2))
        (enough a (suc a / 2) (suc a / 2) (b / 2) (omega arith) (omega arith))

-- The digit equations of `&` and `|`.
pub bit_and_digit : (a b : ℕ) → bit_and a b ≡ bit_and (a / 2) (b / 2) * 2 + min (a % 2) (b % 2)
bit_and_digit zero b = simp bit_and-bitwise (omega arith)
bit_and_digit (suc a) b = simp bit_and-bitwise (lowest (λ _. 0) min a b)

pub bit_or_digit : (a b : ℕ) → bit_or a b ≡ bit_or (a / 2) (b / 2) * 2 + max (a % 2) (b % 2)
bit_or_digit zero b = simp bit_or-bitwise (omega arith)
bit_or_digit (suc a) b = simp bit_or-bitwise (lowest (λ y. y) max a b)

-- Numbers below `k` by strong induction, as a recursion on the bound.
bit_and-zero_below : (k a : ℕ) → a < k → bit_and a 0 ≡ 0
bit_and-zero_below zero a h = elim h [ ]
bit_and-zero_below (suc k) zero h = refl
bit_and-zero_below (suc k) (suc a) h =
    omega (arith, bit_and_digit (suc a) 0, bit_and-zero_below k (suc a / 2) (omega arith))

pub bit_and-zero : (a : ℕ) → bit_and a 0 ≡ 0
bit_and-zero a = bit_and-zero_below (suc a) a (omega arith)

bit_or-zero_below : (k a : ℕ) → a < k → bit_or a 0 ≡ a
bit_or-zero_below zero a h = elim h [ ]
bit_or-zero_below (suc k) zero h = refl
bit_or-zero_below (suc k) (suc a) h =
    omega (arith, bit_or_digit (suc a) 0, bit_or-zero_below k (suc a / 2) (omega arith))

pub bit_or-zero : (a : ℕ) → bit_or a 0 ≡ a
bit_or-zero a = bit_or-zero_below (suc a) a (omega arith)

div-two_pow-suc : (k a : ℕ) → a / 2 ^ suc k ≡ a / 2 / 2 ^ k
div-two_pow-suc k a =
    rw (div-div-eq-div-mul a 2 (2 ^ k)) (ap (λ (t : ℕ). a / t) (omega (arith, pow-suc 2 k)))

-- `2 ^ suc k * d` is twice `2 ^ k * d`.
two_pow-suc-mul : (k d : ℕ) → 2 ^ suc k * d ≡ 2 * (2 ^ k * d)
two_pow-suc-mul k d = omega (arith, ap (λ (t : ℕ). t * d) (pow-suc 2 k))

mod-two_pow-suc : (k a : ℕ) → a % 2 ^ suc k ≡ (a / 2 % 2 ^ k) * 2 + a % 2
mod-two_pow-suc k a =
    let whole = mod-add-div a (2 ^ suc k) in
    let halves = mod-add-div (a / 2) (2 ^ k) in
    omega (arith, rw (div-two_pow-suc k a) at whole, halves, two_pow-suc-mul k (a / 2 / 2 ^ k))

-- A low mask is a remainder: `x & (2^k - 1)`.
pub mask_low : (k a : ℕ) → bit_and a (2 ^ k - 1) ≡ a % 2 ^ k
mask_low zero a = ground (arith, bit_and-zero a)
mask_low (suc k) a =
    let half : (2 ^ suc k - 1) / 2 ≡ 2 ^ k - 1 = omega (arith, pow-suc 2 k, one-le-pow k 2) in
    let odd : (2 ^ suc k - 1) % 2 ≡ 1 = omega (arith, pow-suc 2 k, one-le-pow k 2) in
    rw (bit_and_digit a (2 ^ suc k - 1), half, odd, mask_low k (a / 2))
      (omega (arith, mod-two_pow-suc k a))

-- A mask of bits from `k` on works on the quotient.
pub mask_high : (k a m : ℕ) → bit_and a (m * 2 ^ k) ≡ bit_and (a / 2 ^ k) m * 2 ^ k
mask_high zero a m = ground arith
mask_high (suc k) a m =
    let e : m * 2 ^ suc k ≡ 2 * (m * 2 ^ k) = omega (arith, ap (λ (t : ℕ). m * t) (pow-suc 2 k)) in
    let half : m * 2 ^ suc k / 2 ≡ m * 2 ^ k = omega (arith, e) in
    let even : m * 2 ^ suc k % 2 ≡ 0 = omega (arith, e) in
    rw (bit_and_digit a (m * 2 ^ suc k), half, even, mask_high k (a / 2) m, ← div-two_pow-suc k a)
      (omega (arith, ap (λ (t : ℕ). bit_and (a / 2 ^ suc k) m * t) (pow-suc 2 k)))

-- `|` of a multiple of `2^k` and a smaller number is their sum.
pub join_fields : (k q r : ℕ) → r < 2 ^ k → bit_or (q * 2 ^ k) r ≡ q * 2 ^ k + r
join_fields zero q r h = ground (arith, bit_or-zero q)
join_fields (suc k) q r h = ground (
  arith,
  bit_or_digit (q * 2 ^ suc k) r,
  join_fields k q (r / 2),
  ap (λ (t : ℕ). q * t) (pow-suc 2 k),
  pow-suc 2 k,
)

-- The same with the smaller number first.
pub join_fields_swapped : (k q r : ℕ) → r < 2 ^ k → bit_or r (q * 2 ^ k) ≡ q * 2 ^ k + r
join_fields_swapped zero q r h =
    let none_left : r ≡ 0 = ground arith in
    let whole : q * 2 ^ 0 ≡ q = ground arith in
    rw (none_left, whole) (simp bit_or-bitwise (omega arith))
join_fields_swapped (suc k) q r h = ground (
  arith,
  bit_or_digit r (q * 2 ^ suc k),
  join_fields_swapped k q (r / 2),
  ap (λ (t : ℕ). q * t) (pow-suc 2 k),
  pow-suc 2 k,
)
