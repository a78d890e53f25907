-- ===== src/Text/Numbers.antt =====
-- What the digit loops of `dec2str` and `hex2str` (kernel/src/libkern/string.c) have in common, for
-- any base: they write the digits of a number, the lowest first.
use native.Mathlib.Nat.{
  mod-lt, pow-suc, pow-zero, sub-zero, mod-add-div', div-lt_iff_lt-mul, zero-div, mul_comm,
}
use faceless_os.Base.{
  ℕ, zero, suc, ◌+◌, ◌-◌, ◌*◌, ◌/◌, ◌%◌, ◌^◌, ◌≤◌, ◌<◌, ◌≡◌, refl, Option, none, some, arith, ltb,
  if◌then◌else◌, Bool-cases, inl, inr, ap, ◌∙◌, true, false, sym,
}
use faceless_os.Machine.Io.{u8}
use faceless_os.Text.{Bytes, Buffer, put}

-- The number without its `k` lowest digits.
unfoldable pub quot : ℕ → ℕ → ℕ → ℕ
quot base zero n = n
quot base (suc k) n = quot base k (n / base)

pub quot-suc : (base k n : ℕ) → quot base (suc k) n ≡ quot base k n / base
unfolding quot
quot-suc base zero n = refl
quot-suc base (suc k) n = quot-suc base k (n / base)

pub quot-zero : (base k : ℕ) → quot base k 0 ≡ 0
unfolding quot
quot-zero base zero = refl
quot-zero base (suc k) = rw (zero-div base) (quot-zero base k)

pub quot_zero-pos : (base len n : ℕ) → 0 < n → quot base len n ≡ 0 → 0 < len
unfolding quot
quot_zero-pos base zero n pos z = omega arith
quot_zero-pos base (suc len) n pos z = omega arith

-- The last digit stands alone.
pub quot_zero-last :
    (base len n : ℕ) → 0 < base → 0 < len → quot base len n ≡ 0 → quot base (len - 1) n < base
quot_zero-last base zero n big pos z = elim pos [ ]
quot_zero-last base (suc len) n big pos z =
    let one : suc len - 1 ≡ len = omega arith in
    let small : quot base len n / base < 1 = omega (arith, quot-suc base len n) in
    rw one (omega (arith, (div-lt_iff_lt-mul {y = 1} big).0 small))

unfoldable pub digit_loop : ℕ → (ℕ → ℕ) → ℕ → ℕ → Buffer → Option Buffer
digit_loop base enc zero n b = none
digit_loop base enc (suc fuel) n b =
    let rest = digit_loop base enc fuel (n / base) (put (enc (n % base)) b) in
    if ltb 0 n then rest else some b

-- The loop returns after `len` digits, which stand from index `b.i` on; what stood before them is
-- as it was.
pub record Digits (base : ℕ) (enc : ℕ → ℕ) (fuel n : ℕ) (b : Buffer) (r : Option Buffer)
    : Type 0 where
  pub len : ℕ
  pub out : Bytes
  pub returns : r ≡ some (record { bytes = out; i = b.i + len })
  pub bounded : len ≤ fuel
  pub used_up : quot base len n ≡ 0
  pub needed : (k : ℕ) → k < len → 0 < quot base k n
  pub digit : (k : ℕ) → k < len → out (b.i + k) ≡ enc (quot base k n % base)
  pub before : (k : ℕ) → k < b.i → out k ≡ b.bytes k

module _ (base : ℕ) (enc : ℕ → ℕ) where
  Digits-none : (fuel n : ℕ) (b : Buffer) → ltb 0 n ≡ false → Digits base enc fuel n b (some b)
  unfolding quot
  Digits-none fuel n b z = record {
    len = 0;
    out = b.bytes;
    returns = ground arith;
    bounded = omega arith;
    used_up = ground arith;
    needed = λ k h. elim h [ ];
    digit = λ k h. elim h [ ];
    before = λ k h. refl;
  }

  Digits-put :
      (fuel n : ℕ) (b : Buffer) {r : Option Buffer}
      → 0 < n
      → b.i + 1 < 256
      → Digits base enc fuel (n / base) (put (enc (n % base)) b) r
      → Digits base enc (suc fuel) n b r
  unfolding quot put
  Digits-put fuel n b pos small rest = record {
    len = suc rest.len;
    out = rest.out;
    returns = rest.returns ∙ ground arith;
    bounded = omega (arith, rest.bounded);
    used_up = rest.used_up;
    needed = needs;
    digit = digits;
    before = λ k h. ground (arith, rest.before k);
  }
    where
      next : u8 (b.i + 1) ≡ b.i + 1
      next = omega arith

      needs : (k : ℕ) → k < suc rest.len → 0 < quot base k n
      needs zero h = pos
      needs (suc k) h = rest.needed k (omega arith)

      digits : (k : ℕ) → k < suc rest.len → rest.out (b.i + k) ≡ enc (quot base k n % base)
      digits zero h = ground (arith, rest.before b.i)
      digits (suc k) h = ground (arith, rest.digit k (omega arith))

  digit_loop-stop :
      (fuel n : ℕ) (b : Buffer) → ltb 0 n ≡ false → digit_loop base enc (suc fuel) n b ≡ some b
  unfolding digit_loop
  digit_loop-stop fuel n b stop = rw stop

  digit_loop-more :
      (fuel n : ℕ) (b : Buffer)
      → ltb 0 n ≡ true
      → digit_loop base enc (suc fuel) n b
        ≡ digit_loop base enc fuel (n / base) (put (enc (n % base)) b)
  unfolding digit_loop
  digit_loop-more fuel n b more = rw more

  -- Fuel for one round more than the digits is enough.
  pub digit_loop-Digits :
      (fuel n : ℕ) (b : Buffer)
      → 1 < base
      → n < base ^ fuel
      → b.i + fuel < 256
      → Digits base enc fuel n b (digit_loop base enc (suc fuel) n b)
  digit_loop-Digits zero n b big h small =
      let stop : ltb 0 n ≡ false = ground (arith, pow-zero base) in
      rw (digit_loop-stop 0 n b stop) (Digits-none 0 n b stop)
  digit_loop-Digits (suc fuel) n b big h small = elim (Bool-cases (ltb 0 n)) [
    | inl more ↦ rw (digit_loop-more (suc fuel) n b more) (
        Digits-put fuel n b (ground arith) (omega arith) (
          digit_loop-Digits fuel (n / base) (put (enc (n % base)) b) big
            ((div-lt_iff_lt-mul (omega arith)).1
              (omega (arith, pow-suc base fuel, mul_comm base (base ^ fuel))))
            (unfold put in omega arith)))
    | inr stop ↦ rw (digit_loop-stop (suc fuel) n b stop) (Digits-none (suc fuel) n b stop)
  ]

-- The number that the `n` characters from `s` on denote, the highest digit first.
unfoldable pub value : ℕ → (ℕ → ℕ) → Bytes → ℕ → ℕ → ℕ
value base dec buf s zero = 0
value base dec buf s (suc n) = value base dec buf s n * base + dec (buf (s + n))

-- Digits in reverse order denote the number.
value-quot :
    (base : ℕ) (dec : ℕ → ℕ) (buf : Bytes) (s len n m : ℕ)
    → ((k : ℕ) → k < len → dec (buf (s + k)) ≡ quot base (len - 1 - k) n % base)
    → m ≤ len
    → quot base len n ≡ 0
    → value base dec buf s m ≡ quot base (len - m) n
unfolding value
value-quot base dec buf s len n zero digit h z = rw sub-zero (sym z)
value-quot base dec buf s len n (suc m) digit h z =
    let left = len - suc m in
    let e : len - m ≡ suc left = omega arith in
    let e' : len - 1 - m ≡ left = omega arith in
    let front : value base dec buf s m ≡ quot base left n / base =
      value-quot base dec buf s len n m digit (omega arith) z ∙ rw e (quot-suc base left n) in
    let last : dec (buf (s + m)) ≡ quot base left n % base = digit m h ∙ rw e' in
    rw (front, last) (omega (arith, mod-add-div' (quot base left n) base))

-- `len` characters from `s` on are digits of `n`, the highest first, and all of them.
pub record Shows (base : ℕ) (enc : ℕ → ℕ) (n : ℕ) (out : Bytes) (s len : ℕ) : Type 0 where
  pub digit : (k : ℕ) → k < len → out (s + k) ≡ enc (quot base (len - 1 - k) n % base)
  pub used_up : quot base len n ≡ 0

pub Shows-value :
    {base : ℕ} {enc : ℕ → ℕ} {n : ℕ} {out : Bytes} {s len : ℕ} (dec : ℕ → ℕ)
    → 0 < base
    → ((d : ℕ) → d < base → dec (enc d) ≡ d)
    → Shows base enc n out s len
    → value base dec out s len ≡ n
unfolding quot
Shows-value {base} {enc} {n} {out} {s} {len} dec pos inverse shown =
    value-quot base dec out s len n len
      (λ k h.
        ap dec (shown.digit k h)
        ∙ inverse (quot base (len - 1 - k) n % base) (mod-lt (quot base (len - 1 - k) n) pos))
      (omega arith) shown.used_up
    ∙ (let e : len - len ≡ 0 = omega arith in rw e)
