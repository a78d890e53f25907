-- ===== src/Text/Decimal.antt =====
-- `dec2str` (kernel/src/libkern/string.c): the buffer holds the number in decimal.
use faceless_os.Base.{
  ℕ, zero, suc, ◌+◌, ◌-◌, ◌/◌, ◌%◌, ◌^◌, ◌≤◌, ◌<◌, ◌≡◌, refl, ◌≢◌, ◌⊎◌, inl, inr, Bool, true, false,
  Option, none, some, arith, ◌==◌, if◌then◌else◌, sym, ◌∙◌,
}
use mathlib.Core.Path.{subst}
use faceless_os.Machine.Memory.{store}
use faceless_os.Machine.Io.{u8, u32}
use faceless_os.Text.{Bytes, Buffer, put, dec_loop, is_negative, finish, dec2str}
use faceless_os.Text.Reverse.{Reversed, finish-Reversed}
use faceless_os.Text.Numbers.{
  quot, quot-zero, quot_zero-pos, quot_zero-last, digit_loop, digit_loop-Digits, Digits, value,
  Shows, Shows-value,
}

abbrev dec_enc : ℕ → ℕ
dec_enc d = d + b'0'

abbrev pub dec_digit : ℕ → ℕ
dec_digit c = c - b'0'

dec_loop-digit_loop :
    (fuel n : ℕ) (b : Buffer) → n < 2 ^ 31 → dec_loop fuel n b ≡ digit_loop 10 dec_enc fuel n b
unfolding dec_loop digit_loop
dec_loop-digit_loop zero n b h = refl
dec_loop-digit_loop (suc fuel) n b h =
    ground (arith, dec_loop-digit_loop fuel (n / 10) (put (n % 10 + b'0') b))

-- The buffer after the digits, the lowest first, with the '0' of the number 0.
record Written (n : ℕ) (r : Option Buffer) : Type 0 where
  len : ℕ
  out : Bytes
  returns : r ≡ some (record { bytes = out; i = len })
  some_digits : 0 < len
  bounded : len ≤ 10
  used_up : quot 10 len n ≡ 0
  lead : (n ≡ 0) ⊎ (0 < quot 10 (len - 1) n)
  digit : (k : ℕ) → k < len → out k ≡ quot 10 k n % 10 + b'0'

empty : Bytes → Buffer
empty old = record { bytes = old; i = 0 }

Written-zero : (old : Bytes) → Written 0 (dec_loop 11 0 (put b'0' (empty old)))
unfolding dec_loop put empty quot
Written-zero old = record {
  len = 1;
  out = store old 0 b'0';
  returns = refl;
  some_digits = omega arith;
  bounded = omega arith;
  used_up = refl;
  lead = inl refl;
  digit = λ k h. ground (arith, quot-zero 10 k);
}

Digits-Written :
    (n : ℕ) (old : Bytes) {r : Option Buffer}
    → 0 < n
    → Digits 10 dec_enc 10 n (empty old) r
    → Written n r
unfolding empty
Digits-Written n old pos d = record {
  len = d.len;
  out = d.out;
  returns = d.returns ∙ ground arith;
  some_digits = some_digits;
  bounded = d.bounded;
  used_up = d.used_up;
  lead = inr (d.needed (d.len - 1) (omega (arith, some_digits)));
  digit = λ k h. ground (arith, d.digit k);
}
  where
    some_digits : 0 < d.len
    some_digits = quot_zero-pos 10 d.len n pos d.used_up

Written-pos : (n : ℕ) (old : Bytes) → 0 < n → n < 2 ^ 31 → Written n (dec_loop 11 n (empty old))
unfolding empty
Written-pos n old pos h = rw (dec_loop-digit_loop 11 n (empty old) h) (
    Digits-Written n old pos
      (digit_loop-Digits 10 dec_enc 10 n (empty old) (omega arith) (omega arith) (omega arith)))

abbrev pub sign_width : Bool → ℕ
sign_width negative = if negative then 1 else 0

-- The text of an integer in a buffer: a '-' for a negative one, the digits of its magnitude with no
-- leading '0', and a 0 behind them.
pub record IsDecimal (negative : Bool) (magnitude : ℕ) (r : Option Bytes) : Type 0 where
  pub out : Bytes
  pub len : ℕ
  pub returns : r ≡ some out
  pub signed : negative ≡ true → out 0 ≡ b'-'
  pub digits :
      (k : ℕ)
      → k < len
      → (b'0' ≤ out (sign_width negative + k)) × (out (sign_width negative + k) ≤ b'9')
  pub lead : (magnitude ≡ 0) ⊎ (out (sign_width negative) ≢ b'0')
  pub denotes : value 10 dec_digit out (sign_width negative) len ≡ magnitude
  pub ends : out (sign_width negative + len) ≡ 0
  pub bounded : (0 < len) × (len ≤ 10)

-- The digits in reverse order, behind a sign.
module _ (negative : Bool) (m : ℕ) {r : Option Buffer} (w : Written m r) {s : Option Bytes} where
  Written-IsDecimal :
      (out : Bytes)
      → s ≡ some out
      → (negative ≡ true → out 0 ≡ b'-')
      → ((k : ℕ) → k < w.len → out (sign_width negative + k) ≡ w.out (w.len - 1 - k))
      → out (sign_width negative + w.len) ≡ 0
      → IsDecimal negative m s
  Written-IsDecimal out returns signed mirrored ends = record {
    out = out;
    len = w.len;
    returns = returns;
    signed = signed;
    digits = λ k h. ground (arith, shown.digit k h);
    lead = ground (arith, w.lead, shown.digit 0, last);
    denotes = Shows-value dec_digit (omega arith) (λ d h. omega arith) shown;
    ends = ends;
    bounded = (w.some_digits, w.bounded);
  }
    where
      shown : Shows 10 dec_enc m out (sign_width negative) w.len
      shown = record {
        digit = λ k h. mirrored k h ∙ w.digit (w.len - 1 - k) (omega arith);
        used_up = w.used_up;
      }

      last : quot 10 (w.len - 1) m < 10
      last = quot_zero-last 10 w.len m (omega arith) w.some_digits w.used_up

Reversed-IsDecimal :
    (negative : Bool) (m : ℕ) {r : Option Buffer} {s : Option Bytes} (w : Written m r)
    → Reversed
        (let b : Buffer = record { bytes = w.out; i = w.len } in if negative then put b'-' b else b)
        s
    → IsDecimal negative m s
unfolding put
Reversed-IsDecimal true m w rev =
    Written-IsDecimal true m w rev.out rev.returns (λ e. ground (arith, width, rev.mirrored 0))
      (λ k h. ground (arith, width, rev.mirrored (k + 1))) (ground (arith, width, rev.terminated))
  where
    width : u8 (w.len + 1) ≡ w.len + 1
    width = omega (arith, w.bounded)
Reversed-IsDecimal false m w rev =
    Written-IsDecimal false m w rev.out rev.returns (λ e. cc)
      (λ k h. ground (arith, rev.mirrored k)) (ground (arith, rev.terminated))

abbrev pub magnitude_of : ℕ → ℕ
magnitude_of number = if is_negative number then 2 ^ 32 - number else number

-- The two tests of the first lines as variables.
Written-start :
    (negative is_zero : Bool) (number : ℕ) (old : Bytes)
    → is_negative number ≡ negative
    → (number == 0) ≡ is_zero
    → number < 2 ^ 32
    → number ≢ 2 ^ 31
    → Written (if negative then 2 ^ 32 - number else number) (
        dec_loop 11
          (if negative then u32 (2 ^ 32 - number) else number)
          (if is_zero then put b'0' (empty old) else empty old))
Written-start true true number old s z h ne = absurd (ground arith)
Written-start false true number old s z h ne =
    let e : number ≡ 0 = ground arith in
    subst (λ n. Written n (dec_loop 11 n (put b'0' (empty old)))) (sym e) (Written-zero old)
Written-start true false number old s z h ne =
    let wraps : u32 (2 ^ 32 - number) ≡ 2 ^ 32 - number = ground arith in
    rw wraps (Written-pos (2 ^ 32 - number) old (omega arith) (ground arith))
Written-start false false number old s z h ne = Written-pos number old (ground arith) (ground arith)

-- The rest of `dec2str` after its loop.
finish_signed : Bool → Option Buffer → Option Bytes
finish_signed negative r = elim r [
  | none ↦ none
  | some b ↦ finish (if negative then put b'-' b else b)
]

finish_signed-IsDecimal :
    (negative : Bool) (m : ℕ) {r : Option Buffer}
    → Written m r
    → IsDecimal negative m (finish_signed negative r)
unfolding finish_signed
finish_signed-IsDecimal negative m w =
    rw w.returns (Reversed-IsDecimal negative m w (signed negative))
  where
    signed :
        (negative : Bool)
        → let b : Buffer = record { bytes = w.out; i = w.len } in
          let b' = if negative then put b'-' b else b in Reversed b' (finish b')
    signed true =
        finish-Reversed _ (unfold put in omega (arith, w.bounded))
          (unfold put in omega (arith, w.bounded))
    signed false = finish-Reversed _ (omega (arith, w.some_digits)) (omega (arith, w.bounded))

-- For every `int` but the least, `dec2str` returns a buffer with a '-' if it is negative, at most
-- ten digits with no leading '0' that denote its magnitude, and a 0 behind them.
pub dec2str-IsDecimal :
    (number : ℕ) (old : Bytes)
    → number < 2 ^ 32
    → number ≢ 2 ^ 31
    → IsDecimal (is_negative number) (magnitude_of number) (dec2str number old)
unfolding dec2str finish_signed empty
dec2str-IsDecimal number old h ne =
    finish_signed-IsDecimal (is_negative number) (magnitude_of number)
      (Written-start (is_negative number) (number == 0) number old refl refl h ne)
