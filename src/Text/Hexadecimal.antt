-- ===== src/Text/Hexadecimal.antt =====
-- `hex2str` (kernel/src/libkern/string.c): the buffer holds "0x" and the number in hexadecimal.
use mathlib.Core.Path.{subst}
use faceless_os.Base.{
  ℕ, zero, suc, ◌+◌, ◌-◌, ◌/◌, ◌%◌, ◌^◌, ◌≤◌, ◌<◌, ◌≡◌, refl, Bool, true, false, Option, none, some,
  arith, ltb, ◌==◌, ==_iff, if◌then◌else◌, sym, ◌∙◌, all_below, all_below_sound, bit_and,
}
use faceless_os.Machine.Bits.{mask_low}
use faceless_os.Machine.Memory.{store}
use faceless_os.Machine.Io.{u8}
use faceless_os.Text.{Bytes, Buffer, put, hex_loop, hex_char, zero_text, finish, hex2str, strncpy}
use faceless_os.Text.Search.{IsString, strncpy-copied}
use faceless_os.Text.Reverse.{Reversed, finish-Reversed}
use faceless_os.Text.Numbers.{
  quot, quot-zero, quot_zero-pos, quot-suc, digit_loop, digit_loop-Digits, Digits, value, Shows,
  Shows-value,
}

-- The value of a character of `ascii_numbers`.
abbrev pub hex_digit : ℕ → ℕ
hex_digit c = if ltb c b'A' then c - b'0' else c - 55

hex_digit-hex_char : (d : ℕ) → d < 16 → hex_digit (hex_char d) ≡ d
hex_digit-hex_char d h =
    (==_iff _ d).0
      (all_below_sound 16 (λ d. hex_digit (hex_char d) == d) d (unfold all_below in refl) h)

hex_loop-digit_loop :
    (fuel n : ℕ) (b : Buffer) → hex_loop fuel n b ≡ digit_loop 16 hex_char fuel n b
unfolding hex_loop digit_loop
hex_loop-digit_loop zero n b = refl
hex_loop-digit_loop (suc fuel) n b =
    let nibble : bit_and (u8 n) 0x0F ≡ n % 16 = omega (arith, mask_low 4 (u8 n)) in
    rw nibble (ground (arith, hex_loop-digit_loop fuel (n / 16) (put (hex_char (n % 16)) b)))

-- The rest of `hex2str` after its loop.
pad : Bool → Buffer → Buffer
pad small b = if small then put b'0' b else b

-- The buffer after the digits and their padding, the lowest first.
record Written (n : ℕ) (b : Buffer) : Type 0 where
  some_digits : 2 ≤ b.i
  bounded : b.i ≤ 8
  used_up : quot 16 b.i n ≡ 0
  digit : (k : ℕ) → k < b.i → b.bytes k ≡ hex_char (quot 16 k n % 16)

-- One more '0' behind all digits is the next digit.
Written-put :
    (n : ℕ) (b : Buffer)
    → 0 < b.i
    → b.i < 8
    → quot 16 b.i n ≡ 0
    → ((k : ℕ) → k < b.i → b.bytes k ≡ hex_char (quot 16 k n % 16))
    → Written n (put b'0' b)
unfolding put
Written-put n b pos small z digit =
    subst (λ i. Written n (record { bytes = store b.bytes b.i b'0'; i = i })) (sym width)
      (record {
        some_digits = omega arith;
        bounded = omega arith;
        used_up = ground (arith, quot-suc 16 b.i n);
        digit = λ k h. ground (arith, digit k);
      })
  where
    width : u8 (b.i + 1) ≡ suc b.i
    width = omega arith

two_digits : (len n : ℕ) → 16 ≤ n → quot 16 len n ≡ 0 → 2 ≤ len
unfolding quot
two_digits zero n big z = absurd (omega arith)
two_digits (suc zero) n big z = absurd (omega arith)
two_digits (suc (suc len)) n big z = omega arith

empty : Bytes → Buffer
empty old = record { bytes = old; i = 0 }

module _ (n : ℕ) (old : Bytes) where
  pad-Written :
      {r : Option Buffer}
      → 0 < n
      → (d : Digits 16 hex_char 8 n (empty old) r) → (small : Bool) → ltb n 0x10 ≡ small
      → Written n (pad small (record { bytes = d.out; i = 0 + d.len }))
  unfolding pad empty
  pad-Written pos d true small =
      Written-put n (record { bytes = d.out; i = 0 + d.len }) (omega (arith, some_digits))
        (omega (arith, some_digits, one)) (ground (arith, d.used_up))
        (λ k h. ground (arith, d.digit k))
    where
      some_digits : 0 < d.len
      some_digits = quot_zero-pos 16 d.len n pos d.used_up

      one : ¬ (1 < d.len)
      one h = let more : 0 < n / 16 = unfold quot in d.needed 1 h in absurd (ground arith)
  pad-Written pos d false large = record {
    some_digits = omega (arith, two_digits d.len n (ground arith) d.used_up);
    bounded = omega (arith, d.bounded);
    used_up = ground (arith, d.used_up);
    digit = λ k h. ground (arith, d.digit k);
  }

-- The text of a number in a buffer: "0x", two to eight digits, and a 0 behind them.
pub record IsHexadecimal (n : ℕ) (r : Option Bytes) : Type 0 where
  pub out : Bytes
  pub len : ℕ
  pub returns : r ≡ some out
  pub prefix : (out 0 ≡ b'0') × (out 1 ≡ b'x')
  pub digits : (k : ℕ) → k < len → (d : ℕ) × (d < 16) × (out (2 + k) ≡ hex_char d)
  pub denotes : value 16 hex_digit out 2 len ≡ n
  pub ends : out (2 + len) ≡ 0
  pub bounded : (2 ≤ len) × (len ≤ 8)

Reversed-IsHexadecimal :
    (n : ℕ) (b : Buffer) {r : Option Bytes}
    → Written n b
    → Reversed (put b'0' (put b'x' b)) r
    → IsHexadecimal n r
unfolding put
Reversed-IsHexadecimal n b w rev = record {
  out = rev.out;
  len = b.i;
  returns = rev.returns;
  prefix = (ground (arith, wx, w0, rev.mirrored 0), ground (arith, wx, w0, rev.mirrored 1));
  digits = λ k h. let d = quot 16 (b.i - 1 - k) n % 16 in (d, omega arith, shown.digit k h);
  denotes = Shows-value hex_digit (omega arith) hex_digit-hex_char shown;
  ends = ground (arith, wx, w0, rev.terminated);
  bounded = (w.some_digits, w.bounded);
}
  where
    wx : u8 (b.i + 1) ≡ b.i + 1
    wx = omega (arith, w.bounded)

    w0 : u8 (b.i + 1 + 1) ≡ b.i + 2
    w0 = omega (arith, w.bounded)

    shown : Shows 16 hex_char n rev.out 2 b.i
    shown = record {
      digit = λ k h. ground (arith, wx, w0, rev.mirrored (2 + k), w.digit (b.i - 1 - k));
      used_up = w.used_up;
    }

finish_hex : Bool → Option Buffer → Option Bytes
finish_hex small r = elim r [ none ↦ none | some b ↦ finish (put b'0' (put b'x' (pad small b))) ]

finish_hex-IsHexadecimal :
    (n : ℕ) (small : Bool) {r : Option Buffer} (b : Buffer)
    → r ≡ some b
    → Written n (pad small b)
    → IsHexadecimal n (finish_hex small r)
unfolding finish_hex
finish_hex-IsHexadecimal n small b e w = rw e (
    Reversed-IsHexadecimal n (pad small b) w (
      finish-Reversed _ (unfold put in omega (arith, w.bounded))
        (unfold put in omega (arith, w.bounded))))

-- The number 0 is printed without the loop.
printed : Bytes → Buffer
printed old = record { bytes = strncpy old zero_text 2; i = 1 }

zero_text-IsString : IsString zero_text 1
zero_text-IsString = record { terminated = refl; no_zero = λ k h e. ground arith }

Written-zero : (old : Bytes) → Written 0 (put b'0' (printed old))
unfolding printed
Written-zero old =
    Written-put 0 (printed old) (omega arith) (omega arith) (quot-zero 16 1)
      (λ k h. ground (arith, quot-zero 16 k, strncpy-copied old zero_text 2 1 k zero_text-IsString))

hex_loop-zero : (b : Buffer) → hex_loop 9 0 b ≡ some b
unfolding hex_loop
hex_loop-zero b = refl

hex2str-loop :
    (n : ℕ) (old : Bytes)
    → (n == 0) ≡ false
    → hex2str n old ≡ finish_hex (ltb n 0x10) (hex_loop 9 n (empty old))
unfolding hex2str finish_hex pad empty
hex2str-loop n old nonzero = rw (nonzero, hex2str)

-- For every number of 32 bits `hex2str` returns a buffer with "0x", at least two and at most
-- eight digits that denote the number, and a 0 behind them.
pub hex2str-IsHexadecimal : (n : ℕ) (old : Bytes) → n < 2 ^ 32 → IsHexadecimal n (hex2str n old)
hex2str-IsHexadecimal zero old h =
    unfold hex2str finish_hex pad printed in
    finish_hex-IsHexadecimal 0 true (printed old) (hex_loop-zero (printed old)) (Written-zero old)
hex2str-IsHexadecimal (suc n) old h =
    let small : 0 + 8 < 256 = omega arith in
    let d =
      digit_loop-Digits 16 hex_char 8 (suc n) (empty old) (omega arith) (omega arith)
        (unfold empty in small) in
    rw (hex2str-loop (suc n) old (ground arith)) (
      finish_hex-IsHexadecimal (suc n) (ltb (suc n) 0x10) (record { bytes = d.out; i = 0 + d.len })
        (hex_loop-digit_loop 9 (suc n) (empty old) ∙ (unfold empty in d.returns))
        (pad-Written (suc n) old (omega arith) d (ltb (suc n) 0x10) refl))
