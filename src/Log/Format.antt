-- ===== src/Log/Format.antt =====
-- What a call of `log` writes (kernel/src/debug/log.c).
use faceless_os.Base.{
  ℕ, zero, suc, ◌+◌, ◌<◌, ◌≡◌, ◌≢◌, refl, ap, ◌∙◌, List, [], ◌∷◌, ◌++◌, Bool, true, false, Option,
  some, arith,
}
use faceless_os.Machine.Io.{u8}
use faceless_os.Text.{Bytes, dec2str, hex2str, is_negative, hex_char}
use faceless_os.Text.Search.{IsString, strlen-IsString}
use faceless_os.Text.Decimal.{IsDecimal, sign_width, magnitude_of}
use faceless_os.Text.Hexadecimal.{IsHexadecimal}
use faceless_os.Log.{
  VarArg, int, str, Log, bytes_from, kwrite, terminated, then_left, write_string, write_number,
  write_decimal, write_hexadecimal, write_char, directive,
}

abbrev pub wrote : Log → List ℕ → Log
wrote st out = record st { terminal = st.terminal ++ out }

pub kwrite-wrote :
    (fuel n : ℕ) (text : Bytes) (st : Log)
    → IsString text n
    → n < fuel
    → kwrite fuel text st ≡ some (wrote st (bytes_from n 0 text))
unfolding kwrite
kwrite-wrote fuel n text st s lt = rw (strlen-IsString fuel n s lt, kwrite) refl

terminated-IsString : (c : ℕ) → 0 < u8 c → IsString (terminated c) 1
terminated-IsString c pos = record { terminated = refl; no_zero = λ k h. ground arith }

pub kwrite-char :
    (fuel c : ℕ) (st : Log)
    → 0 < u8 c
    → 1 < fuel
    → kwrite fuel (terminated c) st ≡ some (wrote st (u8 c ∷ []))
unfolding bytes_from
kwrite-char fuel c st pos enough =
    kwrite-wrote fuel 1 (terminated c) st (terminated-IsString c pos) enough

-- The texts of numbers are strings.
IsDecimal-IsString :
    (negative : Bool) {m : ℕ} {r : Option Bytes} (d : IsDecimal negative m r)
    → IsString d.out (sign_width negative + d.len)
IsDecimal-IsString negative d = record { terminated = d.ends; no_zero = no_zero negative d }
  where
    no_zero :
        (negative : Bool) {m : ℕ} {r : Option Bytes} (d : IsDecimal negative m r) (k : ℕ)
        → k < sign_width negative + d.len
        → d.out k ≢ 0
    no_zero false d k h = ground (arith, d.digits k)
    no_zero true d zero h = ground (arith, d.signed refl)
    no_zero true d (suc k) h = ground (arith, d.digits k)

hex_char-pos : (d : ℕ) → d < 16 → hex_char d ≢ 0
hex_char-pos d lt = ground arith

IsHexadecimal-IsString :
    (n : ℕ) {r : Option Bytes} (d : IsHexadecimal n r) → IsString d.out (2 + d.len)
IsHexadecimal-IsString n d = record { terminated = d.ends; no_zero = no_zero }
  where
    no_zero : (k : ℕ) → k < 2 + d.len → d.out k ≢ 0
    no_zero zero h = ground (arith, d.prefix)
    no_zero (suc zero) h = ground (arith, d.prefix)
    no_zero (suc (suc k)) h =
        let (digit, lt, e) = d.digits k (omega arith) in ground (arith, hex_char-pos digit lt)

sign_width-short :
    (negative : Bool) (len : ℕ) {fuel : ℕ} → len < 11 → 11 < fuel → sign_width negative + len < fuel
sign_width-short negative len small lt = ground arith

module _ (fuel : ℕ) (args : List VarArg) (st : Log) where
  pub directive-string :
      (n : ℕ) (text : Bytes)
      → IsString text n
      → n < fuel
      → directive fuel b's' (str text ∷ args) st ≡ some (args, wrote st (bytes_from n 0 text))
  unfolding directive write_string then_left
  directive-string n text s lt = rw (kwrite-wrote fuel n text st s lt) refl

  pub directive-char :
      (c : ℕ)
      → 0 < u8 c
      → 1 < fuel
      → directive fuel b'c' (int c ∷ args) st ≡ some (args, wrote st (u8 c ∷ []))
  unfolding directive write_char then_left
  directive-char c pos lt = rw (kwrite-char fuel c st pos lt) refl

  pub directive-decimal :
      (n : ℕ) (d : IsDecimal (is_negative n) (magnitude_of n) (dec2str n st.dec_string))
      → 11 < fuel
      → directive fuel b'd' (int n ∷ args) st
        ≡ some (
          args,
          wrote
              (record st { dec_string = d.out })
              (bytes_from (sign_width (is_negative n) + d.len) 0 d.out),
        )
  unfolding directive write_decimal write_number then_left
  directive-decimal n d lt =
      ap (λ r. write_number fuel r (λ text. record st { dec_string = text }) args) d.returns
      ∙ rw
          (kwrite-wrote fuel (sign_width (is_negative n) + d.len) d.out
            (record st { dec_string = d.out }) (IsDecimal-IsString (is_negative n) d)
            (sign_width-short (is_negative n) d.len (omega (arith, d.bounded)) lt))
          refl

  pub directive-hexadecimal :
      (n : ℕ) (d : IsHexadecimal n (hex2str n st.hex_string))
      → 11 < fuel
      → directive fuel b'x' (int n ∷ args) st
        ≡ some (args, wrote (record st { hex_string = d.out }) (bytes_from (2 + d.len) 0 d.out))
  unfolding directive write_hexadecimal write_number then_left
  directive-hexadecimal n d lt =
      ap (λ r. write_number fuel r (λ text. record st { hex_string = text }) args) d.returns
      ∙ rw
          (kwrite-wrote fuel (2 + d.len) d.out (record st { hex_string = d.out })
            (IsHexadecimal-IsString n d) (omega (arith, d.bounded)))
          refl
