-- ===== src/Text/Tests.antt =====
-- The string functions on small inputs (kernel/src/libkern/string.c).
use faceless_os.Base.{ℕ, ◌<◌, ◌≡◌, ◌≢◌, refl, [], ◌∷◌, true, arith, get_or}
use faceless_os.Text.{Bytes, strncpy, dec2str, hex2str}
use faceless_os.Text.Search.{IsString, strncpy-copied}
use faceless_os.Text.Decimal.{IsDecimal, dec2str-IsDecimal}
use faceless_os.Text.Hexadecimal.{IsHexadecimal, hex2str-IsHexadecimal}

abbrev hi_text : Bytes
hi_text k = get_or (b'H' ∷ b'i' ∷ 0 ∷ b'x' ∷ []) k 0

abbrev filled : Bytes
filled k = 0xFF

hi_text-IsString : IsString hi_text 2
hi_text-IsString = record { terminated = refl; no_zero = no_zero }
  where
    no_zero : (k : ℕ) → k < 2 → hi_text k ≢ 0
    no_zero k lt = ground arith

strncpy-copied_example : strncpy filled hi_text 8 2 ≡ 0xFF
strncpy-copied_example = strncpy-copied filled hi_text 8 2 2 hi_text-IsString

-- The number is -120.
dec2str-IsDecimal_example : IsDecimal true 120 (dec2str 0xFFFFFF88 filled)
dec2str-IsDecimal_example = dec2str-IsDecimal 0xFFFFFF88 filled (omega arith) (omega arith)

hex2str-IsHexadecimal_example : IsHexadecimal 0xCAFE (hex2str 0xCAFE filled)
hex2str-IsHexadecimal_example = hex2str-IsHexadecimal 0xCAFE filled (omega arith)
