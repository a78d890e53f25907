-- ===== src/Log/Template.antt =====
-- Formats of `log` that fit their arguments, and the text that they stand for
-- (kernel/src/debug/log.c).
use faceless_os.Base.{ℕ, ◌+◌, ◌^◌, ◌<◌, ◌≡◌, ◌≢◌, List, [], ◌∷◌, ◌++◌, Option}
use faceless_os.Machine.Io.{u8}
use faceless_os.Text.{Bytes, is_negative}
use faceless_os.Text.Search.{IsString}
use faceless_os.Text.Decimal.{IsDecimal, sign_width, magnitude_of}
use faceless_os.Text.Hexadecimal.{IsHexadecimal}
use faceless_os.Log.{VarArg, int, str, bytes_from}

abbrev pub IsChar : ℕ → Type 0
IsChar c = (0 < c) × (c < 256)

-- A format and arguments that fit it: each directive has another character behind it. Numbers have
-- 32 bits, and none is the least `int`; a string ends within the fuel.
pub data Template (fuel : ℕ) : List ℕ → List VarArg → Type 0 where
  end : {args : List VarArg} → Template fuel [] args
  plain :
      {c : ℕ} {f : List ℕ} {args : List VarArg}
      → IsChar c
      → c ≢ b'%'
      → Template fuel f args
      → Template fuel (c ∷ f) args
  string :
      {text : Bytes} {n c : ℕ} {f : List ℕ} {args : List VarArg}
      → IsString text n
      → n < fuel
      → IsChar c
      → Template fuel f args
      → Template fuel (b'%' ∷ b's' ∷ c ∷ f) (str text ∷ args)
  char :
      {v c : ℕ} {f : List ℕ} {args : List VarArg}
      → 0 < u8 v
      → IsChar c
      → Template fuel f args
      → Template fuel (b'%' ∷ b'c' ∷ c ∷ f) (int v ∷ args)
  decimal :
      {n c : ℕ} {f : List ℕ} {args : List VarArg}
      → n < 2 ^ 32
      → n ≢ 2 ^ 31
      → IsChar c
      → Template fuel f args
      → Template fuel (b'%' ∷ b'd' ∷ c ∷ f) (int n ∷ args)
  hexadecimal :
      {n c : ℕ} {f : List ℕ} {args : List VarArg}
      → n < 2 ^ 32
      → IsChar c
      → Template fuel f args
      → Template fuel (b'%' ∷ b'x' ∷ c ∷ f) (int n ∷ args)

-- The text that a format and its arguments stand for.
pub data Rendered : List ℕ → List VarArg → List ℕ → Type 0 where
  end : {args : List VarArg} → Rendered [] args []
  plain :
      {c : ℕ} {f : List ℕ} {args : List VarArg} {out : List ℕ}
      → c ≢ b'%'
      → Rendered f args out
      → Rendered (c ∷ f) args ((c ∷ []) ++ out)
  string :
      {text : Bytes} {n c : ℕ} {f : List ℕ} {args : List VarArg} {out : List ℕ}
      → IsString text n
      → Rendered f args out
      → Rendered (b'%' ∷ b's' ∷ c ∷ f) (str text ∷ args) ((bytes_from n 0 text ++ c ∷ []) ++ out)
  char :
      {v c : ℕ} {f : List ℕ} {args : List VarArg} {out : List ℕ}
      → Rendered f args out
      → Rendered (b'%' ∷ b'c' ∷ c ∷ f) (int v ∷ args) ((u8 v ∷ c ∷ []) ++ out)
  decimal :
      {n c : ℕ} {f : List ℕ} {args : List VarArg} {out : List ℕ} {r : Option Bytes}
      (d : IsDecimal (is_negative n) (magnitude_of n) r)
      → Rendered f args out
      → Rendered
          (b'%' ∷ b'd' ∷ c ∷ f)
          (int n ∷ args)
          ((bytes_from (sign_width (is_negative n) + d.len) 0 d.out ++ c ∷ []) ++ out)
  hexadecimal :
      {n c : ℕ} {f : List ℕ} {args : List VarArg} {out : List ℕ} {r : Option Bytes}
      (d : IsHexadecimal n r)
      → Rendered f args out
      → Rendered
          (b'%' ∷ b'x' ∷ c ∷ f)
          (int n ∷ args)
          ((bytes_from (2 + d.len) 0 d.out ++ c ∷ []) ++ out)

-- The bytes of a format from `ptr` on, with the 0 behind them.
abbrev pub Holds : Bytes → ℕ → List ℕ → Type 0
Holds fmt ptr [] = fmt ptr ≡ 0
Holds fmt ptr (c ∷ f) = (fmt ptr ≡ c) × Holds fmt (ptr + 1) f
