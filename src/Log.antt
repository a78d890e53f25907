-- ===== src/Log.antt =====
-- The log: kernel/src/debug/log.c. The terminal is the list of the bytes that it has been sent.
pub mod Format
pub mod Template
pub mod Render
mod Tests
use faceless_os.Base.{
  ℕ, zero, suc, ◌+◌, List, [], ◌∷◌, ◌++◌, Option, none, some, ltb, ◌==◌, if◌then◌else◌,
}
use faceless_os.Machine.Io.{u8}
use faceless_os.Text.{Bytes, strlen, dec2str, hex2str}

-- A variadic argument: the 32 bits of an `int`, or a string.
pub data VarArg : Type 0 where
  int : ℕ → VarArg
  str : Bytes → VarArg

-- The pointer to the function that writes, what it has been sent, and the static buffers of `dec2str`
-- and `hex2str`.
pub record Log : Type 0 where
  pub term_write : ℕ
  pub terminal : List ℕ
  pub dec_string : Bytes
  pub hex_string : Bytes

unfoldable pub log_init : (term_write : ℕ) → Log → Log
log_init term_write log = record log { term_write = term_write }

-- The first `n` bytes from `i` on.
unfoldable pub bytes_from : (n i : ℕ) → Bytes → List ℕ
bytes_from zero i text = []
bytes_from (suc n) i text = text i ∷ bytes_from n (i + 1) text

-- `none`: no 0 within the fuel.
unfoldable pub kwrite : ℕ → Bytes → Log → Option Log
kwrite fuel text log = elim (strlen fuel text) [
  | none ↦ none
  | some n ↦ some (record log { terminal = log.terminal ++ bytes_from n 0 text })
]

-- `char terminated[2] = {c, 0};`
abbrev pub terminated : ℕ → Bytes
terminated c k = if k == 0 then u8 c else 0

unfoldable pub then_left : List VarArg → Option Log → Option (List VarArg × Log)
then_left args none = none
then_left args (some log') = some (args, log')

-- The cases of the `switch` on the character behind a '%': the arguments that are left, and the log.
-- An argument that is missing or of another kind is undefined.
module _ (fuel : ℕ) where
  unfoldable pub write_string : List VarArg → Log → Option (List VarArg × Log)
  write_string (str text ∷ rest) log = then_left rest (kwrite fuel text log)
  write_string _ log = none

  unfoldable pub write_number :
      (Option Bytes) → (Bytes → Log) → List VarArg → Option (List VarArg × Log)
  write_number none keep rest = none
  write_number (some text) keep rest = then_left rest (kwrite fuel text (keep text))

  unfoldable pub write_decimal : List VarArg → Log → Option (List VarArg × Log)
  write_decimal (int n ∷ rest) log =
      write_number (dec2str n log.dec_string) (λ text. record log { dec_string = text }) rest
  write_decimal _ log = none

  unfoldable pub write_hexadecimal : List VarArg → Log → Option (List VarArg × Log)
  write_hexadecimal (int n ∷ rest) log =
      write_number (hex2str n log.hex_string) (λ text. record log { hex_string = text }) rest
  write_hexadecimal _ log = none

  unfoldable pub write_char : List VarArg → Log → Option (List VarArg × Log)
  write_char (int c ∷ rest) log = then_left rest (kwrite fuel (terminated c) log)
  write_char _ log = none

  -- A character that is no directive takes no argument.
  unfoldable pub directive : ℕ → List VarArg → Log → Option (List VarArg × Log)
  directive c args log =
      if c == b's'
      then write_string args log
      else if c == b'd'
      then write_decimal args log
      else if c == b'x'
      then write_hexadecimal args log
      else if c == b'c'
      then write_char args log
      else some (args, log)

-- One round behind the tests of the loop, from `ptr` on: where `ptr` is then, the arguments that
-- are left, and the log. Behind a directive the next character is written without a look at it.
unfoldable pub log_round : ℕ → Bytes → ℕ → List VarArg → Log → Option (ℕ × List VarArg × Log)
log_round fuel fmt ptr args log =
    if fmt ptr == b'%'
    then elim (directive fuel (fmt (ptr + 1)) args log) [
      | none ↦ none
      | some r ↦ elim (kwrite fuel (terminated (fmt (ptr + 2))) r.1) [
        | none ↦ none
        | some log' ↦ some (ptr + 3, r.0, log')
      ]
    ]
    else elim (kwrite fuel (terminated (fmt ptr)) log) [
      | none ↦ none
      | some log' ↦ some (ptr + 1, args, log')
    ]

-- The loop. `room` is the fuel of the string functions, `len` is `strlen(fmt)`.
unfoldable pub log_loop :
    (fuel room : ℕ) → Bytes → (len ptr pos : ℕ) → List VarArg → Log → Option Log
log_loop zero room fmt len ptr pos args log = none
log_loop (suc fuel) room fmt len ptr pos args log =
    let next = λ (r : ℕ × List VarArg × Log). log_loop fuel room fmt len r.0 (pos + 1) r.1 r.2 in
    if fmt ptr == 0
    then some log
    else if ltb pos len
    then (elim (log_round room fmt ptr args log) [ none ↦ none | some r ↦ next r ])
    else some log

-- `strlen(fmt)` is computed in every round, always with the same result.
unfoldable pub log : (fuel : ℕ) → Bytes → List VarArg → Log → Option Log
log fuel fmt args st = elim (strlen fuel fmt) [
  | none ↦ none
  | some len ↦ log_loop fuel fuel fmt len 0 0 args st
]
