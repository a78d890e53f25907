-- ===== src/Log/Tests.antt =====
-- A call of `log` with a number and a string (kernel/src/debug/log.c).
use faceless_os.Base.{ℕ, List, [], ◌∷◌, get_or}
use faceless_os.Text.{Bytes}
use faceless_os.Log.{VarArg, int, str, Log, log_init}
use faceless_os.Log.Template.{Template}

-- "%d: %s\n"
abbrev format : List ℕ
format = b'%' ∷ b'd' ∷ b':' ∷ b' ' ∷ b'%' ∷ b's' ∷ b'\n' ∷ []

abbrev format_text : Bytes
format_text k = get_or format k 0

abbrev ok_text : Bytes
ok_text k = get_or (b'o' ∷ b'k' ∷ []) k 0

abbrev arguments : List VarArg
arguments = int 0xFFFFFF88 ∷ str ok_text ∷ []

abbrev blank : Log
blank =
    log_init 0x8000
      (record { term_write = 0; terminal = b'>' ∷ []; dec_string = λ k. 0; hex_string = λ k. 0 })
