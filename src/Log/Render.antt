-- ===== src/Log/Render.antt =====
-- A whole call of `log` (kernel/src/debug/log.c) against a description of its format.
use faceless_os.Base.{ℕ, ◌≡◌, List, ◌++◌, Option, some}
use faceless_os.Log.{VarArg, Log}
use faceless_os.Log.Template.{Template, Rendered}

-- A call that appends the rendering to the terminal.
pub record Logged (r : Option Log) (st : Log) (f : List ℕ) (args : List VarArg) : Type 0 where
  pub out : List ℕ
  pub after : Log
  pub returns : r ≡ some after
  pub terminal : after.terminal ≡ st.terminal ++ out
  pub rendered : Rendered f args out
