-- ===== src/Boot/Tags.antt =====
-- The list of tags that the boot loader passes: `get_tag` of kernel/src/kernel.c.
pub mod Search
use faceless_os.Base.{ℕ, zero, suc, ◌+◌, Option, none, some, ◌==◌, if◌then◌else◌}
use faceless_os.Machine.Memory.{Mem, read_le}

-- `stivale2_struct->tags`, behind the brand and the version of the boot loader.
abbrev pub first_tag : Mem → ℕ → ℕ
first_tag m ss = read_le m (ss + 128) 8

abbrev pub identifier : Mem → ℕ → ℕ
identifier m tag = read_le m tag 8

abbrev pub next_tag : Mem → ℕ → ℕ
next_tag m tag = read_le m (tag + 8) 8

-- `while (1)`. `none` means that the fuel ran out.
unfoldable pub tag_loop : ℕ → Mem → (tag id : ℕ) → Option ℕ
tag_loop zero m tag id = none
tag_loop (suc fuel) m tag id =
    let rest = tag_loop fuel m (next_tag m tag) id in
    if tag == 0 then some 0 else if identifier m tag == id then some tag else rest

-- The address of the tag, or 0 for NULL.
unfoldable pub get_tag : ℕ → Mem → (ss id : ℕ) → Option ℕ
get_tag fuel m ss id = tag_loop fuel m (first_tag m ss) id
