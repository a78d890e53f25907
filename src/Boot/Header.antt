-- ===== src/Boot/Header.antt =====
-- What the kernel passes to the boot loader: the static header of kernel/src/kernel.c and the tags behind it.
-- The addresses that the linker gives to them are parameters.
use faceless_os.Base.{ℕ, ◌+◌, ◌^◌, ◌≤◌, ◌<◌, ◌≡◌, ◌⊎◌, [], ◌∷◌, arith, bit_or, ◌∙◌}
use faceless_os.Machine.Memory.{Mem, read_le, write_le, read_le-write_le_self, read_le-write_le_ne}
use faceless_os.Boot.Tags.{identifier, next_tag}
use faceless_os.Boot.Tags.Search.{Tags, tag, end}

abbrev pub header_tag_framebuffer_id : ℕ
header_tag_framebuffer_id = 0x3ecc1bc43d0f7971

abbrev pub header_tag_terminal_id : ℕ
header_tag_terminal_id = 0xa85d499b1823be72

abbrev pub stack_size : ℕ
stack_size = 8192

-- The addresses of the static variables.
pub record Statics : Type 0 where
  pub stack : ℕ
  pub terminal_hdr_tag : ℕ
  pub framebuffer_hdr_tag : ℕ
  pub stivale_hdr : ℕ

-- The `identifier` and the `next` of a tag.
unfoldable pub put_tag : (at id next : ℕ) → Mem → Mem
put_tag at id next m = write_le (write_le m at 8 id) (at + 8) 8 next

unfoldable pub put_terminal_hdr_tag : Statics → Mem → Mem
put_terminal_hdr_tag s m =
    let at = s.terminal_hdr_tag in
    write_le (write_le (put_tag at header_tag_terminal_id 0 m) (at + 16) 8 0) (at + 24) 8 0

unfoldable pub put_framebuffer_hdr_tag : Statics → Mem → Mem
put_framebuffer_hdr_tag s m =
    let at = s.framebuffer_hdr_tag in
    let m1 = put_tag at header_tag_framebuffer_id s.terminal_hdr_tag m in
    let m2 = write_le (write_le (write_le m1 (at + 16) 2 0) (at + 18) 2 0) (at + 20) 2 0 in
    write_le m2 (at + 22) 2 0

-- `(1 << 1) | (1 << 2) | (1 << 3) | (1 << 4)`
abbrev pub header_flags : ℕ
header_flags = bit_or (bit_or (bit_or (2 ^ 1) (2 ^ 2)) (2 ^ 3)) (2 ^ 4)

unfoldable pub put_stivale_hdr : Statics → Mem → Mem
put_stivale_hdr s m =
    let at = s.stivale_hdr in
    let m1 = write_le (write_le m at 8 0) (at + 8) 8 (s.stack + stack_size) in
    write_le (write_le m1 (at + 16) 8 header_flags) (at + 24) 8 s.framebuffer_hdr_tag

-- The memory of the kernel's image, where the loader reads it.
unfoldable pub image : Statics → Mem → Mem
image s m = put_stivale_hdr s (put_framebuffer_hdr_tag s (put_terminal_hdr_tag s m))

-- `tags` of the header.
abbrev pub header_tags : Mem → ℕ → ℕ
header_tags m hdr = read_le m (hdr + 24) 8

-- The `n` bytes at `p` and the `k` bytes at `q` have none in common.
abbrev pub Off : (p n q k : ℕ) → Type 0
Off p n q k = (p + n ≤ q) ⊎ (q + k ≤ p)

-- The variables lie apart, in whatever order, below the end of the address space and not at 0.
pub record IsLaidOut (s : Statics) : Type 0 where
  pub not_null : (0 < s.terminal_hdr_tag) × (0 < s.framebuffer_hdr_tag)
  pub tags_apart : Off s.terminal_hdr_tag 32 s.framebuffer_hdr_tag 24
  pub terminal_apart : Off s.terminal_hdr_tag 32 s.stivale_hdr 32
  pub framebuffer_apart : Off s.framebuffer_hdr_tag 24 s.stivale_hdr 32
  pub below_end :
      (s.terminal_hdr_tag + 32 ≤ 2 ^ 64)
      × (s.framebuffer_hdr_tag + 24 ≤ 2 ^ 64)
      × (s.stivale_hdr + 32 ≤ 2 ^ 64)

-- A write above does not change what is read below.
below : (m : Mem) (p n q k v : ℕ) → p + n ≤ q → read_le (write_le m q k v) p n ≡ read_le m p n
below m p n q k v lt = read_le-write_le_ne m p n q k v (omega arith)

put_tag-identifier :
    (at id next : ℕ) (m : Mem) → id < 2 ^ 64 → read_le (put_tag at id next m) at 8 ≡ id
unfolding put_tag
put_tag-identifier at id next m fits =
    below _ at 8 (at + 8) 8 next (omega arith) ∙ read_le-write_le_self m at 8 id fits

put_tag-next :
    (at id next : ℕ) (m : Mem) → next < 2 ^ 64 → read_le (put_tag at id next m) (at + 8) 8 ≡ next
unfolding put_tag
put_tag-next at id next m fits = read_le-write_le_self (write_le m at 8 id) (at + 8) 8 next fits

module _ (s : Statics) (m : Mem) where
  out_of_header :
      (p n : ℕ) → Off p n s.stivale_hdr 32 → read_le (put_stivale_hdr s m) p n ≡ read_le m p n
  unfolding put_stivale_hdr
  out_of_header p n apart =
      read_le-write_le_ne _ p n (s.stivale_hdr + 24) 8 _ (omega arith)
      ∙ read_le-write_le_ne _ p n (s.stivale_hdr + 16) 8 _ (omega arith)
      ∙ read_le-write_le_ne _ p n (s.stivale_hdr + 8) 8 _ (omega arith)
      ∙ read_le-write_le_ne m p n s.stivale_hdr 8 0 (omega arith)

  -- Not in the fields behind `next`.
  framebuffer_tag :
      (p n : ℕ)
      → Off p n (s.framebuffer_hdr_tag + 16) 8
      → read_le (put_framebuffer_hdr_tag s m) p n
        ≡ read_le (put_tag s.framebuffer_hdr_tag header_tag_framebuffer_id s.terminal_hdr_tag m) p n
  unfolding put_framebuffer_hdr_tag
  framebuffer_tag p n apart =
      read_le-write_le_ne _ p n (s.framebuffer_hdr_tag + 22) 2 0 (omega arith)
      ∙ read_le-write_le_ne _ p n (s.framebuffer_hdr_tag + 20) 2 0 (omega arith)
      ∙ read_le-write_le_ne _ p n (s.framebuffer_hdr_tag + 18) 2 0 (omega arith)
      ∙ read_le-write_le_ne _ p n (s.framebuffer_hdr_tag + 16) 2 0 (omega arith)

  out_of_framebuffer :
      (p n : ℕ)
      → Off p n s.framebuffer_hdr_tag 24
      → read_le (put_framebuffer_hdr_tag s m) p n ≡ read_le m p n
  unfolding put_tag
  out_of_framebuffer p n apart =
      framebuffer_tag p n (omega arith)
      ∙ read_le-write_le_ne _ p n (s.framebuffer_hdr_tag + 8) 8 _ (omega arith)
      ∙ read_le-write_le_ne m p n s.framebuffer_hdr_tag 8 _ (omega arith)

  terminal_tag :
      (p n : ℕ)
      → p + n ≤ s.terminal_hdr_tag + 16
      → read_le (put_terminal_hdr_tag s m) p n
        ≡ read_le (put_tag s.terminal_hdr_tag header_tag_terminal_id 0 m) p n
  unfolding put_terminal_hdr_tag
  terminal_tag p n lt =
      below _ p n (s.terminal_hdr_tag + 24) 8 0 (omega arith)
      ∙ below _ p n (s.terminal_hdr_tag + 16) 8 0 lt

-- The header that the loader reads: its tags ask for a framebuffer and for a terminal, and end there.
pub record Asks (s : Statics) (m : Mem) : Type 0 where
  pub tags : Tags m (header_tags m s.stivale_hdr) (s.framebuffer_hdr_tag ∷ s.terminal_hdr_tag ∷ [])
  pub framebuffer : identifier m s.framebuffer_hdr_tag ≡ header_tag_framebuffer_id
  pub terminal : identifier m s.terminal_hdr_tag ≡ header_tag_terminal_id
  pub stack : read_le m (s.stivale_hdr + 8) 8 ≡ s.stack + stack_size

module _ (s : Statics) (m : Mem) (laid : IsLaidOut s) where
  framebuffer_field :
      (p : ℕ)
      → s.framebuffer_hdr_tag ≤ p
      → p + 8 ≤ s.framebuffer_hdr_tag + 16
      → read_le (image s m) p 8
        ≡ read_le
            (put_tag s.framebuffer_hdr_tag header_tag_framebuffer_id s.terminal_hdr_tag
              (put_terminal_hdr_tag s m))
            p
            8
  unfolding image
  framebuffer_field p le lt =
      out_of_header s _ p 8 (omega (arith, laid.framebuffer_apart))
      ∙ framebuffer_tag s (put_terminal_hdr_tag s m) p 8 (omega arith)

  terminal_field :
      (p : ℕ)
      → s.terminal_hdr_tag ≤ p
      → p + 8 ≤ s.terminal_hdr_tag + 16
      → read_le (image s m) p 8
        ≡ read_le (put_tag s.terminal_hdr_tag header_tag_terminal_id 0 m) p 8
  unfolding image
  terminal_field p le lt =
      out_of_header s _ p 8 (omega (arith, laid.terminal_apart))
      ∙ out_of_framebuffer s (put_terminal_hdr_tag s m) p 8 (omega (arith, laid.tags_apart))
      ∙ terminal_tag s m p 8 lt

  first_is : header_tags (image s m) s.stivale_hdr ≡ s.framebuffer_hdr_tag
  unfolding image put_stivale_hdr
  first_is =
      read_le-write_le_self _ (s.stivale_hdr + 24) 8 s.framebuffer_hdr_tag
        (omega (arith, laid.below_end))

  second_is : next_tag (image s m) s.framebuffer_hdr_tag ≡ s.terminal_hdr_tag
  second_is =
      framebuffer_field (s.framebuffer_hdr_tag + 8) (omega arith) (omega arith)
      ∙ put_tag-next s.framebuffer_hdr_tag header_tag_framebuffer_id s.terminal_hdr_tag _
          (omega (arith, laid.below_end))

  last_is : next_tag (image s m) s.terminal_hdr_tag ≡ 0
  last_is =
      terminal_field (s.terminal_hdr_tag + 8) (omega arith) (omega arith)
      ∙ put_tag-next s.terminal_hdr_tag header_tag_terminal_id 0 m (omega arith)

  stack_is :
      s.stack + stack_size < 2 ^ 64
      → read_le (image s m) (s.stivale_hdr + 8) 8 ≡ s.stack + stack_size
  unfolding image put_stivale_hdr
  stack_is fits =
      below _ (s.stivale_hdr + 8) 8 (s.stivale_hdr + 24) 8 _ (omega arith)
      ∙ below _ (s.stivale_hdr + 8) 8 (s.stivale_hdr + 16) 8 _ (omega arith)
      ∙ read_le-write_le_self _ (s.stivale_hdr + 8) 8 (s.stack + stack_size) fits

  -- Where the linker puts the two tags and the header apart, in whatever order, not at 0 and
  -- below 2 ^ 64, and the stack below 2 ^ 64, the loader finds in the kernel's image a header
  -- whose tags are a request for a framebuffer and one for a terminal, and whose stack pointer is
  -- the end of the stack.
  pub image-Asks : s.stack + stack_size < 2 ^ 64 → Asks s (image s m)
  image-Asks fits = record {
    tags = rw first_is (
        tag (omega (arith, laid.not_null))
          (rw second_is (tag (omega (arith, laid.not_null)) (rw last_is end))));
    framebuffer =
        framebuffer_field s.framebuffer_hdr_tag (omega arith) (omega arith)
        ∙ put_tag-identifier s.framebuffer_hdr_tag header_tag_framebuffer_id s.terminal_hdr_tag _
            (omega arith);
    terminal =
        terminal_field s.terminal_hdr_tag (omega arith) (omega arith)
        ∙ put_tag-identifier s.terminal_hdr_tag header_tag_terminal_id 0 m (omega arith);
    stack = stack_is fits;
  }
