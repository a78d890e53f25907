-- ===== src/Text.antt =====
-- The string functions: kernel/src/libkern/string.c. A `char*` is the function from an offset to
-- the byte there; a local or static array is updated as such a function.
pub mod Search
pub mod Reverse
pub mod Numbers
pub mod Decimal
pub mod Hexadecimal
mod Tests
use faceless_os.Base.{
  ℕ, zero, suc, ◌+◌, ◌-◌, ◌*◌, ◌/◌, ◌%◌, ◌^◌, Bool, true, false, ◌&&◌, not, Option, none, some, ltb,
  leb, ◌==◌, if◌then◌else◌, bit_and, List, [], ◌∷◌, get_or,
}
use faceless_os.Machine.Memory.{Mem, store}
use faceless_os.Machine.Io.{u8, u32, u64}

abbrev pub Bytes : Type 0
Bytes = ℕ → ℕ

-- `while (str[n++]);` and `n - 1`. `none` means that the fuel ran out.
unfoldable pub strlen_loop : ℕ → ℕ → Bytes → Option ℕ
strlen_loop zero n str = none
strlen_loop (suc fuel) n str =
    let rest = strlen_loop fuel (n + 1) str in if str n == 0 then some (n + 1 - 1) else rest

pub strlen : ℕ → Bytes → Option ℕ
unfolding strlen_loop
strlen fuel str = strlen_loop fuel 0 str

unfoldable pub memzero_loop : ℕ → ℕ → Bytes → Bytes
memzero_loop zero i ptr = ptr
memzero_loop (suc left) i ptr = memzero_loop left (i + 1) (store ptr i 0)

-- `n` bytes at `ptr`.
pub memzero : Bytes → ℕ → Bytes
unfolding memzero_loop
memzero ptr n = memzero_loop n 0 ptr

-- The test reads `src[i]` before it compares `i` with `len`. `left` is `len - i`.
unfoldable pub strncpy_loop : ℕ → ℕ → Bytes → Bytes → Bytes
strncpy_loop zero i dst src = dst
strncpy_loop (suc left) i dst src =
    let rest = strncpy_loop left (i + 1) (store dst i (src i)) src in
    if src i == 0 then dst else rest

-- The bytes at `dst` afterwards.
pub strncpy : Bytes → Bytes → ℕ → Bytes
unfolding strncpy_loop
strncpy dst src len = strncpy_loop len 0 dst src

-- `s1` and `s2` are addresses, since the loop tests them. `left` is `n - n_cnt`.
unfoldable pub strncmp_loop : ℕ → Mem → ℕ → ℕ → ℕ
strncmp_loop zero m s1 s2 = 1
strncmp_loop (suc left) m s1 s2 =
    let rest = strncmp_loop left m (s1 + 1) (s2 + 1) in
    if not (s1 == 0) && not (s2 == 0) then (if m s1 == m s2 then rest else 0) else 1

unfoldable pub strncmp : Mem → ℕ → ℕ → ℕ → ℕ
unfolding strncmp_loop
strncmp m s1 s2 n = strncmp_loop n m s1 s2

-- A static buffer and the index of the next byte. `i` is a `uint8_t`.
pub record Buffer : Type 0 where
  pub bytes : Bytes
  pub i : ℕ

-- `string[i++] = c;`
unfoldable pub put : ℕ → Buffer → Buffer
put c b = record { bytes = store b.bytes b.i c; i = u8 (b.i + 1) }

-- `for (j = 0; j < i; j++, i--)` swaps the ends, until they meet.
unfoldable pub swap_loop : ℕ → ℕ → ℕ → Bytes → Option Bytes
swap_loop zero j i buf = none
swap_loop (suc fuel) j i buf =
    let rest = swap_loop fuel (u8 (j + 1)) (u8 (i + 255)) (store (store buf j (buf i)) i (buf j)) in
    if ltb j i then rest else some buf

-- The end of `dec2str` and of `hex2str`: terminate, and reverse what comes before.
unfoldable pub finish : Buffer → Option Bytes
finish b = swap_loop 128 0 (u8 (b.i + 255)) (store b.bytes b.i 0)

-- A 32-bit `int` is its bit pattern: negative from 2 ^ 31 on.
abbrev pub is_negative : ℕ → Bool
is_negative number = leb (2 ^ 31) number

-- `while (number > 0)` with a number that is not negative.
unfoldable pub dec_loop : ℕ → ℕ → Buffer → Option Buffer
unfolding put
dec_loop zero number b = none
dec_loop (suc fuel) number b =
    let rest = dec_loop fuel (number / 10) (put (number % 10 + b'0') b) in
    if ltb 0 number && not (is_negative number) then rest else some b

-- The first test of `dec2str`: '0' for 0, and `-number` for a negative one, which wraps.
pub dec2str : ℕ → Bytes → Option Bytes
dec2str number dec_string =
    let empty : Buffer = record { bytes = dec_string; i = 0 } in
    let start = if number == 0 then put b'0' empty else empty in
    let magnitude = if is_negative number then u32 (2 ^ 32 - number) else number in
    elim (dec_loop 11 magnitude start) [
      | none ↦ none
      | some b ↦ finish (if is_negative number then put b'-' b else b)
    ]

abbrev pub ascii_numbers : List ℕ
ascii_numbers =
    b'0' ∷ b'1' ∷ b'2' ∷ b'3' ∷ b'4' ∷ b'5' ∷ b'6' ∷ b'7' ∷ b'8' ∷ b'9' ∷ b'A' ∷ b'B' ∷ b'C' ∷ b'D'
    ∷ b'E' ∷ b'F' ∷ []

abbrev pub hex_char : ℕ → ℕ
hex_char nibble = get_or ascii_numbers nibble 0

unfoldable pub hex_loop : ℕ → ℕ → Buffer → Option Buffer
unfolding put
hex_loop zero hex_num b = none
hex_loop (suc fuel) hex_num b =
    let rest = hex_loop fuel (hex_num / 2 ^ 4) (put (hex_char (bit_and (u8 hex_num) 0x0F)) b) in
    if ltb 0 hex_num then rest else some b

abbrev zero_text : Bytes
zero_text k = if k == 0 then b'0' else 0

pub hex2str : ℕ → Bytes → Option Bytes
hex2str hex_num hex_string =
    let empty : Buffer = record { bytes = hex_string; i = 0 } in
    let printed : Buffer = record { bytes = strncpy hex_string zero_text 2; i = 1 } in
    elim (hex_loop 9 hex_num (if hex_num == 0 then printed else empty)) [
      | none ↦ none
      | some b ↦ finish (put b'0' (put b'x' (if ltb hex_num 0x10 then put b'0' b else b)))
    ]
