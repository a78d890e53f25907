-- ===== src/Machine/Io.antt =====
-- Devices and the events between the kernel and them: the functions of kernel/src/arch/io/io.c,
-- reads and writes of device registers in memory, and the calls of `log`.
use Prim.Native.String.{String}
use faceless_os.Base.{ℕ, ◌%◌, ◌^◌, List, ◌∷◌}

-- An argument of `log`: a number for %d, %x and %c, or a text for %s.
pub data Arg : Type 0 where
  num : ℕ → Arg
  text : String → Arg

pub data Event : Type 0 where
  out8 out16 out32 : ℕ → ℕ → Event
  in8 in16 in32 : ℕ → Event
  mmio_write : ℕ → ℕ → Event
  mmio_read : ℕ → Event
  read_cr3 : Event
  load_cr3 : ℕ → Event
  invlpg : ℕ → Event
  load_idtr : ℕ → ℕ → Event
  load_gdtr : Event
  load_segments : (cs ss : ℕ) → Event
  cli sti cli_hlt hlt : Event
  log_call : String → List Arg → Event

-- What happened so far, the last event first.
abbrev pub Trace : Type 0
Trace = List Event

-- What a read returns may depend on all that happened before it, the read itself included.
abbrev pub Device : Type 0
Device = Trace → ℕ

abbrev pub Io : Type 0 → Type 0
Io A = Trace → A × Trace

abbrev pub pure : {A : Type 0} → A → Io A
pure a t = (a, t)

infixl 5 ◌>>=◌ ◌>>◌
abbrev pub ◌>>=◌ : {A B : Type 0} → Io A → (A → Io B) → Io B
◌>>=◌ m f t = let (a, t') = m t in f a t'

abbrev pub ◌>>◌ : {B : Type 0} → Io (Unit {0}) → Io B → Io B
m >> k = m >>= λ _. k

abbrev pub emit : Event → Io (Unit {0})
emit e t = (tt, e ∷ t)

abbrev pub log : String → List Arg → Io (Unit {0})
log fmt args = emit (log_call fmt args)

-- A value that the hardware returns, at a width of `bits`.
abbrev pub ask : Device → ℕ → Event → Io ℕ
ask dev bits e t = (dev (e ∷ t) % 2 ^ bits, e ∷ t)

abbrev pub u8 : ℕ → ℕ
u8 n = n % 2 ^ 8

abbrev pub u16 : ℕ → ℕ
u16 n = n % 2 ^ 16

abbrev pub u32 : ℕ → ℕ
u32 n = n % 2 ^ 32

abbrev pub u64 : ℕ → ℕ
u64 n = n % 2 ^ 64

-- The port functions. Their parameters are `unsigned short` ports and values of the port's width.
unfoldable pub inportb : Device → ℕ → Io ℕ
inportb dev port = ask dev 8 (in8 (u16 port))

unfoldable pub outportb : ℕ → ℕ → Io (Unit {0})
outportb port value = emit (out8 (u16 port) (u8 value))

unfoldable pub outportw : ℕ → ℕ → Io (Unit {0})
outportw port value = emit (out16 (u16 port) (u16 value))

unfoldable pub inportw : Device → ℕ → Io ℕ
inportw dev port = ask dev 16 (in16 (u16 port))

unfoldable pub outportl : ℕ → ℕ → Io (Unit {0})
outportl port value = emit (out32 (u16 port) (u32 value))

unfoldable pub inportl : Device → ℕ → Io ℕ
inportl dev port = ask dev 32 (in32 (u16 port))

unfoldable pub io_wait : Io (Unit {0})
io_wait = emit (out8 0x80 0)
