-- ===== src/Panic.antt =====
-- Panics: kernel/src/libkern/panic.c. `cli; hlt` stops the processor for good: what calls `panic` does
-- nothing behind it.
use Prim.Native.String.{String}
use faceless_os.Base.{ℕ, [], ◌∷◌, ◌==◌, if◌then◌else◌}
use faceless_os.Machine.Io.{text, cli_hlt, Io, ◌>>◌, log, emit}

unfoldable pub panic : String → Io (Unit {0})
panic panic_msg = do
  log "\u{1b}[H\u{1b}[2J\u{1b}[3J" []
  log "\u{1b}[91m** KERNEL PANIC **\n" []
  log "\u{1b}[91m%s\n" (text panic_msg ∷ [])
  emit cli_hlt

-- The `switch` on the vector.
unfoldable pub fault_type : ℕ → String
fault_type vector_fired =
    if vector_fired == 0x0
    then "Divide Error"
    else if vector_fired == 0x1
    then "Debug Exception"
    else if vector_fired == 0x3
    then "Breakpoint Exception"
    else if vector_fired == 0x4
    then "Overflow Exception"
    else if vector_fired == 0x5
    then "Boundrange Exceeded"
    else if vector_fired == 0x6
    then "Invalid Opcode"
    else if vector_fired == 0x7
    then "Device Not Avl"
    else if vector_fired == 0x8
    then "Double Fault"
    else if vector_fired == 0xA
    then "Invalid TSS"
    else if vector_fired == 0xB
    then "Segment Not Present"
    else if vector_fired == 0xC
    then "Stack Segment Fault"
    else if vector_fired == 0xD
    then "General Protection Fault"
    else if vector_fired == 0xE
    then "Page Fault"
    else "Unknown Fault"

unfoldable pub cpu_panic : ℕ → Io (Unit {0})
unfolding fault_type
cpu_panic vector_fired = do
  log "\u{1b}[H\u{1b}[2J\u{1b}[3J" []
  log "\u{1b}[91m** KERNEL PANIC **\n" []
  log "\u{1b}[91mCaught: %s\n" (text (fault_type vector_fired) ∷ [])
