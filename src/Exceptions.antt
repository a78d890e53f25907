-- ===== src/Exceptions.antt =====
-- The exception handlers: kernel/src/asm/arch/interrupts/exceptions.asm, and how the processor comes
-- to them. Where the linker puts the handlers is a parameter.
pub mod Reported
pub mod Sample
use faceless_os.Base.{ℕ, Option, none, some, ◌&&◌, ◌||◌, ◌==◌, if◌then◌else◌}
use faceless_os.Machine.Io.{cli, hlt, Io, pure, ◌>>◌, emit}
use faceless_os.Panic.{cpu_panic}
use faceless_os.Gdt.{selected, is_code64}
use faceless_os.Idt.{Idt, Handlers}
use faceless_os.Idt.Gates.{gate_offset}

-- The labels of the file.
pub data Label : Type 0 where
  div0_handler debug_exception breakpoint_exception overflow_exception : Label
  boundrange_exceeded_exception invalid_opcode_exception dev_not_avail_exception : Label
  double_fault invalid_tss_exception segment_not_present stack_segment_fault : Label
  general_protection_fault page_fault : Label

-- The macro `kpanic`. `hlt` stops the processor for good, since interrupts are off.
unfoldable pub kpanic : ℕ → Io (Unit {0})
kpanic vector = do emit cli; cpu_panic vector; emit hlt

-- The argument of `kpanic` behind each label.
unfoldable pub code : Label → ℕ
code div0_handler = 0x0
code debug_exception = 0x1
code breakpoint_exception = 0x3
code overflow_exception = 0x4
code boundrange_exceeded_exception = 0x5
code invalid_opcode_exception = 0x6
code dev_not_avail_exception = 0x7
code double_fault = 0x8
code invalid_tss_exception = 0xA
code segment_not_present = 0xB
code stack_segment_fault = 0xC
code general_protection_fault = 0xD
code page_fault = 0xE

unfoldable pub handle : Label → Io (Unit {0})
handle label = kpanic (code label)

-- The address that the linker gives to a label.
unfoldable pub address : Handlers → Label → ℕ
address h div0_handler = h.div0_handler
address h debug_exception = h.debug_exception
address h breakpoint_exception = h.breakpoint_exception
address h overflow_exception = h.overflow_exception
address h boundrange_exceeded_exception = h.boundrange_exceeded_exception
address h invalid_opcode_exception = h.invalid_opcode_exception
address h dev_not_avail_exception = h.dev_not_avail_exception
address h double_fault = h.double_fault
address h invalid_tss_exception = h.invalid_tss_exception
address h segment_not_present = h.segment_not_present
address h stack_segment_fault = h.stack_segment_fault
address h general_protection_fault = h.general_protection_fault
address h page_fault = h.page_fault

-- The processor takes an exception through its gate, if that is an interrupt or trap gate and
-- present, and its selector names a segment of 64-bit code, and runs what it finds at the address;
-- otherwise `none`.
unfoldable pub take_exception : (ℕ → Option Label) → Idt → ℕ → Option (Io (Unit {0}))
take_exception code_at idt vector =
    let gate = idt vector in
    if (gate.p == 1) && (gate.attr == 0xE || gate.attr == 0xF) && is_code64 (selected gate.cs)
    then (elim (code_at (gate_offset gate)) [ none ↦ none | some label ↦ some (handle label) ])
    else none
