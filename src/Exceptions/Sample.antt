-- ===== src/Exceptions/Sample.antt =====
-- Handlers 16 bytes apart (kernel/src/asm/arch/interrupts/exceptions.asm), for the tests.
use faceless_os.Base.{
  ℕ, ◌+◌, ◌<◌, ◌≡◌, refl, List, [], ◌∷◌, ◌^◌, Option, none, some, ◌==◌, if◌then◌else◌, arith,
}
use faceless_os.Idt.{Handlers}
use faceless_os.Idt.Gates.{handler}
use faceless_os.Exceptions.{
  Label, div0_handler, debug_exception, breakpoint_exception, overflow_exception,
  boundrange_exceeded_exception, invalid_opcode_exception, dev_not_avail_exception, double_fault,
  invalid_tss_exception, segment_not_present, stack_segment_fault, general_protection_fault,
  page_fault, address,
}

abbrev high : ℕ
high = 0xFFFFFFFF80200000

abbrev pub handlers : Handlers
handlers = record {
  div0_handler = high;
  debug_exception = high + 0x10;
  general_protection_fault = high + 0x20;
  breakpoint_exception = high + 0x30;
  overflow_exception = high + 0x40;
  boundrange_exceeded_exception = high + 0x50;
  invalid_opcode_exception = high + 0x60;
  dev_not_avail_exception = high + 0x70;
  double_fault = high + 0x80;
  invalid_tss_exception = high + 0x90;
  segment_not_present = high + 0xA0;
  stack_segment_fault = high + 0xB0;
  page_fault = high + 0xC0;
  irq0 = high + 0xD0;
}

pub handlers-fit : (v : ℕ) → handler handlers v < 2 ^ 64
handlers-fit v = ground arith

-- The label whose code starts at an address.
abbrev code_in : List Label → ℕ → Option Label
code_in [] addr = none
code_in (label ∷ labels) addr =
    let rest = code_in labels addr in if address handlers label == addr then some label else rest

abbrev pub code_at : ℕ → Option Label
code_at = code_in (
    div0_handler ∷ debug_exception ∷ breakpoint_exception ∷ overflow_exception
    ∷ boundrange_exceeded_exception ∷ invalid_opcode_exception ∷ dev_not_avail_exception
    ∷ double_fault ∷ invalid_tss_exception ∷ segment_not_present ∷ stack_segment_fault
    ∷ general_protection_fault ∷ page_fault ∷ [])

pub code_at-linked : (label : Label) → code_at (address handlers label) ≡ some label
unfolding address
code_at-linked div0_handler = refl
code_at-linked debug_exception = refl
code_at-linked breakpoint_exception = refl
code_at-linked overflow_exception = refl
code_at-linked boundrange_exceeded_exception = refl
code_at-linked invalid_opcode_exception = refl
code_at-linked dev_not_avail_exception = refl
code_at-linked double_fault = refl
code_at-linked invalid_tss_exception = refl
code_at-linked segment_not_present = refl
code_at-linked stack_segment_fault = refl
code_at-linked general_protection_fault = refl
code_at-linked page_fault = refl
