-- ===== src/Idt.antt =====
-- The interrupt descriptor table: kernel/src/arch/interrupts/IDT.c with the layouts of
-- kernel/include/arch/interrupts/IDT.h. The addresses that the linker gives to the handlers and to
-- the table are parameters.
pub mod Gates
use faceless_os.Base.{
  ℕ, zero, suc, ◌+◌, ◌*◌, ◌/◌, ◌%◌, ◌^◌, List, [], ◌∷◌, ◌==◌, if◌then◌else◌, get_or,
}
use faceless_os.Machine.Io.{load_idtr, Io, pure, ◌>>=◌, ◌>>◌, emit, u8, u16, u32}

pub record IdtGateDescriptor : Type 0 where
  pub isr_low : ℕ
  pub cs : ℕ
  pub ist : ℕ
  pub reserved : ℕ
  pub attr : ℕ
  pub reserved1 : ℕ
  pub dpl : ℕ
  pub p : ℕ
  pub isr_middle : ℕ
  pub isr_high : ℕ
  pub reserved2 : ℕ

abbrev pub Idt : Type 0
Idt = ℕ → IdtGateDescriptor

-- The addresses of the handlers.
pub record Handlers : Type 0 where
  pub div0_handler : ℕ
  pub debug_exception : ℕ
  pub general_protection_fault : ℕ
  pub breakpoint_exception : ℕ
  pub overflow_exception : ℕ
  pub boundrange_exceeded_exception : ℕ
  pub invalid_opcode_exception : ℕ
  pub dev_not_avail_exception : ℕ
  pub double_fault : ℕ
  pub invalid_tss_exception : ℕ
  pub segment_not_present : ℕ
  pub stack_segment_fault : ℕ
  pub page_fault : ℕ
  pub irq0 : ℕ

abbrev pub trap_gate_flags : ℕ
trap_gate_flags = 0x8F

abbrev pub int_gate_flags : ℕ
int_gate_flags = 0x8E

abbrev pub make_gate : ℕ → IdtGateDescriptor
make_gate addr = record {
  isr_low = addr % 2 ^ 16;
  cs = 0x28;
  ist = 0;
  reserved = 0;
  attr = 0xF;
  reserved1 = 0;
  dpl = 0;
  p = 1;
  isr_middle = addr / 2 ^ 16 % 2 ^ 16;
  isr_high = addr / 2 ^ 32 % 2 ^ 32;
  reserved2 = 0;
}

-- `flags` is not used.
unfoldable pub set_idt_desc : (vector isr flags : ℕ) → Idt → Idt
set_idt_desc vector isr flags idt v = if v == u8 vector then make_gate isr else idt v

abbrev pub exceptions : Handlers → List ℕ
exceptions h =
    h.div0_handler ∷ h.debug_exception ∷ h.general_protection_fault ∷ h.breakpoint_exception
    ∷ h.overflow_exception ∷ h.boundrange_exceeded_exception ∷ h.invalid_opcode_exception
    ∷ h.dev_not_avail_exception ∷ h.double_fault ∷ h.general_protection_fault
    ∷ h.invalid_tss_exception ∷ h.segment_not_present ∷ h.stack_segment_fault
    ∷ h.general_protection_fault ∷ h.page_fault ∷ []

-- `for (uint16_t vector = 0; vector <= 0xE; ++vector)`, from `vector` on with `left` turns left.
unfoldable pub exceptions_loop : (left vector : ℕ) → List ℕ → Idt → Idt
exceptions_loop zero vector hs idt = idt
exceptions_loop (suc left) vector hs idt =
    exceptions_loop left (vector + 1) hs
      (set_idt_desc vector (get_or hs vector 0) trap_gate_flags idt)

unfoldable pub setup_exceptions : Handlers → Idt → Idt
setup_exceptions h idt =
    set_idt_desc 0 (h.div0_handler) trap_gate_flags (exceptions_loop 0xF 0 (exceptions h) idt)

unfoldable pub setup_irqs : Handlers → Idt → Idt
setup_irqs h = set_idt_desc 0x20 (h.irq0) int_gate_flags

-- `base` is the address of `idt`; a descriptor has 16 bytes.
unfoldable pub idt_install : Handlers → ℕ → Idt → Io Idt
idt_install h base idt = do
  emit (load_idtr (u16 (16 * 255)) base)
  pure (setup_irqs h (setup_exceptions h idt))
