-- ===== src/Exceptions/Reported.antt =====
-- What an exception leads to after `idt_install` (kernel/src/arch/interrupts/IDT.c): the report of
-- `cpu_panic` (kernel/src/libkern/panic.c).
use Prim.Native.String.{String}
use faceless_os.Base.{
  ℕ, zero, suc, ◌^◌, ◌<◌, ◌≡◌, refl, List, [], ◌∷◌, map, length, get_or, Option, some, true, false,
  arith, ltb, ◌==◌, ap, ◌∙◌,
}
use faceless_os.Machine.Io.{text, cli, hlt, log_call, Trace}
use faceless_os.Panic.{fault_type, cpu_panic}
use faceless_os.Idt.{Idt, Handlers, make_gate, exceptions, idt_install}
use faceless_os.Idt.Gates.{handler, gate_offset, idt_install-handler}
use faceless_os.Exceptions.{
  Label, div0_handler, debug_exception, breakpoint_exception, overflow_exception,
  boundrange_exceeded_exception, invalid_opcode_exception, dev_not_avail_exception, double_fault,
  invalid_tss_exception, segment_not_present, stack_segment_fault, general_protection_fault,
  page_fault, kpanic, code, handle, address, take_exception,
}

-- The name under which each vector is reported. Those of vectors 2 and 9, which have no handler of
-- their own, are not theirs.
abbrev pub names : List String
names =
    "Divide Error" ∷ "Debug Exception" ∷ "General Protection Fault" ∷ "Breakpoint Exception"
    ∷ "Overflow Exception" ∷ "Boundrange Exceeded" ∷ "Invalid Opcode" ∷ "Device Not Avl"
    ∷ "Double Fault" ∷ "General Protection Fault" ∷ "Invalid TSS" ∷ "Segment Not Present"
    ∷ "Stack Segment Fault" ∷ "General Protection Fault" ∷ "Page Fault" ∷ []

-- Interrupts are off, the report has the name of the fault, and the processor has stopped.
abbrev pub report : String → Trace → Trace
report name t =
    hlt
    ∷ log_call "\u{1b}[91mCaught: %s\n" (text name ∷ [])
    ∷ log_call "\u{1b}[91m** KERNEL PANIC **\n" []
    ∷ log_call "\u{1b}[H\u{1b}[2J\u{1b}[3J" []
    ∷ cli
    ∷ t

-- The labels in the order of the vectors.
abbrev labels : List Label
labels =
    div0_handler ∷ debug_exception ∷ general_protection_fault ∷ breakpoint_exception
    ∷ overflow_exception ∷ boundrange_exceeded_exception ∷ invalid_opcode_exception
    ∷ dev_not_avail_exception ∷ double_fault ∷ general_protection_fault ∷ invalid_tss_exception
    ∷ segment_not_present ∷ stack_segment_fault ∷ general_protection_fault ∷ page_fault ∷ []

abbrev label_of : ℕ → Label
label_of v = get_or labels v page_fault

get_or-map :
    {A B : Type 0} (f : A → B) (xs : List A) (k : ℕ) (a : A) (b : B)
    → k < length xs
    → get_or (map f xs) k b ≡ f (get_or xs k a)
get_or-map f [] k a b lt = let bad : 0 < 0 = omega arith in elim bad [ ]
get_or-map f (x ∷ xs) zero a b lt = refl
get_or-map f (x ∷ xs) (suc k) a b lt = get_or-map f xs k a b (omega arith)

exceptions-label_of :
    (h : Handlers) (v : ℕ) → v < 15 → get_or (exceptions h) v 0 ≡ address h (label_of v)
unfolding address
exceptions-label_of h v low = get_or-map (address h) labels v page_fault 0 low

names-fault_type : (v : ℕ) → v < 15 → get_or names v "" ≡ fault_type (code (label_of v))
unfolding fault_type code
names-fault_type v low = get_or-map (λ l. fault_type (code l)) labels v page_fault "" low

handle-report :
    (label : Label) (t : Trace) → (handle label t) ≡ (tt, report (fault_type (code label)) t)
unfolding handle kpanic cpu_panic
handle-report label t = refl

-- A gate that `make_gate` builds leads to the label at its address.
take_exception-make_gate :
    (code_at : ℕ → Option Label) (idt : Idt) (v addr : ℕ) (label : Label)
    → idt v ≡ make_gate addr
    → gate_offset (make_gate addr) ≡ addr
    → code_at addr ≡ some label
    → take_exception code_at idt v ≡ some (handle label)
unfolding take_exception
take_exception-make_gate code_at idt v addr label gate offset linked =
    rw (gate, offset, linked) refl

-- From the vector to the report.
pub take_exception-report :
    (h : Handlers) (base : ℕ) (idt : Idt) (code_at : ℕ → Option Label) (v : ℕ) (t t' : Trace)
    → ((u : ℕ) → handler h u < 2 ^ 64)
    → ((label : Label) → code_at (address h label) ≡ some label)
    → v < 15
    → (run : Trace → Unit {0} × Trace) × (take_exception code_at (idt_install h base idt t').0 v
        ≡ some run)
      × (run t ≡ (tt, report (get_or names v "") t))
take_exception-report h base idt code_at v t t' fits linked low =
    let (idt', run, gates, offsets) = idt_install-handler h base idt t' fits in
    let at : handler h v ≡ address h (label_of v) =
      let not_irq : (v == 0x20) ≡ false = ground arith in
      rw not_irq (exceptions-label_of h v low) in
    let gate : idt' v ≡ make_gate (handler h v) =
      let handled : ltb v 0xF ≡ true = ground arith in rw (gates v, handled) refl in
    (
      handle (label_of v),
      rw run (
          take_exception-make_gate code_at idt' v (handler h v) (label_of v) gate (offsets v)
            (ap code_at at ∙ linked (label_of v))),
      rw (names-fault_type v low) (handle-report (label_of v) t),
    )
