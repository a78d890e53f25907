-- ===== src/Idt/Gates.antt =====
-- The gates that the kernel installs (kernel/src/arch/interrupts/IDT.c).
use faceless_os.Base.{
  ℕ, zero, suc, ◌+◌, ◌*◌, ◌^◌, ◌<◌, ◌≤◌, ◌≡◌, ◌≢◌, refl, ◌⊎◌, Bool, true, ◌||◌, ltb, ◌∙◌, List, ◌∷◌,
  arith, get_or, ◌==◌, if◌then◌else◌, Bool-cases, inl, inr,
}
use faceless_os.Machine.Io.{load_idtr, Trace, u8}
use faceless_os.Idt.{
  IdtGateDescriptor, Idt, Handlers, make_gate, trap_gate_flags, int_gate_flags, exceptions,
  set_idt_desc, exceptions_loop, setup_exceptions, setup_irqs, idt_install,
}

-- The address that the processor puts together from a gate.
abbrev pub gate_offset : IdtGateDescriptor → ℕ
gate_offset g = g.isr_low + g.isr_middle * 2 ^ 16 + g.isr_high * 2 ^ 32

make_gate-gate_offset : (addr : ℕ) → addr < 2 ^ 64 → gate_offset (make_gate addr) ≡ addr
make_gate-gate_offset addr lt = omega arith

-- The handler of a vector, where the kernel has one.
abbrev pub handler : Handlers → ℕ → ℕ
handler h v = if v == 0x20 then h.irq0 else get_or (exceptions h) v 0

set_idt_desc-other :
    (vector isr flags : ℕ) (idt : Idt) (v : ℕ)
    → v ≢ vector
    → vector < 256
    → set_idt_desc vector isr flags idt v ≡ idt v
unfolding set_idt_desc
set_idt_desc-other vector isr flags idt v ne lt = ground arith

set_idt_desc-same :
    (vector isr flags : ℕ) (idt : Idt)
    → vector < 256
    → set_idt_desc vector isr flags idt vector ≡ make_gate isr
unfolding set_idt_desc
set_idt_desc-same vector isr flags idt lt =
    let same : (vector == u8 vector) ≡ true = ground arith in rw same refl

exceptions_loop-other :
    (left vector : ℕ) (hs : List ℕ) (idt : Idt) (v : ℕ)
    → (v < vector) ⊎ (vector + left ≤ v)
    → vector + left ≤ 256
    → exceptions_loop left vector hs idt v ≡ idt v
unfolding exceptions_loop
exceptions_loop-other zero vector hs idt v far small = refl
exceptions_loop-other (suc left) vector hs idt v far small =
    exceptions_loop-other left (vector + 1) hs _ v (further far) (omega arith)
    ∙ set_idt_desc-other vector (get_or hs vector 0) trap_gate_flags idt v (apart far) (omega arith)
  where
    further : (v < vector) ⊎ (vector + suc left ≤ v) → (v < vector + 1) ⊎ (vector + 1 + left ≤ v)
    further (inl lt) = inl (omega arith)
    further (inr le) = inr (omega arith)

    apart : (v < vector) ⊎ (vector + suc left ≤ v) → v ≢ vector
    apart (inl lt) = omega arith
    apart (inr le) = omega arith

exceptions_loop-set :
    (left vector : ℕ) (hs : List ℕ) (idt : Idt) (v : ℕ)
    → vector ≤ v
    → v < vector + left
    → vector + left ≤ 256
    → exceptions_loop left vector hs idt v ≡ make_gate (get_or hs v 0)
unfolding exceptions_loop
exceptions_loop-set zero vector hs idt v low high small =
    let bad : 0 < 0 = omega arith in elim bad [ ]
exceptions_loop-set (suc left) vector hs idt v low high small = elim (Bool-cases (v == vector)) [
  | inl e ↦
      let same : v ≡ vector = ground arith in
      rw same (
        exceptions_loop-other left (vector + 1) hs _ vector (inl (omega arith)) (omega arith)
        ∙ set_idt_desc-same vector (get_or hs vector 0) trap_gate_flags idt (omega arith))
  | inr e ↦ exceptions_loop-set left (vector + 1) hs _ v (ground arith) (omega arith) (omega arith)
]

-- The vectors that get a gate.
abbrev pub is_handled : ℕ → Bool
is_handled v = ltb v 0xF || v == 0x20

setup_exceptions-handler :
    (h : Handlers) (idt : Idt) (v : ℕ)
    → v < 15
    → setup_exceptions h idt v ≡ make_gate (get_or (exceptions h) v 0)
unfolding setup_exceptions
setup_exceptions-handler h idt zero lt =
    set_idt_desc-same 0 (h.div0_handler) trap_gate_flags _ (omega arith)
setup_exceptions-handler h idt (suc v) lt =
    set_idt_desc-other 0 (h.div0_handler) trap_gate_flags _ (suc v) (omega arith) (omega arith)
    ∙ exceptions_loop-set 15 0 (exceptions h) idt (suc v) (omega arith) (omega arith) (omega arith)

setup_exceptions-other :
    (h : Handlers) (idt : Idt) (v : ℕ) → 15 ≤ v → setup_exceptions h idt v ≡ idt v
unfolding setup_exceptions
setup_exceptions-other h idt v le =
    set_idt_desc-other 0 (h.div0_handler) trap_gate_flags _ v (omega arith) (omega arith)
    ∙ exceptions_loop-other 15 0 (exceptions h) idt v (inr (omega arith)) (omega arith)

setup-handler :
    (h : Handlers) (idt : Idt) (v : ℕ)
    → setup_irqs h (setup_exceptions h idt) v
      ≡ (if is_handled v then make_gate (handler h v) else idt v)
unfolding setup_irqs
setup-handler h idt v = elim (Bool-cases (v == 0x20)) [
  | inl e ↦
      let same : v ≡ 0x20 = ground arith in
      rw same
        (set_idt_desc-same 0x20 (h.irq0) int_gate_flags (setup_exceptions h idt) (omega arith))
  | inr e ↦
      set_idt_desc-other 0x20 (h.irq0) int_gate_flags (setup_exceptions h idt) v (ground arith)
        (omega arith)
      ∙ elim (Bool-cases (ltb v 15)) [
        | inl lt ↦ rw (lt, e) (setup_exceptions-handler h idt v (ground arith))
        | inr ge ↦ rw (ge, e) (setup_exceptions-other h idt v (ground arith))
      ]
]

-- With handlers at addresses of 64 bits, the table register is loaded with the size of 255 gates
-- and the address of the table. Each exception vector below 15 and the timer's vector 32 gets a
-- gate from which the processor reads the handler's address, and every other vector keeps what it
-- had.
pub idt_install-handler :
    (h : Handlers) (base : ℕ) (idt : Idt) (t : Trace)
    → ((v : ℕ) → handler h v < 2 ^ 64)
    → (idt' : Idt) × (idt_install h base idt t ≡ (idt', load_idtr 4080 base ∷ t))
      × ((v : ℕ) → idt' v ≡ (if is_handled v then make_gate (handler h v) else idt v))
      × ((v : ℕ) → gate_offset (make_gate (handler h v)) ≡ handler h v)
unfolding idt_install
idt_install-handler h base idt t lt = (
  setup_irqs h (setup_exceptions h idt),
  refl,
  setup-handler h idt,
  λ v. make_gate-gate_offset (handler h v) (lt v),
)
