-- ===== src/Ioapic/Init.antt =====
-- The redirection table after `ioapic_init` (kernel/src/arch/pic/ioapic.c).
use faceless_os.Base.{
  ℕ, zero, suc, ◌+◌, ◌*◌, ◌/◌, ◌%◌, ◌^◌, ◌<◌, ◌≤◌, ◌≡◌, refl, ap, ◌∙◌, [], ◌∷◌, true, false, Option,
  none, some, arith, ◌==◌, if◌then◌else◌, leb, ltb, ◌&&◌,
}
use faceless_os.Machine.Io.{mmio_write, mmio_read, Trace, Device, u8, u32}
use faceless_os.Ioapic.{
  ioregsel, iowin, ioredtbl, ioapic_write, ioapic_read, ioapic_set_entry, disable_loop, pin_count,
  ioapic_init,
}

-- The register that a trace leaves selected: the last value written to IOREGSEL.
unfoldable pub selected : ℕ → Trace → Option ℕ
selected base [] = none
selected base (mmio_write a v ∷ t) = if a == base + ioregsel then some v else selected base t
selected base (_ ∷ t) = selected base t

-- What a trace has written to a register: the last value written to IOWIN with the register
-- selected.
unfoldable pub written : (base reg : ℕ) → Trace → Option ℕ
written base reg [] = none
written base reg (mmio_write a v ∷ t) =
    let rest = written base reg t in
    if a == base + iowin
    then elim (selected base t) [ none ↦ rest | some r ↦ if r == reg then some v else rest ]
    else rest
written base reg (_ ∷ t) = written base reg t

ioapic_write-written :
    (base reg val r : ℕ) (t : Trace)
    → reg < 2 ^ 8
    → written base r ((ioapic_write base reg val t).1)
      ≡ (if reg == r then some (u32 val) else written base r t)
unfolding ioapic_write written selected
ioapic_write-written base reg val r t lt =
    let sel : (base + ioregsel == base + ioregsel) ≡ true = ground arith in
    let win : (base + iowin == base + iowin) ≡ true = ground arith in
    let apart : (base + ioregsel == base + iowin) ≡ false = ground arith in
    let fits : u8 reg ≡ reg = omega arith in rw (sel, win, apart, fits) refl

-- Both halves of an entry whose registers have numbers of 8 bits.
pub ioapic_set_entry-written :
    (base entry value r : ℕ) (t : Trace)
    → entry < 120
    → written base r ((ioapic_set_entry base entry value t).1) ≡ (
        if ioredtbl + entry * 2 + 1 == r
        then some (u32 (u32 (value / 2 ^ 32)))
        else if ioredtbl + entry * 2 == r
        then some (u32 (u32 value))
        else written base r t)
unfolding ioapic_set_entry
ioapic_set_entry-written base entry value r t lt =
    let fits : u8 entry ≡ entry = omega arith in
    rw fits (
      ioapic_write-written base (ioredtbl + entry * 2 + 1) (u32 (value / 2 ^ 32)) r _ (omega arith)
      ∙ ap
          (λ rest.
            if ioredtbl + entry * 2 + 1 == r then some (u32 (u32 (value / 2 ^ 32))) else rest)
          (ioapic_write-written base (ioredtbl + entry * 2) (u32 value) r t (omega arith)))

-- The entries from `i` to `j` masked, the other registers as they were.
abbrev pub masked : (i j r : ℕ) → Option ℕ → Option ℕ
masked i j r old =
    if leb (ioredtbl + i * 2) r && ltb r (ioredtbl + j * 2)
    then some (if r % 2 == 0 then 2 ^ 16 else 0)
    else old

masked-first :
    (i left r : ℕ) (old : Option ℕ)
    → masked (i + 1) (i + 1 + left) r (
        if ioredtbl + i * 2 + 1 == r
        then some 0
        else if ioredtbl + i * 2 == r
        then some (2 ^ 16)
        else old)
      ≡ masked i (i + suc left) r old
masked-first i left r old = ground arith

disable_loop-masked :
    (left base i r : ℕ) (t : Trace)
    → i + left ≤ 120
    → written base r ((disable_loop left base i t).1) ≡ masked i (i + left) r (written base r t)
unfolding disable_loop
disable_loop-masked zero base i r t le = ground arith
disable_loop-masked (suc left) base i r t le =
    disable_loop-masked left base (i + 1) r _ (omega arith)
    ∙ ap (masked (i + 1) (i + 1 + left) r)
        (ioapic_set_entry-written base i (2 ^ 16) r t (omega arith))
    ∙ masked-first i left r (written base r t)

-- What IOWIN returns to `ioapic_init`.
abbrev pub version_word : Device → ℕ → Trace → ℕ
version_word dev base t = dev (mmio_read (base + iowin) ∷ mmio_read (base + ioregsel) ∷ t) % 2 ^ 32

-- Where the word that IOWIN returns gives no more than 120 pins, `ioapic_init` leaves the two
-- registers of each of these pins written with the mask bit alone and with 0, and every other
-- register as it was.
pub ioapic_init-masked :
    (dev : Device) (base r : ℕ) (t : Trace)
    → pin_count (version_word dev base t) ≤ 120
    → written base r ((ioapic_init dev base t).1)
      ≡ masked 0 (pin_count (version_word dev base t)) r (written base r t)
unfolding ioapic_init ioapic_read written
ioapic_init-masked dev base r t le =
    disable_loop-masked (pin_count (version_word dev base t)) base 0 r _ (omega arith)
    ∙ ground arith
