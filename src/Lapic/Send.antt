-- ===== src/Lapic/Send.antt =====
-- Interprocessor interrupts (kernel/src/arch/pic/lapic.c).
use faceless_os.Base.{
  ℕ, zero, suc, ◌+◌, ◌*◌, ◌%◌, ◌^◌, ◌<◌, ◌≡◌, ◌≢◌, refl, [], ◌∷◌, false, Option, some, bit_and,
  arith, ◌==◌,
}
use faceless_os.Machine.Bits.{join_fields_swapped}
use faceless_os.Machine.Io.{mmio_write, mmio_read, log_call, Trace, Device, u32}
use faceless_os.Lapic.{
  lapic_icrlo, lapic_icrhi, icr_send_pending, lapic_read, lapic_write, poll_loop, lapic_send_init,
  lapic_send_startup, lapic_send_ipi,
}

-- The trace after `n` reads of the command register.
unfoldable pub polled : ℕ → ℕ → Trace → Trace
polled base zero t = t
polled base (suc n) t = polled base n (mmio_read (base + lapic_icrlo) ∷ t)

-- The device shows the interrupt as pending at `n` reads, and as sent at the next one.
pub data SentAfter (dev : Device) (base : ℕ) : ℕ → Trace → Type 0 where
  sent :
      {t : Trace}
      → bit_and (dev (mmio_read (base + lapic_icrlo) ∷ t) % 2 ^ 32) icr_send_pending ≡ 0
      → SentAfter dev base 0 t
  pending :
      {n : ℕ} {t : Trace}
      → bit_and (dev (mmio_read (base + lapic_icrlo) ∷ t) % 2 ^ 32) icr_send_pending ≢ 0
      → SentAfter dev base n (mmio_read (base + lapic_icrlo) ∷ t)
      → SentAfter dev base (suc n) t

is_pending : (b : ℕ) → b ≢ 0 → (b == 0) ≡ false
is_pending b ne = ground arith

pub poll_loop-SentAfter :
    (fuel : ℕ) {dev : Device} {base n : ℕ} {t : Trace}
    → SentAfter dev base n t
    → n < fuel
    → poll_loop fuel dev base t ≡ (some tt, polled base (suc n) t)
unfolding poll_loop polled lapic_read
poll_loop-SentAfter zero s lt = elim lt [ ]
poll_loop-SentAfter (suc fuel) (sent e) lt = rw e refl
poll_loop-SentAfter (suc fuel) {dev = dev} {base = base} {t = t} (pending ne s) lt =
    rw
      (is_pending (bit_and (dev (mmio_read (base + lapic_icrlo) ∷ t) % 2 ^ 32) icr_send_pending) ne)
      (poll_loop-SentAfter fuel s (omega arith))

-- The three kinds of interrupt that the code sends.
pub data Ipi : Type 0 where
  init_ipi : Ipi
  startup_ipi fixed_ipi : ℕ → Ipi

abbrev pub lapic_send : ℕ → Device → (base apic_id : ℕ) → Ipi → Trace → Option (Unit {0}) × Trace
lapic_send fuel dev base apic_id init_ipi = lapic_send_init fuel dev base apic_id
lapic_send fuel dev base apic_id (startup_ipi v) = lapic_send_startup fuel dev base apic_id v
lapic_send fuel dev base apic_id (fixed_ipi v) = lapic_send_ipi fuel dev base apic_id v

abbrev pub vector : Ipi → ℕ
vector init_ipi = 0
vector (startup_ipi v) = v
vector (fixed_ipi v) = v

-- Delivery mode (bits 8 to 10): 5 for INIT, 6 for startup, 0 for fixed.
abbrev pub delivery_mode : Ipi → ℕ
delivery_mode init_ipi = 5
delivery_mode (startup_ipi v) = 6
delivery_mode (fixed_ipi v) = 0

-- Destination shorthand (bits 18 and 19): 1 is "self", 0 is none.
abbrev pub shorthand : Ipi → ℕ
shorthand init_ipi = 0
shorthand (startup_ipi v) = 1
shorthand (fixed_ipi v) = 0

-- The low half of the command register, with bit 14, "assert", set.
abbrev pub command_word : Ipi → ℕ
command_word k = vector k + delivery_mode k * 2 ^ 8 + 2 ^ 14 + shorthand k * 2 ^ 18

abbrev pub issued : (base apic_id : ℕ) → Ipi → Trace → Trace
issued base apic_id k t =
    log_call "\u{1b}[0;32mICR send pending..\n" []
    ∷ mmio_write (base + lapic_icrlo) (command_word k)
    ∷ mmio_write (base + lapic_icrhi) (apic_id * 2 ^ 24)
    ∷ t

field_fits : (i : ℕ) → i < 2 ^ 8 → u32 (i * 2 ^ 24) ≡ i * 2 ^ 24
field_fits i lt = omega arith

startup_word : (v : ℕ) → v < 2 ^ 8 → u32 (0x446 * 2 ^ 8 + v) ≡ v + 6 * 2 ^ 8 + 2 ^ 14 + 1 * 2 ^ 18
startup_word v lt = omega arith

fixed_word : (v : ℕ) → v < 2 ^ 8 → u32 (0x40 * 2 ^ 8 + v) ≡ v + 0 * 2 ^ 8 + 2 ^ 14 + 0 * 2 ^ 18
fixed_word v lt = omega arith

-- For a vector and an APIC id of 8 bits, each of the three functions writes the id to the
-- destination field of the high half first, then the command word of its kind to the low half.
-- With more fuel than there are polls that show the interrupt as pending it returns after the
-- first one that does not. The startup interrupt has the shorthand "self".
pub lapic_send-issued :
    (k : Ipi) (fuel : ℕ) {dev : Device} {base apic_id n : ℕ} {t : Trace}
    → vector k < 2 ^ 8
    → apic_id < 2 ^ 8
    → SentAfter dev base n (issued base apic_id k t)
    → n < fuel
    → lapic_send fuel dev base apic_id k t
      ≡ (some tt, polled base (suc n) (issued base apic_id k t))
unfolding lapic_write lapic_send_init lapic_send_startup lapic_send_ipi
lapic_send-issued init_ipi fuel {apic_id = apic_id} v i s lt =
    rw (field_fits apic_id i) (poll_loop-SentAfter fuel s lt)
lapic_send-issued (startup_ipi vec) fuel {apic_id = apic_id} v i s lt =
    rw (field_fits apic_id i, join_fields_swapped 8 0x446 vec v, startup_word vec v)
      (poll_loop-SentAfter fuel s lt)
lapic_send-issued (fixed_ipi vec) fuel {apic_id = apic_id} v i s lt =
    rw (field_fits apic_id i, join_fields_swapped 8 0x40 vec v, fixed_word vec v)
      (poll_loop-SentAfter fuel s lt)
