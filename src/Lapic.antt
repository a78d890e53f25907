-- ===== src/Lapic.antt =====
-- The local APIC: kernel/src/arch/pic/lapic.c. `base` is `local_apic_addr`. The loops that poll the
-- interrupt command register run on fuel, and return `none` when it runs out.
pub mod Send
mod Tests
use faceless_os.Base.{
  ℕ, zero, suc, ◌+◌, ◌*◌, ◌/◌, ◌^◌, [], Option, none, some, bit_and, bit_or, ◌==◌, if◌then◌else◌,
}
use faceless_os.Machine.Io.{
  mmio_write, mmio_read, Device, Io, pure, ◌>>=◌, ◌>>◌, emit, log, ask, u32,
}

abbrev pub lapic_id : ℕ
lapic_id = 0x20

abbrev pub lapic_tpr : ℕ
lapic_tpr = 0x80

abbrev pub lapic_eoi : ℕ
lapic_eoi = 0xb0

abbrev pub lapic_ldr : ℕ
lapic_ldr = 0xd0

abbrev pub lapic_dfr : ℕ
lapic_dfr = 0xe0

abbrev pub lapic_svr : ℕ
lapic_svr = 0xf0

abbrev pub lapic_icrlo : ℕ
lapic_icrlo = 0x300

abbrev pub lapic_icrhi : ℕ
lapic_icrhi = 0x310

-- Delivery mode.
abbrev pub icr_fixed : ℕ
icr_fixed = 0x00000000

abbrev pub icr_init : ℕ
icr_init = 0x00000500

abbrev pub icr_startup : ℕ
icr_startup = 0x00000600

-- Destination mode.
abbrev pub icr_physical : ℕ
icr_physical = 0x00000000

-- Delivery status.
abbrev pub icr_send_pending : ℕ
icr_send_pending = 0x00001000

-- Level, and trigger mode.
abbrev pub icr_assert : ℕ
icr_assert = 0x00004000

abbrev pub icr_edge : ℕ
icr_edge = 0x00000000

-- Destination shorthand.
abbrev pub icr_no_shorthand : ℕ
icr_no_shorthand = 0x00000000

abbrev pub icr_self : ℕ
icr_self = 0x00040000

abbrev pub icr_destination_shift : ℕ
icr_destination_shift = 24

abbrev pub init_command : ℕ
init_command =
    bit_or (bit_or (bit_or (bit_or icr_init icr_physical) icr_assert) icr_edge) icr_no_shorthand

-- What the code joins with the vector.
abbrev pub startup_bits : ℕ
startup_bits =
    bit_or (bit_or (bit_or (bit_or icr_startup icr_physical) icr_assert) icr_edge) icr_self

abbrev pub fixed_bits : ℕ
fixed_bits = bit_or (bit_or icr_fixed icr_physical) icr_assert

unfoldable pub lapic_read : Device → (base reg : ℕ) → Io ℕ
lapic_read dev base reg = ask dev 32 (mmio_read (base + reg))

unfoldable pub lapic_write : (base reg value : ℕ) → Io (Unit {0})
lapic_write base reg value = emit (mmio_write (base + reg) (u32 value))

unfoldable pub lapic_send_eoi : ℕ → Io (Unit {0})
unfolding lapic_write
lapic_send_eoi base = lapic_write base lapic_eoi 0

unfoldable pub init_lapic : ℕ → Io (Unit {0})
unfolding lapic_write
init_lapic base = do
  lapic_write base lapic_tpr 0
  lapic_write base lapic_dfr 0xFFFFFFFF
  lapic_write base lapic_ldr 0x01000000
  lapic_write base lapic_svr 0x1FF

unfoldable pub lapic_get_id : Device → ℕ → Io ℕ
unfolding lapic_read
lapic_get_id dev base = do id ← lapic_read dev base lapic_id; pure (id / 2 ^ 24)

-- `while (lapic_read(LAPIC_ICRLO) & ICR_SEND_PENDING);`
unfoldable pub poll_loop : ℕ → Device → ℕ → Io (Option (Unit {0}))
poll_loop zero dev base = pure none
poll_loop (suc fuel) dev base = do
  status ← lapic_read dev base lapic_icrlo
  if bit_and status icr_send_pending == 0 then pure (some tt) else poll_loop fuel dev base

-- What the three functions that send have in common: `command` is what they write to the low half.
abbrev pub send : ℕ → Device → (base apic_id command : ℕ) → Io (Option (Unit {0}))
send fuel dev base apic_id command = do
  lapic_write base lapic_icrhi (apic_id * 2 ^ icr_destination_shift)
  lapic_write base lapic_icrlo command
  log "\u{1b}[0;32mICR send pending..\n" []
  poll_loop fuel dev base

unfoldable pub lapic_send_init : ℕ → Device → (base apic_id : ℕ) → Io (Option (Unit {0}))
lapic_send_init fuel dev base apic_id = send fuel dev base apic_id init_command

unfoldable pub lapic_send_startup : ℕ → Device → (base apic_id vector : ℕ) → Io (Option (Unit {0}))
lapic_send_startup fuel dev base apic_id vector =
    send fuel dev base apic_id (bit_or vector startup_bits)

unfoldable pub lapic_send_ipi : ℕ → Device → (base apic_id vector : ℕ) → Io (Option (Unit {0}))
lapic_send_ipi fuel dev base apic_id vector = send fuel dev base apic_id (bit_or vector fixed_bits)
