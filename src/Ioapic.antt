-- ===== src/Ioapic.antt =====
-- The I/O APIC: kernel/src/arch/pic/ioapic.c. `base` is `io_apic_ptr`.
pub mod Init
mod Tests
use faceless_os.Base.{ℕ, zero, suc, ◌+◌, ◌*◌, ◌/◌, ◌%◌, ◌^◌, [], ◌∷◌}
use faceless_os.Machine.Io.{
  num, mmio_write, mmio_read, Device, Io, pure, ◌>>=◌, ◌>>◌, emit, log, ask, u8, u32,
}

abbrev pub ioregsel : ℕ
ioregsel = 0x00

abbrev pub iowin : ℕ
iowin = 0x10

abbrev pub ioapicver : ℕ
ioapicver = 0x01

abbrev pub ioredtbl : ℕ
ioredtbl = 0x10

unfoldable pub ioapic_write : (base reg val : ℕ) → Io (Unit {0})
ioapic_write base reg val = do
  emit (mmio_write (base + ioregsel) (u8 reg))
  emit (mmio_write (base + iowin) (u32 val))

-- The first access is a read as well.
unfoldable pub ioapic_read : Device → (base reg : ℕ) → Io ℕ
ioapic_read dev base reg = do
  _ ← ask dev 32 (mmio_read (base + ioregsel))
  ask dev 32 (mmio_read (base + iowin))

unfoldable pub ioapic_set_entry : (base entry value : ℕ) → Io (Unit {0})
unfolding ioapic_write
ioapic_set_entry base entry value = do
  ioapic_write base (ioredtbl + u8 entry * 2) (u32 value)
  ioapic_write base (ioredtbl + u8 entry * 2 + 1) (u32 (value / 2 ^ 32))

-- `for (uint32_t i = 0; i < count; ++i)`, from `i` on with `left` turns left.
unfoldable pub disable_loop : (left base i : ℕ) → Io (Unit {0})
disable_loop zero base i = pure tt
disable_loop (suc left) base i = do ioapic_set_entry base i (2 ^ 16); disable_loop left base (i + 1)

abbrev pub pin_count : ℕ → ℕ
pin_count in_data = in_data / 2 ^ 16 % 2 ^ 8 + 1

unfoldable pub ioapic_init : Device → ℕ → Io (Unit {0})
ioapic_init dev base = do
  in_data ← ioapic_read dev base ioapicver
  log "\u{1b}[0;32mI/O APIC pins: %d\n" (num (pin_count in_data) ∷ [])
  disable_loop (pin_count in_data) base 0
