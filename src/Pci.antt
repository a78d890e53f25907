-- ===== src/Pci.antt =====
-- The PCI configuration space: kernel/src/arch/pci/pci.c.
pub mod Config
pub mod First
pub mod Locate
mod Tests
use mathlib.Core.Option.{get_or}
use faceless_os.Base.{
  ℕ, zero, suc, ◌+◌, ◌*◌, ◌/◌, ◌^◌, Bool, true, false, Option, none, some, ◌==◌, if◌then◌else◌,
  bit_and, bit_or,
}
use faceless_os.Machine.Io.{Device, Io, pure, ◌>>=◌, ◌>>◌, outportl, inportl, u8, u16, u32}

abbrev pub config_addr : ℕ
config_addr = 0xCF8

abbrev pub config_data : ℕ
config_data = 0xCFC

-- `struct PCIDevice`
pub record PciDevice : Type 0 where
  pub bus : ℕ
  pub slot : ℕ
  pub func : ℕ
  pub valid : ℕ

-- The value that is written to the address port.
unfoldable pub config_address : ℕ → ℕ → ℕ → ℕ → ℕ
config_address lbus lslot lfunc offset =
    bit_or
      (bit_or (bit_or (bit_or (u32 (lbus * 2 ^ 16)) (u32 (lslot * 2 ^ 11))) (u32 (lfunc * 2 ^ 8)))
        (bit_and offset 0xFC))
      0x80000000

unfoldable pub return_or : Option PciDevice → Io (Option PciDevice) → Io (Option PciDevice)
return_or (some device) rest = pure (some device)
return_or none rest = rest

-- A `for` loop from `n` on with `left` rounds to go, whose body may return a device.
unfoldable pub for_loop : (left n : ℕ) → (ℕ → Io (Option PciDevice)) → Io (Option PciDevice)
unfolding return_or
for_loop zero n body = pure none
for_loop (suc left) n body = do found ← body n; return_or found (for_loop left (n + 1) body)

module _ (dev : Device) where
  -- The parameters are `uint8_t`.
  unfoldable pub pci_read_word : (bus slot func offset : ℕ) → Io ℕ
  unfolding config_address outportl inportl
  pci_read_word bus slot func offset = do
    outportl config_addr (config_address (u8 bus) (u8 slot) (u8 func) (u8 offset))
    long ← inportl dev config_data
    pure (u16 (bit_and (long / 2 ^ (bit_and (u8 offset) 2 * 8)) 0xFFFF))

  pub pci_get_device_vendorid : (bus slot func : ℕ) → Io ℕ
  pci_get_device_vendorid bus slot func = pci_read_word bus slot func 0

  pub pci_get_device_id : (bus slot func : ℕ) → Io ℕ
  pci_get_device_id bus slot func = pci_read_word bus slot func 0x2

  unfoldable pub pci_get_device_class : (bus slot func : ℕ) → Io ℕ
  pci_get_device_class bus slot func = do
    word ← pci_read_word bus slot func 0xA
    pure (u8 (word / 2 ^ 8))

  unfoldable pub pci_get_device_subclass : (bus slot func : ℕ) → Io ℕ
  pci_get_device_subclass bus slot func = do word ← pci_read_word bus slot func 0xA; pure (u8 word)

  -- `hi` is shifted right by 16, not left.
  pub pci_get_device_bar5 : (bus slot func : ℕ) → Io ℕ
  pci_get_device_bar5 bus slot func = do
    lo ← pci_read_word bus slot func 0x24
    word ← pci_read_word bus slot func 0x26
    let hi = u16 (word / 2 ^ 16)
    pure (u32 (bit_or (hi * 2 ^ 16) lo))

  module _ (classid subclassid : ℕ) where
    -- The condition of the innermost loop: the second read is made only where the class fits.
    unfoldable pub fits : (bus slot func : ℕ) → Io Bool
    fits bus slot func = do
      class ← pci_get_device_class bus slot func
      if class == classid
          then (do subclass ← pci_get_device_subclass bus slot func; pure (subclass == subclassid))
          else pure false

    unfoldable pub func_body : (bus slot func : ℕ) → Io (Option PciDevice)
    func_body bus slot func = do
      found ← fits bus slot func
      pure (
          if found
          then some (record { bus = u8 bus; slot = u8 slot; func = u8 func; valid = 1 })
          else none)

    unfoldable pub slot_body : (bus slot : ℕ) → Io (Option PciDevice)
    slot_body bus slot = for_loop 8 0 (func_body bus slot)

    unfoldable pub bus_body : (bus : ℕ) → Io (Option PciDevice)
    bus_body bus = for_loop 32 0 (slot_body bus)

    -- `device` is what the stack holds before: without a match only `valid` is set.
    unfoldable pub locate_pci_device : PciDevice → Io PciDevice
    unfolding bus_body slot_body func_body
    locate_pci_device device = do
      found ← for_loop 256 0 bus_body
      pure (get_or found (record device { valid = 0 }))
