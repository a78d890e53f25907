-- ===== src/Pci/Config.antt =====
-- `pci_read_word` and the functions that name a register (kernel/src/arch/pci/pci.c).
use faceless_os.Base.{
  ℕ, zero, suc, ◌+◌, ◌*◌, ◌/◌, ◌%◌, ◌^◌, ◌<◌, ◌≡◌, arith, ◌==◌, if◌then◌else◌, ◌∷◌, bit_and, bit_or,
  ◌∙◌, ap,
}
use faceless_os.Machine.Bits.{mask_low, mask_high, join_fields, join_fields_swapped}
use faceless_os.Machine.Io.{Device, Trace, in32, out32, inportl, outportl, u8, u16, u32}
use faceless_os.Pci.{
  config_addr, config_data, config_address, pci_read_word, pci_get_device_vendorid,
  pci_get_device_id, pci_get_device_class, pci_get_device_subclass, pci_get_device_bar5,
}

-- Enable bit, bus, slot, function, and the register, whose two low bits are 0.
unfoldable pub address_of : ℕ → ℕ → ℕ → ℕ → ℕ
address_of bus slot func offset =
    0x80000000 + bus * 0x10000 + slot * 0x800 + func * 0x100 + offset / 4 * 4

-- With bus, slot, function and offset in range, the address that is written is the enable bit and
-- the four fields side by side, with the two low bits of the offset cleared.
pub config_address-address_of :
    (bus slot func offset : ℕ)
    → bus < 256
    → slot < 32
    → func < 8
    → offset < 256
    → config_address bus slot func offset ≡ address_of bus slot func offset
unfolding config_address address_of
config_address-address_of bus slot func offset hb hs hf ho =
    let register : bit_and offset 0xFC ≡ offset / 4 * 4 =
      omega (arith, mask_high 2 offset 63, mask_low 6 (offset / 4)) in
    let one : bit_or (bus * 2 ^ 16) (slot * 2 ^ 11) ≡ (bus * 32 + slot) * 2 ^ 11 =
      omega (arith, join_fields 16 bus (slot * 2 ^ 11) (omega arith)) in
    let two : bit_or ((bus * 32 + slot) * 2 ^ 11) (func * 2 ^ 8)
        ≡ ((bus * 32 + slot) * 8 + func) * 2 ^ 8 =
      omega (arith, join_fields 11 (bus * 32 + slot) (func * 2 ^ 8) (omega arith)) in
    let three = join_fields 8 ((bus * 32 + slot) * 8 + func) (offset / 4 * 4) (omega arith) in
    let b : u32 (bus * 2 ^ 16) ≡ bus * 2 ^ 16 = omega arith in
    let s : u32 (slot * 2 ^ 11) ≡ slot * 2 ^ 11 = omega arith in
    let f : u32 (func * 2 ^ 8) ≡ func * 2 ^ 8 = omega arith in
    rw (b, s, f, register, one, two, three)
      (omega (
        arith,
        join_fields_swapped 31 1 (((bus * 32 + slot) * 8 + func) * 2 ^ 8 + offset / 4 * 4)
            (omega arith),
      ))

-- What the host bridge does: a read of the data port gives the long that the address selects.
pub record ConfigSpace (dev : Device) (config : ℕ → ℕ) : Type 0 where
  pub selects : (a : ℕ) (t : Trace) → dev (in32 config_data ∷ out32 config_addr a ∷ t) ≡ config a
  pub long : (a : ℕ) → config a < 2 ^ 32

-- The 16-bit half of a long that an offset names.
abbrev pub half : ℕ → ℕ → ℕ
half offset long = if offset / 2 % 2 == 0 then long % 0x10000 else long / 0x10000

half_at :
    (b long : ℕ)
    → b < 2
    → long < 2 ^ 32
    → u16 (bit_and (long / 2 ^ (b * 2 * 8)) 0xFFFF)
      ≡ (if b == 0 then long % 0x10000 else long / 0x10000)
half_at zero long h fits = omega (arith, mask_low 16 (long / 2 ^ 0))
half_at (suc zero) long h fits = omega (arith, mask_low 16 (long / 2 ^ 16))
half_at (suc (suc b)) long h fits = absurd (omega arith)

half_select :
    (offset long : ℕ)
    → long < 2 ^ 32
    → u16 (bit_and (u32 long / 2 ^ (bit_and offset 2 * 8)) 0xFFFF) ≡ half offset long
half_select offset long fits =
    let bit : bit_and offset 2 ≡ offset / 2 % 2 * 2 =
      omega (arith, mask_high 1 offset 1, mask_low 1 (offset / 2)) in
    let whole : u32 long ≡ long = omega arith in
    rw (bit, whole) (half_at (offset / 2 % 2) long (omega arith) fits)

u8_small : (n : ℕ) → n < 256 → u8 n ≡ n
u8_small n h = omega arith

module _ (dev : Device) (config : ℕ → ℕ) (bridge : ConfigSpace dev config) where
  -- Over a bridge that answers with the selected register, and with bus, slot, function and
  -- offset in range, the word that is read is the half that the offset names of the register that
  -- they select.
  pub pci_read_word-half :
      (bus slot func offset : ℕ) (t : Trace)
      → bus < 256
      → slot < 32
      → func < 8
      → offset < 256
      → (pci_read_word dev bus slot func offset t).0
        ≡ half offset (config (address_of bus slot func offset))
  unfolding pci_read_word outportl inportl
  pci_read_word-half bus slot func offset t hb hs hf ho =
      let slot_small : slot < 256 = omega arith in
      let func_small : func < 256 = omega arith in
      let address = address_of bus slot func offset in
      let word : u32 (config_address bus slot func offset) ≡ address =
        ap u32 (config_address-address_of bus slot func offset hb hs hf ho)
        ∙ (unfold address_of in omega arith) in
      rw
        (
          u8_small bus hb,
          u8_small slot slot_small,
          u8_small func func_small,
          u8_small offset ho,
          word,
          bridge.selects address t,
        )
        (half_select offset (config address) (bridge.long address))

  -- Over a bridge that answers with the selected register, and with bus, slot and function in
  -- range, the identifiers are the halves of register 0, and class and subclass the two high
  -- bytes of register 8.
  pub pci_get_device-fields :
      (bus slot func : ℕ) (t : Trace)
      → bus < 256
      → slot < 32
      → func < 8
      → let id = config (address_of bus slot func 0) in
        let kind = config (address_of bus slot func 8) in
        ((pci_get_device_vendorid dev bus slot func t).0 ≡ id % 0x10000)
        × ((pci_get_device_id dev bus slot func t).0 ≡ id / 0x10000)
        × ((pci_get_device_class dev bus slot func t).0 ≡ kind / 0x1000000)
        × ((pci_get_device_subclass dev bus slot func t).0 ≡ kind / 0x10000 % 0x100)
  unfolding pci_get_device_vendorid pci_get_device_id pci_get_device_class pci_get_device_subclass
  pci_get_device-fields bus slot func t hb hs hf =
      let id2 : address_of bus slot func 2 ≡ address_of bus slot func 0 =
        unfold address_of in omega arith in
      let kind : address_of bus slot func 0xA ≡ address_of bus slot func 8 =
        unfold address_of in omega arith in
      let read =
        λ (offset : ℕ) (h : offset < 256). pci_read_word-half bus slot func offset t hb hs hf h in
      let word = read 0xA (omega arith) ∙ ap (λ a. config a / 0x10000) kind in
      let long = bridge.long (address_of bus slot func 8) in
      (
        read 0 (omega arith),
        read 2 (omega arith) ∙ ap (λ a. config a / 0x10000) id2,
        rw word (omega arith),
        rw word (omega arith),
      )

  -- Over a bridge that answers with the selected register, and with bus, slot and function in
  -- range, the base address that is returned is the low half of its register alone.
  pub pci_get_device_bar5-low :
      (bus slot func : ℕ) (t : Trace)
      → bus < 256
      → slot < 32
      → func < 8
      → (pci_get_device_bar5 dev bus slot func t).0
        ≡ config (address_of bus slot func 0x24) % 0x10000
  unfolding pci_get_device_bar5
  pci_get_device_bar5-low bus slot func t hb hs hf =
      let t' = (pci_read_word dev bus slot func 0x24 t).1 in
      let lo = pci_read_word-half bus slot func 0x24 t hb hs hf (omega arith) in
      let word = pci_read_word-half bus slot func 0x26 t' hb hs hf (omega arith) in
      let long = bridge.long (address_of bus slot func 0x26) in
      let hi : u16 (half 0x26 (config (address_of bus slot func 0x26)) / 2 ^ 16) ≡ 0 =
        omega arith in
      rw (lo, word, hi)
        (omega (
          arith,
          join_fields 16 0 (config (address_of bus slot func 0x24) % 0x10000) (omega arith),
        ))
