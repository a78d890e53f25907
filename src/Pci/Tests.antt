-- ===== src/Pci/Tests.antt =====
-- The configuration space of a host bridge with one disk controller (kernel/src/arch/pci/pci.c).
use faceless_os.Base.{ℕ, ◌<◌, ◌≡◌, ◌⊎◌, refl, [], ◌∷◌, arith, false, ◌==◌, if◌then◌else◌}
use faceless_os.Machine.Io.{Device, in32, out32}
use faceless_os.Pci.{PciDevice, locate_pci_device}
use faceless_os.Pci.Config.{ConfigSpace}
use faceless_os.Pci.Locate.{matches, IsFirst, locate_pci_device-IsFirst}

-- Bus 0, slot 3, function 1 is an AHCI controller: class 1, subclass 6, and BAR 5 at 0xFEBF1000.
abbrev config : ℕ → ℕ
config a =
    if a == 0x80001908
    then 0x01060102
    else if a == 0x80001900
    then 0x29228086
    else if a == 0x80001924
    then 0xFEBF1000
    else 0xFFFFFFFF

-- A read of the data port answers the address that was written last.
abbrev bridge : Device
bridge (in32 p ∷ out32 q a ∷ t) = config a
bridge t = 0

bridge-ConfigSpace : ConfigSpace bridge config
bridge-ConfigSpace = record { selects = λ a t. refl; long = long }
  where
    long : (a : ℕ) → config a < 0x100000000
    long a = ground arith

abbrev unset : PciDevice
unset = record { bus = 0; slot = 0; func = 0; valid = 7 }

locate_pci_device-IsFirst_example :
    let d = (locate_pci_device bridge 1 6 unset []).0 in
    IsFirst config 1 6 d
    ⊎ ((d ≡ record unset { valid = 0 })
        × ((bus slot func : ℕ)
            → bus < 256
            → slot < 32
            → func < 8
            → matches config 1 6 bus slot func ≡ false))
locate_pci_device-IsFirst_example =
    locate_pci_device-IsFirst bridge config bridge-ConfigSpace 1 6 unset []
