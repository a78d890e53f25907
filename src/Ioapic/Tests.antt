-- ===== src/Ioapic/Tests.antt =====
-- An I/O APIC with 24 pins (kernel/src/arch/pic/ioapic.c).
use faceless_os.Base.{◌≡◌, [], some, arith}
use faceless_os.Machine.Io.{Device}
use faceless_os.Ioapic.{ioapic_init}
use faceless_os.Ioapic.Init.{written, ioapic_init-masked}

abbrev pins_24 : Device
pins_24 t = 0x170020

-- Register 0x3F is the high half of the last entry, 0x3E the low half.
ioapic_init-masked_example :
    written 0xFEC00000 0x3E (ioapic_init pins_24 0xFEC00000 []).1 ≡ some 0x10000
unfolding written
ioapic_init-masked_example = ioapic_init-masked pins_24 0xFEC00000 0x3E [] (omega arith)
