-- ===== src/Boot.antt =====
-- What brings the machine up: the tags of the boot loader, the start of ACPI and of the other
-- processors, and the order of it all in `init`.
pub mod Tags
pub mod Power
pub mod Wakeup
pub mod Init
pub mod Header
mod Tests
