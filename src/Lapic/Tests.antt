-- ===== src/Lapic/Tests.antt =====
-- A startup interrupt that is shown as pending once (kernel/src/arch/pic/lapic.c).
use faceless_os.Base.{◌≡◌, refl, [], ◌∷◌, some, arith}
use faceless_os.Machine.Io.{Device, mmio_read}
use faceless_os.Lapic.Send.{
  SentAfter, sent, pending, startup_ipi, lapic_send, issued, polled, lapic_send-issued,
}

-- The second of two reads in a row shows the interrupt as sent.
abbrev once_pending : Device
once_pending (mmio_read p ∷ mmio_read q ∷ t) = 0x46600
once_pending t = 0x1000

once_pending-SentAfter :
    SentAfter once_pending 0xFEE00000 1 (issued 0xFEE00000 1 (startup_ipi 8) [])
once_pending-SentAfter = pending (omega arith) (sent refl)

lapic_send-issued_example :
    lapic_send 5 once_pending 0xFEE00000 1 (startup_ipi 8) []
    ≡ (some tt, polled 0xFEE00000 2 (issued 0xFEE00000 1 (startup_ipi 8) []))
lapic_send-issued_example =
    lapic_send-issued (startup_ipi 8) 5 (omega arith) (omega arith) once_pending-SentAfter
      (omega arith)
