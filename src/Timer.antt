-- ===== src/Timer.antt =====
-- The programmable interval timer and its interrupt: kernel/src/arch/timer/pit.c and
-- kernel/src/arch/interrupts/irq.c. The waiting loop reads a variable that the interrupt changes: a
-- schedule says how many timer interrupts come before each of its reads.
pub mod Rate
pub mod Sleep
pub mod Interleave
pub mod Slept
mod Tests
use faceless_os.Base.{
  ℕ, zero, suc, ◌+◌, ◌/◌, ◌%◌, ◌^◌, List, [], ◌∷◌, Option, none, some, ltb, if◌then◌else◌,
}
use faceless_os.Machine.Io.{Trace, Io, ◌>>=◌, ◌>>◌, outportb, u32}
use faceless_os.Lapic.{lapic_send_eoi}

-- The processor traps where `freq_hz` is 0.
unfoldable pub pit_init : ℕ → Io (Unit {0})
unfolding outportb
pit_init freq_hz = do
  outportb 0x43 0x36
  outportb 0x40 (1193180 / freq_hz % 2 ^ 8)
  outportb 0x40 (1193180 / freq_hz / 2 ^ 8)

pub record Timer : Type 0 where
  pub pit_ticks : ℕ
  pub trace : Trace

-- `base` is `local_apic_addr`.
unfoldable pub irq0 : ℕ → Timer → Timer
irq0 base timer = record {
  pit_ticks = u32 (timer.pit_ticks + 1);
  trace = (lapic_send_eoi base (timer.trace)).1;
}

unfoldable pub interrupts : ℕ → ℕ → Timer → Timer
interrupts base zero timer = timer
interrupts base (suc n) timer = interrupts base n (irq0 base timer)

-- `while (pit_ticks < e_ticks);` over a schedule. `none`: still asleep when the schedule ends.
unfoldable pub wait_loop : (base : ℕ) → List ℕ → ℕ → Timer → Option Timer
wait_loop base [] e_ticks timer = none
wait_loop base (n ∷ schedule) e_ticks timer =
    let timer' = interrupts base n timer in
    let rest = wait_loop base schedule e_ticks timer' in
    if ltb (timer'.pit_ticks) e_ticks then rest else some timer'

-- The sum is one of 32 bits.
unfoldable pub pit_sleep : (base : ℕ) → List ℕ → ℕ → Timer → Option Timer
pit_sleep base schedule n_ticks timer =
    wait_loop base schedule (u32 (timer.pit_ticks + n_ticks)) timer
