-- ===== src/Timer/Tests.antt =====
-- The timer at 100 Hz, and two sleeps (kernel/src/arch/timer/pit.c, kernel/src/arch/interrupts/irq.c).
use faceless_os.Base.{ℕ, ◌+◌, ◌*◌, ◌^◌, ◌<◌, ◌≤◌, ◌≡◌, refl, [], ◌∷◌, arith}
use faceless_os.Machine.Io.{out8}
use faceless_os.Timer.{Timer, irq0, interrupts, pit_init}
use faceless_os.Timer.Interleave.{
  entered, waiting, returned, Run, over, interrupt, begin, again, leave,
}
use faceless_os.Timer.Slept.{ticks, Run-slept}
use faceless_os.Timer.Rate.{pit_init-divisor}
use faceless_os.Timer.Sleep.{after_ticks}

pit_init-divisor_example :
    (lo : ℕ) × (hi : ℕ) × (pit_init 100 []
      ≡ (tt, out8 0x40 hi ∷ out8 0x40 lo ∷ out8 0x43 0x36 ∷ []))
    × (lo < 2 ^ 8)
    × (hi < 2 ^ 8)
    × (0 < lo + hi * 2 ^ 8)
    × (100 * (lo + hi * 2 ^ 8) ≤ 1193180)
    × (1193180 < 100 * (lo + hi * 2 ^ 8 + 1))
pit_init-divisor_example = pit_init-divisor 100 [] (omega arith) (omega arith)

abbrev early : Timer
early = record { pit_ticks = 7; trace = [] }

-- A sleep of two ticks in which four interrupts come: one before it, two in its loop, one behind it.
abbrev last : Timer
last = interrupts 0xFEE00000 4 early

sample_run : Run 0xFEE00000 2 last entered early
unfolding interrupts irq0
sample_run = interrupt entered early (
    begin _ (
      again 10 _ (omega arith) (
        interrupt (waiting 10) _ (
          interrupt (waiting 10) _
            (leave 10 _ (omega arith) (interrupt returned _ (over _ refl)))))))

four_ticks : ticks sample_run ≡ 4
unfolding ticks sample_run
four_ticks = refl

Run-slept_example :
    (2 ≤ ticks sample_run) × (last ≡ after_ticks 0xFEE00000 (ticks sample_run) early)
Run-slept_example = Run-slept 0xFEE00000 2 last early sample_run (omega (arith, four_ticks))
