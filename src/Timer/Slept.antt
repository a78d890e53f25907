-- ===== src/Timer/Slept.antt =====
-- How long a sleep takes in every interleaving with the timer's interrupt
-- (kernel/src/arch/timer/pit.c, kernel/src/arch/interrupts/irq.c).
use faceless_os.Base.{ℕ, suc, ◌+◌, ◌-◌, ◌^◌, ◌<◌, ◌≤◌, ◌≡◌, refl, arith, ◌∙◌}
use faceless_os.Machine.Io.{u32}
use faceless_os.Timer.{Timer, irq0, interrupts}
use faceless_os.Timer.Sleep.{after_ticks, interrupts-after_ticks}
use faceless_os.Timer.Interleave.{
  Phase, entered, waiting, Run, over, interrupt, begin, again, leave, Run-interrupts,
}

-- How many interrupts come in a run.
unfoldable pub ticks :
    {base n_ticks : ℕ} {last : Timer} {phase : Phase} {timer : Timer}
    → Run base n_ticks last phase timer
    → ℕ
ticks (over _ _) = 0
ticks (interrupt _ _ r) = suc (ticks r)
ticks (begin _ r) = ticks r
ticks (again _ _ _ r) = ticks r
ticks (leave _ _ _ r) = ticks r

module _ (base n_ticks : ℕ) (last : Timer) where
  Run-last :
      (phase : Phase) (timer : Timer) (r : Run base n_ticks last phase timer)
      → last ≡ interrupts base (ticks r) timer
  unfolding ticks interrupts
  Run-last phase timer (over _ e) = e
  Run-last phase timer (interrupt _ _ r) = Run-last phase (irq0 base timer) r
  Run-last phase timer (begin _ r) = Run-last _ timer r
  Run-last phase timer (again _ _ _ r) = Run-last _ timer r
  Run-last phase timer (leave _ _ _ r) = Run-last _ timer r

  waiting-long :
      (e_ticks : ℕ) (timer : Timer) (r : Run base n_ticks last (waiting e_ticks) timer)
      → timer.pit_ticks + ticks r < 2 ^ 32
      → e_ticks ≤ timer.pit_ticks + ticks r
  unfolding ticks irq0
  waiting-long e_ticks timer (interrupt _ _ r) lt =
      omega (arith, waiting-long e_ticks (irq0 base timer) r (omega arith))
  waiting-long e_ticks timer (again _ _ _ r) lt = waiting-long e_ticks timer r lt
  waiting-long e_ticks timer (leave _ _ le r) lt = omega arith

  entered-long :
      (timer : Timer) (r : Run base n_ticks last entered timer)
      → timer.pit_ticks + ticks r + n_ticks < 2 ^ 32
      → n_ticks ≤ ticks r
  unfolding ticks irq0
  entered-long timer (interrupt _ _ r) lt =
      omega (arith, entered-long (irq0 base timer) r (omega arith))
  entered-long timer (begin _ r) lt =
      omega (arith, waiting-long (u32 (timer.pit_ticks + n_ticks)) timer r (omega arith))

  -- In every interleaving of a sleep with interrupts of the timer, before it, in its loop and
  -- behind it, at least as many interrupts come as the sleep was asked to wait for, where the
  -- tick count with them and the ticks asked for stays below 2 ^ 32; each of them has been
  -- counted and acknowledged once.
  pub Run-slept :
      (first : Timer) (r : Run base n_ticks last entered first)
      → first.pit_ticks + ticks r + n_ticks < 2 ^ 32
      → (n_ticks ≤ ticks r) × (last ≡ after_ticks base (ticks r) first)
  Run-slept first r lt = (
    entered-long first r lt,
    Run-last entered first r ∙ interrupts-after_ticks base (ticks r) first (omega arith),
  )

-- From every state in the loop, the sleep is over once the tick count has come up to `e_ticks`.
pub waiting-returns :
    (base n_ticks e_ticks : ℕ) (timer : Timer)
    → e_ticks < 2 ^ 32
    → timer.pit_ticks < 2 ^ 32
    → Run base n_ticks (interrupts base (e_ticks - timer.pit_ticks) timer) (waiting e_ticks) timer
waiting-returns base n_ticks e_ticks timer small fits =
    let k = e_ticks - timer.pit_ticks in
    let last = interrupts base k timer in
    let there : last ≡ after_ticks base k timer =
      interrupts-after_ticks base k timer (omega arith) in
    Run-interrupts base n_ticks last k (waiting e_ticks) timer
      (leave e_ticks last (rw there (omega arith)) (over last refl))
