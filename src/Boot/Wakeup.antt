-- ===== src/Boot/Wakeup.antt =====
-- The start of the other processors: `cpu_wakeup_cores` of kernel/src/arch/cpu/smp.c. A run may end
-- without a result: `none` stands for a poll or a sleep that does not end in its fuel or schedule.
pub mod Plan
pub mod Rounds
use faceless_os.Base.{ℕ, zero, suc, ◌+◌, ◌*◌, List, [], Option, none, some, ◌==◌, if◌then◌else◌}
use faceless_os.Machine.Io.{Device, Trace, Io, log}
use faceless_os.Text.{Bytes}
use faceless_os.Lapic.{lapic_get_id, lapic_send_init, lapic_send_startup}
use faceless_os.Timer.{Timer, pit_sleep}

-- What a processor does to the tick count and the trace.
abbrev pub Run : Type 0
Run = Timer → Option Timer

infixl 5 ◌>=>◌
abbrev pub ◌>=>◌ : Run → Run → Run
(m >=> k) timer = elim (m timer) [ none ↦ none | some timer' ↦ k timer' ]

abbrev pub skip : Run
skip timer = some timer

abbrev pub output : Io (Unit {0}) → Run
output m timer = some (record timer { trace = (m timer.trace).1 })

abbrev pub polling : Io (Option (Unit {0})) → Run
polling m timer =
    let (done, trace') = m timer.trace in
    elim done [ none ↦ none | some _ ↦ some (record timer { trace = trace' }) ]

abbrev pub with_id : Io ℕ → (ℕ → Run) → Run
with_id m k timer = let (id, trace') = m timer.trace in k id (record timer { trace = trace' })

-- `base` is `local_apic_addr`, `ids` is `acpi_cpuids`, and `schedules` has the timer interrupts of
-- each sleep.
module _ (fuel : ℕ) (dev : Device) (base : ℕ) (ids : Bytes) (schedules : ℕ → List ℕ) where
  -- `if (apic_id != lapic_get_id())` around a send.
  unfoldable pub unless_self : (apic_id : ℕ) → Io (Option (Unit {0})) → Run
  unless_self apic_id send =
      with_id (lapic_get_id dev base) (λ own. if apic_id == own then skip else polling send)

  -- The inner loop, from `i` on with `left` rounds to go.
  unfoldable pub startup_loop : (left i : ℕ) → Run
  startup_loop zero i = skip
  startup_loop (suc left) i =
      unless_self (ids i) (lapic_send_startup fuel dev base (ids i) 0x8)
      >=> startup_loop left (i + 1)

  unfoldable pub wakeup_round : (ncores i : ℕ) → Run
  wakeup_round ncores i =
      unless_self (ids i) (lapic_send_init fuel dev base (ids i))
      >=> pit_sleep base (schedules (2 * i)) 50
      >=> startup_loop ncores 0
      >=> pit_sleep base (schedules (2 * i + 1)) 50

  unfoldable pub wakeup_loop : (left ncores i : ℕ) → Run
  wakeup_loop zero ncores i = skip
  wakeup_loop (suc left) ncores i = wakeup_round ncores i >=> wakeup_loop left ncores (i + 1)

  unfoldable pub cpu_wakeup_cores : ℕ → Run
  cpu_wakeup_cores ncores =
      output (log "Waking up all cores.\n" [])
      >=> output (log "WAKE UP CORES!!!!!!!\n" [])
      >=> wakeup_loop ncores ncores 0
