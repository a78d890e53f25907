-- ===== src/Boot/Wakeup/Rounds.antt =====
-- The rounds of `cpu_wakeup_cores` (kernel/src/arch/cpu/smp.c).
use mathlib.Core.Path.{subst}
use native.Mathlib.Nat.{suc-mul}
use faceless_os.Base.{ℕ, zero, suc, ◌+◌, ◌*◌, ◌^◌, ◌<◌, ◌≤◌, ◌≡◌, refl, ◌∙◌, List, [], ◌∷◌, arith}
use faceless_os.Machine.Io.{log_call, Device}
use faceless_os.Text.{Bytes}
use faceless_os.Lapic.Send.{Ipi, init_ipi, startup_ipi, lapic_send}
use faceless_os.Timer.{Timer, pit_sleep}
use faceless_os.Timer.Sleep.{total}
use faceless_os.Boot.Wakeup.{
  Run, ◌>=>◌, unless_self, startup_loop, wakeup_round, wakeup_loop, cpu_wakeup_cores,
}
use faceless_os.Boot.Wakeup.Plan.{
  commands, to_other, startups, plan, Prompt, Went, Went-then, sleep-Went, unless_self-Went,
}

module _ (fuel : ℕ) {dev : Device} {base own : ℕ} (prompt : Prompt dev base own)
    (pos : 0 < fuel) where
  module _ (ids : Bytes) (schedules : ℕ → List ℕ) (small : (i : ℕ) → ids i < 2 ^ 8) where
    abbrev other : ℕ → Ipi → Run
    other id k = unless_self fuel dev base ids schedules id (lapic_send fuel dev base id k)

    abbrev starts : ℕ → ℕ → Run
    starts = startup_loop fuel dev base ids schedules

    abbrev nap : ℕ → Run
    nap j = pit_sleep base (schedules j) 50

    startup_loop-Went :
        (left i : ℕ) (timer : Timer)
        → Went base
            (starts left i timer)
            timer
            0
            (startups base own ids left i (commands base timer.trace))
    unfolding startup_loop startups
    startup_loop-Went zero i timer = record {
      after = timer;
      returns = refl;
      wrote = refl;
      bounded = omega arith;
    }
    startup_loop-Went (suc left) i timer =
        Went-then base (other (ids i) (startup_ipi 8)) (starts left (i + 1)) {timer = timer}
          (unless_self-Went fuel prompt pos ids schedules (startup_ipi 8) (ids i) timer
            (omega arith) (small i))
          (λ timer' e _.
            subst
              (λ c.
                Went base (starts left (i + 1) timer') timer' 0
                  (startups base own ids left (i + 1) c))
              e (startup_loop-Went left (i + 1) timer'))

    module _ (most : ℕ) (long : (j : ℕ) → 50 ≤ total (schedules j))
        (short : (j : ℕ) → total (schedules j) ≤ most) where
      nap-Went :
          (j : ℕ) (timer : Timer) {c : List (ℕ × ℕ)}
          → commands base timer.trace ≡ c
          → timer.pit_ticks + most < 2 ^ 32
          → Went base (nap j timer) timer most c
      nap-Went j timer e lt =
          let w = sleep-Went base (schedules j) timer (omega (arith, short j)) (long j) in
          record {
            after = w.after;
            returns = w.returns;
            wrote = w.wrote ∙ e;
            bounded = omega (arith, w.bounded, short j);
          }

      wakeup_round-Went :
          (ncores i : ℕ) (timer : Timer)
          → timer.pit_ticks + 2 * most < 2 ^ 32
          → Went base
              (wakeup_round fuel dev base ids schedules ncores i timer)
              timer
              (0 + most + 0 + most)
              (startups base own ids ncores 0
                (to_other base own (ids i) init_ipi (commands base timer.trace)))
      unfolding wakeup_round
      wakeup_round-Went ncores i timer lt =
          Went-then base (other (ids i) init_ipi >=> nap (2 * i) >=> starts ncores 0)
            (nap (2 * i + 1)) {timer = timer}
            (Went-then base (other (ids i) init_ipi >=> nap (2 * i)) (starts ncores 0)
              {timer = timer}
              (Went-then base (other (ids i) init_ipi) (nap (2 * i)) {timer = timer}
                (unless_self-Went fuel prompt pos ids schedules init_ipi (ids i) timer (omega arith)
                  (small i))
                (λ timer' e le. nap-Went (2 * i) timer' e (omega arith)))
              (λ timer' e le.
                subst
                  (λ c.
                    Went base (starts ncores 0 timer') timer' 0 (startups base own ids ncores 0 c))
                  e (startup_loop-Went ncores 0 timer')))
            (λ timer' e le. nap-Went (2 * i + 1) timer' e (omega arith))

      wakeup_loop-Went :
          (left ncores i : ℕ) (timer : Timer)
          → timer.pit_ticks + left * (2 * most) < 2 ^ 32
          → Went base
              (wakeup_loop fuel dev base ids schedules left ncores i timer)
              timer
              (left * (2 * most))
              (plan base own ids left ncores i (commands base timer.trace))
      unfolding wakeup_loop plan
      wakeup_loop-Went zero ncores i timer lt = record {
        after = timer;
        returns = refl;
        wrote = refl;
        bounded = omega arith;
      }
      wakeup_loop-Went (suc left) ncores i timer lt =
          let w =
            Went-then base (wakeup_round fuel dev base ids schedules ncores i)
              (wakeup_loop fuel dev base ids schedules left ncores (i + 1)) {timer = timer}
              (wakeup_round-Went ncores i timer (fits left timer.pit_ticks lt))
              (λ timer' e le.
                subst
                  (λ c.
                    Went base (wakeup_loop fuel dev base ids schedules left ncores (i + 1) timer')
                      timer' (left * (2 * most)) (plan base own ids left ncores (i + 1) c))
                  e
                  (wakeup_loop-Went left ncores (i + 1) timer'
                    (rest left timer.pit_ticks timer'.pit_ticks lt le))) in
          record {
            after = w.after;
            returns = w.returns;
            wrote = w.wrote;
            bounded = ends left timer.pit_ticks w.after.pit_ticks w.bounded;
          }
        where
          fits : (left n : ℕ) → n + suc left * (2 * most) < 2 ^ 32 → n + 2 * most < 2 ^ 32
          fits left n lt = omega (arith, suc-mul left (2 * most))

          rest :
              (left n n' : ℕ)
              → n + suc left * (2 * most) < 2 ^ 32
              → n' ≤ n + (0 + most + 0 + most)
              → n' + left * (2 * most) < 2 ^ 32
          rest left n n' lt le = omega (arith, suc-mul left (2 * most))

          ends :
              (left n n' : ℕ)
              → n' ≤ n + (0 + most + 0 + most + left * (2 * most))
              → n' ≤ n + suc left * (2 * most)
          ends left n n' le = omega (arith, suc-mul left (2 * most))

      -- With a local APIC that answers with the id of the processor and sends every interrupt at
      -- once, ids of 8 bits, and sleeps of at least 50 and at most `most` ticks whose sum stays
      -- below 2 ^ 32, `cpu_wakeup_cores` returns. What it has written to the local APIC, but for
      -- acknowledgements, is one INIT in each round and then a startup interrupt for every core,
      -- none of them for the id of the processor itself.
      pub cpu_wakeup_cores-Went :
          (ncores : ℕ) (timer : Timer)
          → timer.pit_ticks + ncores * (2 * most) < 2 ^ 32
          → Went base
              (cpu_wakeup_cores fuel dev base ids schedules ncores timer)
              timer
              (ncores * (2 * most))
              (plan base own ids ncores ncores 0 (commands base timer.trace))
      unfolding cpu_wakeup_cores commands
      cpu_wakeup_cores-Went ncores timer lt =
          let w =
            wakeup_loop-Went ncores ncores 0
              (record timer {
                trace =
                    log_call "WAKE UP CORES!!!!!!!\n" []
                    ∷ log_call "Waking up all cores.\n" []
                    ∷ timer.trace;
              })
              lt in
          record { after = w.after; returns = w.returns; wrote = w.wrote; bounded = w.bounded }
