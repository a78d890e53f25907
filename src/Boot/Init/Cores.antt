-- ===== src/Boot/Init/Cores.antt =====
-- What the start of the other processors in `init` (kernel/src/kernel.c) leaves unseen, the timer
-- interrupts that come in it included: it reads, logs, and writes to the local APIC.
use faceless_os.Base.{
  bit_and, ℕ, zero, suc, ◌+◌, ◌*◌, ◌≡◌, refl, List, [], ◌∷◌, Bool-cases, inl, inr, Option, none,
  some, ◌==◌, ltb, ◌<◌, arith, ◌∙◌, ap, sym,
}
use Prim.Native.String.{String}
use faceless_os.Machine.Io.{Arg, mmio_read, mmio_write, log_call, Device, Trace, Io}
use faceless_os.Text.{Bytes}
use faceless_os.Lapic.{
  lapic_icrlo, lapic_icrhi, icr_send_pending, lapic_read, lapic_write, lapic_get_id, lapic_send_eoi,
  poll_loop, lapic_send_init, lapic_send_startup,
}
use faceless_os.Timer.{Timer, irq0, interrupts, wait_loop, pit_sleep}
use faceless_os.Boot.Wakeup.{
  Run, ◌>=>◌, skip, output, polling, unless_self, startup_loop, wakeup_round, wakeup_loop,
  cpu_wakeup_cores,
}

-- A view of the trace in which reads, logs, and writes to the registers of the local APIC at `base`
-- leave nothing.
pub record Blind {X : Type 0} (see : Trace → X) (base : ℕ) : Type 0 where
  pub read : (a : ℕ) (t : Trace) → see (mmio_read a ∷ t) ≡ see t
  pub wrote : (reg v : ℕ) (t : Trace) → reg < 0x400 → see (mmio_write (base + reg) v ∷ t) ≡ see t
  pub logged : (fmt : String) (args : List Arg) (t : Trace) → see (log_call fmt args ∷ t) ≡ see t

module _ {X : Type 0} (see : Trace → X) (base : ℕ) (blind : Blind see base) where
  -- An operation that leaves nothing in the view.
  pub record Unseen {A : Type 0} (m : Io A) : Type 0 where
    pub at : (t : Trace) → see (m t).1 ≡ see t

  -- A run that leaves nothing in the view, where it ends.
  pub record UnseenRun (m : Run) : Type 0 where
    pub at : (timer timer' : Timer) → m timer ≡ some timer' → see timer'.trace ≡ see timer.trace

  same_timer : (a b : Timer) → some a ≡ some b → see b.trace ≡ see a.trace
  same_timer a b e = ap (λ o. elim o [ none ↦ see a.trace | some x ↦ see x.trace ]) (sym e)

  irq0-Unseen : (timer : Timer) → see (irq0 base timer).trace ≡ see timer.trace
  unfolding irq0 lapic_send_eoi lapic_write
  irq0-Unseen timer = blind.wrote _ 0 timer.trace (omega arith)

  interrupts-Unseen :
      (n : ℕ) (timer : Timer) → see (interrupts base n timer).trace ≡ see timer.trace
  unfolding interrupts
  interrupts-Unseen zero timer = refl
  interrupts-Unseen (suc n) timer = interrupts-Unseen n (irq0 base timer) ∙ irq0-Unseen timer

  wait_loop-Unseen : (schedule : List ℕ) (e_ticks : ℕ) → UnseenRun (wait_loop base schedule e_ticks)
  unfolding wait_loop
  wait_loop-Unseen [] e_ticks = record { at = λ timer timer' e. absurd (cc e) }
  wait_loop-Unseen (n ∷ schedule) e_ticks = record {
    at = λ timer timer' e. elim (Bool-cases (ltb ((interrupts base n timer).pit_ticks) e_ticks)) [
      | inl b ↦
          (wait_loop-Unseen schedule e_ticks).at (interrupts base n timer) timer' (rw b at e)
          ∙ interrupts-Unseen n timer
      | inr b ↦ same_timer (interrupts base n timer) timer' (rw b at e) ∙ interrupts-Unseen n timer
    ];
  }

  pit_sleep-Unseen : (schedule : List ℕ) (n : ℕ) → UnseenRun (pit_sleep base schedule n)
  unfolding pit_sleep
  pit_sleep-Unseen schedule n = record {
    at = λ timer timer' e. (wait_loop-Unseen schedule _).at timer timer' e;
  }

  skip-Unseen : UnseenRun skip
  skip-Unseen = record { at = same_timer }

  -- A result that comes from a chain.
  chained :
      {A : Type 0} (o : Option A) (k : A → Option Timer) (timer : Timer)
      → (elim o [ none ↦ none | some a ↦ k a ]) ≡ some timer
      → (a : A) × (o ≡ some a) × (k a ≡ some timer)
  chained none k timer e = absurd (cc e)
  chained (some a) k timer e = (a, refl, e)

  then-Unseen : (m k : Run) → UnseenRun m → UnseenRun k → UnseenRun (m >=> k)
  then-Unseen m k qm qk = record {
    at = λ timer timer' e.
        let (mid, r, rest) = chained (m timer) k timer' e in
        qk.at mid timer' rest ∙ qm.at timer mid r;
  }

  output-Unseen : (m : Io (Unit {0})) → Unseen m → UnseenRun (output m)
  output-Unseen m q = record {
    at = λ timer timer' e.
        same_timer (record timer { trace = (m timer.trace).1 }) timer' e ∙ q.at timer.trace;
  }

  polling-Unseen : (m : Io (Option (Unit {0}))) → Unseen m → UnseenRun (polling m)
  polling-Unseen m q = record {
    at = λ timer timer' e.
        let after : Timer = record timer { trace = (m timer.trace).1 } in
        let (_, _, rest) = chained (m timer.trace).0 (λ _. some after) timer' e in
        same_timer after timer' rest ∙ q.at timer.trace;
  }

  poll_loop-Unseen : (fuel : ℕ) (dev : Device) → Unseen (poll_loop fuel dev base)
  unfolding poll_loop lapic_read
  poll_loop-Unseen zero dev = record { at = λ t. refl }
  poll_loop-Unseen (suc fuel) dev = record {
    at = λ t.
        let status = (lapic_read dev base lapic_icrlo t).0 in
        elim (Bool-cases (bit_and status icr_send_pending == 0)) [
          | inl e ↦ rw e (blind.read _ t)
          | inr e ↦ rw e (
              (poll_loop-Unseen fuel dev).at (lapic_read dev base lapic_icrlo t).1 ∙ blind.read _ t)
        ];
  }

  sent-Unseen :
      (high low : ℕ) (t : Trace)
      → see (
          log_call "\u{1b}[0;32mICR send pending..\n" []
          ∷ mmio_write (base + lapic_icrlo) low
          ∷ mmio_write (base + lapic_icrhi) high
          ∷ t)
        ≡ see t
  sent-Unseen high low t =
      blind.logged _ [] _
      ∙ blind.wrote lapic_icrlo low _ (omega arith)
      ∙ blind.wrote lapic_icrhi high t (omega arith)

  lapic_send_init-Unseen :
      (fuel : ℕ) (dev : Device) (id : ℕ) → Unseen (lapic_send_init fuel dev base id)
  unfolding lapic_send_init lapic_write
  lapic_send_init-Unseen fuel dev id = record {
    at = λ t. (poll_loop-Unseen fuel dev).at _ ∙ sent-Unseen _ _ t;
  }

  lapic_send_startup-Unseen :
      (fuel : ℕ) (dev : Device) (id vector : ℕ)
      → Unseen (lapic_send_startup fuel dev base id vector)
  unfolding lapic_send_startup lapic_write
  lapic_send_startup-Unseen fuel dev id vector = record {
    at = λ t. (poll_loop-Unseen fuel dev).at _ ∙ sent-Unseen _ _ t;
  }

  module _ (fuel : ℕ) (dev : Device) (ids : Bytes) (schedules : ℕ → List ℕ) where
    unless_self-Unseen :
        (apic_id : ℕ) (send : Io (Option (Unit {0})))
        → Unseen send
        → UnseenRun (unless_self fuel dev base ids schedules apic_id send)
    unfolding unless_self lapic_get_id lapic_read
    unless_self-Unseen apic_id send q = record {
      at = λ timer timer' e. elim (Bool-cases (apic_id == (lapic_get_id dev base timer.trace).0)) [
        | inl own ↦
            skip-Unseen.at (record timer { trace = (lapic_get_id dev base timer.trace).1 }) timer'
              (rw own at e)
            ∙ blind.read _ timer.trace
        | inr other ↦
            (polling-Unseen send q).at
              (record timer { trace = (lapic_get_id dev base timer.trace).1 }) timer'
              (rw other at e)
            ∙ blind.read _ timer.trace
      ];
    }

    startup_loop-Unseen : (left i : ℕ) → UnseenRun (startup_loop fuel dev base ids schedules left i)
    unfolding startup_loop
    startup_loop-Unseen zero i = skip-Unseen
    startup_loop-Unseen (suc left) i =
        then-Unseen _ _
          (unless_self-Unseen (ids i) _ (lapic_send_startup-Unseen fuel dev (ids i) 0x8))
          (startup_loop-Unseen left (i + 1))

    wakeup_round-Unseen :
        (ncores i : ℕ) → UnseenRun (wakeup_round fuel dev base ids schedules ncores i)
    unfolding wakeup_round
    wakeup_round-Unseen ncores i =
        then-Unseen _ _
          (then-Unseen _ _
            (then-Unseen _ _
              (unless_self-Unseen (ids i) _ (lapic_send_init-Unseen fuel dev (ids i)))
              (pit_sleep-Unseen (schedules (2 * i)) 50))
            (startup_loop-Unseen ncores 0))
          (pit_sleep-Unseen (schedules (2 * i + 1)) 50)

    wakeup_loop-Unseen :
        (left ncores i : ℕ) → UnseenRun (wakeup_loop fuel dev base ids schedules left ncores i)
    unfolding wakeup_loop
    wakeup_loop-Unseen zero ncores i = skip-Unseen
    wakeup_loop-Unseen (suc left) ncores i =
        then-Unseen _ _ (wakeup_round-Unseen ncores i) (wakeup_loop-Unseen left ncores (i + 1))

    pub cpu_wakeup_cores-Unseen :
        (ncores : ℕ) → UnseenRun (cpu_wakeup_cores fuel dev base ids schedules ncores)
    unfolding cpu_wakeup_cores
    cpu_wakeup_cores-Unseen ncores =
        then-Unseen _ _
          (then-Unseen _ _ (output-Unseen _ (record { at = blind.logged _ [] }))
            (output-Unseen _ (record { at = blind.logged _ [] })))
          (wakeup_loop-Unseen ncores ncores 0)
