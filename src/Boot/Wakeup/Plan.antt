-- ===== src/Boot/Wakeup/Plan.antt =====
-- The interrupts that are sent to start the other processors (kernel/src/arch/cpu/smp.c).
use faceless_os.Base.{
  ℕ, zero, suc, ◌+◌, ◌*◌, ◌/◌, ◌%◌, ◌^◌, ◌<◌, ◌≤◌, ◌≡◌, refl, ap, ◌∙◌, List, [], ◌∷◌, Bool-cases,
  inl, inr, true, false, Option, none, some, arith, bit_and, ◌==◌, if◌then◌else◌,
}
use faceless_os.Machine.Io.{mmio_write, mmio_read, Trace, Device}
use faceless_os.Text.{Bytes}
use faceless_os.Lapic.{
  lapic_id, lapic_eoi, lapic_icrlo, lapic_icrhi, icr_send_pending, lapic_read, lapic_get_id,
}
use faceless_os.Lapic.Send.{
  Ipi, init_ipi, startup_ipi, vector, command_word, issued, lapic_send, polled, sent,
  lapic_send-issued,
}
use faceless_os.Timer.{Timer, pit_sleep}
use faceless_os.Timer.Sleep.{total, acknowledged, after_ticks, pit_sleep-after_ticks}
use faceless_os.Boot.Wakeup.{Run, polling, ◌>=>◌, unless_self}

-- What a trace writes to the registers of the local APIC, but for acknowledgements.
unfoldable pub commands : ℕ → Trace → List (ℕ × ℕ)
commands base [] = []
commands base (mmio_write a v ∷ t) =
    let rest = commands base t in if a == base + lapic_eoi then rest else (a, v) ∷ rest
commands base (_ ∷ t) = commands base t

-- The words of one interrupt, if it is for another processor.
abbrev pub to_other : (base own id : ℕ) → Ipi → List (ℕ × ℕ) → List (ℕ × ℕ)
to_other base own id k rest =
    if id == own
    then rest
    else (base + lapic_icrlo, command_word k) ∷ (base + lapic_icrhi, id * 2 ^ 24) ∷ rest

-- In each round one INIT, and then a startup interrupt for every core; the last one comes first.
module _ (base own : ℕ) (ids : Bytes) where
  unfoldable pub startups : (left i : ℕ) → List (ℕ × ℕ) → List (ℕ × ℕ)
  startups zero i rest = rest
  startups (suc left) i rest =
      startups left (i + 1) (to_other base own (ids i) (startup_ipi 8) rest)

  unfoldable pub plan : (left ncores i : ℕ) → List (ℕ × ℕ) → List (ℕ × ℕ)
  plan zero ncores i rest = rest
  plan (suc left) ncores i rest =
      plan left ncores (i + 1) (startups ncores 0 (to_other base own (ids i) init_ipi rest))

-- The local APIC answers with the id of the processor, and every interrupt is sent at once.
pub record Prompt (dev : Device) (base own : ℕ) : Type 0 where
  pub id : (t : Trace) → dev (mmio_read (base + lapic_id) ∷ t) % 2 ^ 32 / 2 ^ 24 ≡ own
  pub idle :
      (t : Trace) → bit_and (dev (mmio_read (base + lapic_icrlo) ∷ t) % 2 ^ 32) icr_send_pending ≡ 0

-- A run that returns, with these commands in its trace, after at most so many ticks.
pub record Went (base : ℕ) (r : Option Timer) (before : Timer) (ticks : ℕ) (cs : List (ℕ × ℕ))
    : Type 0 where
  pub after : Timer
  pub returns : r ≡ some after
  pub wrote : commands base after.trace ≡ cs
  pub bounded : after.pit_ticks ≤ before.pit_ticks + ticks

acknowledged-commands :
    (base n : ℕ) (t : Trace) → commands base (acknowledged base n t) ≡ commands base t
unfolding acknowledged commands
acknowledged-commands base zero t = refl
acknowledged-commands base (suc n) t =
    let eoi : (base + lapic_eoi == base + lapic_eoi) ≡ true = ground arith in
    acknowledged-commands base n (mmio_write (base + lapic_eoi) 0 ∷ t) ∙ rw eoi refl

pub Went-then :
    (base : ℕ) (m k : Run) {timer : Timer} {t1 t2 : ℕ} {c1 c2 : List (ℕ × ℕ)}
    → Went base (m timer) timer t1 c1
    → ((timer' : Timer)
        → commands base timer'.trace ≡ c1
        → timer'.pit_ticks ≤ timer.pit_ticks + t1
        → Went base (k timer') timer' t2 c2)
    → Went base ((m >=> k) timer) timer (t1 + t2) c2
Went-then base m k w next =
    let w' = next w.after w.wrote w.bounded in
    record {
      after = w'.after;
      returns = ap (λ o. elim o [ none ↦ none | some t ↦ k t ]) w.returns ∙ w'.returns;
      wrote = w'.wrote;
      bounded = omega (arith, w.bounded, w'.bounded);
    }

pub sleep-Went :
    (base : ℕ) (schedule : List ℕ) (timer : Timer)
    → timer.pit_ticks + total schedule < 2 ^ 32
    → 50 ≤ total schedule
    → Went base
        (pit_sleep base schedule 50 timer)
        timer
        (total schedule)
        (commands base timer.trace)
sleep-Went base schedule timer lt le =
    let (k, run, _, few) = pit_sleep-after_ticks base schedule 50 timer lt (omega arith) le in
    record {
      after = after_ticks base k timer;
      returns = run;
      wrote = acknowledged-commands base k timer.trace;
      bounded = omega arith;
    }

module _ (fuel : ℕ) {dev : Device} {base own : ℕ} (prompt : Prompt dev base own)
    (pos : 0 < fuel) where
  polling-Went :
      (k : Ipi) (id : ℕ) (timer : Timer)
      → vector k < 2 ^ 8
      → id < 2 ^ 8
      → Went base (polling (lapic_send fuel dev base id k) timer) timer 0 (
          (base + lapic_icrlo, command_word k)
          ∷ (base + lapic_icrhi, id * 2 ^ 24)
          ∷ commands base timer.trace)
  unfolding commands polled
  polling-Went k id timer v i =
      let low : (base + lapic_icrlo == base + lapic_eoi) ≡ false = ground arith in
      let high : (base + lapic_icrhi == base + lapic_eoi) ≡ false = ground arith in
      let run = lapic_send-issued k fuel {n = 0} {t = timer.trace} v i (sent (prompt.idle _)) pos in
      record {
        after = record timer { trace = polled base 1 (issued base id k timer.trace) };
        returns =
            ap (λ r. elim r.0 [ none ↦ none | some _ ↦ some (record timer { trace = r.1 }) ]) run;
        wrote = rw (low, high) refl;
        bounded = omega arith;
      }

  pub unless_self-Went :
      (ids : Bytes) (schedules : ℕ → List ℕ) (k : Ipi) (id : ℕ) (timer : Timer)
      → vector k < 2 ^ 8
      → id < 2 ^ 8
      → Went base
          (unless_self fuel dev base ids schedules id (lapic_send fuel dev base id k) timer)
          timer
          0
          (to_other base own id k (commands base timer.trace))
  unfolding unless_self lapic_get_id lapic_read commands
  unless_self-Went ids schedules k id timer v i =
      let read : Timer = record timer { trace = mmio_read (base + lapic_id) ∷ timer.trace } in
      elim (Bool-cases (id == own)) [
        | inl e ↦
            rw (prompt.id timer.trace, e)
              (record { after = read; returns = refl; wrote = refl; bounded = omega arith })
        | inr e ↦
            let w = polling-Went k id read v i in
            rw (prompt.id timer.trace, e)
              (record {
                after = w.after;
                returns = w.returns;
                wrote = w.wrote;
                bounded = w.bounded;
              })
      ]
