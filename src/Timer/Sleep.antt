-- ===== src/Timer/Sleep.antt =====
-- Sleeping and waking (kernel/src/arch/timer/pit.c, kernel/src/arch/interrupts/irq.c).
use faceless_os.Base.{
  ℕ, zero, suc, ◌+◌, ◌^◌, ◌<◌, ◌≤◌, ◌≡◌, refl, ap, List, [], ◌∷◌, some, arith, ltb, Bool-cases, inl,
  inr, ◌∙◌,
}
use faceless_os.Machine.Io.{mmio_write, Trace, u32}
use faceless_os.Lapic.{lapic_eoi, lapic_write, lapic_send_eoi}
use faceless_os.Timer.{Timer, irq0, interrupts, wait_loop, pit_sleep}

-- The ticks of a schedule.
abbrev pub total : List ℕ → ℕ
total [] = 0
total (n ∷ schedule) = n + total schedule

-- The trace after `n` acknowledged interrupts.
unfoldable pub acknowledged : (base n : ℕ) → Trace → Trace
acknowledged base zero t = t
acknowledged base (suc n) t = acknowledged base n (mmio_write (base + lapic_eoi) 0 ∷ t)

abbrev pub after_ticks : (base n : ℕ) → Timer → Timer
after_ticks base n timer = record {
  pit_ticks = timer.pit_ticks + n;
  trace = acknowledged base n (timer.trace);
}

pub interrupts-after_ticks :
    (base n : ℕ) (timer : Timer)
    → timer.pit_ticks + n < 2 ^ 32
    → interrupts base n timer ≡ after_ticks base n timer
unfolding irq0 interrupts acknowledged lapic_send_eoi lapic_write
interrupts-after_ticks base zero timer lt = ap (λ n. record timer { pit_ticks = n }) (omega arith)
interrupts-after_ticks base (suc n) timer lt =
    rw (interrupts-after_ticks base n (irq0 base timer) (omega arith)) (ground arith)

step :
    (base m k : ℕ) (t : Trace)
    → k ≡ suc m
    → acknowledged base m (mmio_write (base + lapic_eoi) 0 ∷ t) ≡ acknowledged base k t
unfolding acknowledged
step base m k t e = rw e refl

acknowledged_add :
    (base m n : ℕ) (t : Trace)
    → acknowledged base n (acknowledged base m t) ≡ acknowledged base (m + n) t
unfolding acknowledged
acknowledged_add base zero n t = ap (λ k. acknowledged base k t) {x = n} {y = 0 + n} (omega arith)
acknowledged_add base (suc m) n t =
    rw (acknowledged_add base m n (mmio_write (base + lapic_eoi) 0 ∷ t))
      (step base (m + n) (suc m + n) t (omega arith))

pub wait_loop-after_ticks :
    (base : ℕ) (schedule : List ℕ) (e_ticks : ℕ) (timer : Timer)
    → timer.pit_ticks + total schedule < 2 ^ 32
    → timer.pit_ticks < e_ticks
    → e_ticks ≤ timer.pit_ticks + total schedule
    → (k : ℕ) × (wait_loop base schedule e_ticks timer ≡ some (after_ticks base k timer))
      × (e_ticks ≤ timer.pit_ticks + k)
      × (k ≤ total schedule)
unfolding wait_loop
wait_loop-after_ticks base [] e_ticks timer lt near le =
    let bad : 0 < 0 = omega arith in elim bad [ ]
wait_loop-after_ticks base (n ∷ schedule) e_ticks timer lt near le =
    rw (interrupts-after_ticks base n timer (omega arith))
      (elim (Bool-cases (ltb (timer.pit_ticks + n) e_ticks)) [
        | inl e ↦
            let (k, run, far, few) =
              wait_loop-after_ticks base schedule e_ticks (after_ticks base n timer) (omega arith)
                (ground arith) (omega arith) in
            (
              n + k,
              rw e (
                  run
                  ∙ ap (λ t. some (record { pit_ticks = timer.pit_ticks + n + k; trace = t }))
                      (acknowledged_add base n k (timer.trace))
                  ∙ ap (λ m. some (record (after_ticks base (n + k) timer) { pit_ticks = m }))
                      (omega arith)),
              omega arith,
              omega arith,
            )
        | inr e ↦ (n, rw e refl, ground arith, omega arith)
      ])

slept :
    (base : ℕ) (schedule : List ℕ) (n_ticks : ℕ) (timer : Timer) (e_ticks : ℕ)
    → e_ticks ≡ timer.pit_ticks + n_ticks
    → timer.pit_ticks + total schedule < 2 ^ 32
    → 0 < n_ticks
    → n_ticks ≤ total schedule
    → (k : ℕ) × (wait_loop base schedule e_ticks timer ≡ some (after_ticks base k timer))
      × (n_ticks ≤ k)
      × (k ≤ total schedule)
slept base schedule n_ticks timer e_ticks e lt pos le =
    let (k, run, far, few) =
      wait_loop-after_ticks base schedule e_ticks timer lt (omega arith) (omega arith) in
    (k, run, omega arith, omega arith)

-- For a positive number of ticks, no more than the schedule has, and a tick count that stays
-- below 2 ^ 32, `pit_sleep` returns. At least the ticks that were asked for have passed then, and
-- no more than the schedule has; the count has gone up by as many as passed, and each of their
-- interrupts was acknowledged.
pub pit_sleep-after_ticks :
    (base : ℕ) (schedule : List ℕ) (n_ticks : ℕ) (timer : Timer)
    → timer.pit_ticks + total schedule < 2 ^ 32
    → 0 < n_ticks
    → n_ticks ≤ total schedule
    → (k : ℕ) × (pit_sleep base schedule n_ticks timer ≡ some (after_ticks base k timer))
      × (n_ticks ≤ k)
      × (k ≤ total schedule)
unfolding pit_sleep
pit_sleep-after_ticks base schedule n_ticks timer lt pos le =
    slept base schedule n_ticks timer (u32 (timer.pit_ticks + n_ticks)) (omega arith) lt pos le

-- Where the tick count and the ticks that are asked for, each below 2 ^ 32, reach 2 ^ 32
-- together, a first read with no interrupt before it ends the sleep, and no tick has passed.
pub pit_sleep-wrapped :
    (base : ℕ) (schedule : List ℕ) (n_ticks : ℕ) (timer : Timer)
    → timer.pit_ticks < 2 ^ 32
    → n_ticks < 2 ^ 32
    → 2 ^ 32 ≤ timer.pit_ticks + n_ticks
    → pit_sleep base (0 ∷ schedule) n_ticks timer ≡ some timer
unfolding pit_sleep wait_loop interrupts
pit_sleep-wrapped base schedule n_ticks timer lt small wraps = ground arith
