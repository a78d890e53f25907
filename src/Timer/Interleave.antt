-- ===== src/Timer/Interleave.antt =====
-- `pit_sleep` and the timer's interrupt as two threads (kernel/src/arch/timer/pit.c,
-- kernel/src/arch/interrupts/irq.c): an interrupt may come before and after every step of the sleep.
use mathlib.Core.Path.{subst}
use faceless_os.Base.{
  ℕ, zero, suc, ◌+◌, ◌<◌, ◌≤◌, ◌≡◌, ◌↔◌, refl, List, [], ◌∷◌, some, arith, ltb, Bool-cases, inl,
  inr, true, false,
}
use faceless_os.Machine.Io.{u32}
use faceless_os.Timer.{Timer, irq0, interrupts, wait_loop, pit_sleep}

-- Where the sleeping thread stands: before it computes `e_ticks`, in the loop, or behind it.
pub data Phase : Type 0 where
  entered returned : Phase
  waiting : ℕ → Phase

-- The interleavings that end with the sleep over and the timer in the state `last`, step by step.
pub data Run (base n_ticks : ℕ) (last : Timer) : Phase → Timer → Type 0 where
  over : (timer : Timer) → last ≡ timer → Run base n_ticks last returned timer
  interrupt :
      (phase : Phase) (timer : Timer)
      → Run base n_ticks last phase (irq0 base timer)
      → Run base n_ticks last phase timer
  begin :
      (timer : Timer)
      → Run base n_ticks last (waiting (u32 (timer.pit_ticks + n_ticks))) timer
      → Run base n_ticks last entered timer
  again :
      (e_ticks : ℕ) (timer : Timer)
      → timer.pit_ticks < e_ticks
      → Run base n_ticks last (waiting e_ticks) timer
      → Run base n_ticks last (waiting e_ticks) timer
  leave :
      (e_ticks : ℕ) (timer : Timer)
      → e_ticks ≤ timer.pit_ticks
      → Run base n_ticks last returned timer
      → Run base n_ticks last (waiting e_ticks) timer

-- What a schedule gives, with interrupts before the sleep and behind it.
pub record Scheduled (base n_ticks : ℕ) (first last : Timer) : Type 0 where
  pub before : ℕ
  pub schedule : List ℕ
  pub after : ℕ
  pub woken : Timer
  pub sleeps : pit_sleep base schedule n_ticks (interrupts base before first) ≡ some woken
  pub ends : last ≡ interrupts base after woken

-- The same, from inside the loop.
record Waited (base e_ticks : ℕ) (first last : Timer) : Type 0 where
  head : ℕ
  schedule : List ℕ
  after : ℕ
  woken : Timer
  waits : wait_loop base (head ∷ schedule) e_ticks first ≡ some woken
  ends : last ≡ interrupts base after woken

module _ (base n_ticks : ℕ) (last : Timer) where
  returned-interrupts :
      (timer : Timer)
      → Run base n_ticks last returned timer
      → (k : ℕ) × (last ≡ interrupts base k timer)
  unfolding interrupts
  returned-interrupts timer (over _ e) = (0, e)
  returned-interrupts timer (interrupt _ _ r) =
      let (k, e) = returned-interrupts (irq0 base timer) r in (suc k, e)

  waiting-Waited :
      (e_ticks : ℕ) (timer : Timer)
      → Run base n_ticks last (waiting e_ticks) timer
      → Waited base e_ticks timer last
  unfolding wait_loop interrupts
  waiting-Waited e_ticks timer (interrupt _ _ r) =
      let w = waiting-Waited e_ticks (irq0 base timer) r in
      record {
        head = suc w.head;
        schedule = w.schedule;
        after = w.after;
        woken = w.woken;
        waits = w.waits;
        ends = w.ends;
      }
  waiting-Waited e_ticks timer (again _ _ lt r) =
      let w = waiting-Waited e_ticks timer r in
      let more : ltb timer.pit_ticks e_ticks ≡ true = ground arith in
      record {
        head = 0;
        schedule = w.head ∷ w.schedule;
        after = w.after;
        woken = w.woken;
        waits = rw more w.waits;
        ends = w.ends;
      }
  waiting-Waited e_ticks timer (leave _ _ le r) =
      let (k, e) = returned-interrupts timer r in
      let done : ltb timer.pit_ticks e_ticks ≡ false = ground arith in
      record { head = 0; schedule = []; after = k; woken = timer; waits = rw done refl; ends = e }

  entered-Scheduled :
      (timer : Timer) → Run base n_ticks last entered timer → Scheduled base n_ticks timer last
  unfolding pit_sleep interrupts
  entered-Scheduled timer (interrupt _ _ r) =
      let s = entered-Scheduled (irq0 base timer) r in
      record {
        before = suc s.before;
        schedule = s.schedule;
        after = s.after;
        woken = s.woken;
        sleeps = s.sleeps;
        ends = s.ends;
      }
  entered-Scheduled timer (begin _ r) =
      let w = waiting-Waited (u32 (timer.pit_ticks + n_ticks)) timer r in
      record {
        before = 0;
        schedule = w.head ∷ w.schedule;
        after = w.after;
        woken = w.woken;
        sleeps = w.waits;
        ends = w.ends;
      }

  -- A number of interrupts in front of a run.
  pub Run-interrupts :
      (k : ℕ) (phase : Phase) (timer : Timer)
      → Run base n_ticks last phase (interrupts base k timer)
      → Run base n_ticks last phase timer
  unfolding interrupts
  Run-interrupts zero phase timer r = r
  Run-interrupts (suc k) phase timer r =
      interrupt phase timer (Run-interrupts k phase (irq0 base timer) r)

  wait_loop-Run :
      (schedule : List ℕ) (e_ticks : ℕ) (timer woken : Timer)
      → wait_loop base schedule e_ticks timer ≡ some woken
      → Run base n_ticks last returned woken
      → Run base n_ticks last (waiting e_ticks) timer
  unfolding wait_loop
  wait_loop-Run [] e_ticks timer woken e r = absurd (cc e)
  wait_loop-Run (n ∷ schedule) e_ticks timer woken e r =
      let timer' = interrupts base n timer in
      Run-interrupts n (waiting e_ticks) timer (elim (Bool-cases (ltb timer'.pit_ticks e_ticks)) [
        | inl more ↦
            again e_ticks timer' (ground arith)
              (wait_loop-Run schedule e_ticks timer' woken (rw more at e) r)
        | inr done ↦
            let same : woken ≡ timer' = cc (rw done at e) in
            leave e_ticks timer' (ground arith) (subst (Run base n_ticks last returned) same r)
      ])

  Scheduled-Run :
      (timer : Timer) → Scheduled base n_ticks timer last → Run base n_ticks last entered timer
  unfolding pit_sleep
  Scheduled-Run timer s = Run-interrupts s.before entered timer (
      begin (interrupts base s.before timer) (
        wait_loop-Run s.schedule _ _ s.woken s.sleeps
          (Run-interrupts s.after returned s.woken (over _ s.ends))))

  -- The interleavings of the steps of a sleep with interrupts of the timer, to the end of the
  -- sleep and behind it, lead from one state of the timer to another exactly if some number of
  -- interrupts, `pit_sleep` with some schedule, and again some number of interrupts do.
  pub pit_sleep-Run :
      (first : Timer) → Run base n_ticks last entered first ↔ Scheduled base n_ticks first last
  pit_sleep-Run first = (entered-Scheduled first, Scheduled-Run first)
