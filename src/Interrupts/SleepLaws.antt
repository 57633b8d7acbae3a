-- ===== src/Interrupts/SleepLaws.antt =====
-- The loops of kernel/src/drivers/timer.c come to an end.
use night.Base.{
  ℕ, ◌+◌, ◌-◌, ◌*◌, ◌/◌, ◌^◌, ◌≤◌, ◌<◌, ◌≡◌, ◌≢◌, refl, ap, sym, ◌∙◌, Bool, true, false, not,
  Option, none, some, List, [], ◌∷◌, ltb, leb, ◌==◌, if◌then◌else◌, arith, Bool-cases, inl, inr,
}
use night.Libk.Arith.{u32}
use night.Interrupts.Machine.{
  Machine, Handler, timer_handler, keyboard_handler, timer_tick, keyboard_press,
}
use night.Interrupts.Irq.{irq_handler, run_handler, end_of_interrupt, timer_tick_lem}
use night.Interrupts.Sleep.{Event, test, interrupt, awake, wait_until, sleep, sleep_p}

-- The interrupts of the timer among the events.
unfoldable pub timers : List Event → ℕ
timers [] = 0
timers (test ∷ es) = timers es
timers (interrupt int_no scancode ∷ es) = (if int_no == 32 then 1 else 0) + timers es

-- Between two interrupts of the timer the loop tests its condition; `tested` says whether it has
-- since the last one.
abbrev pub IsFair : (tested : Bool) → List Event → Type 0
IsFair tested [] = Unit {0}
IsFair tested (test ∷ es) = IsFair true es
IsFair tested (interrupt int_no scancode ∷ es) =
    (32 ≤ int_no)
    × (int_no < 48)
    × (int_no ≡ 32 → tested ≡ true)
    × IsFair (if int_no == 32 then false else tested) es

-- The timer is installed where it belongs and nowhere else, and has counted the seconds.
pub record IsTimed (m : Machine) : Type 0 where
  pub timer : m.irq_routines 0 ≡ some timer_handler
  pub only : (k : ℕ) → 0 < k → m.irq_routines k ≢ some timer_handler
  pub counted : m.secs ≡ m.timer_ticks / 18

-- One interrupt.
pub record Handled (int_no : ℕ) (m q : Machine) : Type 0 where
  pub timed : IsTimed q
  pub ticks : q.timer_ticks ≡ m.timer_ticks + (if int_no == 32 then 1 else 0)

-- `q` counts and dispatches as `t` does.
record SameTimer (t q : Machine) : Type 0 where
  ticks : q.timer_ticks ≡ t.timer_ticks
  secs : q.secs ≡ t.secs
  routines : q.irq_routines ≡ t.irq_routines

end_of_interrupt-SameTimer : (int_no : ℕ) (t : Machine) → SameTimer t (end_of_interrupt int_no t)
unfolding end_of_interrupt
end_of_interrupt-SameTimer int_no t = record {
  ticks = ground arith;
  secs = ground arith;
  routines = ground arith;
}

run_handler-other :
    (h : Option Handler) (scancode : ℕ) (m : Machine)
    → h ≢ some timer_handler
    → SameTimer m (run_handler scancode h m)
unfolding run_handler keyboard_press
run_handler-other none scancode m ne = record { ticks = refl; secs = refl; routines = refl }
run_handler-other (some timer_handler) scancode m ne = absurd (ne refl)
run_handler-other (some keyboard_handler) scancode m ne = record {
  ticks = ground arith;
  secs = ground arith;
  routines = ground arith;
}

IsTimed-SameTimer : {t q : Machine} → SameTimer t q → IsTimed t → IsTimed q
IsTimed-SameTimer r h = record {
  timer = ap (λ f. f 0) r.routines ∙ h.timer;
  only = λ k lt e. h.only k lt (sym (ap (λ f. f k) r.routines) ∙ e);
  counted = omega (arith, r.ticks, r.secs, h.counted);
}

timer_tick-routines : (m : Machine) → (timer_tick m).irq_routines ≡ m.irq_routines
unfolding timer_tick
timer_tick-routines m = refl

timer_tick-IsTimed : (m : Machine) → m.timer_ticks + 1 < 2 ^ 31 → IsTimed m → IsTimed (timer_tick m)
timer_tick-IsTimed m small h =
    let (ticks, secs) = timer_tick_lem m small h.counted in
    let same = timer_tick-routines m in
    record {
      timer = ap (λ f. f 0) same ∙ h.timer;
      only = λ k lt e. h.only k lt (sym (ap (λ f. f k) same) ∙ e);
      counted = omega (arith, ticks, secs);
    }

run_handler-Handled :
    (int_no scancode : ℕ) (m : Machine)
    → 32 ≤ int_no
    → m.timer_ticks + (if int_no == 32 then 1 else 0) < 2 ^ 31
    → IsTimed m
    → Handled int_no m (run_handler scancode (m.irq_routines (int_no - 32)) m)
unfolding run_handler
run_handler-Handled int_no scancode m lo small h = elim (Bool-cases (int_no == 32)) [
  | inl y ↦
      let first : m.irq_routines (int_no - 32) ≡ some timer_handler =
        ap m.irq_routines (ground arith) ∙ h.timer in
      let one : m.timer_ticks + 1 < 2 ^ 31 = ground (arith, small) in
      rw first (record {
        timed = timer_tick-IsTimed m one h;
        ticks = rw y (timer_tick_lem m one h.counted).0;
      })
  | inr y ↦
      let other : m.irq_routines (int_no - 32) ≢ some timer_handler =
        h.only (int_no - 32) (ground (arith, lo)) in
      let same = run_handler-other (m.irq_routines (int_no - 32)) scancode m other in
      record { timed = IsTimed-SameTimer same h; ticks = rw y (same.ticks ∙ omega arith) }
]

irq_handler-Handled :
    (int_no scancode : ℕ) (m : Machine)
    → 32 ≤ int_no
    → int_no < 48
    → m.timer_ticks + (if int_no == 32 then 1 else 0) < 2 ^ 31
    → IsTimed m
    → (q : Machine) × (irq_handler int_no scancode m ≡ some q) × Handled int_no m q
unfolding irq_handler
irq_handler-Handled int_no scancode m lo hi small h =
    let t = run_handler scancode (m.irq_routines (int_no - 32)) m in
    let same = end_of_interrupt-SameTimer int_no t in
    let r = run_handler-Handled int_no scancode m lo small h in
    (
      end_of_interrupt int_no t,
      ground arith,
      record { timed = IsTimed-SameTimer same r.timed; ticks = same.ticks ∙ r.ticks },
    )

-- The loop ends at the tick `bound`, which is ahead, when its condition holds from there on.
module _ (stop : Machine → Bool) (bound : ℕ) where
  wait_until-awake :
      (es : List Event) (tested : Bool) (m : Machine)
      → ((q : Machine) → IsTimed q → q.timer_ticks ≤ bound → stop q ≡ leb bound q.timer_ticks)
      → IsTimed m
      → IsFair tested es
      → m.timer_ticks ≤ bound
      → (tested ≡ true → m.timer_ticks < bound)
      → bound < m.timer_ticks + timers es
      → m.timer_ticks + timers es < 2 ^ 31
      → (rest : List Event) × (q : Machine) × (wait_until stop es m ≡ some (awake rest q))
        × IsTimed q
        × (q.timer_ticks ≡ bound)
  unfolding wait_until timers
  wait_until-awake [] tested m ends timed fair le lt enough small =
      absurd (omega (arith, le, enough))
  wait_until-awake (test ∷ es) tested m ends timed fair le lt enough small =
      elim (Bool-cases (leb bound m.timer_ticks)) [
        | inl y ↦ (es, m, rw (ends m timed le ∙ y) refl, timed, ground (arith, le))
        | inr y ↦
            let (rest, q, e, timed', end) =
              wait_until-awake es true m ends timed fair le (λ k. ground arith) enough small in
            (rest, q, rw (ends m timed le ∙ y) e, timed', end)
      ]
  wait_until-awake (interrupt int_no scancode ∷ es) tested m ends timed (lo, hi, ready, fair) le lt
        enough small =
      let (q, e, h) = irq_handler-Handled int_no scancode m lo hi (omega (arith, small)) timed in
      let (rest, t, e', timed', end) =
        wait_until-awake es (if int_no == 32 then false else tested) q ends h.timed fair
          (ground (arith, le, h.ticks, lt, ready)) (ground (arith, le, h.ticks, lt, ready))
          (omega (arith, enough, h.ticks)) (omega (arith, small, h.ticks)) in
      (rest, t, rw e e', timed', end)

-- With the timer installed and `secs` the number of ticks over 18, a sleep of at least one second
-- returns, for any interrupts that come meanwhile, if the loop tests its condition between two
-- interrupts of the timer, of which more than 18 times the seconds come, and the tick counter does
-- not overflow. It returns when `secs` has grown by the seconds asked for, at the tick that brought
-- this.
pub sleep_lem :
    (sec : ℕ) (es : List Event) (m : Machine)
    → 0 < sec
    → IsTimed m
    → IsFair false es
    → 18 * sec < timers es
    → m.timer_ticks + timers es < 2 ^ 31
    → (rest : List Event) × (q : Machine) × (sleep sec es m ≡ some (awake rest q))
      × (q.secs ≡ m.secs + sec)
      × (q.timer_ticks ≡ 18 * (m.secs + sec))
unfolding sleep
sleep_lem sec es m some_time timed fair enough small =
    let no_wrap : u32 (m.secs + sec) ≡ m.secs + sec = omega (arith, timed.counted) in
    let (rest, q, e, timed', end) =
      wait_until-awake (λ q. u32 (m.secs + sec) == q.secs) (18 * (m.secs + sec)) es false m
        (λ q h le. ground (arith, no_wrap, h.counted, le)) timed fair
        (omega (arith, timed.counted, some_time)) (λ k. absurd (ground (arith, k)))
        (omega (arith, timed.counted, enough)) small in
    (rest, q, e, omega (arith, timed'.counted, end), end)

-- With the timer installed, `sleepP` returns for any interrupts that come meanwhile, if the loop
-- tests its condition between two interrupts of the timer, more of them come than the ticks asked
-- for, and the tick counter does not overflow. It returns exactly that many ticks later.
pub sleep_p_lem :
    (ticks : ℕ) (es : List Event) (m : Machine)
    → IsTimed m
    → IsFair false es
    → ticks < timers es
    → m.timer_ticks + timers es < 2 ^ 31
    → (rest : List Event) × (q : Machine) × (sleep_p ticks es m ≡ some (awake rest q))
      × (q.timer_ticks ≡ m.timer_ticks + ticks)
unfolding sleep_p
sleep_p_lem ticks es m timed fair enough small =
    let no_wrap : u32 (m.timer_ticks + ticks) ≡ m.timer_ticks + ticks = omega arith in
    let (rest, q, e, timed', end) =
      wait_until-awake (λ q. not (ltb q.timer_ticks (u32 (m.timer_ticks + ticks))))
        (m.timer_ticks + ticks) es false m (λ q h le. ground (arith, no_wrap, le)) timed fair
        (omega arith) (λ k. absurd (ground (arith, k))) (omega (arith, enough)) small in
    (rest, q, e, end)
