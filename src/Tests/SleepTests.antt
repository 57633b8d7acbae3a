-- ===== src/Tests/SleepTests.antt =====
-- kernel/src/drivers/timer.c waits for a second, from the tick 17 on.
use night.Base.{◌≡◌, refl, arith, false, some, none, List, [], ◌∷◌, ◌==◌, if◌then◌else◌}
use night.Interrupts.Machine.{Machine, timer_handler}
use night.Interrupts.Sleep.{Event, test, interrupt, awake, sleep, sleep_p}
use night.Interrupts.SleepLaws.{IsFair, IsTimed, timers, sleep_lem, sleep_p_lem}

abbrev running : Machine
running = record {
  screen = record {
    textmemptr = 0xB8000;
    text = λ i. 0;
    attrib = 0x0F;
    csr_x = 0;
    csr_y = 0;
    vga_locked = false;
    tstop = 0;
    outs = [];
  };
  timer_ticks = 17;
  secs = 0;
  cur_char = 0;
  irq_routines = λ i. if i == 0 then some timer_handler else none;
}

running-IsTimed : IsTimed running
running-IsTimed = record { timer = refl; only = λ k lt. ground (arith, lt); counted = refl }

-- A test before each interrupt of the timer, and one of the controller's interrupt 7 at the start.
abbrev pub tested : List Event → List Event
tested es = test ∷ interrupt 32 0 ∷ es

abbrev pub three : List Event → List Event
three es = tested (tested (tested es))

abbrev events : List Event
events = interrupt 39 0 ∷ three (three (three (three (three (three (tested []))))))

pub tested-IsFair : (es : List Event) → IsFair false es → IsFair false (tested es)
tested-IsFair es h = (omega arith, omega arith, λ e. refl, h)

pub three-IsFair : (es : List Event) → IsFair false es → IsFair false (three es)
three-IsFair es h =
    tested-IsFair (tested (tested es)) (tested-IsFair (tested es) (tested-IsFair es h))

events-IsFair : IsFair false events
events-IsFair = (
  omega arith,
  omega arith,
  λ e. absurd (omega (arith, e)),
  search (three-IsFair, tested-IsFair) depth 20,
)

events-timers : timers events ≡ 19
unfolding timers
events-timers = refl

sleep_lem_example :
    (rest : List Event) × (q : Machine) × (sleep 1 events running ≡ some (awake rest q))
    × (q.secs ≡ 1)
    × (q.timer_ticks ≡ 18)
sleep_lem_example =
    sleep_lem 1 events running (omega arith) running-IsTimed events-IsFair
      (omega (arith, events-timers)) (omega (arith, events-timers))

sleep_p_lem_example :
    (rest : List Event) × (q : Machine) × (sleep_p 5 events running ≡ some (awake rest q))
    × (q.timer_ticks ≡ 22)
sleep_p_lem_example =
    sleep_p_lem 5 events running running-IsTimed events-IsFair (omega (arith, events-timers))
      (omega (arith, events-timers))
