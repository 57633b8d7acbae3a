-- ===== src/Interrupts/Sleep.antt =====
-- `sleep` and `sleepP` of kernel/src/drivers/timer.c, which wait in a loop for the handler of the
-- timer to count. What the processor does meanwhile is a list of events.
use night.Base.{ℕ, ◌+◌, Bool, not, Option, some, List, [], ◌∷◌, ltb, ◌==◌, if◌then◌else◌, ◌>>=◌}
use night.Libk.Arith.{u32}
use night.Interrupts.Machine.{Machine}
use night.Interrupts.Irq.{irq_handler}

-- The loop evaluates its condition once, or an interrupt is handled.
pub data Event : Type 0 where
  test : Event
  interrupt : (int_no scancode : ℕ) → Event

-- The call has returned, with the events that are left, or waits when the events are over.
pub data Outcome : Type 0 where
  awake : (rest : List Event) → Machine → Outcome
  asleep : Machine → Outcome

-- A loop that ends when `stop` holds in a test.
unfoldable pub wait_until : (stop : Machine → Bool) → List Event → Machine → Option Outcome
wait_until stop [] m = some (asleep m)
wait_until stop (test ∷ es) m =
    let rest = wait_until stop es m in if stop m then some (awake es m) else rest
wait_until stop (interrupt int_no scancode ∷ es) m =
    irq_handler int_no scancode m >>= λ q. wait_until stop es q

unfoldable pub sleep : (sec : ℕ) → List Event → Machine → Option Outcome
unfolding wait_until
sleep sec es m = let to_wait = u32 (m.secs + sec) in wait_until (λ q. to_wait == q.secs) es m

-- The comparison is of unsigned words.
unfoldable pub sleep_p : (ticks : ℕ) → List Event → Machine → Option Outcome
unfolding wait_until
sleep_p ticks es m =
    let eticks = u32 (m.timer_ticks + ticks) in
    wait_until (λ q. not (ltb q.timer_ticks eticks)) es m
