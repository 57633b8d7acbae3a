-- ===== src/Interrupts/Irq.antt =====
-- kernel/src/cpu/irq.c: remapping the controllers, and the common interrupt handler.
use night.Base.{
  ℕ, zero, suc, ◌+◌, ◌-◌, ◌/◌, ◌^◌, ◌≤◌, ◌<◌, ◌≡◌, ◌&&◌, Option, none, some, List, [], ◌∷◌, ltb,
  leb, if◌then◌else◌, arith,
}
use night.Base.Masks.{bit_and-low, bit_and-high}
use night.Drivers.Screen.{putch, outb}
use night.Interrupts.Machine.{
  Handler, timer_handler, keyboard_handler, Machine, key_char, timer_tick, keyboard_press,
}

abbrev pub machine_outb : (port value : ℕ) → Machine → Machine
machine_outb port value m = record m { screen = outb port value m.screen }

abbrev out_all : List (ℕ × ℕ) → Machine → Machine
out_all [] m = m
out_all ((port, value) ∷ rest) m = out_all rest (machine_outb port value m)

-- The controllers' command words: interrupts 0 to 7 arrive as 32 to 39, 8 to 15 as 40 to 47.
unfoldable pub irq_remap : Machine → Machine
irq_remap = out_all (
    (0x20, 0x11)
    ∷ (0xA0, 0x11)
    ∷ (0x21, 0x20)
    ∷ (0xA1, 0x28)
    ∷ (0x21, 0x04)
    ∷ (0xA1, 0x02)
    ∷ (0x21, 0x01)
    ∷ (0xA1, 0x01)
    ∷ (0x21, 0x0)
    ∷ (0xA1, 0x0)
    ∷ [])

-- The call through the function pointer; `scancode` is what the keyboard would give.
unfoldable pub run_handler : (scancode : ℕ) → Option Handler → Machine → Machine
run_handler scancode none m = m
run_handler scancode (some timer_handler) m = timer_tick m
run_handler scancode (some keyboard_handler) m = keyboard_press scancode m

-- The acknowledgements at the end of `irq_handler`.
unfoldable pub end_of_interrupt : (int_no : ℕ) → Machine → Machine
end_of_interrupt int_no m =
    machine_outb 0x20 0x20 (if leb 40 int_no then machine_outb 0xA0 0x20 m else m)

-- A number outside 32 to 47 indexes `irq_routines` out of range.
unfoldable pub irq_handler : (int_no scancode : ℕ) → Machine → Option Machine
unfolding run_handler end_of_interrupt
irq_handler int_no scancode m =
    if leb 32 int_no && ltb int_no 48
    then some (end_of_interrupt int_no (run_handler scancode (m.irq_routines (int_no - 32)) m))
    else none

-- Every interrupt of the controllers is handled: the routine that is installed for it runs, then
-- the slave controller is acknowledged if it raised the interrupt, and the master always, last.
irq_handler_lem :
    (int_no scancode : ℕ) (m : Machine)
    → 32 ≤ int_no
    → int_no < 48
    → let t = run_handler scancode (m.irq_routines (int_no - 32)) m in
      (q : Machine) × (irq_handler int_no scancode m ≡ some q)
      × (q.screen.outs
          ≡ (0x20, 0x20) ∷ (if leb 40 int_no then (0xA0, 0x20) ∷ t.screen.outs else t.screen.outs))
      × (q.timer_ticks ≡ t.timer_ticks)
      × (q.secs ≡ t.secs)
      × (q.cur_char ≡ t.cur_char)
unfolding irq_handler
irq_handler_lem int_no scancode m lo hi =
    let t = run_handler scancode (m.irq_routines (int_no - 32)) m in
    (
      end_of_interrupt int_no t,
      ground arith,
      ground arith,
      ground arith,
      ground arith,
      ground arith,
    )

-- `n` timer interrupts.
pub ticks : ℕ → Machine → Machine
ticks zero m = m
ticks (suc n) m = ticks n (timer_tick m)

pub timer_tick_lem :
    (m : Machine)
    → m.timer_ticks + 1 < 2 ^ 31
    → m.secs ≡ m.timer_ticks / 18
    → ((timer_tick m).timer_ticks ≡ m.timer_ticks + 1)
      × ((timer_tick m).secs ≡ (m.timer_ticks + 1) / 18)
unfolding timer_tick
timer_tick_lem m h e = ground arith

-- From a state in which `secs` is the number of ticks over 18, `n` timer interrupts with no overflow
-- of the signed tick counter add `n` ticks and leave `secs` at the number of ticks over 18.
ticks_lem :
    (n : ℕ) (m : Machine)
    → m.timer_ticks + n < 2 ^ 31
    → m.secs ≡ m.timer_ticks / 18
    → ((ticks n m).timer_ticks ≡ m.timer_ticks + n) × ((ticks n m).secs ≡ (m.timer_ticks + n) / 18)
unfolding ticks
ticks_lem zero m h e = omega (arith, e)
ticks_lem (suc n) m h e =
    let (count, secs) = timer_tick_lem m (omega arith) e in
    omega
      (arith, ticks_lem n (timer_tick m) (omega (arith, count)) (omega (arith, count, secs)), count)

-- A release code (128 and up) leaves the machine as it is; a press shows the key's character and
-- makes it the current one.
pub keyboard_press_lem :
    (scancode : ℕ) (m : Machine)
    → scancode < 2 ^ 8
    → keyboard_press scancode m ≡ (
        if ltb scancode 128
        then record m { screen = putch (key_char scancode) m.screen; cur_char = key_char scancode }
        else m)
unfolding keyboard_press
keyboard_press_lem scancode m h =
    ground (arith, bit_and-high 7 scancode 1, bit_and-low 1 (scancode / 2 ^ 7))
