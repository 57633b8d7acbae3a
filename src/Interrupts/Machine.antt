-- ===== src/Interrupts/Machine.antt =====
-- The state that interrupt handlers share, and the handlers of kernel/src/drivers/timer.c and kb.c.
use night.Base.{
  ℕ, ◌+◌, ◌-◌, ◌%◌, ◌^◌, bit_and, Bool, Option, none, some, List, [], ◌∷◌, ltb, ◌==◌, if◌then◌else◌,
  get_or, update,
}
use night.Libk.Arith.{u32}
use night.Drivers.Screen.{Screen, putch}

-- The functions that the kernel installs as handlers.
pub data Handler : Type 0 where
  timer_handler keyboard_handler : Handler

-- `timer_ticks` and `secs` of timer.c, `cur_char` of kb.c, `irq_routines` of irq.c, and the screen
-- with the port writes.
pub record Machine : Type 0 where
  pub screen : Screen
  pub timer_ticks : ℕ
  pub secs : ℕ
  pub cur_char : ℕ
  pub irq_routines : ℕ → Option Handler

-- `x % d == 0` for an `int` x given by its bit pattern: the sign of the remainder does not matter.
abbrev pub int_multiple : (x d : ℕ) → Bool
int_multiple x d = if ltb x (2 ^ 31) then x % d == 0 else (2 ^ 32 - x) % d == 0

unfoldable pub timer_tick : Machine → Machine
timer_tick m =
    let ticks = u32 (m.timer_ticks + 1) in
    record m {
      timer_ticks = ticks;
      secs = if int_multiple ticks 18 then u32 (m.secs + 1) else m.secs;
    }

-- `kbdus`; the entries that the source leaves out are 0.
abbrev pub kbdus : List ℕ
kbdus =
    0 ∷ 27 ∷ b'1' ∷ b'2' ∷ b'3' ∷ b'4' ∷ b'5' ∷ b'6' ∷ b'7' ∷ b'8' ∷ b'9' ∷ b'0' ∷ b'-' ∷ b'=' ∷ 8
    ∷ 9 ∷ b'q' ∷ b'w' ∷ b'e' ∷ b'r' ∷ b't' ∷ b'y' ∷ b'u' ∷ b'i' ∷ b'o' ∷ b'p' ∷ b'[' ∷ b']' ∷ 10 ∷ 0
    ∷ b'a' ∷ b's' ∷ b'd' ∷ b'f' ∷ b'g' ∷ b'h' ∷ b'j' ∷ b'k' ∷ b'l' ∷ b';' ∷ 39 ∷ 96 ∷ 0 ∷ 92 ∷ b'z'
    ∷ b'x' ∷ b'c' ∷ b'v' ∷ b'b' ∷ b'n' ∷ b'm' ∷ b',' ∷ b'.' ∷ b'/' ∷ 0 ∷ b'*' ∷ 0 ∷ 32 ∷ 0 ∷ 0 ∷ 0
    ∷ 0 ∷ 0 ∷ 0 ∷ 0 ∷ 0 ∷ 0 ∷ 0 ∷ 0 ∷ 0 ∷ 0 ∷ 0 ∷ 0 ∷ 0 ∷ b'-' ∷ 0 ∷ 0 ∷ 0 ∷ b'+' ∷ []

abbrev pub key_char : ℕ → ℕ
key_char scancode = get_or kbdus scancode 0

-- `scancode` is the byte that the read of port 0x60 gives.
unfoldable pub keyboard_press : (scancode : ℕ) → Machine → Machine
keyboard_press scancode m =
    if bit_and scancode 0x80 == 0
    then record m { screen = putch (key_char scancode) m.screen; cur_char = key_char scancode }
    else m

-- `get_char`, between a `cli` and a `sti`.
unfoldable pub get_char : Machine → ℕ
get_char m = m.cur_char

unfoldable pub get_uptime : Machine → ℕ
get_uptime m = m.secs

-- An index past the end of `irq_routines` is a fault.
unfoldable pub irq_install_handler : (irq : ℕ) → Handler → Machine → Option Machine
irq_install_handler irq handler m =
    if ltb irq 16
    then some (record m { irq_routines = update m.irq_routines irq (some handler) })
    else none

unfoldable pub irq_uninstall_handler : (irq : ℕ) → Machine → Option Machine
irq_uninstall_handler irq m =
    if ltb irq 16 then some (record m { irq_routines = update m.irq_routines irq none }) else none

unfoldable pub timer_install : Machine → Option Machine
timer_install m = irq_install_handler 0 timer_handler (record m { secs = 0 })

unfoldable pub keyboard_install : Machine → Option Machine
keyboard_install m = irq_install_handler 1 keyboard_handler m
