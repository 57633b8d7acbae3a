-- ===== src/Interrupts/Faults.antt =====
-- `fault_handler` of kernel/src/cpu/isr.c, and `pg_handle` of kernel/src/mm/paging.c, which it
-- calls.
use Prim.Native.String.{String}
use night.Base.{
  ℕ, Bool, Option, some, List, [], ◌∷◌, ltb, ◌==◌, not, if◌then◌else◌, get_or, bit_and, ◌>>=◌,
}
use night.Base.Text.{codes}
use night.Drivers.Screen.{Screen, puts}
use night.Console.Printf.{printf}

abbrev pub exception_messages : List String
exception_messages =
    "Division By Zero" ∷ "Debug" ∷ "Non Maskable Interrupt" ∷ "Breakpoint"
    ∷ "Into Detected Overflow" ∷ "Out of Bounds" ∷ "Invalid Opcode" ∷ "No Coprocessor"
    ∷ "Double Fault" ∷ "Coprocessor Segment Overrun" ∷ "Bad TSS" ∷ "Segment Not Present"
    ∷ "Stack Fault" ∷ "General Protection Fault" ∷ "Page Fault" ∷ "Unknown Interrupt"
    ∷ "Coprocessor Fault" ∷ "Alignment Check" ∷ "Machine Check" ∷ "Reserved" ∷ "Reserved"
    ∷ "Reserved" ∷ "Reserved" ∷ "Reserved" ∷ "Reserved" ∷ "Reserved" ∷ "Reserved" ∷ "Reserved"
    ∷ "Reserved" ∷ "Reserved" ∷ "Reserved" ∷ "Reserved" ∷ []

-- A handler that halts never returns; the screen is the last one shown.
pub data After : Type 0 where
  halted : Screen → After
  returned : Screen → After

abbrev pub bit_set : (mask error_code : ℕ) → Bool
bit_set mask error_code = not (bit_and error_code mask == 0)

-- The texts of the second `printf` of `pg_handle`, by its arguments in order.
abbrev pub reason_texts : (error_code : ℕ) → ℕ → List ℕ
reason_texts e k =
    if k == 0
    then codes (if bit_set 1 e then "protection violation" else "non-present page")
    else if k == 1
    then codes (if bit_set 2 e then "write" else "read")
    else if k == 2
    then codes (if bit_set 4 e then "user mode" else "supervisor mode")
    else if k == 3
    then codes (if bit_set 8 e then ", reserved" else "")
    else codes (if bit_set 16 e then ", instruction fetch" else "")

module _ (online : Bool) (kmalloc : ℕ → ℕ) where
  -- `fault_addr` is CR2. The argument `k` of the second call is the address of its text, which is
  -- called `k` here.
  unfoldable pub pg_handle : (fault_addr err_code : ℕ) → Screen → Option After
  pg_handle fault_addr err_code s = do
    a ← printf online kmalloc (codes "\nPage Fault at 0x%x") (λ k. fault_addr) (λ p. []) s
    b ←
        printf online kmalloc (codes "\nReason: %s, %s, %s%s%s\n") (λ k. k) (reason_texts err_code)
          a
    some (halted b)

  -- `pg_handle` does not return, so the second test is reached with other numbers only.
  unfoldable pub fault_handler : (int_no fault_addr err_code : ℕ) → Screen → Option After
  unfolding pg_handle
  fault_handler int_no fault_addr err_code s =
      if int_no == 14
      then pg_handle fault_addr err_code s
      else if ltb int_no 32
      then some (
          halted (
            puts (codes " Exception. System Halted!\n")
              (puts (codes (get_or exception_messages int_no "")) s)))
      else some (returned s)
