-- ===== src/Interrupts/FaultLaws.antt =====
-- What the user sees of a processor exception.
use Prim.Native.String.{String}
use night.Base.{
  ℕ, ◌+◌, ◌≤◌, ◌≡◌, ◌≢◌, refl, Bool, true, false, some, List, [], ◌∷◌, ◌++◌, map, length,
  length-append, get_or, ltb, ◌==◌, if◌then◌else◌, arith, Bool-cases, inl, inr,
}
use night.Base.Text.{codes}
use night.Libk.Format.{small}
use night.Libk.VsprintfLaws.{Piece, itself, text, hex, format_of, digits_of, rendered}
use night.Drivers.Screen.{Screen, puts}
use night.Console.Printf.{no_buffer, printf}
use night.Console.PrintfLaws.{
  NoNul, NoNul-append, NoNul-digits_of, length-digits_of, printf-format_of,
}
use night.Interrupts.Faults.{
  halted, returned, bit_set, reason_texts, exception_messages, pg_handle, fault_handler,
}

abbrev pub chars : String → List Piece
chars t = map itself (codes t)

address_pieces : List Piece
address_pieces = chars "\nPage Fault at 0x" ++ hex ∷ []

reason_pieces : List Piece
reason_pieces =
    chars "\nReason: "
    ++ text
      ∷ itself b','
      ∷ itself b' '
      ∷ text
      ∷ itself b','
      ∷ itself b' '
      ∷ text
      ∷ text
      ∷ text
      ∷ itself 10
      ∷ []

-- The two lines that a page fault shows.
abbrev pub address_line : (fault_addr : ℕ) → List ℕ
address_line fault_addr = codes "\nPage Fault at 0x" ++ digits_of 16 small fault_addr

pub no_buffer-false :
    (online : Bool) (kmalloc : ℕ → ℕ) (fmt : List ℕ)
    → ((n : ℕ) → kmalloc n ≢ 0)
    → no_buffer online kmalloc fmt ≡ false
no_buffer-false false kmalloc fmt h = refl
no_buffer-false true kmalloc fmt h = ground (arith, h (length fmt + 128))

either-NoNul :
    (b : Bool) (x y : String)
    → NoNul (codes x)
    → NoNul (codes y)
    → NoNul (codes (if b then x else y))
either-NoNul true x y h k = h
either-NoNul false x y h k = k

length-either :
    (b : Bool) (x y : String) (n : ℕ)
    → length (codes x) ≤ n
    → length (codes y) ≤ n
    → length (codes (if b then x else y)) ≤ n
length-either true x y n h k = h
length-either false x y n h k = k

print_address :
    (online : Bool) (kmalloc : ℕ → ℕ) (fault_addr : ℕ) (s : Screen)
    → ((n : ℕ) → kmalloc n ≢ 0)
    → printf online kmalloc (codes "\nPage Fault at 0x%x") (λ k. fault_addr) (λ p. []) s
      ≡ some (puts (address_line fault_addr) s)
unfolding format_of address_pieces rendered
print_address online kmalloc fault_addr s heap =
    printf-format_of online kmalloc address_pieces (λ k. fault_addr) (λ p. []) s (omega arith)
      (no_buffer-false online kmalloc (format_of address_pieces) heap)
      (NoNul-append (codes "\nPage Fault at 0x") (digits_of 16 small fault_addr) (omega arith)
        (NoNul-digits_of 16 small fault_addr (omega arith) (omega arith)))
      (ground (
        arith,
        length-append (codes "\nPage Fault at 0x") (digits_of 16 small fault_addr),
        length-digits_of 16 small fault_addr,
      ))

line_break : NoNul (codes "\n")
line_break = omega arith

comma : NoNul (codes ",")
comma = omega arith

blank : NoNul (codes " ")
blank = omega arith

reason : NoNul (codes "\nReason: ")
reason = omega arith

module _ (p a m r f : List ℕ) where
  abbrev pub reason_of : List ℕ
  reason_of =
      codes "\nReason: "
      ++ p
      ++ codes ","
      ++ codes " "
      ++ a
      ++ codes ","
      ++ codes " "
      ++ m
      ++ r
      ++ f
      ++ codes "\n"

  reason_of-NoNul : NoNul p → NoNul a → NoNul m → NoNul r → NoNul f → NoNul reason_of
  reason_of-NoNul hp ha hm hr hf =
      search (NoNul-append, line_break, comma, blank, reason, hp, ha, hm, hr, hf) depth 20

  length-reason_of : length reason_of ≡ length p + length a + length m + length r + length f + 14
  length-reason_of = simp (length-append) (omega arith)

abbrev pub reason_line : (err_code : ℕ) → List ℕ
reason_line e =
    reason_of (codes (if bit_set 1 e then "protection violation" else "non-present page"))
      (codes (if bit_set 2 e then "write" else "read"))
      (codes (if bit_set 4 e then "user mode" else "supervisor mode"))
      (codes (if bit_set 8 e then ", reserved" else ""))
      (codes (if bit_set 16 e then ", instruction fetch" else ""))

reason_line-NoNul : (e : ℕ) → NoNul (reason_line e)
reason_line-NoNul e =
    reason_of-NoNul (codes (if bit_set 1 e then "protection violation" else "non-present page"))
      (codes (if bit_set 2 e then "write" else "read"))
      (codes (if bit_set 4 e then "user mode" else "supervisor mode"))
      (codes (if bit_set 8 e then ", reserved" else ""))
      (codes (if bit_set 16 e then ", instruction fetch" else ""))
      (either-NoNul (bit_set 1 e) "protection violation" "non-present page" (omega arith)
        (omega arith))
      (either-NoNul (bit_set 2 e) "write" "read" (omega arith) (omega arith))
      (either-NoNul (bit_set 4 e) "user mode" "supervisor mode" (omega arith) (omega arith))
      (either-NoNul (bit_set 8 e) ", reserved" "" (omega arith) (omega arith))
      (either-NoNul (bit_set 16 e) ", instruction fetch" "" (omega arith) (omega arith))

length-reason_line : (e : ℕ) → length (reason_line e) ≤ 83
length-reason_line e = omega (
  arith,
  length-reason_of (codes (if bit_set 1 e then "protection violation" else "non-present page"))
      (codes (if bit_set 2 e then "write" else "read"))
      (codes (if bit_set 4 e then "user mode" else "supervisor mode"))
      (codes (if bit_set 8 e then ", reserved" else ""))
      (codes (if bit_set 16 e then ", instruction fetch" else "")),
  length-either (bit_set 1 e) "protection violation" "non-present page" 20 (omega arith)
      (omega arith),
  length-either (bit_set 2 e) "write" "read" 5 (omega arith) (omega arith),
  length-either (bit_set 4 e) "user mode" "supervisor mode" 15 (omega arith) (omega arith),
  length-either (bit_set 8 e) ", reserved" "" 10 (omega arith) (omega arith),
  length-either (bit_set 16 e) ", instruction fetch" "" 19 (omega arith) (omega arith),
)

print_reason :
    (online : Bool) (kmalloc : ℕ → ℕ) (e : ℕ) (s : Screen)
    → ((n : ℕ) → kmalloc n ≢ 0)
    → printf online kmalloc (codes "\nReason: %s, %s, %s%s%s\n") (λ k. k) (reason_texts e) s
      ≡ some (puts (reason_line e) s)
unfolding format_of reason_pieces rendered
print_reason online kmalloc e s heap =
    printf-format_of online kmalloc reason_pieces (λ k. k) (reason_texts e) s (omega arith)
      (no_buffer-false online kmalloc (format_of reason_pieces) heap) (reason_line-NoNul e)
      (ground (arith, length-reason_line e))

-- A page fault halts; before that it shows the address that was accessed, in hexadecimal, and what
-- the bits of the error code mean. The heap gives every buffer that `printf` asks for.
pub pg_handle_lem :
    (online : Bool) (kmalloc : ℕ → ℕ) (fault_addr err_code : ℕ) (s : Screen)
    → ((n : ℕ) → kmalloc n ≢ 0)
    → pg_handle online kmalloc fault_addr err_code s
      ≡ some (halted (puts (reason_line err_code) (puts (address_line fault_addr) s)))
unfolding pg_handle
pg_handle_lem online kmalloc fault_addr err_code s heap =
    rw
      (
        print_address online kmalloc fault_addr s heap,
        print_reason online kmalloc err_code (puts (address_line fault_addr) s) heap,
      )
      refl

fault_handler-pg_handle :
    (online : Bool) (kmalloc : ℕ → ℕ) (fault_addr err_code : ℕ) (s : Screen)
    → fault_handler online kmalloc 14 fault_addr err_code s
      ≡ pg_handle online kmalloc fault_addr err_code s
unfolding fault_handler
fault_handler-pg_handle online kmalloc fault_addr err_code s = refl

-- `fault_handler` never returns from an exception: for each of the numbers 0 to 31 it halts, and for
-- a page fault the screen shows the address and the reason, for the others the name of the exception
-- with a notice. It returns for the other numbers and leaves the screen alone. The heap gives every
-- buffer that `printf` asks for.
pub fault_handler_lem :
    (online : Bool) (kmalloc : ℕ → ℕ) (int_no fault_addr err_code : ℕ) (s : Screen)
    → ((n : ℕ) → kmalloc n ≢ 0)
    → fault_handler online kmalloc int_no fault_addr err_code s
      ≡ some (
          if ltb int_no 32
          then halted (
              if int_no == 14
              then puts (reason_line err_code) (puts (address_line fault_addr) s)
              else puts
                  (codes " Exception. System Halted!\n")
                  (puts (codes (get_or exception_messages int_no "")) s))
          else returned s)
unfolding fault_handler
fault_handler_lem online kmalloc int_no fault_addr err_code s heap =
    elim (Bool-cases (int_no == 14)) [
      | inl y ↦
          let fault : int_no ≡ 14 = ground arith in
          let low : ltb int_no 32 ≡ true = ground (arith, fault) in
          rw (y, low) (pg_handle_lem online kmalloc fault_addr err_code s heap)
      | inr y ↦ rw y (ground arith)
    ]
