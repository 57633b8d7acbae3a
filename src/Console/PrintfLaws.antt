-- ===== src/Console/PrintfLaws.antt =====
-- When `printf` of lib/libk/src/printf.c shows its text: the buffer has room, and the text has no
-- NUL.
use night.Base.{
  ℕ, zero, suc, ◌+◌, ◌/◌, ◌%◌, ◌≤◌, ◌<◌, ◌≡◌, ◌≢◌, refl, ap, Bool, true, false, some, List, [], ◌∷◌,
  ◌++◌, length, get_or, leb, ◌==◌, arith, Bool-cases, inl, inr,
}
use native.Mathlib.Nat.{mod-lt}
use night.Base.Text.{codes}
use night.Libk.Format.{digit_chars, number_digits, number_tmp, write_back, small, has}
use night.Libk.FormatLaws.{length-write_back}
use night.Libk.Vsprintf.{Out}
use night.Libk.VsprintfLaws.{Piece, format_of, IsPlain, digits_of, rendered, vsprintf-format_of}
use night.Drivers.Screen.{Screen, puts}
use night.Console.Printf.{until_nul, buffer_size, no_buffer, printf}

abbrev pub NoNul : List ℕ → Type 0
NoNul [] = Unit {0}
NoNul (c ∷ cs) = (c ≢ 0) × NoNul cs

pub until_nul-NoNul : (t : List ℕ) → NoNul t → until_nul t ≡ t
unfolding until_nul
until_nul-NoNul [] h = refl
until_nul-NoNul (c ∷ t) (h, hs) =
    let other : (c == 0) ≡ false = ground (arith, h) in rw other (ap (◌∷◌ c) (until_nul-NoNul t hs))

pub NoNul-append : (s t : List ℕ) → NoNul s → NoNul t → NoNul (s ++ t)
NoNul-append [] t h k = k
NoNul-append (c ∷ s) t (h, hs) k = (h, NoNul-append s t hs k)

NoNul-get_or : (cs : List ℕ) (d : ℕ) → NoNul cs → d < length cs → get_or cs d 0 ≢ 0
NoNul-get_or [] d h lt = absurd (omega (arith, lt))
NoNul-get_or (c ∷ cs) zero (h, hs) lt = h
NoNul-get_or (c ∷ cs) (suc d) (h, hs) lt = NoNul-get_or cs d hs (omega (arith, lt))

NoNul-write_back : (tmp rest : List ℕ) → NoNul tmp → NoNul rest → NoNul (write_back tmp rest)
unfolding write_back
NoNul-write_back [] rest h k = k
NoNul-write_back (c ∷ tmp) rest (h, hs) k = NoNul-write_back tmp (c ∷ rest) hs (h, k)

NoNul-number_digits :
    (rounds n base : ℕ) (digits : List ℕ)
    → NoNul digits
    → 0 < base
    → base ≤ length digits
    → NoNul (number_digits rounds n base digits)
unfolding number_digits
NoNul-number_digits zero n base digits h pos le = tt
NoNul-number_digits (suc rounds) n base digits h pos le = elim (Bool-cases (n == 0)) [
  | inl y ↦ rw y tt
  | inr y ↦ rw y (
    NoNul-get_or digits (n % base) h (omega (arith, mod-lt n pos, le)),
    NoNul-number_digits rounds (n / base) base digits h pos le,
  )
]

length-number_digits :
    (rounds n base : ℕ) (digits : List ℕ) → length (number_digits rounds n base digits) ≤ rounds
unfolding number_digits
length-number_digits zero n base digits = omega arith
length-number_digits (suc rounds) n base digits =
    ground (arith, length-number_digits rounds (n / base) base digits)

pub length-digits_of : (base type n : ℕ) → length (digits_of base type n) ≤ 36
unfolding number_tmp
length-digits_of base type n = ground (
  arith,
  length-write_back (number_tmp n base (digit_chars type)) [],
  length-number_digits 36 n base (digit_chars type),
)

upper_digits : NoNul (codes "0123456789ABCDEFGHIJKLMNOPQRSTUVWXYZ")
upper_digits = omega arith

lower_digits : NoNul (codes "0123456789abcdefghijklmnopqrstuvwxyz")
lower_digits = omega arith

pub NoNul-digits_of : (base type n : ℕ) → 0 < base → base ≤ 36 → NoNul (digits_of base type n)
unfolding number_tmp
NoNul-digits_of base type n pos le =
    NoNul-write_back (number_tmp n base (digit_chars type)) [] digits tt
  where
    alphabet : NoNul (digit_chars type) × (length (digit_chars type) ≡ 36)
    alphabet = elim (Bool-cases (has small type)) [
      | inl y ↦ rw y (lower_digits, refl)
      | inr y ↦ rw y (upper_digits, refl)
    ]

    digits : NoNul (number_tmp n base (digit_chars type))
    digits = elim (Bool-cases (n == 0)) [
      | inl y ↦ rw y ((λ e. omega (arith, e)), tt)
      | inr y ↦ rw y (
          NoNul-number_digits 36 n base (digit_chars type) alphabet.0 pos
            (omega (arith, le, alphabet.1)))
    ]

-- For a format of plain characters and conversions without flags, whose text fits the buffer and
-- holds no NUL, and with the heap giving a buffer when it is asked, `printf` shows that text.
pub printf-format_of :
    (online : Bool) (kmalloc : ℕ → ℕ) (ps : List Piece) (args : ℕ → ℕ) (texts : ℕ → List ℕ)
    (s : Screen)
    → IsPlain ps
    → no_buffer online kmalloc (format_of ps) ≡ false
    → let o = rendered args texts ps (record { text = []; next = 0; stores = [] }) in
      NoNul o.text
      → length o.text < buffer_size online (format_of ps)
      → printf online kmalloc (format_of ps) args texts s ≡ some (puts o.text s)
unfolding printf
printf-format_of online kmalloc ps args texts s plain heap clean room =
    let o : Out = rendered args texts ps (record { text = []; next = 0; stores = [] }) in
    let fits : leb (length o.text + 1) (buffer_size online (format_of ps)) ≡ true =
      ground (arith, room) in
    rw (vsprintf-format_of args texts ps plain, fits, heap, until_nul-NoNul o.text clean) refl
