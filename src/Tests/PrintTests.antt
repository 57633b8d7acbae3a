-- ===== src/Tests/PrintTests.antt =====
-- `vsprintf` of lib/libk/src/string.c at concrete formats.
use night.Base.{ℕ, ◌^◌, ◌-◌, ◌≡◌, refl, arith, List, [], ◌∷◌, some, ◌==◌, if◌then◌else◌}
use night.Base.Text.{codes}
use night.Libk.Format.{
  number, number_tmp, number_digits, write_back, repeat, sign_char, prefix, skip_atoi, is_digit,
}
use night.Libk.Vsprintf.{Out, vsprintf, first_chars, flag_of}
use night.Libk.VsprintfTotal.{vsprintf-Returns}
use night.Libk.VsprintfLaws.{
  Piece, itself, text, int, percent, format_of, rendered, vsprintf-format_of,
}

-- The first argument is -42, the second the text at the address 7.
abbrev args : ℕ → ℕ
args k = if k == 0 then 2 ^ 32 - 42 else 7

abbrev texts : ℕ → List ℕ
texts p = if p == 7 then codes "ok" else []

vsprintf-Returns_example : (o : Out) × (vsprintf args texts (codes "%+6d %-4.1s|%") ≡ some o)
vsprintf-Returns_example = vsprintf-Returns args texts (codes "%+6d %-4.1s|%")

abbrev pieces : List Piece
pieces = int ∷ itself b' ' ∷ text ∷ itself b'!' ∷ percent ∷ []

vsprintf-format_of_example :
    vsprintf args texts (codes "%d %s!%%")
    ≡ some (record { text = codes "-42 ok!%"; next = 2; stores = [] })
unfolding format_of rendered number_tmp number_digits write_back
vsprintf-format_of_example = vsprintf-format_of args texts pieces (omega arith)

-- Flags, a width, a precision, and a percent sign at the end.
flagged :
    vsprintf args texts (codes "%+6d %-4.1s|%")
    ≡ some (record { text = codes "   -42 o   |%"; next = 2; stores = [] })
unfolding vsprintf flag_of first_chars skip_atoi is_digit number number_tmp number_digits write_back
    repeat sign_char prefix
flagged = refl
