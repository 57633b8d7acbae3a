-- ===== src/Tests/FormatTests.antt =====
-- lib/libk/src/string.c at concrete numbers.
use Prim.Native.Nat.{max}
use night.Base.{ℕ, ◌+◌, ◌-◌, ◌^◌, ◌≡◌, refl, arith, List, [], ◌++◌, length, some}
use night.Base.Text.{codes}
use night.Libk.Arith.{u32}
use night.Libk.Format.{
  opt_char, sign_char, prefix, number_tmp, number_digits, digit_chars, number, skip_atoi,
  write_back, repeat,
}
use night.Libk.FormatLaws.{skip_atoi-number, number_width}

skip_atoi-number_example :
    (text : List ℕ) × (number 1204 10 0 0 0 ≡ some text) × (skip_atoi text ≡ (1204, []))
skip_atoi-number_example = skip_atoi-number 1204 (omega arith)

-- The int -42 in decimal, in a field of 6 that is filled with zeros.
number_width_example :
    (text : List ℕ) × (number (2 ^ 32 - 42) 10 6 0 3 ≡ some text)
    × (length text
        ≡ max 6 (
            length (opt_char (sign_char (2 ^ 32 - 42) 3) ++ prefix 10 3)
            + max 0 (length (number_tmp (u32 42) 10 (digit_chars 3)))))
number_width_example = number_width (2 ^ 32 - 42) 10 6 0 3 (omega arith) (omega arith)

padded : number (2 ^ 32 - 42) 10 6 0 3 ≡ some (codes "-00042")
unfolding number number_tmp number_digits write_back repeat sign_char prefix
padded = refl

hexadecimal : number 0x1F2E 16 8 0 32 ≡ some (codes "  0X1F2E")
unfolding number number_tmp number_digits write_back repeat sign_char prefix
hexadecimal = refl
