-- ===== src/Libk/Format.antt =====
-- `skip_atoi` and `number` of lib/libk/src/string.c. Texts are lists up to their NUL, and what is
-- written behind `str` is a list.
use night.Base.{
  ℕ, zero, suc, ◌+◌, ◌-◌, ◌*◌, ◌/◌, ◌%◌, ◌^◌, bit_and, Bool, not, ◌&&◌, ◌||◌, Option, none, some,
  List, [], ◌∷◌, ◌++◌, length, get_or, ltb, leb, ◌==◌, if◌then◌else◌,
}
use night.Base.Text.{codes}
use night.Libk.Arith.{u32}

unfoldable pub is_digit : ℕ → Bool
is_digit c = leb b'0' c && leb c b'9'

-- The loop of `skip_atoi` from the value `i` on; beside the value, the text that is left.
unfoldable pub skip_atoi_from : (i : ℕ) (s : List ℕ) → ℕ × List ℕ
skip_atoi_from i [] = (i, [])
skip_atoi_from i (c ∷ s) =
    let rest = skip_atoi_from (u32 (i * 10 + c + 2 ^ 32 - b'0')) s in
    if is_digit c then rest else (i, c ∷ s)

unfoldable pub skip_atoi : List ℕ → ℕ × List ℕ
unfolding skip_atoi_from
skip_atoi s = skip_atoi_from 0 s

abbrev pub zeropad : ℕ
zeropad = 1

abbrev pub sign_flag : ℕ
sign_flag = 2

abbrev pub plus : ℕ
plus = 4

abbrev pub space : ℕ
space = 8

abbrev pub left : ℕ
left = 16

abbrev pub special : ℕ
special = 32

abbrev pub small : ℕ
small = 64

abbrev pub has : (flag type : ℕ) → Bool
has flag type = not (bit_and type flag == 0)

abbrev pub digit_chars : (type : ℕ) → List ℕ
digit_chars type =
    if has small type
    then codes "0123456789abcdefghijklmnopqrstuvwxyz"
    else codes "0123456789ABCDEFGHIJKLMNOPQRSTUVWXYZ"

-- `while (num != 0) tmp[i++] = digits[do_div(num, base)];`, where `divl` divides without a sign.
unfoldable pub number_digits : (rounds num base : ℕ) (digits : List ℕ) → List ℕ
number_digits zero num base digits = []
number_digits (suc rounds) num base digits =
    let rest = number_digits rounds (num / base) base digits in
    if num == 0 then [] else get_or digits (num % base) 0 ∷ rest

-- `tmp` has room for 36 digits; a word in base 2 has 32.
unfoldable pub number_tmp : (num base : ℕ) (digits : List ℕ) → List ℕ
number_tmp num base digits = if num == 0 then b'0' ∷ [] else number_digits 36 num base digits

-- `while (i-- > 0) *str++ = tmp[i];` in front of the text that follows.
unfoldable pub write_back : (tmp rest : List ℕ) → List ℕ
write_back [] rest = rest
write_back (c ∷ tmp) rest = write_back tmp (c ∷ rest)

-- `while (n-- > 0) *str++ = c;`
unfoldable pub repeat : (n c : ℕ) → List ℕ
repeat zero c = []
repeat (suc n) c = c ∷ repeat n c

-- The character of the sign, 0 for none.
unfoldable pub sign_char : (num type : ℕ) → ℕ
sign_char num type =
    if has sign_flag type && leb (2 ^ 31) num
    then b'-'
    else if has plus type
    then b'+'
    else if has space type
    then b' '
    else 0

abbrev pub opt_char : ℕ → List ℕ
opt_char c = if c == 0 then [] else c ∷ []

-- The prefix of SPECIAL; `digits[33]` is the x of the alphabet.
unfoldable pub prefix : (base type : ℕ) → List ℕ
prefix base type =
    if has special type
    then if base == 8
      then b'0' ∷ []
      else if base == 16
      then b'0' ∷ get_or (digit_chars type) 33 0 ∷ []
      else []
    else []

-- `number`; the result is what it writes, and `none` is its null pointer. `num` is the bit pattern
-- of an int. A negative `size` or `precision` is given as 0: the code asks of `size` only how far
-- it is above 0, and takes the number of digits, at least 1, for a smaller `precision`.
unfoldable pub number : (num base size precision type : ℕ) → Option (List ℕ)
unfolding number_tmp write_back repeat sign_char prefix
number num base size precision type =
    let sign = sign_char num type in
    let num' = if has sign_flag type && leb (2 ^ 31) num then u32 (2 ^ 32 - num) else num in
    let tmp = number_tmp num' base (digit_chars type) in
    let i = length tmp in
    let precision' = if ltb precision i then i else precision in
    let front = opt_char sign ++ prefix base type in
    let pad = size - length front - precision' in
    let zeros = repeat (precision' - i) b'0' in
    let digits = front ++ zeros ++ write_back tmp [] in
    if ltb base 2 || ltb 36 base
    then none
    else if has left type
    then some (digits ++ repeat pad b' ')
    else if has zeropad type
    then some (front ++ repeat pad b'0' ++ zeros ++ write_back tmp [])
    else some (repeat pad b' ' ++ digits)
