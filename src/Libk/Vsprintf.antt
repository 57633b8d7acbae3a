-- ===== src/Libk/Vsprintf.antt =====
-- `strlen`, `vsprintf` and `sprintf` of lib/libk/src/string.c. The format is a list up to its NUL.
-- An argument is a word of the stack: `args k` is the one that the k-th `va_arg` from the start
-- gives, and `texts p` is the text up to the NUL that stands at the address `p`.
use night.Base.{
  ℕ, zero, suc, ◌+◌, ◌-◌, ◌%◌, ◌^◌, bit_or, Bool, ◌||◌, Option, none, some, List, [], ◌∷◌, ◌++◌,
  length, ltb, leb, ◌==◌, if◌then◌else◌, ◌>>=◌,
}
use night.Libk.Arith.{u32}
use night.Libk.Format.{
  is_digit, skip_atoi, zeropad, sign_flag, plus, space, left, special, small, has, repeat, number,
}

-- `text` is what stands from `buf` on, `next` counts the arguments that were taken, and `stores`
-- holds the addresses and values that %n wrote, the last one first.
pub record Out : Type 0 where
  pub text : List ℕ
  pub next : ℕ
  pub stores : List (ℕ × ℕ)

abbrev pub emit : List ℕ → Out → Out
emit cs o = record o { text = o.text ++ cs }

-- The value of a flag character, 0 for any other.
unfoldable pub flag_of : ℕ → ℕ
flag_of c =
    if c == b'-'
    then left
    else if c == b'+'
    then plus
    else if c == b' '
    then space
    else if c == b'#'
    then special
    else if c == b'0'
    then zeropad
    else 0

-- From the label `repeat` on: the flags, and the format behind them.
unfoldable pub scan_flags : (flags : ℕ) (fmt : List ℕ) → ℕ × List ℕ
scan_flags flags [] = (flags, [])
scan_flags flags (c ∷ fmt) =
    let rest = scan_flags (bit_or flags (flag_of c)) fmt in
    if flag_of c == 0 then (flags, c ∷ fmt) else rest

-- An `int` by its bit pattern: -1, the test `< 0`, the negation, and the value where a negative one
-- counts as 0.
abbrev pub minus_one : ℕ
minus_one = 2 ^ 32 - 1

abbrev pub is_negative : ℕ → Bool
is_negative w = leb (2 ^ 31) w

abbrev pub negate : ℕ → ℕ
negate w = u32 (2 ^ 32 - w)

abbrev pub at_least_zero : ℕ → ℕ
at_least_zero w = if is_negative w then 0 else w

-- What stands between the flags and the conversion character.
pub record Spec : Type 0 where
  pub flags : ℕ
  pub field_width : ℕ
  pub precision : ℕ
  pub taken : ℕ
  pub rest : List ℕ

-- A qualifier is skipped.
unfoldable pub skip_qualifier : List ℕ → List ℕ
skip_qualifier [] = []
skip_qualifier (c ∷ fmt) = if c == b'h' || c == b'l' || c == b'L' then fmt else c ∷ fmt

-- `for (i = 0; i < len; ++i) *str++ = *s++;`
unfoldable pub first_chars : (len : ℕ) → List ℕ → List ℕ
first_chars zero t = []
first_chars (suc len) [] = []
first_chars (suc len) (c ∷ t) = c ∷ first_chars len t

module _ (args : ℕ → ℕ) (texts : ℕ → List ℕ) where
  -- The field width; a width from the arguments may be negative, which means LEFT. The asterisk is
  -- read but not stepped over, as in the code, here and in the precision.
  unfoldable pub scan_width : (flags next : ℕ) (fmt : List ℕ) → Spec
  scan_width flags next [] = record {
    flags = flags;
    field_width = minus_one;
    precision = minus_one;
    taken = next;
    rest = [];
  }
  scan_width flags next (c ∷ fmt) =
      let (value, after) = skip_atoi (c ∷ fmt) in
      let w = args next in
      let plain : Spec = record {
        flags = flags;
        field_width = minus_one;
        precision = minus_one;
        taken = next;
        rest = c ∷ fmt;
      } in
      if is_digit c
      then record plain { field_width = value; rest = after }
      else if c == b'*'
      then record plain {
        flags = if is_negative w then bit_or flags left else flags;
        field_width = if is_negative w then negate w else w;
        taken = next + 1;
      }
      else plain

  -- The precision behind a dot; a negative one counts as 0.
  unfoldable pub scan_precision_value : Spec → (fmt : List ℕ) → Spec
  scan_precision_value s [] = record s { precision = 0; rest = [] }
  scan_precision_value s (c ∷ fmt) =
      let (value, after) = skip_atoi (c ∷ fmt) in
      if is_digit c
      then record s { precision = at_least_zero value; rest = after }
      else if c == b'*'
      then record s {
        precision = at_least_zero (args s.taken);
        taken = s.taken + 1;
        rest = c ∷ fmt;
      }
      else record s { precision = 0; rest = c ∷ fmt }

  unfoldable pub scan_precision : Spec → (fmt : List ℕ) → Spec
  unfolding scan_precision_value
  scan_precision s [] = s
  scan_precision s (c ∷ fmt) = if c == b'.' then scan_precision_value s fmt else s

  -- The case 'c'.
  unfoldable pub put_char : Spec → Out → Out
  put_char s o =
      let pad = repeat (at_least_zero s.field_width - 1) b' ' in
      let c = args s.taken % 2 ^ 8 ∷ [] in
      record (emit (if has left s.flags then c ++ pad else pad ++ c) o) { next = s.taken + 1 }

  -- The case 's'.
  unfoldable pub put_text : Spec → Out → Out
  put_text s o =
      let t = texts (args s.taken) in
      let len =
        if is_negative s.precision
        then length t
        else if ltb s.precision (length t)
        then s.precision
        else length t in
      let pad = repeat (at_least_zero s.field_width - len) b' ' in
      let cs = first_chars len t in
      record (emit (if has left s.flags then cs ++ pad else pad ++ cs) o) { next = s.taken + 1 }

  -- The calls of `number`; a null result would be `none`.
  unfoldable pub put_number : (base flags width : ℕ) → Spec → Out → Option Out
  put_number base flags width s o =
      number (args s.taken) base (at_least_zero width) (at_least_zero s.precision) flags >>= λ cs.
      some (record (emit cs o) { next = s.taken + 1 })

  -- The second `switch`, at the conversion character.
  unfoldable pub convert : (c : ℕ) → Spec → Out → Option Out
  unfolding put_char put_text put_number
  convert c s o =
      let flags = s.flags in
      let width = s.field_width in
      if c == b'c'
      then some (put_char s o)
      else if c == b's'
      then some (put_text s o)
      else if c == b'o'
      then put_number 8 flags width s o
      else if c == b'p'
      then if width == minus_one
        then put_number 16 (bit_or flags zeropad) 8 s o
        else put_number 16 flags width s o
      else if c == b'x'
      then put_number 16 (bit_or flags small) width s o
      else if c == b'X'
      then put_number 16 flags width s o
      else if c == b'd' || c == b'i'
      then put_number 10 (bit_or flags sign_flag) width s o
      else if c == b'u'
      then put_number 10 flags width s o
      else if c == b'n'
      then some
          (record o { next = s.taken + 1; stores = (args s.taken, u32 (length o.text)) ∷ o.stores })
      else if c == b'%'
      then some (record (emit (c ∷ []) o) { next = s.taken })
      else some (record (emit (b'%' ∷ c ∷ []) o) { next = s.taken })

  -- The conversion, and the format behind it. At the end of the format only the percent sign is
  -- written.
  unfoldable pub convert_next : (fmt : List ℕ) → Spec → Out → Option (Out × List ℕ)
  unfolding convert
  convert_next [] s o = some (record (emit (b'%' ∷ []) o) { next = s.taken }, [])
  convert_next (c ∷ fmt) s o = convert c s o >>= λ o'. some (o', fmt)

  -- One specification, behind its percent sign.
  unfoldable pub directive : (fmt : List ℕ) → Out → Option (Out × List ℕ)
  unfolding scan_flags scan_width scan_precision skip_qualifier convert_next
  directive fmt o =
      let (flags, f1) = scan_flags 0 fmt in
      let w = scan_width flags o.next f1 in
      let p = scan_precision w w.rest in convert_next (skip_qualifier p.rest) p o

  -- The main loop. The fuel bounds its rounds.
  unfoldable pub format_from : (fuel : ℕ) (fmt : List ℕ) → Out → Option Out
  unfolding directive
  format_from zero fmt o = none
  format_from (suc fuel) [] o = some o
  format_from (suc fuel) (c ∷ fmt) o =
      let plain = format_from fuel fmt (emit (c ∷ []) o) in
      let special' = directive fmt o >>= λ r. format_from fuel r.1 r.0 in
      if c == b'%' then special' else plain

  unfoldable pub vsprintf : (fmt : List ℕ) → Option Out
  unfolding format_from
  vsprintf fmt = format_from (length fmt + 1) fmt (record { text = []; next = 0; stores = [] })
