-- ===== src/Libk/VsprintfTotal.antt =====
-- `vsprintf` of lib/libk/src/string.c returns for every format: each round of its loop takes a
-- character of the format, and the bases it gives to `number` are in range.
use night.Base.{
  ℕ, zero, suc, ◌+◌, ◌-◌, ◌*◌, ◌^◌, ◌≤◌, ◌<◌, ◌≡◌, refl, ap, bit_or, Option, some, List, [], ◌∷◌,
  length, ◌==◌, ◌>>=◌, arith, Returns, returns, Returns-if, Returns->>=, Returns-eq,
}
use night.Libk.Arith.{u32}
use night.Libk.Format.{skip_atoi, skip_atoi_from, number}
use night.Libk.FormatLaws.{number_width}
use night.Libk.Vsprintf.{
  Out, emit, flag_of, scan_flags, Spec, scan_width, scan_precision_value, scan_precision,
  skip_qualifier, convert, convert_next, directive, format_from, vsprintf,
}

skip_atoi_from-le : (i : ℕ) (s : List ℕ) → length ((skip_atoi_from i s).1) ≤ length s
unfolding skip_atoi_from
skip_atoi_from-le i [] = omega arith
skip_atoi_from-le i (c ∷ s) = ground (arith, skip_atoi_from-le (u32 (i * 10 + c + 2 ^ 32 - b'0')) s)

skip_atoi-le : (s : List ℕ) → length ((skip_atoi s).1) ≤ length s
unfolding skip_atoi
skip_atoi-le s = skip_atoi_from-le 0 s

scan_flags-le : (flags : ℕ) (fmt : List ℕ) → length ((scan_flags flags fmt).1) ≤ length fmt
unfolding scan_flags
scan_flags-le flags [] = omega arith
scan_flags-le flags (c ∷ fmt) = ground (arith, scan_flags-le (bit_or flags (flag_of c)) fmt)

skip_qualifier-le : (fmt : List ℕ) → length (skip_qualifier fmt) ≤ length fmt
unfolding skip_qualifier
skip_qualifier-le [] = omega arith
skip_qualifier-le (c ∷ fmt) = ground arith

number-Returns :
    (num base size precision type : ℕ)
    → 2 ≤ base
    → base ≤ 36
    → Returns (number num base size precision type)
number-Returns num base size precision type lo hi =
    let (text, e, w) = number_width num base size precision type lo hi in rw e (returns text)

number-octal : (num size precision type : ℕ) → Returns (number num 8 size precision type)
number-octal num size precision type =
    number-Returns num 8 size precision type (omega arith) (omega arith)

number-decimal : (num size precision type : ℕ) → Returns (number num 10 size precision type)
number-decimal num size precision type =
    number-Returns num 10 size precision type (omega arith) (omega arith)

number-hexadecimal : (num size precision type : ℕ) → Returns (number num 16 size precision type)
number-hexadecimal num size precision type =
    number-Returns num 16 size precision type (omega arith) (omega arith)

module _ (args : ℕ → ℕ) (texts : ℕ → List ℕ) where
  scan_width-le :
      (flags next : ℕ) (fmt : List ℕ)
      → length ((scan_width args texts flags next fmt).rest) ≤ length fmt
  unfolding scan_width
  scan_width-le flags next [] = omega arith
  scan_width-le flags next (c ∷ fmt) = ground (arith, skip_atoi-le (c ∷ fmt))

  scan_precision_value-le :
      (s : Spec) (fmt : List ℕ) → length ((scan_precision_value args texts s fmt).rest) ≤ length fmt
  unfolding scan_precision_value
  scan_precision_value-le s [] = omega arith
  scan_precision_value-le s (c ∷ fmt) = ground (arith, skip_atoi-le (c ∷ fmt))

  scan_precision-le :
      (s : Spec) (fmt : List ℕ)
      → length s.rest ≤ length fmt
      → length ((scan_precision args texts s fmt).rest) ≤ length fmt
  unfolding scan_precision
  scan_precision-le s [] h = h
  scan_precision-le s (c ∷ fmt) h = ground (arith, scan_precision_value-le s fmt)

  convert-Returns : (c : ℕ) (s : Spec) (o : Out) → Returns (convert args texts c s o)
  unfolding convert
  convert-Returns c s o =
      search (returns, Returns-if, Returns->>=, number-octal, number-decimal, number-hexadecimal)
        depth 20

  Shorter : ℕ → Option (Out × List ℕ) → Type 0
  Shorter n o = (r : Out × List ℕ) × (o ≡ some r) × (length r.1 ≤ n)

  convert_next-Shorter :
      (n : ℕ) (fmt : List ℕ) (s : Spec) (o : Out)
      → length fmt ≤ n
      → Shorter n (convert_next args texts fmt s o)
  unfolding convert_next Shorter
  convert_next-Shorter n [] s o h =
      ((record (emit (b'%' ∷ []) o) { next = s.taken }, []), refl, omega arith)
  convert_next-Shorter n (c ∷ fmt) s o h =
      let (o', e) = Returns-eq (convert-Returns c s o) in
      ((o', fmt), ap (λ m. m >>= λ q. some (q, fmt)) e, omega (arith, h))

  -- A specification leaves a shorter format than the one with its percent sign.
  directive-Shorter : (fmt : List ℕ) (o : Out) → Shorter (length fmt) (directive args texts fmt o)
  unfolding directive
  directive-Shorter fmt o =
      let f = scan_flags 0 fmt in
      let w = scan_width args texts f.0 o.next f.1 in
      let p = scan_precision args texts w w.rest in
      convert_next-Shorter (length fmt) (skip_qualifier p.rest) p o (
        omega (
          arith,
          scan_flags-le 0 fmt,
          scan_width-le f.0 o.next f.1,
          scan_precision-le w w.rest (omega arith),
          skip_qualifier-le p.rest,
        ))

  pub format_from-Returns :
      (fuel : ℕ) (fmt : List ℕ) (o : Out)
      → length fmt < fuel
      → Returns (format_from args texts fuel fmt o)
  unfolding format_from Shorter
  format_from-Returns zero fmt o h = absurd (omega (arith, h))
  format_from-Returns (suc fuel) [] o h = returns o
  format_from-Returns (suc fuel) (c ∷ fmt) o h =
      let ((o', rest), e, le) = directive-Shorter fmt o in
      Returns-if (c == b'%') (rw e (format_from-Returns fuel rest o' (omega (arith, h, le))))
        (format_from-Returns fuel fmt (emit (c ∷ []) o) (omega (arith, h)))

  -- `vsprintf` returns for every format and all arguments.
  pub vsprintf-Returns : (fmt : List ℕ) → (o : Out) × (vsprintf args texts fmt ≡ some o)
  unfolding vsprintf
  vsprintf-Returns fmt = Returns-eq (
      format_from-Returns (length fmt + 1) fmt (record { text = []; next = 0; stores = [] })
        (omega arith))
