-- ===== src/Libk/VsprintfLaws.antt =====
-- What `vsprintf` of lib/libk/src/string.c writes for formats of plain characters and conversions
-- with no flags, width or precision, as the kernel's own messages are.
use night.Base.{
  ℕ, zero, suc, ◌+◌, ◌-◌, ◌%◌, ◌^◌, ◌<◌, ◌≡◌, ◌≢◌, refl, ap, false, Option, some, List, [], ◌∷◌,
  length, ltb, leb, ◌==◌, if◌then◌else◌, ◌>>=◌, arith, Bool-cases, inl, inr,
}
use night.Libk.Arith.{u32}
use night.Libk.Format.{
  is_digit, digit_chars, small, number_tmp, write_back, repeat, sign_char, prefix, number,
}
use night.Libk.Vsprintf.{
  Out, emit, first_chars, flag_of, negate, is_negative, directive, format_from, vsprintf,
}

-- A character that stands for itself, and the conversions %s, %d, %u, %x, %X, %c and %%.
pub data Piece : Type 0 where
  itself : ℕ → Piece
  text int unsigned hex upper_hex char percent : Piece

-- The format of a list of pieces.
unfoldable pub format_of : List Piece → List ℕ
format_of [] = []
format_of (itself c ∷ ps) = c ∷ format_of ps
format_of (text ∷ ps) = b'%' ∷ b's' ∷ format_of ps
format_of (int ∷ ps) = b'%' ∷ b'd' ∷ format_of ps
format_of (unsigned ∷ ps) = b'%' ∷ b'u' ∷ format_of ps
format_of (hex ∷ ps) = b'%' ∷ b'x' ∷ format_of ps
format_of (upper_hex ∷ ps) = b'%' ∷ b'X' ∷ format_of ps
format_of (char ∷ ps) = b'%' ∷ b'c' ∷ format_of ps
format_of (percent ∷ ps) = b'%' ∷ b'%' ∷ format_of ps

-- Whether the pieces that stand for themselves are no percent signs.
abbrev pub IsPlain : List Piece → Type 0
IsPlain [] = Unit {0}
IsPlain (itself c ∷ ps) = (c ≢ b'%') × IsPlain ps
IsPlain (p ∷ ps) = IsPlain ps

-- The digits of a number, the highest first.
abbrev pub digits_of : (base type n : ℕ) → List ℕ
digits_of base type n = write_back (number_tmp n base (digit_chars type)) []

-- An int by its bit pattern, in decimal.
abbrev pub int_text : ℕ → List ℕ
int_text w = if is_negative w then b'-' ∷ digits_of 10 0 (negate w) else digits_of 10 0 w

-- With neither width nor precision, `number` fills with no blanks and no zeros.
no_padding :
    (i : ℕ)
    → (0 - (if ltb 0 i then i else 0) ≡ 0)
      × (0 - 1 - (if ltb 0 i then i else 0) ≡ 0)
      × ((if ltb 0 i then i else 0) - i ≡ 0)
no_padding i = (omega arith, omega arith, ground arith)

module _ (num : ℕ) where
  number-unsigned : number num 10 0 0 0 ≡ some (digits_of 10 0 num)
  unfolding number repeat prefix sign_char
  number-unsigned =
      let (blanks, _, zeros) = no_padding (length (number_tmp num 10 (digit_chars 0))) in
      rw (blanks, zeros) refl

  number-hex : number num 16 0 0 small ≡ some (digits_of 16 small num)
  unfolding number repeat prefix sign_char
  number-hex =
      let (blanks, _, zeros) = no_padding (length (number_tmp num 16 (digit_chars small))) in
      rw (blanks, zeros) refl

  number-upper_hex : number num 16 0 0 0 ≡ some (digits_of 16 0 num)
  unfolding number repeat prefix sign_char
  number-upper_hex =
      let (blanks, _, zeros) = no_padding (length (number_tmp num 16 (digit_chars 0))) in
      rw (blanks, zeros) refl

  number-int : number num 10 0 0 2 ≡ some (int_text num)
  unfolding number repeat prefix sign_char
  number-int = elim (Bool-cases (leb (2 ^ 31) num)) [
    | inl y ↦
        let i = length (number_tmp (u32 (2 ^ 32 - num)) 10 (digit_chars 0)) in
        let (_, blanks, zeros) = no_padding i in rw (y, blanks, zeros) refl
    | inr y ↦
        let (blanks, _, zeros) = no_padding (length (number_tmp num 10 (digit_chars 0))) in
        rw (y, blanks, zeros) refl
  ]

module _ (args : ℕ → ℕ) (texts : ℕ → List ℕ) where
  -- What a piece shows, given the number of arguments that were taken before it.
  abbrev pub shown : (next : ℕ) → Piece → List ℕ
  shown next (itself c) = c ∷ []
  shown next text = texts (args next)
  shown next int = int_text (args next)
  shown next unsigned = digits_of 10 0 (args next)
  shown next hex = digits_of 16 small (args next)
  shown next upper_hex = digits_of 16 0 (args next)
  shown next char = args next % 2 ^ 8 ∷ []
  shown next percent = b'%' ∷ []

  -- The number of arguments that were taken after it.
  abbrev pub taken : (next : ℕ) → Piece → ℕ
  taken next (itself c) = next
  taken next percent = next
  taken next _ = next + 1

  unfoldable pub rendered : List Piece → Out → Out
  rendered [] o = o
  rendered (p ∷ ps) o = rendered ps (record (emit (shown o.next p) o) { next = taken o.next p })

  first_chars-all : (t : List ℕ) → first_chars (length t) t ≡ t
  unfolding first_chars
  first_chars-all [] = refl
  first_chars-all (c ∷ t) = ap (◌∷◌ c) (first_chars-all t)

  directive-text :
      (fmt : List ℕ) (o : Out)
      → directive args texts (b's' ∷ fmt) o
        ≡ some (record (emit (texts (args o.next)) o) { next = o.next + 1 }, fmt)
  unfolding directive flag_of repeat is_digit
  directive-text fmt o =
      let no_pad : 0 - length (texts (args o.next)) ≡ 0 = omega arith in
      rw (no_pad, first_chars-all (texts (args o.next))) refl

  -- One piece is one round of the loop, or a specification.
  module _ (fmt : List ℕ) (o : Out) where
    abbrev past : Piece → Out
    past p = record (emit (shown o.next p) o) { next = taken o.next p }

    -- The end of a conversion of a number.
    abbrev placed : Option (List ℕ) → Option (Out × List ℕ)
    placed q =
        ◌>>=◌ {B = Out × List ℕ}
          (◌>>=◌ {B = Out} q (λ t. some (record (emit t o) { next = o.next + 1 })))
          (λ o'. some (o', fmt))

    directive-int : directive args texts (b'd' ∷ fmt) o ≡ some (past int, fmt)
    unfolding directive flag_of is_digit
    directive-int = ap placed (number-int (args o.next))

    directive-unsigned : directive args texts (b'u' ∷ fmt) o ≡ some (past unsigned, fmt)
    unfolding directive flag_of is_digit
    directive-unsigned = ap placed (number-unsigned (args o.next))

    directive-hex : directive args texts (b'x' ∷ fmt) o ≡ some (past hex, fmt)
    unfolding directive flag_of is_digit
    directive-hex = ap placed (number-hex (args o.next))

    directive-upper_hex : directive args texts (b'X' ∷ fmt) o ≡ some (past upper_hex, fmt)
    unfolding directive flag_of is_digit
    directive-upper_hex = ap placed (number-upper_hex (args o.next))

    directive-char : directive args texts (b'c' ∷ fmt) o ≡ some (past char, fmt)
    unfolding directive flag_of is_digit repeat
    directive-char = refl

    directive-percent : directive args texts (b'%' ∷ fmt) o ≡ some (past percent, fmt)
    unfolding directive flag_of is_digit
    directive-percent = refl

  format_from-rendered :
      (fuel : ℕ) (ps : List Piece) (o : Out)
      → IsPlain ps
      → length (format_of ps) < fuel
      → format_from args texts fuel (format_of ps) o ≡ some (rendered ps o)
  unfolding format_from format_of rendered
  format_from-rendered zero ps o plain h = absurd (omega (arith, h))
  format_from-rendered (suc fuel) [] o plain h = refl
  format_from-rendered (suc fuel) (itself c ∷ ps) o plain h =
      let other : (c == b'%') ≡ false = ground (arith, plain.0) in
      rw other (format_from-rendered fuel ps (past [] o (itself c)) plain.1 (omega (arith, h)))
  format_from-rendered (suc fuel) (text ∷ ps) o plain h =
      rw (directive-text (format_of ps) o)
        (format_from-rendered fuel ps (past [] o text) plain (omega (arith, h)))
  format_from-rendered (suc fuel) (int ∷ ps) o plain h =
      rw (directive-int (format_of ps) o)
        (format_from-rendered fuel ps (past [] o int) plain (omega (arith, h)))
  format_from-rendered (suc fuel) (unsigned ∷ ps) o plain h =
      rw (directive-unsigned (format_of ps) o)
        (format_from-rendered fuel ps (past [] o unsigned) plain (omega (arith, h)))
  format_from-rendered (suc fuel) (hex ∷ ps) o plain h =
      rw (directive-hex (format_of ps) o)
        (format_from-rendered fuel ps (past [] o hex) plain (omega (arith, h)))
  format_from-rendered (suc fuel) (upper_hex ∷ ps) o plain h =
      rw (directive-upper_hex (format_of ps) o)
        (format_from-rendered fuel ps (past [] o upper_hex) plain (omega (arith, h)))
  format_from-rendered (suc fuel) (char ∷ ps) o plain h =
      rw (directive-char (format_of ps) o)
        (format_from-rendered fuel ps (past [] o char) plain (omega (arith, h)))
  format_from-rendered (suc fuel) (percent ∷ ps) o plain h =
      rw (directive-percent (format_of ps) o)
        (format_from-rendered fuel ps (past [] o percent) plain (omega (arith, h)))

  -- A format of plain characters and conversions without flags is written with each conversion
  -- replaced by what its argument shows, the arguments taken in order.
  pub vsprintf-format_of :
      (ps : List Piece)
      → IsPlain ps
      → vsprintf args texts (format_of ps)
        ≡ some (rendered ps (record { text = []; next = 0; stores = [] }))
  unfolding vsprintf
  vsprintf-format_of ps plain =
      format_from-rendered (length (format_of ps) + 1) ps
        (record { text = []; next = 0; stores = [] }) plain (omega arith)
