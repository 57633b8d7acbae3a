-- ===== src/Libk/FormatLaws.antt =====
-- Numbers written by `number` and read by `skip_atoi` of lib/libk/src/string.c, and the width that
-- `number` fills.
use night.Base.{
  ℕ, zero, suc, ◌+◌, ◌-◌, ◌*◌, ◌/◌, ◌%◌, ◌^◌, ◌≤◌, ◌<◌, ◌≡◌, refl, ap, sym, ◌∙◌, true, false, ◌&&◌,
  ◌||◌, some, List, [], ◌∷◌, ◌++◌, length, length-append, get_or, ltb, leb, ◌==◌, if◌then◌else◌,
  arith, Bool-cases, inl, inr,
}
use Prim.Native.Nat.{max}
use night.Libk.Arith.{u32}
use native.Mathlib.Nat.{pow-suc}
use night.Libk.Format.{
  sign_flag, left, zeropad, is_digit, skip_atoi_from, skip_atoi, digit_chars, number_digits,
  number_tmp, write_back, repeat, sign_char, prefix, opt_char, number, has,
}

decimal : (d : ℕ) → d < 10 → get_or (digit_chars 0) d 0 ≡ b'0' + d
decimal zero h = refl
decimal (suc zero) h = refl
decimal (suc (suc zero)) h = refl
decimal (suc (suc (suc zero))) h = refl
decimal (suc (suc (suc (suc zero)))) h = refl
decimal (suc (suc (suc (suc (suc zero))))) h = refl
decimal (suc (suc (suc (suc (suc (suc zero)))))) h = refl
decimal (suc (suc (suc (suc (suc (suc (suc zero))))))) h = refl
decimal (suc (suc (suc (suc (suc (suc (suc (suc zero)))))))) h = refl
decimal (suc (suc (suc (suc (suc (suc (suc (suc (suc zero))))))))) h = refl
decimal (suc (suc (suc (suc (suc (suc (suc (suc (suc (suc d)))))))))) h = absurd (omega (arith, h))

-- Reading one digit behind the value `n / 10` gives `n`.
skip_atoi_from-digit :
    (n : ℕ) (s : List ℕ)
    → n < 2 ^ 31
    → skip_atoi_from (n / 10) (get_or (digit_chars 0) (n % 10) 0 ∷ s) ≡ skip_atoi_from n s
unfolding skip_atoi_from is_digit
skip_atoi_from-digit n s h =
    let d : n % 10 < 10 = omega arith in
    let c : get_or (digit_chars 0) (n % 10) 0 ≡ b'0' + n % 10 = decimal (n % 10) d in
    let yes : (leb b'0' (b'0' + n % 10) && leb (b'0' + n % 10) b'9') ≡ true = ground arith in
    let value : u32 (n / 10 * 10 + (b'0' + n % 10) + 2 ^ 32 - b'0') ≡ n = omega arith in
    rw (c, yes, value) refl

skip_atoi_from-number_digits :
    (rounds n : ℕ) (s : List ℕ)
    → n < 2 ^ 31
    → n < 2 ^ rounds
    → skip_atoi_from 0 (write_back (number_digits rounds n 10 (digit_chars 0)) s)
      ≡ skip_atoi_from n s
unfolding number_digits write_back
skip_atoi_from-number_digits zero n s h enough =
    let none : n ≡ 0 = omega arith in ap (λ k. skip_atoi_from k s) (sym none)
skip_atoi_from-number_digits (suc rounds) n s h enough = elim (Bool-cases (n == 0)) [
  | inl y ↦ let none : n ≡ 0 = ground arith in rw y (ap (λ k. skip_atoi_from k s) (sym none))
  | inr y ↦ rw y (
      skip_atoi_from-number_digits rounds (n / 10) (get_or (digit_chars 0) (n % 10) 0 ∷ s)
        (omega arith) (omega (arith, pow-suc 2 rounds))
      ∙ skip_atoi_from-digit n s h)
]

-- With no flags, width or precision, only the digits are written.
number-plain : (n : ℕ) → number n 10 0 0 0 ≡ some (write_back (number_tmp n 10 (digit_chars 0)) [])
unfolding number repeat prefix sign_char
number-plain n =
    let i = length (number_tmp n 10 (digit_chars 0)) in
    let no_pad : 0 - (if ltb 0 i then i else 0) ≡ 0 = omega arith in
    let no_zeros : (if ltb 0 i then i else 0) - i ≡ 0 = ground arith in rw (no_pad, no_zeros) refl

abbrev at_text_end : ℕ → ℕ × List ℕ
at_text_end k = (k, [])

at_end : (k : ℕ) → skip_atoi_from k [] ≡ (k, [])
unfolding skip_atoi_from
at_end k = refl

zero_text : skip_atoi_from 0 (b'0' ∷ []) ≡ (0, [])
unfolding skip_atoi_from is_digit
zero_text = refl

number_tmp-zero : (n : ℕ) → (n == 0) ≡ true → number_tmp n 10 (digit_chars 0) ≡ b'0' ∷ []
unfolding number_tmp
number_tmp-zero n y = rw y refl

number_tmp-digits :
    (n : ℕ)
    → (n == 0) ≡ false
    → number_tmp n 10 (digit_chars 0) ≡ number_digits 36 n 10 (digit_chars 0)
unfolding number_tmp
number_tmp-digits n y = rw y refl

skip_atoi_lem : (s : List ℕ) → skip_atoi s ≡ skip_atoi_from 0 s
unfolding skip_atoi
skip_atoi_lem s = refl

zero_read : skip_atoi_from 0 (write_back (b'0' ∷ []) []) ≡ (0, [])
unfolding write_back
zero_read = zero_text

skip_atoi-number_tmp :
    (n : ℕ) → n < 2 ^ 31 → skip_atoi (write_back (number_tmp n 10 (digit_chars 0)) []) ≡ (n, [])
skip_atoi-number_tmp n h =
    skip_atoi_lem (write_back (number_tmp n 10 (digit_chars 0)) []) ∙ elim (Bool-cases (n == 0)) [
      | inl y ↦
          let none : n ≡ 0 = ground arith in
          ap (λ t. skip_atoi_from 0 (write_back t [])) (number_tmp-zero n y)
          ∙ zero_read
          ∙ ap at_text_end (sym none)
      | inr y ↦
          ap (λ t. skip_atoi_from 0 (write_back t [])) (number_tmp-digits n y)
          ∙ skip_atoi_from-number_digits 36 n [] h (omega arith)
          ∙ at_end n
    ]

-- A number below 2^31 that `number` writes in base 10, with no flags, width or precision, is read
-- back by `skip_atoi`, which consumes the whole text.
pub skip_atoi-number :
    (n : ℕ)
    → n < 2 ^ 31
    → (text : List ℕ) × (number n 10 0 0 0 ≡ some text) × (skip_atoi text ≡ (n, []))
skip_atoi-number n h =
    (write_back (number_tmp n 10 (digit_chars 0)) [], number-plain n, skip_atoi-number_tmp n h)

length-repeat : (n c : ℕ) → length (repeat n c) ≡ n
unfolding repeat
length-repeat zero c = refl
length-repeat (suc n) c = ap suc (length-repeat n c)

pub length-write_back :
    (tmp rest : List ℕ) → length (write_back tmp rest) ≡ length tmp + length rest
unfolding write_back
length-write_back [] rest = omega arith
length-write_back (c ∷ tmp) rest = omega (arith, length-write_back tmp (c ∷ rest))

-- In a base from 2 to 36, `number` writes exactly as many characters as the larger of the field
-- width and of what it must show: sign, prefix, and the digits or the precision if that is more.
pub number_width :
    (num base size precision type : ℕ)
    → 2 ≤ base
    → base ≤ 36
    → let num' = if has sign_flag type && leb (2 ^ 31) num then u32 (2 ^ 32 - num) else num in
      let shown =
        length (opt_char (sign_char num type) ++ prefix base type)
        + max precision (length (number_tmp num' base (digit_chars type))) in
      (text : List ℕ) × (number num base size precision type ≡ some text)
      × (length text ≡ max size shown)
unfolding number
number_width num base size precision type lo hi =
    let num' = if has sign_flag type && leb (2 ^ 31) num then u32 (2 ^ 32 - num) else num in
    let tmp = number_tmp num' base (digit_chars type) in
    let i = length tmp in
    let p = if ltb precision i then i else precision in
    let widest : p ≡ max precision i = ground arith in
    let front = opt_char (sign_char num type) ++ prefix base type in
    let pad = size - length front - p in
    let zeros = repeat (p - i) b'0' in
    let body : length (zeros ++ write_back tmp []) ≡ p = omega (
      arith,
      length-append zeros (write_back tmp []),
      length-repeat (p - i) b'0',
      length-write_back tmp [],
      widest,
    ) in
    let in_range : (ltb base 2 || ltb 36 base) ≡ false = ground arith in
    let digits = front ++ zeros ++ write_back tmp [] in
    let whole : length digits ≡ length front + p = omega (
      arith,
      length-append (front ++ zeros) (write_back tmp []),
      length-append front zeros,
      length-append zeros (write_back tmp []),
      body,
    ) in
    elim (Bool-cases (has left type)) [
      | inl y ↦ (
        digits ++ repeat pad b' ',
        rw (in_range, y) refl,
        omega
            (arith, length-append digits (repeat pad b' '), length-repeat pad b' ', whole, widest),
      )
      | inr y ↦ elim (Bool-cases (has zeropad type)) [
        | inl z ↦ (
          front ++ repeat pad b'0' ++ zeros ++ write_back tmp [],
          rw (in_range, y, z) refl,
          omega (
            arith,
            length-append (front ++ repeat pad b'0' ++ zeros) (write_back tmp []),
            length-append (front ++ repeat pad b'0') zeros,
            length-append front (repeat pad b'0'),
            length-append zeros (write_back tmp []),
            length-repeat pad b'0',
            body,
            widest,
          ),
        )
        | inr z ↦ (
          repeat pad b' ' ++ digits,
          rw (in_range, y, z) refl,
          omega (
            arith,
            length-append (repeat pad b' ') digits,
            length-repeat pad b' ',
            whole,
            widest,
          ),
        )
      ]
    ]
