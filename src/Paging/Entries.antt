-- ===== src/Paging/Entries.antt =====
-- The words of a page table: flags in the low twelve digits, the frame above them.
use night.Base.{
  ℕ, zero, suc, ◌-◌, ◌*◌, ◌/◌, ◌%◌, ◌^◌, ◌<◌, ◌≡◌, ap, sym, ◌∙◌, bit_and, bit_or, arith, ◌⊎◌, inl,
  inr,
}
use night.Base.Masks.{bit_and-low, bit_and-high, bit_or-zero}
use native.Mathlib.Nat.{pow-suc, div-div-eq-div-mul}
use night.Base.Words.{bit_or-halves}

abbrev pub page_present : ℕ
page_present = 1

abbrev pub page_rw : ℕ
page_rw = 2

abbrev pub page_user : ℕ
page_user = 4

abbrev pub page_flags : ℕ
page_flags = 0xFFF

abbrev pub page_mask : ℕ
page_mask = 0xFFFFF000

pub bit_and-present : (e : ℕ) → bit_and e page_present ≡ e % 2
bit_and-present e = omega (arith, bit_and-low 1 e)

pub bit_and-flags : (x : ℕ) → bit_and x page_flags ≡ x % 4096
bit_and-flags x = omega (arith, bit_and-low 12 x)

-- `e & PAGE_FRAME`
pub bit_and-frame : (e : ℕ) → e < 2 ^ 32 → bit_and e page_mask ≡ e / 4096 * 4096
bit_and-frame e h = omega (arith, bit_and-high 12 e (2 ^ 20 - 1), bit_and-low 20 (e / 2 ^ 12))

-- `|` digit by digit, from the digit `n` on.
bit_or-shift : (n a b : ℕ) → bit_or a b / 2 ^ n ≡ bit_or (a / 2 ^ n) (b / 2 ^ n)
bit_or-shift zero a b =
    let here : (x : ℕ) → x / 2 ^ 0 ≡ x = λ x. omega arith in
    here (bit_or a b) ∙ sym (ap (λ t. bit_or t (b / 2 ^ 0)) (here a) ∙ ap (bit_or a) (here b))
bit_or-shift (suc n) a b =
    let down : (x : ℕ) → x / 2 / 2 ^ n ≡ x / 2 ^ suc n =
      λ x. div-div-eq-div-mul x 2 (2 ^ n) ∙ ap (λ t. x / t) (omega (arith, pow-suc 2 n)) in
    let half : bit_or a b / 2 ≡ bit_or (a / 2) (b / 2) = omega (arith, bit_or-halves a b) in
    sym (down (bit_or a b))
    ∙ ap (λ t. t / 2 ^ n) half
    ∙ bit_or-shift n (a / 2) (b / 2)
    ∙ ap (λ t. bit_or t (b / 2 / 2 ^ n)) (down a)
    ∙ ap (bit_or (a / 2 ^ suc n)) (down b)

-- Setting flags keeps the frame, and sets PAGE_PRESENT when they have it.
pub bit_or-frame : (e flags : ℕ) → flags < 4096 → bit_or e flags / 4096 ≡ e / 4096
bit_or-frame e flags h =
    let none : flags / 2 ^ 12 ≡ 0 = omega arith in
    bit_or-shift 12 e flags ∙ ap (bit_or (e / 2 ^ 12)) none ∙ bit_or-zero (e / 2 ^ 12)

pub bit_or-present : (e flags : ℕ) → e % 2 ≡ 1 ⊎ flags % 2 ≡ 1 → bit_or e flags % 2 ≡ 1
bit_or-present e flags (inl h) = omega (arith, bit_or-halves e flags, h)
bit_or-present e flags (inr h) = omega (arith, bit_or-halves e flags, h)

-- The word of a page: an address of a frame, present, with flags.
unfoldable pub entry : (phys flags : ℕ) → ℕ
entry phys flags = bit_or (bit_or phys page_present) (bit_and flags page_flags)

pub entry-frame : (phys flags : ℕ) → entry phys flags / 4096 ≡ phys / 4096
unfolding entry
entry-frame phys flags =
    bit_or-frame (bit_or phys page_present) (bit_and flags page_flags)
      (omega (arith, bit_and-flags flags))
    ∙ bit_or-frame phys page_present (omega arith)

pub entry-present : (phys flags : ℕ) → entry phys flags % 2 ≡ 1
unfolding entry
entry-present phys flags =
    bit_or-present (bit_or phys page_present) (bit_and flags page_flags)
      (inl (bit_or-present phys page_present (inr (omega arith))))
