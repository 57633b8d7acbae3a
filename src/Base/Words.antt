-- ===== src/Base/Words.antt =====
-- The binary digits of a machine word, and what `&`, `|` and `~` do to each of them. The native
-- operations on bits compute at numerals; these are their laws at variables.
use Prim.Native.Nat.{
  ℕ, zero, suc, ◌+◌, ◌-◌, ◌*◌, ◌/◌, ◌%◌, ◌^◌, ◌≤◌, ◌<◌, min, max, bit_and, bit_or, digits,
  bit_and-bitwise, bit_or-bitwise,
}
use mathlib.Core.Path.{◌≡◌, refl, ap, sym, ◌∙◌}
use mathlib.Core.Logic.{◌≢◌, ◌↔◌, ◌⊎◌, inl, inr}
use native.Mathlib.Nat.{pow-suc}
use native.Mathlib.Omega.{arith}

-- The digit recursion behind both operations: `stop` is what an exhausted first word leaves of the
-- second, and `op` joins two digits. The rounds that are left over do not matter.
module _ (stop : ℕ → ℕ) (op : ℕ → ℕ → ℕ) where
  exhausted : (rounds y : ℕ) → digits stop op rounds 0 y ≡ stop y
  exhausted zero y = refl
  exhausted (suc rounds) y = refl

  same_digits : (k l x y : ℕ) → x ≤ k → x ≤ l → digits stop op k x y ≡ digits stop op l x y
  same_digits k l zero y in_k in_l = exhausted k y ∙ sym (exhausted l y)
  same_digits zero l (suc x) y in_k in_l = elim in_k [ ]
  same_digits (suc k) zero (suc x) y in_k in_l = elim in_l [ ]
  same_digits (suc k) (suc l) (suc x) y in_k in_l =
      ap (λ t. t * 2 + op (suc x % 2) (y % 2))
        (same_digits k l (suc x / 2) (y / 2) (omega arith) (omega arith))

  -- One round, the rest started afresh.
  lowest_digit :
      (x y : ℕ)
      → digits stop op (suc x) (suc x) y
        ≡ digits stop op (suc x / 2) (suc x / 2) (y / 2) * 2 + op (suc x % 2) (y % 2)
  lowest_digit x y =
      ap (λ t. t * 2 + op (suc x % 2) (y % 2))
        (same_digits x (suc x / 2) (suc x / 2) (y / 2) (omega arith) (omega arith))

pub bit_and-halves : (x y : ℕ) → bit_and x y ≡ bit_and (x / 2) (y / 2) * 2 + min (x % 2) (y % 2)
bit_and-halves zero y = omega (arith, bit_and-bitwise 0 y, bit_and-bitwise 0 (y / 2))
bit_and-halves (suc x) y = omega (
  arith,
  lowest_digit (λ b. zero) min x y,
  bit_and-bitwise (suc x) y,
  bit_and-bitwise (suc x / 2) (y / 2),
)

pub bit_or-halves : (x y : ℕ) → bit_or x y ≡ bit_or (x / 2) (y / 2) * 2 + max (x % 2) (y % 2)
bit_or-halves zero y = omega (arith, bit_or-bitwise 0 y, bit_or-bitwise 0 (y / 2))
bit_or-halves (suc x) y = omega (
  arith,
  lowest_digit (λ b. b) max x y,
  bit_or-bitwise (suc x) y,
  bit_or-bitwise (suc x / 2) (y / 2),
)

-- Digit `i` of `w`, 0 or 1.
unfoldable pub bit : ℕ → ℕ → ℕ
bit w zero = w % 2
bit w (suc i) = bit (w / 2) i

pub bit-le_one : (w i : ℕ) → bit w i ≤ 1
unfolding bit
bit-le_one w zero = omega arith
bit-le_one w (suc i) = bit-le_one (w / 2) i

pub bit-bit_and : (a b i : ℕ) → bit (bit_and a b) i ≡ min (bit a i) (bit b i)
unfolding bit
bit-bit_and a b zero = omega (arith, bit_and-halves a b)
bit-bit_and a b (suc i) =
    let e : bit_and a b / 2 ≡ bit_and (a / 2) (b / 2) = omega (arith, bit_and-halves a b) in
    rw e (bit-bit_and (a / 2) (b / 2) i)

pub bit-bit_or : (a b i : ℕ) → bit (bit_or a b) i ≡ max (bit a i) (bit b i)
unfolding bit
bit-bit_or a b zero = omega (arith, bit_or-halves a b)
bit-bit_or a b (suc i) =
    let e : bit_or a b / 2 ≡ bit_or (a / 2) (b / 2) = omega (arith, bit_or-halves a b) in
    rw e (bit-bit_or (a / 2) (b / 2) i)

pub bit-zero : (i : ℕ) → bit 0 i ≡ 0
unfolding bit
bit-zero zero = refl
bit-zero (suc i) = bit-zero i

half-pow : (n : ℕ) → 2 ^ suc n / 2 ≡ 2 ^ n
half-pow n = omega (arith, pow-suc 2 n)

pub bit-pow_self : (n : ℕ) → bit (2 ^ n) n ≡ 1
unfolding bit
bit-pow_self zero = refl
bit-pow_self (suc n) = rw half-pow (bit-pow_self n)

pub bit-pow_ne : (n i : ℕ) → n ≢ i → bit (2 ^ n) i ≡ 0
unfolding bit
bit-pow_ne zero zero h = absurd (h refl)
bit-pow_ne zero (suc i) h = bit-zero i
bit-pow_ne (suc n) zero h = omega (arith, pow-suc 2 n)
bit-pow_ne (suc n) (suc i) h = rw half-pow (bit-pow_ne n i (omega arith))

-- `~x` on words of `n` digits flips each digit.
pub bit_complement : (n x i : ℕ) → x < 2 ^ n → i < n → bit (2 ^ n - 1 - x) i ≡ 1 - bit x i
unfolding bit
bit_complement zero x i h lt = absurd (omega arith)
bit_complement (suc n) x zero h lt = omega (arith, pow-suc 2 n)
bit_complement (suc n) x (suc i) h lt =
    let e : (2 ^ suc n - 1 - x) / 2 ≡ 2 ^ n - 1 - x / 2 = omega (arith, pow-suc 2 n) in
    rw e (bit_complement n (x / 2) i (omega (arith, pow-suc 2 n)) (omega arith))

pub pow-pos : (n : ℕ) → 0 < 2 ^ n
pow-pos zero = omega arith
pow-pos (suc n) = omega (arith, pow-suc 2 n, pow-pos n)

pub pow_lt : (i n : ℕ) → i < n → 2 ^ i < 2 ^ n
pow_lt i zero h = absurd (omega arith)
pow_lt zero (suc n) h = omega (arith, pow-suc 2 n, pow-pos n)
pow_lt (suc i) (suc n) h = omega (arith, pow-suc 2 n, pow-suc 2 i, pow_lt i n (omega arith))

and_nothing : (rounds x : ℕ) → digits (λ b. zero) min rounds x 0 ≡ 0
and_nothing zero x = refl
and_nothing (suc rounds) zero = refl
and_nothing (suc rounds) (suc x) = omega (arith, and_nothing rounds (suc x / 2))

pub bit_and-zero : (x : ℕ) → bit_and x 0 ≡ 0
bit_and-zero x = bit_and-bitwise x 0 ∙ and_nothing x x

-- `w & (1 << i)` isolates digit `i`.
pub bit_and-pow : (w i : ℕ) → bit_and w (2 ^ i) ≡ bit w i * 2 ^ i
unfolding bit
bit_and-pow w zero = omega (arith, bit_and-halves w 1, bit_and-zero (w / 2))
bit_and-pow w (suc i) =
    let step : bit_and w (2 ^ suc i) ≡ bit_and (w / 2) (2 ^ suc i / 2) * 2 =
      omega (arith, bit_and-halves w (2 ^ suc i), pow-suc 2 i) in
    let wide : bit (w / 2) i * 2 ^ suc i ≡ bit (w / 2) i * (2 ^ i * 2) =
      ap (λ t. bit (w / 2) i * t) (pow-suc 2 i) in
    let total : bit_and w (2 ^ suc i) ≡ bit (w / 2) i * 2 ^ suc i =
      omega (arith, step, wide, ap (bit_and (w / 2)) (half-pow i), bit_and-pow (w / 2) i) in
    total

-- A test `w & (1 << i)` is zero exactly when digit `i` is.
pub bit_and-pow_zero : (w i : ℕ) → bit_and w (2 ^ i) ≡ 0 ↔ bit w i ≡ 0
bit_and-pow_zero w i = (
  λ h. elim (Zero-or-one (bit w i) (bit-le_one w i)) [
    | inl z ↦ z
    | inr o ↦ absurd (omega (arith, h, bit_and-pow w i, pow-pos i, ap (λ (t : ℕ). t * 2 ^ i) o))
  ],
  λ h. omega (arith, bit_and-pow w i, ap (λ (t : ℕ). t * 2 ^ i) h),
)
  where
    Zero-or-one : (b : ℕ) → b ≤ 1 → (b ≡ 0) ⊎ (b ≡ 1)
    Zero-or-one b h = omega arith
