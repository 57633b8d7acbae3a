-- ===== src/Base/Masks.antt =====
-- Masks: `x & (2 ^ k - 1)` keeps the low digits, `x & ~(2 ^ k - 1)` the high ones, and `|` of
-- numbers with no digit in common adds them.
use Prim.Native.Nat.{
  ℕ, zero, suc, ◌+◌, ◌-◌, ◌*◌, ◌/◌, ◌%◌, ◌^◌, ◌<◌, bit_and, bit_or, max, digits, bit_or-bitwise,
  ◌≤◌,
}
use mathlib.Core.Path.{◌≡◌, refl, ap, ◌∙◌}
use native.Mathlib.Nat.{
  pow-suc, mod-lt, mod-eq_of_lt, mod-add-div', add-mul-mod_self_right, div-div-eq-div-mul,
}
use native.Mathlib.Omega.{arith}
use night.Base.Words.{bit_and-halves, bit_or-halves, bit_and-zero, pow-pos}

mod_double : (x n : ℕ) → 0 < n → x % (n * 2) ≡ x / 2 % n * 2 + x % 2
mod_double x n h =
    let low : x / 2 % n < n = mod-lt (x / 2) h in
    let parts : x ≡ x / 2 % n * 2 + x % 2 + x / 2 / n * (n * 2) =
      omega (arith, mod-add-div' (x / 2) n) in
    ap (λ t. t % (n * 2)) parts
    ∙ add-mul-mod_self_right (x / 2 % n * 2 + x % 2) (x / 2 / n) (n * 2)
    ∙ mod-eq_of_lt (omega (arith, low))

-- `x & (2 ^ k - 1)` is `x` modulo `2 ^ k`.
pub bit_and-low : (k x : ℕ) → bit_and x (2 ^ k - 1) ≡ x % 2 ^ k
bit_and-low zero x = omega (arith, bit_and-zero x)
bit_and-low (suc k) x =
    let half : (2 ^ suc k - 1) / 2 ≡ 2 ^ k - 1 = omega (arith, pow-suc 2 k, pow-pos k) in
    let odd : (2 ^ suc k - 1) % 2 ≡ 1 = omega (arith, pow-suc 2 k, pow-pos k) in
    omega (
      arith,
      bit_and-halves x (2 ^ suc k - 1),
      ap (bit_and (x / 2)) half,
      odd,
      bit_and-low k (x / 2),
      mod_double x (2 ^ k) (pow-pos k),
      ap (λ n. x % n) (pow-suc 2 k),
    )

nothing_or : (rounds x : ℕ) → x ≤ rounds → digits (λ b. b) max rounds x 0 ≡ x
nothing_or zero x h = omega arith
nothing_or (suc rounds) zero h = refl
nothing_or (suc rounds) (suc x) h = omega (arith, nothing_or rounds (suc x / 2) (omega arith))

pub bit_or-zero : (x : ℕ) → bit_or x 0 ≡ x
bit_or-zero x = bit_or-bitwise x 0 ∙ nothing_or x x (omega arith)

-- `(a << k) | b` is a sum when `b` fits below.
pub bit_or-add : (k a b : ℕ) → b < 2 ^ k → bit_or (a * 2 ^ k) b ≡ a * 2 ^ k + b
bit_or-add zero a b h =
    let none : b ≡ 0 = omega arith in rw none (omega (arith, bit_or-zero (a * 2 ^ 0)))
bit_or-add (suc k) a b h =
    let wide : a * 2 ^ suc k ≡ a * 2 ^ k * 2 = omega (arith, ap (λ t. a * t) (pow-suc 2 k)) in
    let half : a * 2 ^ suc k / 2 ≡ a * 2 ^ k = omega (arith, wide) in
    omega (
      arith,
      wide,
      bit_or-halves (a * 2 ^ suc k) b,
      ap (λ t. bit_or t (b / 2)) half,
      bit_or-add k a (b / 2) (omega (arith, pow-suc 2 k)),
    )

-- `x & (m << k)`
pub bit_and-high : (k x m : ℕ) → bit_and x (m * 2 ^ k) ≡ bit_and (x / 2 ^ k) m * 2 ^ k
bit_and-high zero x m =
    let same : m * 2 ^ 0 ≡ m = omega arith in
    let same' : x / 2 ^ 0 ≡ x = omega arith in
    omega (arith, ap (bit_and x) same, ap (λ t. bit_and t m) same')
bit_and-high (suc k) x m =
    let wide : m * 2 ^ suc k ≡ m * 2 ^ k * 2 = omega (arith, ap (λ t. m * t) (pow-suc 2 k)) in
    let half : m * 2 ^ suc k / 2 ≡ m * 2 ^ k = omega (arith, wide) in
    let down : x / 2 / 2 ^ k ≡ x / 2 ^ suc k =
      div-div-eq-div-mul x 2 (2 ^ k) ∙ ap (λ t. x / t) (omega (arith, pow-suc 2 k)) in
    omega (
      arith,
      wide,
      bit_and-halves x (m * 2 ^ suc k),
      ap (bit_and (x / 2)) half,
      bit_and-high k (x / 2) m,
      ap (λ t. bit_and t m * 2 ^ k) down,
      ap (λ t. bit_and (x / 2 ^ suc k) m * t) (pow-suc 2 k),
    )

-- The same sum with the low part first.
pub bit_or-add_low : (k a b : ℕ) → b < 2 ^ k → bit_or b (a * 2 ^ k) ≡ a * 2 ^ k + b
bit_or-add_low zero a b h =
    let none : b ≡ 0 = omega arith in rw none (omega (arith, bit_or-bitwise 0 (a * 2 ^ 0)))
bit_or-add_low (suc k) a b h =
    let wide : a * 2 ^ suc k ≡ a * 2 ^ k * 2 = omega (arith, ap (λ t. a * t) (pow-suc 2 k)) in
    let half : a * 2 ^ suc k / 2 ≡ a * 2 ^ k = omega (arith, wide) in
    omega (
      arith,
      wide,
      bit_or-halves b (a * 2 ^ suc k),
      ap (λ t. bit_or (b / 2) t) half,
      bit_or-add_low k a (b / 2) (omega (arith, pow-suc 2 k)),
    )
