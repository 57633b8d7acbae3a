-- ===== src/Pmm/SpecLaws.antt =====
-- The searches of the specification find what they are to find.
use night.Base.{
  ℕ, zero, suc, ◌+◌, ◌≤◌, ◌<◌, ◌≡◌, refl, ap, ◌∙◌, true, false, none, some, ◌==◌, arith, Bool-cases,
  inl, inr,
}
use night.Pmm.Spec.{Blocks, lowest_free, is_free_run, lowest_run}

pub lowest_free-none :
    (u : Blocks) (k n : ℕ) → ((b : ℕ) → k ≤ b → b < k + n → u b ≡ 1) → lowest_free u k n ≡ none
unfolding lowest_free
lowest_free-none u k zero h = refl
lowest_free-none u k (suc n) h =
    let here : (u k == 0) ≡ false = ground (arith, h k (omega arith) (omega arith)) in
    rw here (lowest_free-none u (k + 1) n (λ b p q. h b (omega (arith, p)) (omega (arith, q))))

pub lowest_free-some :
    (u : Blocks) (b k n : ℕ)
    → k ≤ b
    → b < k + n
    → u b ≡ 0
    → ((c : ℕ) → k ≤ c → c < b → u c ≡ 1)
    → lowest_free u k n ≡ some b
unfolding lowest_free
lowest_free-some u b k zero p q e h = absurd (omega (arith, p, q))
lowest_free-some u b k (suc n) p q e h = elim (Bool-cases (k == b)) [
  | inl y ↦
      let same : k ≡ b = ground arith in
      let here : (u k == 0) ≡ true = ground (arith, same, e) in rw here (ap some same)
  | inr y ↦
      let less : k < b = ground (arith, p) in
      let here : (u k == 0) ≡ false = ground (arith, h k (omega arith) less) in
      rw here (
        lowest_free-some u b (k + 1) n (omega (arith, less)) (omega (arith, q)) e
          (λ c p' q'. h c (omega (arith, p')) q'))
]

pub is_free_run-free :
    (u : Blocks) (s num : ℕ)
    → ((b : ℕ) → s ≤ b → b < s + num → u b ≡ 0)
    → is_free_run u s num ≡ true
unfolding is_free_run
is_free_run-free u s zero h = refl
is_free_run-free u s (suc num) h =
    let here : (u s == 0) ≡ true = ground (arith, h s (omega arith) (omega arith)) in
    rw here (is_free_run-free u (s + 1) num (λ b p q. h b (omega (arith, p)) (omega (arith, q))))

free-is_free_run :
    (u : Blocks) (s num : ℕ) → is_free_run u s num ≡ true → (b : ℕ) → s ≤ b → b < s + num → u b ≡ 0
unfolding is_free_run
free-is_free_run u s zero h b p q = absurd (omega (arith, p, q))
free-is_free_run u s (suc num) h b p q =
    let head : (u s == 0) ≡ true = ground (arith, h) in
    let rest : is_free_run u (s + 1) num ≡ true = rw head at h in
    elim (Bool-cases (b == s)) [
      | inl y ↦ let same : b ≡ s = ground arith in ap u same ∙ ground arith
      | inr y ↦ free-is_free_run u (s + 1) num rest b (ground (arith, p)) (omega (arith, q))
    ]

pub is_free_run-not_free :
    (u : Blocks) (s num : ℕ)
    → ¬ ((b : ℕ) → s ≤ b → b < s + num → u b ≡ 0)
    → is_free_run u s num ≡ false
is_free_run-not_free u s num h = elim (Bool-cases (is_free_run u s num)) [
  | inl y ↦ absurd (h (free-is_free_run u s num y))
  | inr y ↦ y
]

pub lowest_run-none :
    (u : Blocks) (num k n : ℕ)
    → ((s : ℕ) → k ≤ s → s < k + n → is_free_run u s num ≡ false)
    → lowest_run u num k n ≡ none
unfolding lowest_run
lowest_run-none u num k zero h = refl
lowest_run-none u num k (suc n) h =
    rw (h k (omega arith) (omega arith))
      (lowest_run-none u num (k + 1) n (λ s p q. h s (omega (arith, p)) (omega (arith, q))))

pub lowest_run-some :
    (u : Blocks) (num b k n : ℕ)
    → k ≤ b
    → b < k + n
    → is_free_run u b num ≡ true
    → ((s : ℕ) → k ≤ s → s < b → is_free_run u s num ≡ false)
    → lowest_run u num k n ≡ some b
unfolding lowest_run
lowest_run-some u num b k zero p q e h = absurd (omega (arith, p, q))
lowest_run-some u num b k (suc n) p q e h = elim (Bool-cases (k == b)) [
  | inl y ↦
      let same : k ≡ b = ground arith in rw (ap (λ i. is_free_run u i num) same ∙ e) (ap some same)
  | inr y ↦
      let less : k < b = ground (arith, p) in
      rw (h k (omega arith) less) (
        lowest_run-some u num b (k + 1) n (omega (arith, less)) (omega (arith, q)) e
          (λ s p' q'. h s (omega (arith, p')) q'))
]
