-- ===== src/Base/Arrays.antt =====
-- An array as the function from its indices; the bounds are checked where the code indexes it.
use Prim.Native.Nat.{ℕ}
use night.Base.Tests.{◌==◌, if◌then◌else◌}

abbrev pub update {ℓ} : {A : Type ℓ} → (ℕ → A) → ℕ → A → ℕ → A
update f i v j = if i == j then v else f j
