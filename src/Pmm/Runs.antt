-- ===== src/Pmm/Runs.antt =====
-- What a run of `mmap_set` or `mmap_unset` calls does to the set of used blocks.
use night.Base.{ℕ, zero, suc, ◌+◌, ◌^◌, ◌≤◌, ◌<◌, ◌≡◌, some, arith, Option, refl}
use night.Libk.Arith.{u32, sub32}
use night.Pmm.State.{Pmm}
use night.Pmm.Blocks.{SameFrame, Filled, bitmap_blocks, mmap_set_lem, mmap_unset_lem}
use night.Pmm.Regions.{set_run, unset_run}

SameFrame-trans : {p q r : Pmm} → SameFrame p q → SameFrame q r → SameFrame p r
SameFrame-trans s t = record { mem_size = cc; max_blocks = cc; kernel_end = cc; panics = cc }

-- A block at `first`, then the `num` blocks behind it.
Filled-cons :
    {v first next num c d e : ℕ} {p q r : Pmm}
    → Filled v first 1 c p q
    → Filled v next num d q r
    → next ≡ first + 1
    → d ≡ e
    → Filled v first (suc num) e p r
Filled-cons {first = first} {next} {num} f g n e = record {
  blocks = λ b. ground (arith, f.blocks b, g.blocks b);
  counted = cc;
  rest = SameFrame-trans f.rest g.rest;
}

abbrev pub Result {ℓ} : (Option Pmm) → (Pmm → Type ℓ) → Type ℓ
Result o P = (q : Pmm) × (o ≡ some q) × P q

pub set_run_lem :
    (num first : ℕ) (p : Pmm)
    → first + num ≤ bitmap_blocks
    → p.used_blocks < 2 ^ 32
    → Result (set_run num first p) (Filled 1 first num (u32 (p.used_blocks + num)) p)
unfolding set_run
set_run_lem zero first p h w = (
  p,
  refl,
  record {
    blocks = λ b. ground arith;
    counted = omega arith;
    rest = record { mem_size = refl; max_blocks = refl; kernel_end = refl; panics = refl };
  },
)
set_run_lem (suc num) first p h w =
    let (q, e, f) = mmap_set_lem first p (omega arith) in
    let step : u32 (first + 1) ≡ first + 1 = omega arith in
    let (r, e', g) = set_run_lem num (u32 (first + 1)) q (omega arith) (omega (arith, f.counted)) in
    (r, rw e e', Filled-cons f g step (omega (arith, f.counted)))

pub unset_run_lem :
    (num first : ℕ) (p : Pmm)
    → first + num ≤ bitmap_blocks
    → p.used_blocks < 2 ^ 32
    → Result (unset_run num first p) (Filled 0 first num (sub32 p.used_blocks num) p)
unfolding unset_run
unset_run_lem zero first p h w = (
  p,
  refl,
  record {
    blocks = λ b. ground arith;
    counted = omega arith;
    rest = record { mem_size = refl; max_blocks = refl; kernel_end = refl; panics = refl };
  },
)
unset_run_lem (suc num) first p h w =
    let (q, e, f) = mmap_unset_lem first p (omega arith) in
    let step : u32 (first + 1) ≡ first + 1 = omega arith in
    let (r, e', g) =
      unset_run_lem num (u32 (first + 1)) q (omega arith) (omega (arith, f.counted)) in
    (r, rw e e', Filled-cons f g step (omega (arith, f.counted)))
