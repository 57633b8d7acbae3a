-- ===== src/Pmm/RegionLaws.antt =====
-- `pmm_init_region` and `pmm_deinit_region` of kernel/src/mm/pmm.c.
use night.Base.{
  ℕ, ◌+◌, ◌/◌, ◌^◌, ◌≤◌, ◌<◌, ◌≡◌, ap, ◌∙◌, some, arith, ◌==◌, if◌then◌else◌, ◌&&◌, ltb, leb,
}
use night.Libk.Arith.{u32, sub32, divide_up}
use night.Pmm.State.{Pmm, pmm_block_size}
use night.Pmm.Blocks.{used, mmap_set_lem, bitmap_blocks}
use night.Pmm.Regions.{pmm_init_region}
use night.Pmm.Runs.{unset_run_lem}
use night.Pmm.PageLaws.{IsValid}

-- The blocks that a region of `size` bytes at `addr` touches.
abbrev pub region_first : ℕ → ℕ
region_first addr = addr / pmm_block_size

abbrev pub region_blocks : ℕ → ℕ
region_blocks size = divide_up size pmm_block_size

-- For a region inside the bitmap, `pmm_init_region` returns; block 0 is used, the other blocks of
-- the region are free, and every block outside it is as before.
pub pmm_init_region_lem :
    (addr size : ℕ) (p : Pmm)
    → region_first addr + region_blocks size ≤ bitmap_blocks
    → p.used_blocks < 2 ^ 32
    → (q : Pmm) × (pmm_init_region addr size p ≡ some q)
      × ((b : ℕ)
          → used q.bitmap b ≡ (
              if b == 0
              then 1
              else if leb (region_first addr) b && ltb b (region_first addr + region_blocks size)
              then 0
              else used p.bitmap b))
      × (q.used_blocks ≡ u32 (sub32 p.used_blocks (region_blocks size) + 1))
unfolding pmm_init_region
pmm_init_region_lem addr size p h w =
    let (t, e, f) = unset_run_lem (region_blocks size) (region_first addr) p h w in
    let (q, e', g) = mmap_set_lem 0 t (omega arith) in
    (
      q,
      rw e e',
      λ b. ground (arith, f.blocks b, g.blocks b),
      g.counted ∙ ap (λ k. u32 (k + 1)) f.counted,
    )

-- A released region is a valid place to allocate from: the state stays valid.
pub init_region-IsValid :
    (addr size : ℕ) {p q : Pmm}
    → region_first addr + region_blocks size ≤ bitmap_blocks
    → IsValid p
    → pmm_init_region addr size p ≡ some q
    → IsValid q
unfolding pmm_init_region
init_region-IsValid addr size {p} {q} h s e =
    let (t, e', f) = unset_run_lem (region_blocks size) (region_first addr) p h s.word in
    let (q', e'', g) = mmap_set_lem 0 t (omega arith) in
    let same : q' ≡ q = cc (rw e' at e) in
    let valid : IsValid q' = record {
      room = omega (arith, f.rest.max_blocks, g.rest.max_blocks, s.room);
      zero_used = ground (arith, g.blocks 0);
      word = omega (arith, g.counted);
    } in
    rw same at valid
