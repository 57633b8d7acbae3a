-- ===== src/Pmm/Boot.antt =====
-- `init_pmm` of kernel/src/mm/pmm.c, and the functions that read the statistics.
use night.Base.{
  ℕ, ◌+◌, ◌-◌, ◌*◌, ◌/◌, ◌%◌, ◌^◌, bit_or, Option, List, [], ◌∷◌, ltb, ◌==◌, if◌then◌else◌,
}
use night.Libk.Arith.{u32}
use night.Pmm.State.{Pmm, kernel_too_large, kpanic, pmm_block_size, full_word}
use night.Pmm.Regions.{pmm_deinit_region}

-- `mod_t`, and what `init_pmm` reads of `multiboot`: the modules are those at `mods_addr`, in
-- order, `mods_count` of them.
pub record Module : Type 0 where
  pub mod_start : ℕ
  pub mod_end : ℕ

pub record Multiboot : Type 0 where
  pub mem_lower : ℕ
  pub mem_upper : ℕ
  pub mods : List Module

-- The addresses that the linker gives to `end` and `KERNEL_END_PHYS`.
pub record Symbols : Type 0 where
  pub end : ℕ
  pub kernel_end_phys : ℕ

abbrev pub kernel_end_map : ℕ
kernel_end_map = 0x400000

-- `memset(bitmap, 0xFF, n)`: the first `n` bytes of the words, four to a word, the low byte first.
unfoldable pub memset_bitmap : ℕ → (ℕ → ℕ) → ℕ → ℕ
memset_bitmap n bitmap i =
    if ltb i (n / 4)
    then full_word
    else if i == n / 4
    then bit_or (bitmap i) (2 ^ (8 * (n % 4)) - 1)
    else bitmap i

-- The loop over the modules: the last one decides.
unfoldable pub last_mod_end : ℕ → List Module → ℕ
last_mod_end kernel_end [] = kernel_end
last_mod_end kernel_end (m ∷ mods) = last_mod_end m.mod_end mods

-- The state before the last call: the totals are set, and the bytes of the bitmap are all ones.
unfoldable pub init_totals : Symbols → Multiboot → Pmm → Pmm
unfolding last_mod_end
init_totals syms boot p =
    let last = last_mod_end p.kernel_end boot.mods in
    let kernel_end = if ltb last syms.kernel_end_phys then syms.kernel_end_phys else last in
    let q = if ltb kernel_end_map syms.end then kpanic kernel_too_large p else p in
    let mem_size = u32 (boot.mem_lower + boot.mem_upper) in
    let max_blocks = u32 (mem_size * 1024) / pmm_block_size in
    record q {
      bitmap = memset_bitmap (max_blocks / 8) p.bitmap;
      mem_size = mem_size;
      used_blocks = max_blocks;
      max_blocks = max_blocks;
      kernel_end = kernel_end;
    }

-- The loop over the memory map is commented out in the source: no region is ever released.
unfoldable pub init_pmm : Symbols → Multiboot → Pmm → Option Pmm
init_pmm syms boot p =
    let q = init_totals syms boot p in pmm_deinit_region 0 (u32 (q.kernel_end + q.max_blocks / 8)) q

unfoldable pub pmm_get_kernel_end : Pmm → ℕ
pmm_get_kernel_end p = u32 (p.kernel_end + p.max_blocks / 8)

unfoldable pub pmm_used_memory : Pmm → ℕ
pmm_used_memory p = u32 (p.used_blocks * pmm_block_size)

unfoldable pub pmm_total_memory : Pmm → ℕ
pmm_total_memory p = p.mem_size
