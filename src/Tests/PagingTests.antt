-- ===== src/Tests/PagingTests.antt =====
-- kernel/src/mm/paging.c on an address space with the directory in frame 1 and one table in frame 2.
use night.Base.{
  ℕ, ◌+◌, ◌-◌, ◌*◌, ◌/◌, ◌^◌, ◌<◌, ◌≡◌, refl, arith, true, none, some, [], ◌∷◌, ◌==◌, if◌then◌else◌,
  update, bit_or,
}
use night.Pmm.State.{Pmm, mmap_set}
use night.Pmm.Find.{mmap_find_free}
use night.Pmm.Alloc.{check_memory, pmm_alloc_page, pmm_free_page}
use night.Paging.Access.{Mmu, walk}
use night.Paging.Pages.{paging_map_page, paging_map_pages, paging_unmap_page, paging_virt_to_phys}
use night.Paging.Reach.{IsSpace}
use night.Paging.MapLaws.{Remapped, map_page-walk}
use night.Paging.TranslateLaws.{virt_to_phys-walk, virt_to_phys-map_page, unmap_page-walk}
use night.Paging.RangeLaws.{in_range, map_pages-walk}
use night.Base.{List}
use night.Base.Words.{bit}
use night.Pmm.Blocks.{used}
use night.Pmm.PageLaws.{IsValid}
use night.Paging.Pages.{paging_alloc_pages}
use night.Paging.BackLaws.{IsBacked}
use night.Paging.AllocLaws.{Ended, paging_alloc_pages_lem}
use night.Paging.NewTable.{IsFresh}
use night.Paging.CreateLaws.{map_page-created}

-- Blocks 0 to 2 are used.
abbrev frames : Pmm
frames = record {
  bitmap = λ i. if i == 0 then 7 else 0;
  mem_size = 256;
  used_blocks = 3;
  max_blocks = 64;
  kernel_end = 4096;
  panics = [];
}

-- Frame 1: the table at entry 0 and the directory at entry 1023. Frame 2: page 5 in frame 9.
abbrev words : ℕ → ℕ → ℕ
words f i =
    if f == 1
    then if i == 0 then 0x2003 else if i == 1023 then 0x1003 else 0
    else if f == 2
    then if i == 5 then 0x9003 else 0
    else 0

abbrev space : Mmu
space = record {
  mem = words;
  enabled = true;
  cr3 = 1;
  pmm = frames;
  invalidated = [];
  calls = [];
  p_online = true;
}

space-IsSpace : IsSpace space
space-IsSpace = record {
  on = refl;
  recursive = refl;
  recursive_frame = refl;
  apart = λ i j hi hj ne pi pj. ground (arith, ne, pi, pj);
}

map_page-walk_example :
    (t : Mmu) × (paging_map_page 0x7000 0xA000 2 space ≡ some t)
    × IsSpace t
    × ((v : ℕ) → v < 2 ^ 20 → walk v t ≡ (if v == 7 then some 10 else walk v space))
    × (t.invalidated ≡ 0x7000 ∷ [])
    × (t.pmm ≡ frames)
map_page-walk_example = map_page-walk 0x7000 0xA000 2 space-IsSpace (omega arith) refl

virt_to_phys-map_page_example :
    (t : Mmu) × (paging_map_page 0x7000 0xA000 2 space ≡ some t)
    × (paging_virt_to_phys 0x7123 t ≡ some (0xA123, t))
virt_to_phys-map_page_example =
    virt_to_phys-map_page 0x7000 0xA000 2 0x123 space-IsSpace (omega arith) (omega arith)
      (omega arith) refl refl

page_5 : walk (0x5123 / 4096) space ≡ some 9
unfolding walk
page_5 = refl

virt_to_phys-walk_example : paging_virt_to_phys 0x5123 space ≡ some (9 * 4096 + 0x123, space)
virt_to_phys-walk_example =
    virt_to_phys-walk 0x5123 9 space-IsSpace (omega arith) (omega arith) page_5

unmap_page-walk_example :
    (t : Mmu) × (paging_unmap_page 0x5000 space ≡ some t)
    × Remapped 0x5000 none space t
    × (pmm_free_page 0x9000 frames ≡ some t.pmm)
    × (t.invalidated ≡ [])
unmap_page-walk_example = unmap_page-walk 0x5000 space-IsSpace (omega arith) (omega arith) refl

-- Block 3 taken.
abbrev three_taken : Pmm
three_taken = record frames { bitmap = update frames.bitmap 0 (bit_or 7 8); used_blocks = 4 }

alloc_table : pmm_alloc_page frames ≡ some (0x3000, three_taken)
unfolding pmm_alloc_page check_memory mmap_find_free mmap_set
alloc_table = refl

fresh : IsFresh (0x3000 / 4096) space
fresh j h p = ground (arith, p)

map_page-created_example :
    (t : Mmu) × (paging_map_page 0x400000 0xA000 2 space ≡ some t)
    × IsSpace t
    × ((v : ℕ) → v < 0xFFC00 → walk v t ≡ (if v == 0x400 then some 10 else walk v space))
    × (t.invalidated ≡ 0x400000 ∷ [])
    × (t.pmm ≡ three_taken)
map_page-created_example =
    map_page-created 0x400000 0xA000 2 0x3000 three_taken space-IsSpace (omega arith) refl fresh
      alloc_table

map_pages-walk_example :
    (t : Mmu) × (paging_map_pages 0x7000 0xA000 3 2 space ≡ some t)
    × IsSpace t
    × ((v : ℕ)
        → v < 2 ^ 20
        → walk v t ≡ (if in_range 7 3 v then some (10 + (v - 7)) else walk v space))
    × (t.pmm ≡ frames)
map_pages-walk_example =
    map_pages-walk 0x7000 0xA000 3 2 space-IsSpace (omega arith) (omega arith) (omega arith)
      (λ i lo hi. let first : i ≡ 0 = omega (arith, hi) in ground (arith, first))

frames-IsValid : IsValid frames
unfolding used bit
frames-IsValid = record { room = omega arith; zero_used = refl; word = omega arith }

paging_alloc_pages_lem_example :
    (r : ℕ) × (t : Mmu) × (fs : List ℕ) × (paging_alloc_pages 0x8000 3 space ≡ some (r, t))
    × IsBacked 8 fs space t
    × Ended 0x8000 3 r fs t
paging_alloc_pages_lem_example =
    paging_alloc_pages_lem 0x8000 3 space-IsSpace frames-IsValid (omega arith) (omega arith)
      (λ j lo hi. let first : j ≡ 0 = omega (arith, hi) in ground (arith, first))
