-- ===== src/Paging/Pages.antt =====
-- The operations of kernel/src/mm/paging.c. `none` is a page fault, or a fault of the allocator.
-- Their error paths keep the calls that print, for the kernel to carry out.
use night.Base.{
  ℕ, zero, suc, ◌+◌, ◌*◌, ◌/◌, ◌%◌, ◌^◌, bit_and, bit_or, Bool, true, false, not, ◌&&◌, Option,
  some, [], ◌∷◌, ◌==◌, if◌then◌else◌, ◌>>=◌,
}
use night.Libk.Arith.{u32, divide_up}
use night.Pmm.Alloc.{pmm_alloc_page, pmm_free_page}
use night.Pmm.Boot.{pmm_get_kernel_end}
use night.Base.Text.{codes}
use night.Paging.Access
use night.Paging.Access.{Mmu, read_word, write_word, clear_page}
use night.Paging.Entries.{page_present, page_rw, page_user, page_flags, page_mask, entry}

-- The addresses of `dir[i]` and of `table`, in the window of the directory's last entry.
abbrev pub dir_slot : ℕ → ℕ
dir_slot i = u32 (0xFFFFF000 + 4 * i)

abbrev pub table_addr : ℕ → ℕ
table_addr i = u32 (0xFFC00000 + i * 2 ^ 12)

abbrev pub directory_index : ℕ → ℕ
directory_index x = x / 2 ^ 22

abbrev pub table_index : ℕ → ℕ
table_index x = bit_and (x / 2 ^ 12) 0x3FF

abbrev pub is_present : ℕ → Bool
is_present e = not (bit_and e page_present == 0)

abbrev pub null : ℕ
null = 0

-- A new table; the result of the allocator is not tested.
unfoldable pub create_table : (dir_index flags : ℕ) → Mmu → Option Mmu
create_table dir_index flags m = do
  (new_table, q) ← pmm_alloc_page m.pmm
  let e = bit_or (bit_or (bit_or new_table page_present) page_rw) (bit_and flags page_flags)
  m' ← write_word (dir_slot dir_index) e (record m { pmm = q })
  clear_page (table_addr dir_index) m'

-- For an address that is not aligned `printf` is called, and the address is then used.
abbrev pub note_unaligned : (virt : ℕ) → Mmu → Mmu
note_unaligned virt m = record m {
  calls =
      if virt % 0x1000 == 0
      then m.calls
      else Access.printf (codes "Paging_get_page: unaligned address %p") (virt ∷ []) ∷ m.calls;
}

-- The address of the page's word, or NULL.
unfoldable pub paging_get_page : (virt : ℕ) (create : Bool) (flags : ℕ) → Mmu → Option (ℕ × Mmu)
unfolding create_table
paging_get_page virt create flags m =
    let dir_index = directory_index virt in
    let page = u32 (table_addr dir_index + 4 * table_index virt) in
    let a = note_unaligned virt m in
    read_word (dir_slot dir_index) a >>= λ d.
    (if not (is_present d) && create then create_table dir_index flags a else some a) >>= λ m'.
    read_word (dir_slot dir_index) m' >>= λ d'. some ((if is_present d' then page else null), m')

unfoldable pub paging_invalidate_page : (virt : ℕ) → Mmu → Mmu
paging_invalidate_page virt m = record m { invalidated = virt ∷ m.invalidated }

-- The calls for a page that is mapped already. The previous frame is shown without its flags.
abbrev pub note_mapped : (virt phys old : ℕ) → Mmu → Mmu
note_mapped virt phys old m = record m {
  calls =
      Access.kpanic (codes "Mapping Error")
      ∷ Access.printf (codes "previous mapping: 0x%X to 0x%X") (virt ∷ bit_and old page_mask ∷ [])
      ∷ Access.printf (codes "tried to map an already mapped virtual address 0x%X to 0x%X")
          (virt ∷ phys ∷ [])
      ∷ m.calls;
}

-- `kpanic` returns, so that a page that is mapped already is mapped all the same after its calls.
unfoldable pub paging_map_page : (virt phys flags : ℕ) → Mmu → Option Mmu
unfolding paging_invalidate_page
paging_map_page virt phys flags m = paging_get_page virt true flags m >>= λ r.
    read_word r.0 r.1 >>= λ old.
    write_word r.0 (entry phys flags)
      (if is_present old then note_mapped virt phys old r.1 else r.1)
    >>= λ t. some (paging_invalidate_page virt t)

unfoldable pub paging_unmap_page : (virt : ℕ) → Mmu → Option Mmu
paging_unmap_page virt m = paging_get_page virt false 0 m >>= λ r.
    if r.0 == null
    then some r.1
    else (read_word r.0 r.1 >>= λ w. pmm_free_page (bit_and w page_mask) r.1.pmm >>= λ q.
        write_word r.0 0 (record r.1 { pmm = q }))

unfoldable pub paging_map_pages : (virt phys num flags : ℕ) → Mmu → Option Mmu
paging_map_pages virt phys zero flags m = some m
paging_map_pages virt phys (suc num) flags m = paging_map_page virt phys flags m >>= λ t.
    paging_map_pages (u32 (virt + 0x1000)) (u32 (phys + 0x1000)) num flags t

unfoldable pub paging_unmap_pages : (virt num : ℕ) → Mmu → Option Mmu
paging_unmap_pages virt zero m = some m
paging_unmap_pages virt (suc num) m =
    paging_unmap_page virt m >>= λ t. paging_unmap_pages (u32 (virt + 0x1000)) num t

-- One page of `paging_alloc_pages`: a fresh frame behind a virtual page.
unfoldable pub back_page : (virt page : ℕ) → Mmu → Option Mmu
unfolding paging_get_page
back_page virt page m = paging_get_page virt true (bit_or page_rw page_user) m >>= λ r.
    write_word r.0 (bit_or (bit_or (bit_or page page_present) page_rw) page_user) r.1

-- The loop of `paging_alloc_pages` with `num` pages left, at page `i`. The result is `virt`, or 0
-- as soon as the allocator fails; the pages so far stay mapped.
unfoldable pub alloc_pages_from : (virt num i : ℕ) → Mmu → Option (ℕ × Mmu)
unfolding back_page
alloc_pages_from virt zero i m = some (virt, m)
alloc_pages_from virt (suc num) i m = pmm_alloc_page m.pmm >>= λ r.
    let m' : Mmu = record m { pmm = r.1 } in
    let rest : Option (ℕ × Mmu) =
      back_page (u32 (virt + i * 0x1000)) r.0 m' >>= λ t. alloc_pages_from virt num (i + 1) t in
    if r.0 == 0 then some (0, m') else rest

unfoldable pub paging_alloc_pages : (virt size : ℕ) → Mmu → Option (ℕ × Mmu)
paging_alloc_pages virt size m = alloc_pages_from virt size 0 m

unfoldable pub paging_virt_to_phys : (virt : ℕ) → Mmu → Option (ℕ × Mmu)
paging_virt_to_phys virt m = paging_get_page (bit_and virt page_mask) false 0 m >>= λ r.
    if r.0 == null
    then some (0, r.1)
    else (read_word r.0 r.1 >>= λ w. some (u32 (bit_and w page_mask + bit_and virt 0xFFF), r.1))

-- `directory` is the address of `kernel_directory`, which KERNEL_BASE_VIRT = 0 makes physical too.
-- `current_page_directory`, which nothing reads, is left out.
unfoldable pub init_paging : (directory : ℕ) → Mmu → Option Mmu
unfolding paging_map_pages
init_paging directory m = if m.p_online then some m else do
  a ← write_word (directory + 4 * 1023) (bit_or (bit_or directory page_present) page_rw) m
  let b = paging_invalidate_page 0xFFC00000 a
  let to_map = divide_up (pmm_get_kernel_end b.pmm) 0x1000
  c ← write_word directory 0 b
  d ← paging_map_pages 0 0 to_map page_rw c
  some (record (paging_invalidate_page 0 d) { p_online = true })

unfoldable pub paging_switch_directory : (dir_phys : ℕ) → Mmu → Mmu
paging_switch_directory dir_phys m = record m { cr3 = dir_phys / 4096 }

-- The current directory is loaded again, which empties the translation cache.
unfoldable pub paging_invalidate_cache : Mmu → Mmu
unfolding paging_switch_directory
paging_invalidate_cache m = paging_switch_directory (m.cr3 * 4096) m

-- KERNEL_BASE_VIRT is 0, so that the physical address is the virtual one.
abbrev pub paging_get_kernel_directory : (directory : ℕ) → ℕ
paging_get_kernel_directory directory = directory
