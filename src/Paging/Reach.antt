-- ===== src/Paging/Reach.antt =====
-- What the addresses 0xFFC00000 and up reach when the directory's last entry is the directory.
use night.Base.{ℕ, ◌+◌, ◌*◌, ◌/◌, ◌%◌, ◌^◌, ◌<◌, ◌≡◌, ◌≢◌, refl, ap, Bool, true, some, arith}
use night.Libk.Arith.{u32}
use night.Base.Masks.{bit_and-low}
use night.Pmm.State.{Pmm}
use night.Paging.Access.{Mmu, walk, read_word, put_word, write_word}
use night.Paging.Entries.{bit_and-present}
use night.Paging.Pages.{
  dir_slot, table_addr, directory_index, table_index, is_present, note_unaligned, paging_get_page,
}

-- Paging is on, the directory's last entry is the directory, and different entries of it that are
-- present lead to different tables.
pub record IsSpace (m : Mmu) : Type 0 where
  pub on : m.enabled ≡ true
  pub recursive : m.mem m.cr3 1023 % 2 ≡ 1
  pub recursive_frame : m.mem m.cr3 1023 / 4096 ≡ m.cr3
  pub apart :
      (i j : ℕ)
      → i < 1024
      → j < 1024
      → i ≢ j
      → m.mem m.cr3 i % 2 ≡ 1
      → m.mem m.cr3 j % 2 ≡ 1
      → m.mem m.cr3 i / 4096 ≢ m.mem m.cr3 j / 4096

abbrev pub with_pmm : Pmm → Mmu → Mmu
with_pmm q m = record m { pmm = q }

pub with_pmm-IsSpace : {m : Mmu} (q : Pmm) → IsSpace m → IsSpace (with_pmm q m)
with_pmm-IsSpace q s = record {
  on = s.on;
  recursive = s.recursive;
  recursive_frame = s.recursive_frame;
  apart = s.apart;
}

pub walk-dir : {m : Mmu} → IsSpace m → walk 0xFFFFF m ≡ some m.cr3
unfolding walk
walk-dir s = rw (s.on, s.recursive, s.recursive_frame, s.recursive, s.recursive_frame) refl

pub walk-table :
    {m : Mmu} (i : ℕ)
    → IsSpace m
    → i < 1024
    → m.mem m.cr3 i % 2 ≡ 1
    → walk (0xFFC00 + i) m ≡ some (m.mem m.cr3 i / 4096)
unfolding walk
walk-table {m} i s h p =
    let hi : (0xFFC00 + i) / 1024 ≡ 1023 = omega arith in
    let lo : (0xFFC00 + i) % 1024 ≡ i = omega arith in
    rw (hi, lo, s.on, s.recursive, s.recursive_frame, p) refl

pub read_dir :
    {m : Mmu} (i : ℕ) → IsSpace m → i < 1024 → read_word (dir_slot i) m ≡ some (m.mem m.cr3 i)
unfolding read_word
read_dir {m} i s h =
    let page : dir_slot i / 4096 ≡ 0xFFFFF = omega arith in
    let word : dir_slot i % 4096 / 4 ≡ i = omega arith in rw (page, word, walk-dir s) refl

pub write_dir :
    {m : Mmu} (i w : ℕ)
    → IsSpace m
    → i < 1024
    → write_word (dir_slot i) w m ≡ some (put_word m.cr3 i w m)
unfolding write_word
write_dir {m} i w s h =
    let page : dir_slot i / 4096 ≡ 0xFFFFF = omega arith in
    let word : dir_slot i % 4096 / 4 ≡ i = omega arith in rw (page, word, walk-dir s) refl

-- The address of word `t` of table `i`.
abbrev pub page_slot : (i t : ℕ) → ℕ
page_slot i t = u32 (table_addr i + 4 * t)

pub read_table :
    {m : Mmu} (i t : ℕ)
    → IsSpace m
    → i < 1024
    → t < 1024
    → m.mem m.cr3 i % 2 ≡ 1
    → read_word (page_slot i t) m ≡ some (m.mem (m.mem m.cr3 i / 4096) t)
unfolding read_word
read_table {m} i t s h h' p =
    let page : page_slot i t / 4096 ≡ 0xFFC00 + i = omega arith in
    let word : page_slot i t % 4096 / 4 ≡ t = omega arith in
    rw (page, word, walk-table i s h p) refl

pub write_table :
    {m : Mmu} (i t w : ℕ)
    → IsSpace m
    → i < 1024
    → t < 1024
    → m.mem m.cr3 i % 2 ≡ 1
    → write_word (page_slot i t) w m ≡ some (put_word (m.mem m.cr3 i / 4096) t w m)
unfolding write_word
write_table {m} i t w s h h' p =
    let page : page_slot i t / 4096 ≡ 0xFFC00 + i = omega arith in
    let word : page_slot i t % 4096 / 4 ≡ t = omega arith in
    rw (page, word, walk-table i s h p) refl

-- A page's slot, in the terms of the source.
pub slot_of :
    (virt : ℕ)
    → virt < 2 ^ 32
    → u32 (table_addr (directory_index virt) + 4 * table_index virt)
      ≡ page_slot (virt / 2 ^ 22) (virt / 4096 % 1024)
slot_of virt h =
    ap (λ t. page_slot (virt / 2 ^ 22) t) (omega (arith, bit_and-low 10 (virt / 2 ^ 12)))

pub note_unaligned-IsSpace : {m : Mmu} (virt : ℕ) → IsSpace m → IsSpace (note_unaligned virt m)
note_unaligned-IsSpace virt s = record {
  on = s.on;
  recursive = s.recursive;
  recursive_frame = s.recursive_frame;
  apart = s.apart;
}

pub walk-note_unaligned : (v virt : ℕ) (m : Mmu) → walk v (note_unaligned virt m) ≡ walk v m
unfolding walk
walk-note_unaligned v virt m = refl

-- With its table present, a page's slot is found, and nothing but the calls changes.
pub get_page-present :
    {m : Mmu} (virt : ℕ) (create : Bool) (flags : ℕ)
    → IsSpace m
    → virt < 2 ^ 32
    → m.mem m.cr3 (virt / 2 ^ 22) % 2 ≡ 1
    → paging_get_page virt create flags m
      ≡ some (page_slot (virt / 2 ^ 22) (virt / 4096 % 1024), note_unaligned virt m)
unfolding paging_get_page
get_page-present {m} virt create flags s h p =
    let d = m.mem m.cr3 (virt / 2 ^ 22) in
    let there : is_present d ≡ true = ground (arith, bit_and-present d) in
    let s' = note_unaligned-IsSpace virt s in
    rw
      (
        read_dir (virt / 2 ^ 22) s' (omega arith),
        there,
        read_dir (virt / 2 ^ 22) s' (omega arith),
        there,
        slot_of virt h,
      )
      refl
