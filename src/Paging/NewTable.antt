-- ===== src/Paging/NewTable.antt =====
-- The address space after `paging_get_page` of kernel/src/mm/paging.c has linked and cleared a
-- table.
use night.Base.{
  ℕ, ◌+◌, ◌/◌, ◌%◌, ◌<◌, ◌≡◌, ◌≢◌, refl, ap, sym, ◌∙◌, bit_and, bit_or, some, ◌==◌, update, arith,
  Bool-cases, inl, inr,
}
use night.Pmm.State.{Pmm}
use night.Paging.Access.{Mmu, present, walk, put_word, clear_page}
use night.Paging.Entries.{
  bit_and-flags, bit_or-frame, bit_or-present, page_present, page_rw, page_flags,
}
use night.Paging.Pages.{table_addr}
use night.Paging.Reach.{IsSpace, walk-table}

-- The directory's word for a new table.
abbrev pub table_entry : (table flags : ℕ) → ℕ
table_entry table flags =
    bit_or (bit_or (bit_or table page_present) page_rw) (bit_and flags page_flags)

pub table_entry-frame : (table flags : ℕ) → table_entry table flags / 4096 ≡ table / 4096
table_entry-frame table flags =
    bit_or-frame (bit_or (bit_or table page_present) page_rw) (bit_and flags page_flags)
      (omega (arith, bit_and-flags flags))
    ∙ bit_or-frame (bit_or table page_present) page_rw (omega arith)
    ∙ bit_or-frame table page_present (omega arith)

pub table_entry-present : (table flags : ℕ) → table_entry table flags % 2 ≡ 1
table_entry-present table flags =
    bit_or-present (bit_or (bit_or table page_present) page_rw) (bit_and flags page_flags) (
      inl (
        bit_or-present (bit_or table page_present) page_rw
          (inl (bit_or-present table page_present (inr (omega arith))))))

-- No entry of the directory leads to the frame, so that it is not the directory either.
abbrev pub IsFresh : (frame : ℕ) → Mmu → Type 0
IsFresh frame m = (j : ℕ) → j < 1024 → m.mem m.cr3 j % 2 ≡ 1 → m.mem m.cr3 j / 4096 ≢ frame

module _ {m : Mmu} (i table e : ℕ) (q : Pmm) (s : IsSpace m) (hi : i < 1023)
    (absent : m.mem m.cr3 i % 2 ≡ 0) (fresh : IsFresh (table / 4096) m)
    (frame : e / 4096 ≡ table / 4096) (there : e % 2 ≡ 1) where
  abbrev pub linked : Mmu
  linked = put_word m.cr3 i e (record m { pmm = q })

  linked_other : (j : ℕ) → j ≢ i → linked.mem m.cr3 j ≡ m.mem m.cr3 j
  linked_other j ne = ground (arith, ne)

  linked_here : linked.mem m.cr3 i ≡ e
  linked_here = ground arith

  linked-apart :
      (j k : ℕ)
      → j < 1024
      → k < 1024
      → j ≢ k
      → linked.mem m.cr3 j % 2 ≡ 1
      → linked.mem m.cr3 k % 2 ≡ 1
      → linked.mem m.cr3 j / 4096 ≢ linked.mem m.cr3 k / 4096
  linked-apart j k hj hk ne pj pk eq = elim (Bool-cases (j == i)) [
    | inl y ↦
        let here : j ≡ i = ground arith in
        let other : k ≢ i = λ z. ne (here ∙ sym z) in
        fresh k hk (sym (ap (λ x. x % 2) (linked_other k other)) ∙ pk) (
          sym (ap (λ x. x / 4096) (linked_other k other))
          ∙ sym eq
          ∙ ap (λ x. linked.mem m.cr3 x / 4096) here
          ∙ ap (λ x. x / 4096) linked_here
          ∙ frame)
    | inr y ↦
        let other : j ≢ i = ground arith in
        elim (Bool-cases (k == i)) [
          | inl z ↦
              let here : k ≡ i = ground arith in
              fresh j hj (sym (ap (λ x. x % 2) (linked_other j other)) ∙ pj) (
                sym (ap (λ x. x / 4096) (linked_other j other))
                ∙ eq
                ∙ ap (λ x. linked.mem m.cr3 x / 4096) here
                ∙ ap (λ x. x / 4096) linked_here
                ∙ frame)
          | inr z ↦
              let other' : k ≢ i = ground arith in
              s.apart j k hj hk ne (sym (ap (λ x. x % 2) (linked_other j other)) ∙ pj)
                (sym (ap (λ x. x % 2) (linked_other k other')) ∙ pk)
                (sym (ap (λ x. x / 4096) (linked_other j other))
                  ∙ eq
                  ∙ ap (λ x. x / 4096) (linked_other k other'))
        ]
  ]

  last_kept : linked.mem m.cr3 1023 ≡ m.mem m.cr3 1023
  last_kept = linked_other 1023 (λ k. omega (arith, k))

  linked-IsSpace : IsSpace linked
  linked-IsSpace = record {
    on = s.on;
    recursive = ap (λ x. x % 2) last_kept ∙ s.recursive;
    recursive_frame = ap (λ x. x / 4096) last_kept ∙ s.recursive_frame;
    apart = linked-apart;
  }

  -- The new table is cleared.
  abbrev pub created : Mmu
  created = record linked { mem = update linked.mem (table / 4096) (λ k. 0) }

  created_dir : (j : ℕ) → created.mem m.cr3 j ≡ linked.mem m.cr3 j
  created_dir j =
      let ne : table / 4096 ≢ m.cr3 =
        λ k. fresh 1023 (omega arith) s.recursive (s.recursive_frame ∙ sym k) in
      ground (arith, ne)

  pub created-IsSpace : IsSpace created
  created-IsSpace = record {
    on = s.on;
    recursive = ap (λ x. x % 2) (created_dir 1023) ∙ linked-IsSpace.recursive;
    recursive_frame = ap (λ x. x / 4096) (created_dir 1023) ∙ linked-IsSpace.recursive_frame;
    apart = λ j k hj hk ne pj pk eq.
        linked-apart j k hj hk ne (sym (ap (λ x. x % 2) (created_dir j)) ∙ pj)
          (sym (ap (λ x. x % 2) (created_dir k)) ∙ pk)
          (sym (ap (λ x. x / 4096) (created_dir j)) ∙ eq ∙ ap (λ x. x / 4096) (created_dir k));
  }

  pub created_entry : created.mem m.cr3 i ≡ e
  created_entry = created_dir i ∙ linked_here

  pub clear_new : clear_page (table_addr i) linked ≡ some created
  unfolding clear_page
  clear_new =
      let page : table_addr i / 4096 ≡ 0xFFC00 + i = omega arith in
      let new : linked.mem m.cr3 i / 4096 ≡ table / 4096 = ap (λ x. x / 4096) linked_here ∙ frame in
      rw
        (page, walk-table i linked-IsSpace (omega arith) (ap (λ x. x % 2) linked_here ∙ there), new)
        refl

  -- Outside the window of the tables, no page is translated in another way.
  pub created-walk : (v : ℕ) → v < 0xFFC00 → walk v created ≡ walk v m
  unfolding walk
  created-walk v h = elim (Bool-cases (v / 1024 == i)) [
    | inl y ↦
        let here : v / 1024 ≡ i = ground arith in
        rw (here, created_entry, s.on, frame) (ground (arith, here))
    | inr y ↦
        let other : v / 1024 ≢ i = ground arith in
        let same : created.mem m.cr3 (v / 1024) ≡ m.mem m.cr3 (v / 1024) =
          created_dir (v / 1024) ∙ linked_other (v / 1024) other in
        elim (Bool-cases (present (m.mem m.cr3 (v / 1024)))) [
          | inl z ↦
              let free : m.mem m.cr3 (v / 1024) / 4096 ≢ table / 4096 =
                fresh (v / 1024) (omega arith) (ground arith) in
              let table_page : m.mem m.cr3 (v / 1024) / 4096 ≢ m.cr3 = λ k.
                s.apart (v / 1024) 1023 (omega arith) (omega arith) (λ l. omega (arith, l))
                  (ground arith) s.recursive (k ∙ sym s.recursive_frame) in
              rw (same, s.on, z) (ground (arith, free, table_page))
          | inr z ↦ rw (same, s.on, z) refl
        ]
  ]
