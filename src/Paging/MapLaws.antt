-- ===== src/Paging/MapLaws.antt =====
-- What mapping and unmapping one page does to the translation of every page.
use night.Base.{
  ℕ, ◌+◌, ◌*◌, ◌/◌, ◌%◌, ◌^◌, ◌<◌, ◌≡◌, ◌≢◌, refl, ap, sym, ◌∙◌, true, Option, none, some, List,
  ◌∷◌, ◌==◌, if◌then◌else◌, arith, Bool-cases, inl, inr,
}
use mathlib.Core.Path.{subst}
use night.Paging.Access.{Call, Mmu, present, walk, put_word, write_word}
use night.Paging.Entries.{entry, entry-frame, entry-present}
use night.Paging.Pages.{
  is_present, note_unaligned, note_mapped, paging_get_page, paging_map_page, paging_invalidate_page,
}
use night.Paging.Reach.{
  IsSpace, page_slot, read_table, write_table, get_page-present, note_unaligned-IsSpace,
}

-- Where a word of a table points.
abbrev pub target : ℕ → Option ℕ
target w = if present w then some (w / 4096) else none

module _ {m : Mmu} (i t w : ℕ) (s : IsSpace m) (hi : i < 1023) (p : m.mem m.cr3 i % 2 ≡ 1) where
  abbrev changed : Mmu
  changed = put_word (m.mem m.cr3 i / 4096) t w m

  table_apart : m.mem m.cr3 i / 4096 ≢ m.cr3
  table_apart e =
      s.apart i 1023 (omega arith) (omega arith) (λ k. omega (arith, k)) p s.recursive
        (e ∙ sym s.recursive_frame)

  same_dir : (j : ℕ) → changed.mem m.cr3 j ≡ m.mem m.cr3 j
  same_dir j = ground (arith, table_apart)

  put_word-IsSpace : IsSpace changed
  put_word-IsSpace = record {
    on = s.on;
    recursive = ap (λ e. e % 2) (same_dir 1023) ∙ s.recursive;
    recursive_frame = ap (λ e. e / 4096) (same_dir 1023) ∙ s.recursive_frame;
    apart = λ j k hj hk ne pj pk e.
        s.apart j k hj hk ne (sym (ap (λ x. x % 2) (same_dir j)) ∙ pj)
          (sym (ap (λ x. x % 2) (same_dir k)) ∙ pk)
          (sym (ap (λ x. x / 4096) (same_dir j)) ∙ e ∙ ap (λ x. x / 4096) (same_dir k));
  }

  -- Only the page of that word is translated in another way.
  put_word-walk :
      (v : ℕ)
      → v < 2 ^ 20
      → t < 1024
      → walk v changed ≡ (if v == i * 1024 + t then target w else walk v m)
  unfolding walk
  put_word-walk v h ht = elim (Bool-cases (v / 1024 == i)) [
    | inl y ↦
        let here : v / 1024 ≡ i = ground arith in
        rw (same_dir (v / 1024), here, s.on, p) (ground (arith, here))
    | inr y ↦
        let there : v / 1024 ≢ i = ground arith in
        elim (Bool-cases (present (m.mem m.cr3 (v / 1024)))) [
          | inl z ↦
              let other : m.mem m.cr3 i / 4096 ≢ m.mem m.cr3 (v / 1024) / 4096 =
                s.apart i (v / 1024) (omega arith) (omega arith) (λ e. there (sym e)) p
                  (ground arith) in
              rw (same_dir (v / 1024), s.on, z) (ground (arith, other, there))
          | inr z ↦ rw (same_dir (v / 1024), s.on, z) (ground (arith, there))
        ]
  ]

abbrev with_calls : List Call → Mmu → Mmu
with_calls n m = record m { calls = n }

with_calls-IsSpace : {m : Mmu} (n : List Call) → IsSpace m → IsSpace (with_calls n m)
with_calls-IsSpace n s = record {
  on = s.on;
  recursive = s.recursive;
  recursive_frame = s.recursive_frame;
  apart = s.apart;
}

target-entry : (phys flags : ℕ) → target (entry phys flags) ≡ some (phys / 4096)
target-entry phys flags = rw (entry-present phys flags, entry-frame phys flags) refl

abbrev pub Remapped : (virt : ℕ) (to : Option ℕ) → Mmu → Mmu → Type 0
Remapped virt to m t =
    IsSpace t × ((v : ℕ) → v < 2 ^ 20 → walk v t ≡ (if v == virt / 4096 then to else walk v m))

pub put_word-Remapped :
    {m : Mmu} (virt w : ℕ)
    → IsSpace m
    → virt < 0xFFC00000
    → m.mem m.cr3 (virt / 2 ^ 22) % 2 ≡ 1
    → Remapped virt
        (target w)
        m
        (put_word (m.mem m.cr3 (virt / 2 ^ 22) / 4096) (virt / 4096 % 1024) w m)
put_word-Remapped {m} virt w s h p =
    let i = virt / 2 ^ 22 in
    let t = virt / 4096 % 1024 in
    let page : i * 1024 + t ≡ virt / 4096 = omega arith in
    (
      put_word-IsSpace i t w s (omega arith) p,
      λ v hv.
          put_word-walk i t w s (omega arith) p v hv (omega arith)
          ∙ ap (λ k. if v == k then target w else walk v m) page,
    )

-- A walk does not read the calls.
pub Remapped-note_unaligned :
    (virt : ℕ) (to : Option ℕ) (m t : Mmu)
    → Remapped virt to (note_unaligned virt m) t
    → Remapped virt to m t
unfolding walk
Remapped-note_unaligned virt to m t r = r

write_entry :
    {m : Mmu} (virt w : ℕ) (n : List Call)
    → IsSpace m
    → virt < 0xFFC00000
    → m.mem m.cr3 (virt / 2 ^ 22) % 2 ≡ 1
    → write_word (page_slot (virt / 2 ^ 22) (virt / 4096 % 1024)) w (with_calls n m)
      ≡ some (with_calls n (put_word (m.mem m.cr3 (virt / 2 ^ 22) / 4096) (virt / 4096 % 1024) w m))
write_entry {m} virt w n s h p =
    write_table (virt / 2 ^ 22) (virt / 4096 % 1024) w (with_calls-IsSpace n s) (omega arith)
      (omega arith) p

-- The two fields that a walk does not read.
Remapped-noted :
    (m t : Mmu) (virt : ℕ) (to : Option ℕ) (n : List Call) (l : List ℕ)
    → Remapped virt to m t
    → Remapped virt to m (record t { calls = n; invalidated = l })
unfolding walk
Remapped-noted m t virt to n l (s, moved) = (
  record {
    on = s.on;
    recursive = s.recursive;
    recursive_frame = s.recursive_frame;
    apart = s.apart;
  },
  moved,
)

-- The word of a page in its table.
abbrev pub page_word : (virt : ℕ) → Mmu → ℕ
page_word virt m = m.mem (m.mem m.cr3 (virt / 2 ^ 22) / 4096) (virt / 4096 % 1024)

-- What `paging_map_page` does once the slot of the page is found, in the state `c`.
abbrev pub MapsFrom : (virt phys flags : ℕ) (m c : Mmu) → Type 0
MapsFrom virt phys flags m c =
    (t : Mmu) × (paging_map_page virt phys flags m ≡ some t)
    × Remapped virt (some (phys / 4096)) c t
    × (t.invalidated ≡ virt ∷ c.invalidated)
    × (t.pmm ≡ c.pmm)
    × (t.calls ≡ (
        if is_present (page_word virt c)
        then (note_mapped virt phys (page_word virt c) c).calls
        else c.calls))

pub map_page-found :
    (m : Mmu) {c : Mmu} (virt phys flags : ℕ)
    → paging_get_page virt true flags m ≡ some (page_slot (virt / 2 ^ 22) (virt / 4096 % 1024), c)
    → IsSpace c
    → virt < 0xFFC00000
    → c.mem c.cr3 (virt / 2 ^ 22) % 2 ≡ 1
    → MapsFrom virt phys flags m c
unfolding paging_map_page paging_invalidate_page
map_page-found m {c} virt phys flags found s h p =
    let w = entry phys flags in
    let u = put_word (c.mem c.cr3 (virt / 2 ^ 22) / 4096) (virt / 4096 % 1024) w c in
    let moved =
      subst (λ o. Remapped virt o c u) (target-entry phys flags) (put_word-Remapped virt w s h p) in
    let old = page_word virt c in
    let read = read_table (virt / 2 ^ 22) (virt / 4096 % 1024) s (omega arith) (omega arith) p in
    let l = virt ∷ c.invalidated in
    elim (Bool-cases (is_present old)) [
      | inl y ↦
          let n = (note_mapped virt phys old c).calls in
          (
            record u { calls = n; invalidated = l },
            rw (found, read, y, write_entry virt w n s h p) refl,
            Remapped-noted c u virt (some (phys / 4096)) n l moved,
            refl,
            refl,
            rw y refl,
          )
      | inr y ↦ (
        record u { invalidated = l },
        rw (found, read, y, write_entry virt w c.calls s h p) refl,
        Remapped-noted c u virt (some (phys / 4096)) c.calls l moved,
        refl,
        refl,
        rw y refl,
      )
    ]

-- On a well-formed address space whose directory has a table for `virt`, outside the window of the
-- tables, `paging_map_page`, printing aside, returns; it translates the page of `virt` to the frame
-- of `phys` and every other page as before, keeps the address space well-formed, invalidates `virt`
-- and leaves the page allocator alone.
pub map_page-walk :
    {m : Mmu} (virt phys flags : ℕ)
    → IsSpace m
    → virt < 0xFFC00000
    → m.mem m.cr3 (virt / 2 ^ 22) % 2 ≡ 1
    → (t : Mmu) × (paging_map_page virt phys flags m ≡ some t)
      × IsSpace t
      × ((v : ℕ)
          → v < 2 ^ 20
          → walk v t ≡ (if v == virt / 4096 then some (phys / 4096) else walk v m))
      × (t.invalidated ≡ virt ∷ m.invalidated)
      × (t.pmm ≡ m.pmm)
map_page-walk {m} virt phys flags s h p =
    let (t, e, moved, noted, kept, _) =
      map_page-found m virt phys flags (get_page-present virt true flags s (omega arith) p)
        (note_unaligned-IsSpace virt s) h p in
    let (space, walks) = Remapped-note_unaligned virt (some (phys / 4096)) m t moved in
    (t, e, space, walks, noted, kept)
