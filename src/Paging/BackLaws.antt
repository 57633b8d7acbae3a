-- ===== src/Paging/BackLaws.antt =====
-- `paging_alloc_pages` of kernel/src/mm/paging.c: fresh frames of the page allocator behind a range
-- of pages whose tables are there.
use night.Base.{
  ℕ, suc, ◌+◌, ◌-◌, ◌/◌, ◌%◌, ◌^◌, ◌<◌, ◌≡◌, refl, ap, ◌∙◌, true, false, some, List, [], ◌∷◌,
  length, get_elem?, ◌==◌, if◌then◌else◌, arith, Bool-cases, inl, inr, bit_or,
}
use mathlib.Core.Path.{subst}
use night.Pmm.Blocks.{used}
use night.Pmm.Holders.{holds}
use night.Pmm.PageLaws.{IsValid}
use night.Paging.Access.{Mmu, walk, put_word}
use night.Paging.Entries.{page_present, page_rw, page_user, bit_or-frame, bit_or-present}
use night.Paging.Pages.{back_page, note_unaligned}
use night.Paging.Reach.{IsSpace, get_page-present, write_table, note_unaligned-IsSpace}
use night.Paging.MapLaws.{Remapped, target, put_word-Remapped, Remapped-note_unaligned}
use night.Paging.RangeLaws.{in_range}

-- The word of a frame for the user.
abbrev user_word : (page : ℕ) → ℕ
user_word page = bit_or (bit_or (bit_or page page_present) page_rw) page_user

target-user_word : (page : ℕ) → target (user_word page) ≡ some (page / 4096)
target-user_word page =
    let set : user_word page % 2 ≡ 1 =
      bit_or-present (bit_or (bit_or page page_present) page_rw) page_user (
        inl (
          bit_or-present (bit_or page page_present) page_rw
            (inl (bit_or-present page page_present (inr refl))))) in
    let frame : user_word page / 4096 ≡ page / 4096 =
      bit_or-frame (bit_or (bit_or page page_present) page_rw) page_user (omega arith)
      ∙ bit_or-frame (bit_or page page_present) page_rw (omega arith)
      ∙ bit_or-frame page page_present (omega arith) in
    rw (set, frame) refl

pub back_page-Remapped :
    {m : Mmu} (virt page : ℕ)
    → IsSpace m
    → virt < 0xFFC00000
    → m.mem m.cr3 (virt / 2 ^ 22) % 2 ≡ 1
    → (t : Mmu) × (back_page virt page m ≡ some t)
      × Remapped virt (some (page / 4096)) m t
      × (t.pmm ≡ m.pmm)
unfolding back_page
back_page-Remapped {m} virt page s h p =
    let i = virt / 2 ^ 22 in
    let k = virt / 4096 % 1024 in
    let a = note_unaligned virt m in
    let s' = note_unaligned-IsSpace virt s in
    let t = put_word (m.mem m.cr3 i / 4096) k (user_word page) a in
    (
      t,
      rw (get_page-present virt true (bit_or page_rw page_user) s (omega arith) p)
          (write_table i k (user_word page) s' (omega arith) (omega arith) p),
      Remapped-note_unaligned virt (some (page / 4096)) m t (
          subst (λ o. Remapped virt o a t) (target-user_word page)
            (put_word-Remapped virt (user_word page) s' h p)),
      refl,
    )

abbrev pub AllDifferent : List ℕ → Type 0
AllDifferent [] = Unit {0}
AllDifferent (f ∷ fs) = (holds fs f ≡ false) × AllDifferent fs

-- From `m` to `t`, the pages from `first` on got the frames of a list, one each: different
-- frames that were free and are used now. Nothing else was mapped or allocated.
pub record IsBacked (first : ℕ) (fs : List ℕ) (m t : Mmu) : Type 0 where
  pub space : IsSpace t
  pub valid : IsValid t.pmm
  pub walks :
      (v : ℕ)
      → v < 2 ^ 20
      → walk v t ≡ (if in_range first (length fs) v then get_elem? fs (v - first) else walk v m)
  pub different : AllDifferent fs
  pub were_free : (b : ℕ) → holds fs b ≡ true → used m.pmm.bitmap b ≡ 0
  pub blocks : (b : ℕ) → used t.pmm.bitmap b ≡ (if holds fs b then 1 else used m.pmm.bitmap b)
  pub size : t.pmm.max_blocks ≡ m.pmm.max_blocks

elem_step :
    (b : ℕ) (fs : List ℕ) (v first : ℕ)
    → first < v
    → get_elem? (b ∷ fs) (v - first) ≡ get_elem? fs (v - (first + 1))
elem_step b fs v first h =
    let step : v - first ≡ suc (v - (first + 1)) = omega (arith, h) in ap (get_elem? (b ∷ fs)) step

elem_first :
    (b : ℕ) (fs : List ℕ) (v first : ℕ) → v ≡ first → get_elem? (b ∷ fs) (v - first) ≡ some b
elem_first b fs v first e =
    let step : v - first ≡ 0 = omega (arith, e) in ap (get_elem? (b ∷ fs)) step

-- One page more at the start.
pub IsBacked-cons :
    (first b : ℕ) (fs : List ℕ) (m a t : Mmu)
    → used m.pmm.bitmap b ≡ 0
    → ((v : ℕ) → v < 2 ^ 20 → walk v a ≡ (if v == first then some b else walk v m))
    → ((c : ℕ) → used a.pmm.bitmap c ≡ (if b == c then 1 else used m.pmm.bitmap c))
    → a.pmm.max_blocks ≡ m.pmm.max_blocks
    → IsBacked (first + 1) fs a t
    → IsBacked first (b ∷ fs) m t
IsBacked-cons first b fs m a t free walks blocks size r = record {
  space = r.space;
  valid = r.valid;
  walks = λ v h.
      ground (arith, r.walks v h, walks v h, elem_step b fs v first, elem_first b fs v first);
  different = (
    elim (Bool-cases (holds fs b)) [
      | inl y ↦
          let now : used a.pmm.bitmap b ≡ 1 = ground (arith, blocks b) in
          absurd (omega (arith, now, r.were_free b y))
      | inr y ↦ y
    ],
    r.different,
  );
  were_free = λ c h. ground (arith, h, free, blocks c, r.were_free c);
  blocks = λ c. ground (arith, r.blocks c, blocks c);
  size = r.size ∙ size;
}
