-- ===== src/Paging/TakeLaws.antt =====
-- One round of the loop of `paging_alloc_pages` of kernel/src/mm/paging.c.
use night.Base.{
  ℕ, suc, ◌+◌, ◌*◌, ◌/◌, ◌%◌, ◌^◌, ◌<◌, ◌≡◌, ◌⊎◌, refl, ap, sym, ◌∙◌, false, some, List, [], length,
  ◌==◌, if◌then◌else◌, arith, inl, inr,
}
use mathlib.Core.Path.{subst}
use night.Libk.Arith.{u32}
use night.Pmm.State.{Pmm}
use night.Pmm.Blocks.{used}
use night.Pmm.Alloc.{check_memory, pmm_alloc_page}
use night.Pmm.FirstFree.{AllUsed, scanned}
use night.Pmm.PageLaws.{
  IsValid, AllocPage, failed, taken, pmm_alloc_page_lem, check_memory-bitmap, AllocPage-IsValid,
}
use night.Paging.Access.{Mmu, walk}
use night.Paging.Pages.{back_page, alloc_pages_from}
use night.Paging.Reach.{IsSpace, with_pmm, with_pmm-IsSpace}
use night.Paging.BackLaws.{IsBacked, back_page-Remapped}

-- The loop's state when the allocator took block `b`.
alloc_pages_from-step :
    (virt num i b : ℕ) (q : Pmm) (m a : Mmu)
    → pmm_alloc_page m.pmm ≡ some (b * 4096, q)
    → 0 < b
    → virt + i * 4096 < 2 ^ 32
    → back_page (virt + i * 4096) (b * 4096) (with_pmm q m) ≡ some a
    → alloc_pages_from virt (suc num) i m ≡ alloc_pages_from virt num (i + 1) a
unfolding alloc_pages_from
alloc_pages_from-step virt num i b q m a e pos small e' =
    let addr : u32 (virt + i * 0x1000) ≡ virt + i * 4096 = omega (arith, small) in
    let more : (b * 4096 == 0) ≡ false = ground (arith, pos) in rw (e, addr, more, e') refl

alloc_pages_from-failed :
    (virt num i : ℕ) (q : Pmm) (m : Mmu)
    → pmm_alloc_page m.pmm ≡ some (0, q)
    → alloc_pages_from virt (suc num) i m ≡ some (0, with_pmm q m)
unfolding alloc_pages_from
alloc_pages_from-failed virt num i q m e = rw e refl

-- All pages were backed, or the allocator ran out of free blocks.
abbrev pub Ended : (virt num r : ℕ) → List ℕ → Mmu → Type 0
Ended virt num r fs t =
    (r ≡ virt) × (length fs ≡ num)
    ⊎ (r ≡ 0) × (length fs < num) × AllUsed t.pmm.bitmap 0 (scanned t.pmm)

walk-with_pmm : (v : ℕ) (q : Pmm) (m : Mmu) → walk v (with_pmm q m) ≡ walk v m
unfolding walk
walk-with_pmm v q m = refl

-- Nothing is mapped, and the allocator keeps its blocks.
pub IsBacked-none :
    (first : ℕ) {m : Mmu} (q : Pmm)
    → IsSpace m
    → IsValid q
    → (q.bitmap ≡ m.pmm.bitmap)
    → (q.max_blocks ≡ m.pmm.max_blocks)
    → IsBacked first [] m (with_pmm q m)
IsBacked-none first {m} q s valid same size = record {
  space = with_pmm-IsSpace q s;
  valid = valid;
  walks = λ v h. walk-with_pmm v q m ∙ ground arith;
  different = tt;
  were_free = λ b h. cc;
  blocks = λ b. ap (λ f. used f b) same;
  size = size;
}

AllUsed-check_memory :
    (p : Pmm)
    → AllUsed p.bitmap 0 (scanned p)
    → AllUsed (check_memory p).bitmap 0 (scanned (check_memory p))
AllUsed-check_memory p all b lo hi =
    let (same, size, _) = check_memory-bitmap p in
    ap (λ f. used f b) same ∙ all b lo (omega (arith, hi, size))

-- One page of the loop, when block `b` was taken for it.
pub record IsTaken (virt b : ℕ) (m a : Mmu) : Type 0 where
  pub space : IsSpace a
  pub valid : IsValid a.pmm
  pub walks : (v : ℕ) → v < 2 ^ 20 → walk v a ≡ (if v == virt / 4096 then some b else walk v m)
  pub was_free : used m.pmm.bitmap b ≡ 0
  pub blocks : (c : ℕ) → used a.pmm.bitmap c ≡ (if b == c then 1 else used m.pmm.bitmap c)
  pub size : a.pmm.max_blocks ≡ m.pmm.max_blocks

pub one_round :
    {m : Mmu} (virt num i : ℕ)
    → IsSpace m
    → IsValid m.pmm
    → virt + i * 4096 < 0xFFC00000
    → m.mem m.cr3 ((virt + i * 4096) / 2 ^ 22) % 2 ≡ 1
    → ((q : Pmm) × (alloc_pages_from virt (suc num) i m ≡ some (0, with_pmm q m))
        × IsBacked (virt / 4096 + i) [] m (with_pmm q m)
        × AllUsed q.bitmap 0 (scanned q))
      ⊎ ((b : ℕ) × (a : Mmu) × (alloc_pages_from virt (suc num) i m
            ≡ alloc_pages_from virt num (i + 1) a)
          × IsTaken (virt + i * 4096) b m a)
one_round {m} virt num i s valid h p =
    let (r, q, e, done) = pmm_alloc_page_lem m.pmm valid in split r q e done
  where
    split :
        (r : ℕ) (q : Pmm)
        → pmm_alloc_page m.pmm ≡ some (r, q)
        → AllocPage m.pmm r q
        → ((q : Pmm) × (alloc_pages_from virt (suc num) i m ≡ some (0, with_pmm q m))
            × IsBacked (virt / 4096 + i) [] m (with_pmm q m)
            × AllUsed q.bitmap 0 (scanned q))
          ⊎ ((b : ℕ) × (a : Mmu) × (alloc_pages_from virt (suc num) i m
                ≡ alloc_pages_from virt num (i + 1) a)
              × IsTaken (virt + i * 4096) b m a)
    split r q e (failed z state all) =
        let (same, size, _) = check_memory-bitmap m.pmm in
        inl (
          q,
          alloc_pages_from-failed virt num i q m (e ∙ ap (λ k. some (k, q)) z),
          IsBacked-none (virt / 4096 + i) q s (AllocPage-IsValid valid (failed z state all))
              (ap (λ k. k.bitmap) state ∙ same) (ap (λ k. k.max_blocks) state ∙ size),
          subst (λ k. AllUsed k.bitmap 0 (scanned k)) (sym state) (AllUsed-check_memory m.pmm all),
        )
    split r q e (taken b at f g) =
        let (same, size, _) = check_memory-bitmap m.pmm in
        let pos : 0 < b = ground (arith, f.free, valid.zero_used) in
        let (a, e', (space, walks), kept) =
          back_page-Remapped (virt + i * 4096) (b * 4096) (with_pmm-IsSpace q s) h p in
        let frame : b * 4096 / 4096 ≡ b = omega arith in
        inr (
          b,
          a,
          alloc_pages_from-step virt num i b q m a (e ∙ ap (λ k. some (k, q)) at) pos
              (omega (arith, h)) e',
          record {
            space = space;
            valid = subst IsValid (sym kept) (AllocPage-IsValid valid (taken b at f g));
            walks = λ v hv.
                walks v hv
                ∙ ap (λ k. if v == (virt + i * 4096) / 4096 then some k else walk v (with_pmm q m))
                    frame
                ∙ ap (λ o. if v == (virt + i * 4096) / 4096 then some b else o)
                    (walk-with_pmm v q m);
            was_free = f.free;
            blocks = λ c.
                let now = g.blocks c in
                let before = ap (λ k. used k c) same in
                ap (λ k. used k.bitmap c) kept ∙ ground (arith, now, before);
            size = ap (λ k. k.max_blocks) kept ∙ g.rest.max_blocks ∙ size;
          },
        )
