-- ===== src/Pmm/Refine.antt =====
-- The page allocator of kernel/src/mm/pmm.c behaves as the set of used blocks of Pmm/Spec.
use night.Base.{
  ℕ, ◌+◌, ◌-◌, ◌*◌, ◌/◌, ◌^◌, ◌≤◌, ◌<◌, ◌≡◌, refl, ap, sym, ◌∙◌, Bool, true, false, Option, none,
  some, List, [], ◌∷◌, ltb, if◌then◌else◌, arith, inl, inr,
}
use night.Libk.Arith.{u32, sub32}
use night.Pmm.State.{Pmm}
use night.Pmm.Blocks.{used, Filled, bitmap_blocks, mmap_unset_lem}
use night.Pmm.Runs.{unset_run_lem}
use night.Pmm.RunState.{FreeRun}
use night.Pmm.Hooks.{liballoc_alloc, liballoc_free}
use night.Pmm.Alloc.{check_memory, pmm_alloc_page, pmm_alloc_pages, pmm_free_page, pmm_free_pages}
use night.Pmm.PageLaws.{
  IsValid, IsValid-Filled, check_memory-bitmap, check_memory-IsValid, AllocPage, failed, taken,
  pmm_alloc_page_lem, AllocPage-IsValid,
}
use night.Pmm.RunLaws
use night.Pmm.RunLaws.{AllocPages, pmm_alloc_pages_lem}
use night.Pmm.Spec
use night.Pmm.Spec.{
  Blocks, Allocator, Op, alloc, alloc_run, free, free_run, lowest_free, lowest_run, is_free_run,
  fill, take, take_found, give_back,
}
use night.Pmm.SpecLaws.{
  lowest_free-none, lowest_free-some, is_free_run-free, is_free_run-not_free, lowest_run-none,
  lowest_run-some,
}
use night.Pmm.Client.{call, run, Shows, IsAllowed, AllAllowed}

-- A call of the code has the result and the state of a step of the specification.
abbrev Simulates : (max : ℕ) → ℕ × Allocator → Option (ℕ × Pmm) → Type 0
Simulates max r o = (q : Pmm) × (o ≡ some (r.0, q)) × Shows q max r.1

Shows-check_memory :
    {p : Pmm} {max : ℕ} {s : Allocator} → Shows p max s → Shows (check_memory p) max s
Shows-check_memory {p} h =
    let (same, size, count) = check_memory-bitmap p in
    record {
      valid = check_memory-IsValid h.valid;
      view = λ b. ap (λ m. used m b) same ∙ h.view b;
      count = count ∙ h.count;
      size = size ∙ h.size;
    }

Shows-Filled :
    {p q : Pmm} {max : ℕ} {s : Allocator} (v first num c c' : ℕ)
    → Shows p max s
    → Filled v first num c p q
    → c ≡ c'
    → IsValid q
    → Shows q max (record { blocks = fill v first num s.blocks; count = c' })
Shows-Filled v first num c c' h f same valid = record {
  valid = valid;
  view = λ b. f.blocks b ∙ ground (arith, h.view b);
  count = f.counted ∙ same;
  size = f.rest.max_blocks ∙ h.size;
}

-- A run is free in the bitmap exactly if the specification finds it free.
module _ {p : Pmm} {max : ℕ} {s : Allocator} (h : Shows p max s) where
  is_free_run-FreeRun : (b num : ℕ) → FreeRun p.bitmap b num → is_free_run s.blocks b num ≡ true
  is_free_run-FreeRun b num all =
      is_free_run-free s.blocks b num (λ k lo hi. sym (h.view k) ∙ all k lo hi)

  is_free_run-not_FreeRun :
      (b num : ℕ) → ¬ FreeRun p.bitmap b num → is_free_run s.blocks b num ≡ false
  is_free_run-not_FreeRun b num not_free =
      is_free_run-not_free s.blocks b num (λ all. not_free (λ k lo hi. h.view k ∙ all k lo hi))

  alloc-Simulates : Simulates max (Spec.step max alloc s) (pmm_alloc_page p)
  unfolding Spec.step
  alloc-Simulates = let (r, q, e, a) = pmm_alloc_page_lem p h.valid in result r q e a
    where
      result :
          (r : ℕ) (q : Pmm)
          → pmm_alloc_page p ≡ some (r, q)
          → AllocPage p r q
          → Simulates max
              (take_found (lowest_free s.blocks 0 (max / 32 * 32)) 1 s)
              (pmm_alloc_page p)
      result r q e (failed z same all) =
          let none_free : lowest_free s.blocks 0 (max / 32 * 32) ≡ none =
            lowest_free-none s.blocks 0 (max / 32 * 32)
              (λ b lo hi. sym (h.view b) ∙ all b lo (omega (arith, hi, h.size))) in
          rw none_free (
            check_memory p,
            e ∙ ap (λ k. some (k, q)) z ∙ ap (λ t. some (0, t)) same,
            Shows-check_memory h,
          )
      result r q e (taken b er f g) =
          let found : lowest_free s.blocks 0 (max / 32 * 32) ≡ some b =
            lowest_free-some s.blocks b 0 (max / 32 * 32) (omega arith)
              (omega (arith, f.below, h.size)) (sym (h.view b) ∙ f.free)
              (λ c lo hi. sym (h.view c) ∙ f.least c lo hi) in
          rw found (
            q,
            e ∙ ap (λ k. some (k, q)) er,
            Shows-Filled 1 b 1 (u32 (p.used_blocks + 1)) (u32 (s.count + 1)) (Shows-check_memory h)
                g (ap (λ k. u32 (k + 1)) h.count) (AllocPage-IsValid h.valid (taken b er f g)),
          )

  alloc_run-Simulates :
      (num : ℕ) → 0 < num → Simulates max (Spec.step max (alloc_run num) s) (pmm_alloc_pages num p)
  unfolding Spec.step
  alloc_run-Simulates num pos =
      let (r, q, e, a) = pmm_alloc_pages_lem num p h.valid pos in result r q e a
    where
      few : sub32 max s.count ≡ sub32 p.max_blocks p.used_blocks
      few = ap (λ k. sub32 k s.count) (sym h.size) ∙ ap (sub32 p.max_blocks) (sym h.count)

      result :
          (r : ℕ) (q : Pmm)
          → pmm_alloc_pages num p ≡ some (r, q)
          → AllocPages num p r q
          → Simulates max
              (if ltb (sub32 max s.count) num
                then (0, s)
                else take_found (lowest_run s.blocks num 0 (max / 32 * 32 + 1 - num)) num s)
              (pmm_alloc_pages num p)
      result r q e (RunLaws.short z same less) =
          let refused : ltb (sub32 max s.count) num ≡ true = ground (arith, few, less) in
          rw refused (p, e ∙ ap (λ k. some (k, q)) z ∙ ap (λ t. some (0, t)) same, h)
      result r q e (RunLaws.no_run z same none_run) =
          let none_free : lowest_run s.blocks num 0 (max / 32 * 32 + 1 - num) ≡ none =
            lowest_run-none s.blocks num 0 (max / 32 * 32 + 1 - num)
              (λ b lo hi. is_free_run-not_FreeRun b num (none_run b (omega (arith, hi, h.size)))) in
          let at : Simulates max (0, s) (pmm_alloc_pages num p) =
            (p, e ∙ ap (λ k. some (k, q)) z ∙ ap (λ t. some (0, t)) same, h) in
          rw none_free (either (ltb (sub32 max s.count) num) at)
        where
          either :
              (b : Bool)
              → Simulates max (0, s) (pmm_alloc_pages num p)
              → Simulates max (if b then (0, s) else (0, s)) (pmm_alloc_pages num p)
          either true at = at
          either false at = at
      result r q e (RunLaws.taken b er enough f g) =
          let allowed : ltb (sub32 max s.count) num ≡ false = ground (arith, few, enough) in
          let found : lowest_run s.blocks num 0 (max / 32 * 32 + 1 - num) ≡ some b =
            lowest_run-some s.blocks num b 0 (max / 32 * 32 + 1 - num) (omega arith)
              (omega (arith, f.below, h.size)) (is_free_run-FreeRun b num f.free)
              (λ c lo hi. is_free_run-not_FreeRun c num (f.least c hi)) in
          rw (allowed, found)
            (
              q,
              e ∙ ap (λ k. some (k, q)) er,
              Shows-Filled 1 b num (u32 (p.used_blocks + num)) (u32 (s.count + num)) h g
                  (ap (λ k. u32 (k + num)) h.count)
                  (IsValid-Filled h.valid g (omega arith) (inr refl)),
            )

  free-Simulates :
      (addr : ℕ)
      → 4096 ≤ addr
      → addr < 2 ^ 32
      → Simulates max (Spec.step max (free addr) s) (call (free addr) p)
  unfolding Spec.step call pmm_free_page
  free-Simulates addr lo hi =
      let (q, e, f) = mmap_unset_lem (addr / 4096) p (omega (arith, hi)) in
      (
        q,
        rw e refl,
        Shows-Filled 0 (addr / 4096) 1 (sub32 p.used_blocks 1) (sub32 s.count 1) h f
            (ap (λ k. sub32 k 1) h.count)
            (IsValid-Filled h.valid f (omega arith) (inl (omega (arith, lo)))),
      )

  free_run-Simulates :
      (addr num : ℕ)
      → 4096 ≤ addr
      → addr / 4096 + num ≤ bitmap_blocks
      → Simulates max (Spec.step max (free_run addr num) s) (call (free_run addr num) p)
  unfolding Spec.step call liballoc_free pmm_free_pages
  free_run-Simulates addr num lo hi =
      let (q, e, f) = unset_run_lem num (addr / 4096) p hi h.valid.word in
      (
        q,
        rw e refl,
        Shows-Filled 0 (addr / 4096) num (sub32 p.used_blocks num) (sub32 s.count num) h f
            (ap (λ k. sub32 k num) h.count)
            (IsValid-Filled h.valid f (omega arith) (inl (omega (arith, lo)))),
      )

call-Simulates :
    {p : Pmm} {max : ℕ} {s : Allocator} (op : Op)
    → Shows p max s
    → IsAllowed op
    → Simulates max (Spec.step max op s) (call op p)
unfolding call liballoc_alloc
call-Simulates alloc h ok = alloc-Simulates h
call-Simulates (alloc_run num) h ok = alloc_run-Simulates h num ok
call-Simulates (free addr) h ok = free-Simulates h addr ok.0 ok.1
call-Simulates (free_run addr num) h ok = free_run-Simulates h addr num ok.0 ok.1

-- For any sequence of calls of `pmm_alloc_page` and `pmm_free_page`, and of `pmm_alloc_pages` and
-- `pmm_free_pages` by the hooks of the heap, with runs of at least one block asked for and blocks
-- freed that the bitmap has but for block 0, the allocator does not fault, and its results are those
-- of the specification: a set of used blocks and a count, which gives out the lowest free block or
-- the lowest run of free blocks.
pub run_refines :
    (ops : List Op) {p : Pmm} {max : ℕ} {s : Allocator}
    → Shows p max s
    → AllAllowed ops
    → run ops p ≡ some (Spec.run max ops s)
unfolding run Spec.run
run_refines [] h ok = refl
run_refines (op ∷ ops) h ok =
    let (q, e, h') = call-Simulates op h ok.0 in rw (e, run_refines ops h' ok.1) refl
