-- ===== src/Pmm/Holders.antt =====
-- A client of `pmm_alloc_page` and `pmm_free_page` that frees only what it holds.
use night.Base.{
  ℕ, ◌*◌, ◌/◌, ◌<◌, ◌≡◌, ◌≢◌, refl, ap, ◌∙◌, Bool, true, false, inl, inr, some, arith, ◌==◌,
  if◌then◌else◌, Bool-cases, ◌||◌, List, [], ◌∷◌,
}
use night.Pmm.State.{Pmm, pmm_block_size}
use night.Pmm.Blocks.{used, Filled, bitmap_blocks, mmap_unset_lem}
use night.Pmm.Alloc.{check_memory, pmm_alloc_page, pmm_free_page}
use night.Pmm.PageLaws.{
  IsValid, IsValid-Filled, check_memory-bitmap, AllocPage, failed, taken, pmm_alloc_page-AllocPage,
  AllocPage-IsValid,
}

abbrev pub holds : List ℕ → ℕ → Bool
holds [] r = false
holds (x ∷ xs) r = (x == r) || holds xs r

abbrev pub drop_page : ℕ → List ℕ → List ℕ
drop_page r [] = []
drop_page r (x ∷ xs) = if x == r then xs else x ∷ drop_page r xs

-- One call by a client that holds the pages of a list.
pub data Call (p : Pmm) (held : List ℕ) : Pmm → List ℕ → Type 0 where
  alloc : {r : ℕ} {q : Pmm} → pmm_alloc_page p ≡ some (r, q) → r ≢ 0 → Call p held q (r ∷ held)
  alloc_failed : {q : Pmm} → pmm_alloc_page p ≡ some (0, q) → Call p held q held
  free :
      {q : Pmm} (r : ℕ)
      → holds held r ≡ true
      → pmm_free_page r p ≡ some q
      → Call p held q (drop_page r held)

pub data Calls (p : Pmm) : Pmm → List ℕ → Type 0 where
  start : Calls p p []
  next : {q t : Pmm} {held held' : List ℕ} → Calls p q held → Call q held t held' → Calls p t held'

-- The address of a used block other than block 0.
pub record IsPage (p : Pmm) (r : ℕ) : Type 0 where
  pub aligned : r ≡ r / pmm_block_size * pmm_block_size
  pub pos : 0 < r
  pub room : r / pmm_block_size < bitmap_blocks
  pub taken : used p.bitmap (r / pmm_block_size) ≡ 1

-- Every page held is in use, and no page is held twice.
abbrev pub AllHeld : Pmm → List ℕ → Type 0
AllHeld p [] = Unit {0}
AllHeld p (r ∷ held) = IsPage p r × (holds held r ≡ false) × AllHeld p held

AllHeld-holds :
    (p : Pmm) (held : List ℕ) (r : ℕ) → AllHeld p held → holds held r ≡ true → IsPage p r
AllHeld-holds p [] r h m = cc
AllHeld-holds p (x ∷ held) r h m = elim (Bool-cases (x == r)) [
  | inl y ↦ let same : x ≡ r = ground arith in rw same at h.0
  | inr y ↦ AllHeld-holds p held r h.2 (ground arith)
]

holds-drop_page :
    (held : List ℕ) (r x : ℕ) → holds held x ≡ false → holds (drop_page r held) x ≡ false
holds-drop_page [] r x h = refl
holds-drop_page (y ∷ held) r x h = ground (arith, holds-drop_page held r x)

AllHeld-mono :
    (p q : Pmm) (held : List ℕ)
    → ((r : ℕ) → holds held r ≡ true → IsPage p r → IsPage q r)
    → AllHeld p held
    → AllHeld q held
AllHeld-mono p q [] keep h = tt
AllHeld-mono p q (x ∷ held) keep h =
    (keep x (ground arith) h.0, h.1, AllHeld-mono p q held (λ r m. keep r (ground arith)) h.2)

AllHeld-drop_page :
    (p q : Pmm) (held : List ℕ) (r : ℕ)
    → ((s : ℕ) → s ≢ r → IsPage p s → IsPage q s)
    → AllHeld p held
    → AllHeld q (drop_page r held)
AllHeld-drop_page p q [] r keep h = tt
AllHeld-drop_page p q (x ∷ held) r keep h = elim (Bool-cases (x == r)) [
  | inl y ↦
      let same : x ≡ r = ground arith in
      rw y (AllHeld-mono p q held (λ s m. keep s (λ e. cc (h.1, same))) h.2)
  | inr y ↦ rw y (
    keep x (ground arith) h.0,
    holds-drop_page held r x h.1,
    AllHeld-drop_page p q held r keep h.2,
  )
]

-- An allocation leaves the used blocks used.
used-AllocPage :
    {p q : Pmm} {r : ℕ} (n : ℕ) → AllocPage p r q → used p.bitmap n ≡ 1 → used q.bitmap n ≡ 1
used-AllocPage {p} {q} n (failed z same _) u =
    let kept : q.bitmap ≡ p.bitmap = ap (λ t. t.bitmap) same ∙ (check_memory-bitmap p).0 in
    ap (λ m. used m n) kept ∙ u
used-AllocPage {p} {q} n (taken b at f g) u =
    let before : used (check_memory p).bitmap n ≡ 1 =
      ap (λ m. used m n) (check_memory-bitmap p).0 ∙ u in
    ground (arith, g.blocks n)

IsPage-used :
    {p q : Pmm} (r : ℕ)
    → (used p.bitmap (r / pmm_block_size) ≡ 1 → used q.bitmap (r / pmm_block_size) ≡ 1)
    → IsPage p r
    → IsPage q r
IsPage-used r keep h = record {
  aligned = h.aligned;
  pos = h.pos;
  room = h.room;
  taken = keep h.taken;
}

-- The page that an allocation returns.
IsPage-alloc :
    {p q : Pmm} (r : ℕ)
    → IsValid p
    → AllocPage p r q
    → r ≢ 0
    → IsPage q r × (used p.bitmap (r / pmm_block_size) ≡ 0)
IsPage-alloc r s (failed z _ _) ne = absurd (ne z)
IsPage-alloc {p} {q} r s (taken b at f g) ne =
    let block : r / pmm_block_size ≡ b = omega arith in
    let low : b < bitmap_blocks = omega (arith, f.below, s.room) in
    (
      record {
        aligned = omega arith;
        pos = omega arith;
        room = omega arith;
        taken = rw block (ground (arith, g.blocks b));
      },
      rw block f.free,
    )

-- A page that is free is not held.
not-holds :
    (p : Pmm) (held : List ℕ) (r : ℕ)
    → AllHeld p held
    → used p.bitmap (r / pmm_block_size) ≡ 0
    → holds held r ≡ false
not-holds p held r h z = elim (Bool-cases (holds held r)) [
  | inl y ↦ absurd (omega (arith, z, (AllHeld-holds p held r h y).taken))
  | inr y ↦ y
]

pub record IsSound (p : Pmm) (held : List ℕ) : Type 0 where
  pub valid : IsValid p
  pub pages : AllHeld p held

free-IsSound :
    {p q : Pmm} (held : List ℕ) (r : ℕ)
    → IsSound p held
    → holds held r ≡ true
    → pmm_free_page r p ≡ some q
    → IsSound q (drop_page r held)
unfolding pmm_free_page
free-IsSound {p} {q} held r s m e =
    let page = AllHeld-holds p held r s.pages m in
    let (q', e', g) = mmap_unset_lem (r / pmm_block_size) p page.room in
    let same : q' ≡ q = cc in
    let g' : Filled 0 (r / pmm_block_size) 1 _ p q = rw same at g in
    record {
      valid = IsValid-Filled s.valid g' (omega arith) (inl (omega (arith, page.aligned, page.pos)));
      pages =
          AllHeld-drop_page p q held r
            (λ t ne h.
              IsPage-used t
                (λ u.
                  let apart : t / pmm_block_size ≢ r / pmm_block_size =
                    λ k. ne (omega (arith, h.aligned, page.aligned)) in
                  ground (arith, g'.blocks (t / pmm_block_size)))
                h)
            s.pages;
    }

Call-IsSound :
    {p q : Pmm} {held held' : List ℕ} → Call p held q held' → IsSound p held → IsSound q held'
Call-IsSound {p} {q} {held} (alloc {r} e ne) s =
    let a = pmm_alloc_page-AllocPage s.valid e in
    let (page, was_free) = IsPage-alloc r s.valid a ne in
    record {
      valid = AllocPage-IsValid s.valid a;
      pages = (
        page,
        not-holds p held r s.pages was_free,
        AllHeld-mono p q held (λ t m. IsPage-used t (used-AllocPage (t / pmm_block_size) a))
            s.pages,
      );
    }
Call-IsSound {p} {q} {held} (alloc_failed e) s =
    let a = pmm_alloc_page-AllocPage s.valid e in
    record {
      valid = AllocPage-IsValid s.valid a;
      pages =
          AllHeld-mono p q held (λ t m. IsPage-used t (used-AllocPage (t / pmm_block_size) a))
            s.pages;
    }
Call-IsSound (free {q} r m e) s = free-IsSound _ r s m e

-- From a valid state, however allocations and frees of held pages follow one another, the state
-- stays valid, every page held is in use and at a page boundary, and no page is held twice.
pub Calls-IsSound : {p q : Pmm} {held : List ℕ} → IsValid p → Calls p q held → IsSound q held
Calls-IsSound s start = record { valid = s; pages = tt }
Calls-IsSound s (next run c) = Call-IsSound c (Calls-IsSound s run)
