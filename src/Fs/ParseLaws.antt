-- ===== src/Fs/ParseLaws.antt =====
-- `parse` of kernel/src/fs/tar/tar.c on a whole archive.
use night.Base.{
  ℕ, zero, suc, ◌+◌, ◌*◌, ◌^◌, ◌≤◌, ◌<◌, ◌≡◌, ◌≢◌, refl, ap, sym, ◌∙◌, true, false, some, List, [],
  ◌∷◌, ltb, ◌==◌, update, length, arith,
}
use mathlib.Core.Path.{subst}
use night.Libk.Arith.{u32, divide_up}
use night.Fs.Nodes.{Ptr, Node, Fs}
use night.Fs.Lists.{NotIn, IsDir, added}
use night.Fs.Tar.{max_ramdisk_files, size_offset, oct2bin, next_header, mkfile, parse_from}
use night.Fs.TarLaws.{ShowsOctal, oct2bin_lem, next_header_lem}
use night.Fs.MkfileLaws.{NotIn-added, IsDir-SameBut, IsFresh, IsFresh-added, IsMade, mkfile_lem}

-- Where the header behind a file stands: its sectors are counted up.
abbrev pub behind : (address size : ℕ) → ℕ
behind address size = address + 512 + divide_up size 512 * 512

-- A well-formed archive at an address: for each file a header whose name is not empty and which
-- shows the size in octal, then the file's sectors; at the end a name that is empty.
abbrev pub IsArchive : (mem : ℕ → ℕ) (address : ℕ) (sizes : List ℕ) → Type 0
IsArchive mem address [] = mem address ≡ 0
IsArchive mem address (size ∷ sizes) =
    (mem address ≢ 0)
    × ShowsOctal mem (address + size_offset) 11 size
    × (address + size + 1024 < 2 ^ 32)
    × IsArchive mem (behind address size) sizes

-- The address of header `k`.
abbrev pub header_at : (address : ℕ) (sizes : List ℕ) (k : ℕ) → ℕ
header_at address [] k = address
header_at address (size ∷ sizes) zero = address
header_at address (size ∷ sizes) (suc k) = header_at (behind address size) sizes k

module _ (kmalloc : ℕ → Ptr) (junk : ℕ → Node) where
  -- The directory's list after `n` more files; each takes two allocations, the second for its node.
  abbrev pub listed : (n from : ℕ) → List Ptr → List Ptr
  listed zero from ps = ps
  listed (suc n) from ps = listed n (from + 1 + 1) (added ps (kmalloc (from + 1)))

  pub record IsParsed (address i : ℕ) (sizes : List ℕ) (s t : Fs) (d : Node) (ps : List Ptr)
      : Type 0 where
    pub d' : Node
    pub dir : IsDir t t.tar_root d' (listed (length sizes) s.calls ps)
    pub grown : d'.sz ≡ u32 (d.sz + length sizes)
    pub headers : (k : ℕ) → k < length sizes → t.files (i + k) ≡ header_at address sizes k
    pub earlier : (k : ℕ) → k < i → t.files k ≡ s.files k
    pub tar_root : t.tar_root ≡ s.tar_root
    pub mem : t.mem ≡ s.mem
    pub root : t.root ≡ s.root
    pub next : d'.nxt ≡ d.nxt
    pub others :
        (p : Ptr)
        → p ≢ s.tar_root
        → NotIn p ps
        → ((k : ℕ) → s.calls ≤ k → kmalloc k ≢ p)
        → t.nodes p ≡ s.nodes p

  length-added : (ps : List Ptr) (p : Ptr) (n : ℕ) → length ps ≤ n → 2 ≤ n → length (added ps p) ≤ n
  length-added [] p n h two = omega (arith, two)
  length-added (a ∷ []) p n h two = omega (arith, two)
  length-added (a ∷ b ∷ ps) p n h two = h

  pub length-listed : (n from : ℕ) (ps : List Ptr) → length ps ≤ 2 → length (listed n from ps) ≤ 2
  length-listed zero from ps h = h
  length-listed (suc n) from ps h =
      length-listed n (from + 1 + 1) (added ps (kmalloc (from + 1)))
        (length-added ps (kmalloc (from + 1)) 2 h (omega arith))

  -- One round at a header.
  parse_from-step :
      (rounds fuel address i size : ℕ) (s t : Fs)
      → s.mem address ≢ 0
      → oct2bin s.mem (address + size_offset) 11 ≡ size
      → i < max_ramdisk_files
      → mkfile kmalloc junk fuel address size i (record s { files = update s.files i address })
        ≡ some t
      → parse_from kmalloc junk (suc rounds) fuel address i s
        ≡ parse_from kmalloc junk rounds fuel (next_header address size) (i + 1) t
  unfolding parse_from
  parse_from-step rounds fuel address i size s t name shown room made =
      let more : (s.mem address == 0) ≡ false = ground (arith, name) in
      let fits : ltb i max_ramdisk_files ≡ true = ground (arith, room) in
      rw (more, fits, shown, made) refl

  parse_from-end :
      (rounds fuel address i : ℕ) (s : Fs)
      → s.mem address ≡ 0
      → parse_from kmalloc junk (suc rounds) fuel address i s ≡ some (i, s)
  unfolding parse_from
  parse_from-end rounds fuel address i s e = rw e refl

  -- The rest of the archive, seen from the file before it.
  IsParsed-cons :
      (address i size : ℕ) (sizes : List ℕ) (s t u : Fs) (d : Node) (ps : List Ptr)
      (m : IsMade kmalloc junk
        (record s { files = update s.files i address })
        t
        d
        (added ps (kmalloc (s.calls + 1))))
      → IsParsed (behind address size) (i + 1) sizes t u m.d' (added ps (kmalloc (s.calls + 1)))
      → IsParsed address i (size ∷ sizes) s u d ps
  IsParsed-cons address i size sizes s t u d ps m r =
      let ps' = added ps (kmalloc (s.calls + 1)) in
      record {
        d' = r.d';
        dir = subst (λ c. IsDir u u.tar_root r.d' (listed (length sizes) c ps')) m.calls r.dir;
        grown = omega (arith, r.grown, m.grown);
        headers = headers r;
        earlier =
            λ k lt. r.earlier k (omega (arith, lt)) ∙ ap (λ f. f k) m.files ∙ ground (arith, lt);
        tar_root = r.tar_root ∙ m.tar_root;
        mem = r.mem ∙ m.mem;
        root = r.root ∙ m.root;
        next = r.next ∙ m.next;
        others = λ p other out unused.
            r.others p (λ e. other (e ∙ m.tar_root))
              (NotIn-added kmalloc junk p (kmalloc (s.calls + 1)) ps out
                (λ e. unused (s.calls + 1) (omega arith) (sym e)))
              (λ k h. unused k (omega (arith, h, m.calls)))
            ∙ m.others p other (λ e. unused (s.calls + 1) (omega arith) (sym e))
                (NotIn-added kmalloc junk p (kmalloc (s.calls + 1)) ps out
                  (λ e. unused (s.calls + 1) (omega arith) (sym e)));
      }
    where
      headers :
          IsParsed (behind address size) (i + 1) sizes t u m.d' (added ps (kmalloc (s.calls + 1)))
          → (k : ℕ) → k < length (size ∷ sizes)
          → u.files (i + k) ≡ header_at address (size ∷ sizes) k
      headers r zero lt =
          ap u.files (omega arith)
          ∙ r.earlier i (omega arith)
          ∙ ap (λ f. f i) m.files
          ∙ ground arith
      headers r (suc k) lt = ap u.files (omega arith) ∙ r.headers k (omega (arith, lt))

  pub parse_from_lem :
      (rounds fuel address i : ℕ) (sizes : List ℕ) (s : Fs) (d : Node) (ps : List Ptr)
      → IsArchive s.mem address sizes
      → length sizes < rounds
      → i + length sizes ≤ max_ramdisk_files
      → IsDir s s.tar_root d ps
      → IsFresh kmalloc junk s.calls s.tar_root ps
      → length ps ≤ fuel
      → 2 ≤ fuel
      → d.sz < 2 ^ 32
      → (t : Fs) × (parse_from kmalloc junk rounds fuel address i s ≡ some (i + length sizes, t))
        × IsParsed address i sizes s t d ps
  parse_from_lem zero fuel address i sizes s d ps ar enough room is fresh h two small =
      absurd (omega (arith, enough))
  parse_from_lem (suc rounds) fuel address i [] s d ps ar enough room is fresh h two small = (
    s,
    parse_from-end rounds fuel address i s ar ∙ ap (λ k. some (k, s)) (omega arith),
    record {
      d' = d;
      dir = is;
      grown = omega (arith, small);
      headers = λ k lt. absurd (omega (arith, lt));
      earlier = λ k lt. refl;
      tar_root = refl;
      mem = refl;
      root = refl;
      next = refl;
      others = λ p other out unused. refl;
    },
  )
  parse_from_lem (suc rounds) fuel address i (size ∷ sizes) s d ps (name, shown, near, ar) enough
        room is fresh h two small =
      let s' : Fs = record s { files = update s.files i address } in
      let is' : IsDir s' s.tar_root d ps =
        IsDir-SameBut {p = kmalloc s.calls} (λ q ne. refl) (fresh.not_dir s.calls (omega arith))
          (fresh.apart s.calls (omega arith)) is in
      let (t, made, m) = mkfile_lem kmalloc junk fuel address size i s' d ps is' fresh h in
      let ps' = added ps (kmalloc (s.calls + 1)) in
      let fresh' : IsFresh kmalloc junk t.calls t.tar_root ps' =
        subst (λ c. IsFresh kmalloc junk c t.tar_root ps') (sym m.calls)
          (subst (λ r. IsFresh kmalloc junk (s.calls + 1 + 1) r ps') (sym m.tar_root)
            (IsFresh-added kmalloc junk s.calls ps fresh)) in
      let ar' = subst (λ f. IsArchive f (behind address size) sizes) (sym m.mem) ar in
      let (u, e, r) =
        parse_from_lem rounds fuel (behind address size) (i + 1) sizes t m.d' ps' ar'
          (omega (arith, enough)) (omega (arith, room)) m.dir fresh'
          (length-added ps (kmalloc (s.calls + 1)) fuel h two) two (omega (arith, m.grown)) in
      (
        u,
        parse_from-step rounds fuel address i size s t name
              (oct2bin_lem s.mem (address + size_offset) size (omega (arith, near)) shown)
              (omega (arith, room)) made
            ∙ ap (λ a. parse_from kmalloc junk rounds fuel a (i + 1) t)
                (next_header_lem address size near)
            ∙ e
            ∙ ap (λ k. some (k, u)) (omega arith),
        IsParsed-cons address i size sizes s t u d ps m r,
      )
