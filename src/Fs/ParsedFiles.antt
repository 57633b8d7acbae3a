-- ===== src/Fs/ParsedFiles.antt =====
-- All the files of an archive, as `parse` and `init_tarfs` of kernel/src/fs/tar/tar.c leave them.
use night.Base.{
  ℕ, zero, suc, ◌+◌, ◌*◌, ◌<◌, ◌≡◌, refl, sym, false, Option, none, some, List, [], ◌∷◌, length,
  ltb, ◌==◌, update, Bool-cases, Option-cases, inl, inr, arith,
}
use mathlib.Core.Path.{subst}
use night.Fs.Nodes.{Ptr, Node, Fs}
use night.Fs.TouchLaws.{renext-same, redir-same}
use night.Fs.Tar.{max_ramdisk_files, size_offset, oct2bin, mkfile, parse_from}
use night.Fs.TarLaws.{oct2bin_lem, next_header_lem}
use night.Fs.ParseLaws.{IsArchive, header_at, behind}
use night.Fs.FileLaws.{
  Grows, Grows-refl, Grows-trans, IsFile, IsFile-Grows, IsNew, IsNew-Grows, mkfile-files,
}

module _ (kmalloc : ℕ → Ptr) (junk : ℕ → Node) where
  -- File `k` has the second of its two allocations for its node.
  pub record MadeFiles (address i : ℕ) (sizes : List ℕ) (s t : Fs) : Type 0 where
    pub grows : Grows kmalloc junk s t
    pub files :
        (k : ℕ)
        → k < length sizes
        → IsFile kmalloc junk t (kmalloc (s.calls + 2 * k + 1)) (header_at address sizes k) (i + k)

  abbrev pub MadeFilesOf : (address i : ℕ) (sizes : List ℕ) → Fs → Option (ℕ × Fs) → Type 0
  MadeFilesOf address i sizes s none = Unit {0}
  MadeFilesOf address i sizes s (some r) = MadeFiles address i sizes s r.1

  marked-Grows :
      (address i : ℕ) (s : Fs)
      → Grows kmalloc junk s (record s { files = update s.files i address })
  marked-Grows address i s = record {
    tar_root = refl;
    mem = refl;
    root = refl;
    calls = omega arith;
    others = λ q ne old. renext-same (s.nodes q);
    own = λ old. redir-same (s.nodes s.tar_root);
    cells = λ q old. refl;
  }

  MadeFiles-cons :
      (address i size : ℕ) (sizes : List ℕ) (s t u : Fs)
      → Grows kmalloc junk s t
      → t.calls ≡ s.calls + 1 + 1
      → IsFile kmalloc junk t (kmalloc (s.calls + 1)) address i
      → MadeFiles (behind address size) (i + 1) sizes t u
      → MadeFiles address i (size ∷ sizes) s u
  MadeFiles-cons address i size sizes s t u g more f m = record {
    grows = Grows-trans kmalloc junk g m.grows;
    files = files;
  }
    where
      files :
          (k : ℕ)
          → k < length (size ∷ sizes)
          → IsFile kmalloc junk u
              (kmalloc (s.calls + 2 * k + 1))
              (header_at address (size ∷ sizes) k)
              (i + k)
      files zero lt =
          let at : s.calls + 1 ≡ s.calls + 2 * 0 + 1 = omega arith in
          let same : i ≡ i + 0 = omega arith in
          subst (λ c. IsFile kmalloc junk u (kmalloc c) address (i + 0)) at
            (subst (IsFile kmalloc junk u (kmalloc (s.calls + 1)) address) same
              (IsFile-Grows kmalloc junk m.grows f))
      files (suc k) lt =
          let header = header_at (behind address size) sizes k in
          let at : t.calls + 2 * k + 1 ≡ s.calls + 2 * suc k + 1 = omega (arith, more) in
          let same : i + 1 + k ≡ i + suc k = omega arith in
          subst (λ c. IsFile kmalloc junk u (kmalloc c) header (i + suc k)) at
            (subst (IsFile kmalloc junk u (kmalloc (t.calls + 2 * k + 1)) header) same
              (m.files k (omega (arith, lt))))

  MadeFilesOf-cons :
      (address i size : ℕ) (sizes : List ℕ) (s t : Fs) (o : Option (ℕ × Fs))
      → Grows kmalloc junk s t
      → t.calls ≡ s.calls + 1 + 1
      → IsFile kmalloc junk t (kmalloc (s.calls + 1)) address i
      → MadeFilesOf (behind address size) (i + 1) sizes t o
      → MadeFilesOf address i (size ∷ sizes) s o
  MadeFilesOf-cons address i size sizes s t none g more f m = tt
  MadeFilesOf-cons address i size sizes s t (some (n, u)) g more f m =
      MadeFiles-cons address i size sizes s t u g more f m

  pub parse_from-files :
      (rounds fuel address i : ℕ) (sizes : List ℕ) (s : Fs)
      → IsArchive s.mem address sizes
      → IsNew kmalloc junk s
      → MadeFilesOf address i sizes s (parse_from kmalloc junk rounds fuel address i s)
  unfolding parse_from
  parse_from-files zero fuel address i sizes s ar new = tt
  parse_from-files (suc rounds) fuel address i [] s ar new =
      rw ar
        (record { grows = Grows-refl kmalloc junk s; files = λ k lt. absurd (omega (arith, lt)) })
  parse_from-files (suc rounds) fuel address i (size ∷ sizes) s (name, shown, near, ar) new =
      let s' : Fs = record s { files = update s.files i address } in
      let more : (s.mem address == 0) ≡ false = ground (arith, name) in
      let read : oct2bin s.mem (address + size_offset) 11 ≡ size =
        oct2bin_lem s.mem (address + size_offset) size (omega (arith, near)) shown in
      rw (more, read)
        (elim (Bool-cases (ltb i max_ramdisk_files)) [
          | inr y ↦ rw y tt
          | inl y ↦ rw y (elim (Option-cases (mkfile kmalloc junk fuel address size i s')) [
            | inl z ↦ rw z tt
            | inr (t, e) ↦
                let marked = marked-Grows address i s in
                let (g, grown, f) =
                  mkfile-files kmalloc junk fuel address size i s' t
                    (IsNew-Grows kmalloc junk marked new) e in
                let g' = Grows-trans kmalloc junk marked g in
                rw e (
                  MadeFilesOf-cons address i size sizes s t _ g' grown f (
                    rw (next_header_lem address size near) (
                      parse_from-files rounds fuel (behind address size) (i + 1) sizes t
                        (subst (λ m. IsArchive m (behind address size) sizes) (sym g'.mem) ar)
                        (IsNew-Grows kmalloc junk g' new))))
          ])
        ])
