-- ===== src/Fs/ArchiveLaws.antt =====
-- `init_tarfs` of kernel/src/fs/tar/tar.c: the root directory of an archive, filled with its files.
use night.Base.{
  ℕ, ◌+◌, ◌≤◌, ◌<◌, ◌≡◌, ◌≢◌, refl, ap, sym, ◌∙◌, true, false, none, some, List, [], ◌==◌, update,
  length, arith,
}
use mathlib.Core.Path.{subst}
use night.Fs.Nodes.{Ptr, null, Node, Fs, load, store, make_file}
use night.Fs.Lists.{nil, IsDir}
use night.Fs.Tar.{max_ramdisk_files, init_tar_root, init_tarfs}
use night.Fs.MkfileLaws.{IsFresh}
use night.Fs.ParseLaws.{IsArchive, header_at, listed, length-listed, parse_from_lem}

module _ (kmalloc : ℕ → Ptr) (junk : ℕ → Node) where
  abbrev pub root_node : (name : ℕ) → Fs → Node
  root_node name s = record (junk s.calls) {
    name = name;
    flags = 0;
    sz = 0;
    contents = null;
    nxt = null;
    open_op = none;
    close_op = none;
    read = none;
    write = none;
  }

  abbrev made_root : (name : ℕ) → Fs → Node
  made_root name s = record (junk s.calls) {
    name = name;
    flags = 0;
    sz = 0;
    contents = null;
    nxt = null;
  }

  abbrev pub rooted : (name : ℕ) → Fs → Fs
  rooted name s = record s {
    nodes =
        update (update s.nodes (kmalloc s.calls) (some (made_root name s))) (kmalloc s.calls)
          (some (root_node name s));
    tar_root = kmalloc s.calls;
    calls = s.calls + 1;
  }

  pub init_tar_root_lem :
      (name : ℕ) (s : Fs)
      → kmalloc s.calls ≢ null
      → init_tar_root kmalloc junk name s ≡ some (rooted name s)
  unfolding init_tar_root make_file load store
  init_tar_root_lem name s h =
      let a : (kmalloc s.calls == null) ≡ false = ground (arith, h) in
      let c : (kmalloc s.calls == kmalloc s.calls) ≡ true = ground arith in rw (a, c, a) refl

  -- Mounting a well-formed archive of at most 32 files returns, given a round more than it has
  -- files; the heap gives pairwise different addresses that are not NULL. The root directory counts
  -- every file, but its list is `listed`, which has two files at most; the header of each file is
  -- recorded under its number. The directory has nothing behind it, and every node that the heap
  -- does not give is as before.
  pub init_tarfs_lem :
      (rounds fuel name loc : ℕ) (sizes : List ℕ) (s : Fs)
      → ((k : ℕ) → kmalloc k ≢ null)
      → ((j k : ℕ) → j ≢ k → kmalloc j ≢ kmalloc k)
      → IsArchive s.mem loc sizes
      → length sizes < rounds
      → length sizes ≤ max_ramdisk_files
      → 2 ≤ fuel
      → (t : Fs) × (init_tarfs kmalloc junk rounds fuel name loc s ≡ some (kmalloc s.calls, t))
        × (d : Node) × IsDir t
            (kmalloc s.calls)
            d
            (listed kmalloc junk (length sizes) (s.calls + 1) [])
        × (d.sz ≡ length sizes)
        × (length (listed kmalloc junk (length sizes) (s.calls + 1) []) ≤ 2)
        × (d.nxt ≡ null)
        × ((k : ℕ) → k < length sizes → t.files k ≡ header_at loc sizes k)
        × (t.root ≡ s.root)
        × ((p : Ptr) → ((k : ℕ) → s.calls ≤ k → kmalloc k ≢ p) → t.nodes p ≡ s.nodes p)
  unfolding init_tarfs
  init_tarfs_lem rounds fuel name loc sizes s ne_null distinct ar enough room two =
      let s' : Fs = rooted name s in
      let is : IsDir s' (kmalloc s.calls) (root_node name s) [] = record {
        ne_null = ne_null s.calls;
        node = ground arith;
        chain = nil refl;
        apart = tt;
      } in
      let fresh : IsFresh kmalloc junk (s.calls + 1) (kmalloc s.calls) [] = record {
        ne_null = ne_null;
        distinct = distinct;
        not_dir = λ k h. distinct k s.calls (λ e. omega (arith, e, h));
        apart = λ k h. tt;
      } in
      let (t, e, r) =
        parse_from_lem kmalloc junk rounds fuel loc 0 sizes s' (root_node name s) [] ar enough
          (omega (arith, room)) is fresh (omega arith) two (omega arith) in
      (
        t,
        rw (init_tar_root_lem name s (ne_null s.calls), e) (ap (λ p. some (p, t)) r.tar_root),
        r.d',
        subst (λ p. IsDir t p r.d' (listed kmalloc junk (length sizes) (s.calls + 1) [])) r.tar_root
            r.dir,
        omega (arith, r.grown, room),
        length-listed kmalloc junk (length sizes) (s.calls + 1) [] (omega arith),
        r.next,
        λ k h. ap t.files (omega arith) ∙ r.headers k h,
        r.root,
        λ p unused.
            r.others p (λ e. unused s.calls (omega arith) (sym e)) tt
              (λ k h. unused k (omega (arith, h)))
            ∙ ground (arith, unused s.calls (omega arith)),
      )
