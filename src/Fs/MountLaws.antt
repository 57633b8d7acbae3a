-- ===== src/Fs/MountLaws.antt =====
-- The tree of files as kernel/src/kernel/kernel.c builds it: `init_fs`, `init_tarfs` and `fs_mount`.
use night.Base.{
  ℕ, ◌+◌, ◌^◌, ◌≤◌, ◌<◌, ◌≡◌, ◌≢◌, refl, ap, sym, ◌∙◌, true, false, some, List, [], ◌∷◌, ◌==◌,
  update, length, arith, bit_or,
}
use mathlib.Core.Path.{subst}
use night.Fs.Nodes.{Ptr, null, Node, Fs, load, store, add_dir, make_file, init_fs, fs_mount}
use night.Fs.Lists.{nil, IsDir, IsNewFile, Others}
use night.Fs.DirLaws.{add_dir_lem}
use night.Fs.FrameLaws.{Keeps-some, add_dir-Keeps}
use night.Fs.Tar.{max_ramdisk_files, init_tarfs}
use night.Fs.ParseLaws.{IsArchive, header_at, listed}
use night.Fs.ArchiveLaws.{init_tarfs_lem}

module _ (kmalloc : ℕ → Ptr) (junk : ℕ → Node) where
  -- The root directory, before and after the flag is set.
  abbrev new_root : (name : Ptr) → Fs → Node
  new_root name s = record (junk s.calls) {
    name = name;
    flags = 0;
    sz = 0;
    contents = null;
    nxt = null;
  }

  abbrev root_node : (name : Ptr) → Fs → Node
  root_node name s = record (junk s.calls) {
    name = name;
    flags = bit_or 0 (2 ^ 3);
    sz = 0;
    contents = null;
    nxt = null;
  }

  abbrev pub rooted : (name : Ptr) → Fs → Fs
  rooted name s = record s {
    nodes =
        update (update s.nodes (kmalloc s.calls) (some (new_root name s))) (kmalloc s.calls)
          (some (root_node name s));
    root = kmalloc s.calls;
    calls = s.calls + 1;
  }

  init_fs_lem :
      (name : Ptr) (s : Fs)
      → kmalloc s.calls ≢ null
      → init_fs kmalloc junk name s ≡ some (rooted name s)
  unfolding init_fs make_file load store
  init_fs_lem name s h =
      let a : (kmalloc s.calls == null) ≡ false = ground (arith, h) in
      let c : (kmalloc s.calls == kmalloc s.calls) ≡ true = ground arith in rw (a, c, a) refl

  -- The archive's directory as `init_tarfs` leaves it in `b`, and its place in `t` after `fs_mount`.
  pub record IsLinked (s b t : Fs) (loc : ℕ) (sizes : List ℕ) : Type 0 where
    pub f : Node
    pub files :
        IsDir b (kmalloc (s.calls + 1)) f (listed kmalloc junk (length sizes) (s.calls + 1 + 1) [])
    pub headers : (k : ℕ) → k < length sizes → b.files k ≡ header_at loc sizes k
    pub root : b.root ≡ kmalloc s.calls
    pub r : Node
    pub root_at : b.nodes b.root ≡ some r
    pub d : Node
    pub dir : IsDir t b.root d (kmalloc (s.calls + 1) ∷ [])
    pub size : d.sz ≡ 1
    pub others : Others b.root (kmalloc (s.calls + 1) ∷ []) b t

  pub mount-IsLinked :
      (rounds fuel root_name tar_name loc : ℕ) (sizes : List ℕ) (s : Fs)
      → ((k : ℕ) → kmalloc k ≢ null)
      → ((j k : ℕ) → j ≢ k → kmalloc j ≢ kmalloc k)
      → IsArchive s.mem loc sizes
      → length sizes < rounds
      → length sizes ≤ max_ramdisk_files
      → 2 ≤ fuel
      → let mount = kmalloc (s.calls + 1) in
        (b : Fs) × (t : Fs) × (init_fs kmalloc junk root_name s ≡ some (rooted root_name s))
        × (init_tarfs kmalloc junk rounds fuel tar_name loc (rooted root_name s) ≡ some (mount, b))
        × (add_dir fuel b.root mount b ≡ some t)
        × IsLinked s b t loc sizes
  mount-IsLinked rounds fuel root_name tar_name loc sizes s ne_null distinct ar enough room two =
      let a : Fs = rooted root_name s in
      let (b, e, f, is, size, short, next, headers, same_root, others) =
        init_tarfs_lem kmalloc junk rounds fuel tar_name loc sizes a ne_null distinct ar enough room
          two in
      let root : b.nodes (kmalloc s.calls) ≡ some (root_node root_name s) =
        others (kmalloc s.calls) (λ k h. distinct k s.calls (λ e. omega (arith, e, h)))
        ∙ ground arith in
      let is_root : IsDir b b.root (root_node root_name s) [] = record {
        ne_null = λ z. ne_null s.calls (sym same_root ∙ z);
        node = ap b.nodes same_root ∙ root;
        chain = nil refl;
        apart = tt;
      } in
      let new : IsNewFile b b.root (kmalloc (s.calls + 1)) [] = record {
        f = f;
        ne_null = ne_null (s.calls + 1);
        node = is.node;
        single = next;
        not_dir = λ z. distinct (s.calls + 1) s.calls (λ w. omega (arith, w)) (z ∙ same_root);
        apart = tt;
      } in
      let (t, e', d, dir, grown, _, rest) =
        add_dir_lem fuel (kmalloc (s.calls + 1)) (root_node root_name s) is_root new
          (omega arith) in
      (
        b,
        t,
        init_fs_lem root_name s (ne_null s.calls),
        e,
        e',
        record {
          f = f;
          files = is;
          headers = headers;
          root = same_root;
          r = root_node root_name s;
          root_at = ap b.nodes same_root ∙ root;
          d = d;
          dir = dir;
          size = omega (arith, grown);
          others = rest;
        },
      )

  -- The tree at the end: the root lists the mounted directory alone, and the headers are recorded.
  pub record IsMounted (mount loc : ℕ) (sizes : List ℕ) (t : Fs) : Type 0 where
    pub d : Node
    pub dir : IsDir t t.root d (mount ∷ [])
    pub size : d.sz ≡ 1
    pub headers : (k : ℕ) → k < length sizes → t.files k ≡ header_at loc sizes k

  pub mount_lem :
      (rounds fuel root_name tar_name loc : ℕ) (sizes : List ℕ) (s : Fs)
      → ((k : ℕ) → kmalloc k ≢ null)
      → ((j k : ℕ) → j ≢ k → kmalloc j ≢ kmalloc k)
      → IsArchive s.mem loc sizes
      → length sizes < rounds
      → length sizes ≤ max_ramdisk_files
      → 2 ≤ fuel
      → let mount = kmalloc (s.calls + 1) in
        (a : Fs) × (b : Fs) × (t : Fs) × (init_fs kmalloc junk root_name s ≡ some a)
        × (init_tarfs kmalloc junk rounds fuel tar_name loc a ≡ some (mount, b))
        × (fs_mount fuel mount b ≡ some t)
        × IsMounted mount loc sizes t
  unfolding fs_mount
  mount_lem rounds fuel root_name tar_name loc sizes s ne_null distinct ar enough room two =
      let mount = kmalloc (s.calls + 1) in
      let (b, t, e, e', e'', l) =
        mount-IsLinked rounds fuel root_name tar_name loc sizes s ne_null distinct ar enough room
          two in
      let rest = Keeps-some (add_dir-Keeps fuel b.root mount b) e'' in
      (
        rooted root_name s,
        b,
        t,
        e,
        e',
        e'',
        record {
          d = l.d;
          dir = subst (λ p. IsDir t p l.d (mount ∷ [])) (sym rest.root) l.dir;
          size = l.size;
          headers = λ k h. ap (λ g. g k) rest.files ∙ l.headers k h;
        },
      )
