-- ===== src/Fs/MkfileLaws.antt =====
-- `mkfile` of kernel/src/fs/tar/tar.c: the node of a file of the archive, linked into its directory.
use night.Base.{
  ℕ, ◌+◌, ◌≤◌, ◌≡◌, ◌≢◌, refl, sym, ◌∙◌, true, false, none, some, List, [], ◌∷◌, ◌==◌, update,
  length, arith,
}
use mathlib.Core.Path.{subst}
use night.Libk.Arith.{u32}
use night.Fs.Nodes.{Ptr, null, Node, Fs, tar_read, tar_write, load, store, add_dir, make_file}
use night.Fs.Lists.{NotIn, SameBut, Chain-SameBut, IsDir, IsNewFile, added}
use night.Fs.DirLaws.{add_dir_lem}
use night.Fs.FrameLaws.{Keeps-some, add_dir-Keeps}
use night.Fs.Tar.{mkfile}

pub IsDir-SameBut :
    {s t : Fs} {p dir : Ptr} {d : Node} {ps : List Ptr}
    → SameBut p s t
    → p ≢ dir
    → NotIn p ps
    → IsDir s dir d ps
    → IsDir t dir d ps
IsDir-SameBut {dir = dir} same ne out is = record {
  ne_null = is.ne_null;
  node = same dir (λ e. ne (sym e)) ∙ is.node;
  chain = Chain-SameBut same out is.chain;
  apart = is.apart;
}

module _ (kmalloc : ℕ → Ptr) (junk : ℕ → Node) where
  -- What the heap gives from the call `from` on is not NULL and no node that is in use.
  pub record IsFresh (from : ℕ) (dir : Ptr) (ps : List Ptr) : Type 0 where
    pub ne_null : (k : ℕ) → kmalloc k ≢ null
    pub distinct : (j k : ℕ) → j ≢ k → kmalloc j ≢ kmalloc k
    pub not_dir : (k : ℕ) → from ≤ k → kmalloc k ≢ dir
    pub apart : (k : ℕ) → from ≤ k → NotIn (kmalloc k) ps

  -- The node of a file before it is linked, and the state then.
  abbrev pub file_node : (name size : ℕ) → Fs → Node
  file_node name size s = record (junk (s.calls + 1)) {
    name = name;
    flags = 0;
    sz = size;
    contents = kmalloc s.calls;
    nxt = null;
    open_op = none;
    close_op = none;
    read = some tar_read;
    write = some tar_write;
  }

  abbrev made_node : (name size : ℕ) → Fs → Node
  made_node name size s = record (junk (s.calls + 1)) {
    name = name;
    flags = 0;
    sz = size;
    contents = kmalloc s.calls;
    nxt = null;
  }

  abbrev pub prepared : (name size sec : ℕ) → Fs → Fs
  prepared name size sec s = record s {
    nodes =
        update (update s.nodes (kmalloc (s.calls + 1)) (some (made_node name size s)))
          (kmalloc (s.calls + 1)) (some (file_node name size s));
    ints = update s.ints (kmalloc s.calls) (some sec);
    calls = s.calls + 1 + 1;
  }

  pub mkfile-add_dir :
      (fuel name size sec : ℕ) (s : Fs)
      → ((k : ℕ) → kmalloc k ≢ null)
      → mkfile kmalloc junk fuel name size sec s
        ≡ add_dir fuel s.tar_root (kmalloc (s.calls + 1)) (prepared name size sec s)
  unfolding mkfile make_file load store
  mkfile-add_dir fuel name size sec s h =
      let a : (kmalloc s.calls == null) ≡ false = ground (arith, h s.calls) in
      let b : (kmalloc (s.calls + 1) == null) ≡ false = ground (arith, h (s.calls + 1)) in
      let c : (kmalloc (s.calls + 1) == kmalloc (s.calls + 1)) ≡ true = ground arith in
      rw (a, b, c, b) refl

  -- The state after a file was made and linked.
  pub record IsMade (s t : Fs) (d : Node) (ps : List Ptr) : Type 0 where
    pub d' : Node
    pub dir : IsDir t t.tar_root d' ps
    pub grown : d'.sz ≡ u32 (d.sz + 1)
    pub mem : t.mem ≡ s.mem
    pub files : t.files ≡ s.files
    pub tar_root : t.tar_root ≡ s.tar_root
    pub calls : t.calls ≡ s.calls + 1 + 1
    pub root : t.root ≡ s.root
    pub next : d'.nxt ≡ d.nxt
    pub others :
        (p : Ptr) → p ≢ s.tar_root → p ≢ kmalloc (s.calls + 1) → NotIn p ps → t.nodes p ≡ s.nodes p

  pub mkfile_lem :
      (fuel name size sec : ℕ) (s : Fs) (d : Node) (ps : List Ptr)
      → IsDir s s.tar_root d ps
      → IsFresh s.calls s.tar_root ps
      → length ps ≤ fuel
      → (t : Fs) × (mkfile kmalloc junk fuel name size sec s ≡ some t)
        × IsMade s t d (added ps (kmalloc (s.calls + 1)))
  mkfile_lem fuel name size sec s d ps is fresh h =
      let p = kmalloc (s.calls + 1) in
      let s' : Fs = prepared name size sec s in
      let same : SameBut p s s' = λ q ne. ground (arith, ne) in
      let not_dir : p ≢ s.tar_root = fresh.not_dir (s.calls + 1) (omega arith) in
      let out : NotIn p ps = fresh.apart (s.calls + 1) (omega arith) in
      let new : IsNewFile s' s.tar_root p ps = record {
        f = file_node name size s;
        ne_null = fresh.ne_null (s.calls + 1);
        node = ground arith;
        single = refl;
        not_dir = not_dir;
        apart = out;
      } in
      let (t, e, d', dir, grown, next, others) =
        add_dir_lem fuel p d (IsDir-SameBut same not_dir out is) new h in
      let rest = Keeps-some (add_dir-Keeps fuel s.tar_root p s') e in
      (
        t,
        mkfile-add_dir fuel name size sec s fresh.ne_null ∙ e,
        record {
          d' = d';
          dir = subst (λ r. IsDir t r d' (added ps p)) (sym rest.tar_root) dir;
          grown = grown;
          mem = rest.mem;
          files = rest.files;
          tar_root = rest.tar_root;
          calls = rest.calls;
          root = rest.root;
          next = next;
          others = λ q other new_node out. others q other out ∙ same q new_node;
        },
      )

  pub NotIn-added : (p q : Ptr) (ps : List Ptr) → NotIn p ps → p ≢ q → NotIn p (added ps q)
  NotIn-added p q [] out ne = (ne, tt)
  NotIn-added p q (a ∷ []) (na, _) ne = (na, (ne, tt))
  NotIn-added p q (a ∷ b ∷ ps) out ne = out

  pub IsFresh-added :
      (from : ℕ) {dir : Ptr} (ps : List Ptr)
      → IsFresh from dir ps
      → IsFresh (from + 1 + 1) dir (added ps (kmalloc (from + 1)))
  IsFresh-added from ps f = record {
    ne_null = f.ne_null;
    distinct = f.distinct;
    not_dir = λ k h. f.not_dir k (omega (arith, h));
    apart = λ k h.
        NotIn-added (kmalloc k) (kmalloc (from + 1)) ps (f.apart k (omega (arith, h)))
          (f.distinct k (from + 1) (λ e. omega (arith, e, h)));
  }
