-- ===== src/Fs/FileLaws.antt =====
-- The files that `parse` of kernel/src/fs/tar/tar.c makes, as their nodes stand in the end.
use night.Base.{ℕ, ◌+◌, ◌≤◌, ◌<◌, ◌≡◌, ◌≢◌, refl, ap, sym, ◌∙◌, none, some, arith}
use night.Fs.Nodes.{Ptr, null, Node, Fs, tar_read, add_dir}
use night.Fs.FrameLaws.{Keeps-some, add_dir-Keeps}
use night.Fs.TouchLaws.{
  renext, redir, renext-renext, redir-redir, renext-same, redir-same, add_dir-Touches,
}
use night.Fs.Tar.{mkfile}
use night.Fs.MkfileLaws.{prepared, mkfile-add_dir, file_node}

module _ (kmalloc : ℕ → Ptr) (junk : ℕ → Node) where
  -- From `s` on the heap gave memory and files were linked into the archive's directory.
  pub record Grows (s t : Fs) : Type 0 where
    pub tar_root : t.tar_root ≡ s.tar_root
    pub mem : t.mem ≡ s.mem
    pub root : t.root ≡ s.root
    pub calls : s.calls ≤ t.calls
    pub others :
        (q : Ptr)
        → q ≢ s.tar_root
        → ((k : ℕ) → s.calls ≤ k → k < t.calls → kmalloc k ≢ q)
        → (n : Ptr) × (t.nodes q ≡ renext n (s.nodes q))
    pub own :
        ((k : ℕ) → s.calls ≤ k → k < t.calls → kmalloc k ≢ s.tar_root)
        → (c : Ptr) × (z : ℕ) × (n : Ptr) × (t.nodes s.tar_root ≡ redir c z n (s.nodes s.tar_root))
    pub cells :
        (q : Ptr) → ((k : ℕ) → s.calls ≤ k → k < t.calls → kmalloc k ≢ q) → t.ints q ≡ s.ints q

  pub Grows-refl : (s : Fs) → Grows s s
  Grows-refl s = record {
    tar_root = refl;
    mem = refl;
    root = refl;
    calls = omega arith;
    others = λ q ne old. renext-same (s.nodes q);
    own = λ old. redir-same (s.nodes s.tar_root);
    cells = λ q old. refl;
  }

  pub Grows-trans : {s t u : Fs} → Grows s t → Grows t u → Grows s u
  Grows-trans {s} {t} {u} a b = record {
    tar_root = b.tar_root ∙ a.tar_root;
    mem = b.mem ∙ a.mem;
    root = b.root ∙ a.root;
    calls = omega (arith, a.calls, b.calls);
    others = λ q ne old.
        let (m, e) = a.others q ne (λ k h l. old k h (omega (arith, l, b.calls))) in
        let (n, e') =
          b.others q (λ z. ne (z ∙ a.tar_root)) (λ k h l. old k (omega (arith, h, a.calls)) l) in
        (n, e' ∙ ap (renext n) e ∙ renext-renext m n (s.nodes q));
    own = λ old.
        let (c, z, m, e) = a.own (λ k h l. old k h (omega (arith, l, b.calls))) in
        let (c', z', n, e') =
          b.own (λ k h l w. old k (omega (arith, h, a.calls)) l (w ∙ a.tar_root)) in
        (
          c',
          z',
          n,
          ap u.nodes (sym a.tar_root)
              ∙ e'
              ∙ ap (λ r. redir c' z' n (t.nodes r)) a.tar_root
              ∙ ap (redir c' z' n) e
              ∙ redir-redir c z m c' z' n (s.nodes s.tar_root),
        );
    cells = λ q old.
        b.cells q (λ k h l. old k (omega (arith, h, a.calls)) l)
        ∙ a.cells q (λ k h l. old k h (omega (arith, l, b.calls)));
  }

  -- The node of file `number` of the archive, whose header is at `name`.
  pub record IsFile (s : Fs) (p name number : ℕ) : Type 0 where
    pub nd : Node
    pub node : s.nodes p ≡ some nd
    pub named : nd.name ≡ name
    pub plain : nd.flags ≡ 0
    pub reads : nd.read ≡ some tar_read
    pub cell : s.ints nd.contents ≡ some number
    pub bare : s.nodes nd.contents ≡ none
    pub old_node : (k : ℕ) → s.calls ≤ k → kmalloc k ≢ p
    pub old_cell : (k : ℕ) → s.calls ≤ k → kmalloc k ≢ nd.contents
    pub not_dir : p ≢ s.tar_root
    pub cell_not_dir : nd.contents ≢ s.tar_root

  pub IsFile-Grows :
      {s t : Fs} {p name number : ℕ} → Grows s t → IsFile s p name number → IsFile t p name number
  IsFile-Grows {s} {t} {p} g f =
      let (n, e) = g.others p f.not_dir (λ k h l. f.old_node k h) in
      let (_, e') = g.others f.nd.contents f.cell_not_dir (λ k h l. f.old_cell k h) in
      record {
        nd = record f.nd { nxt = n };
        node = e ∙ ap (renext n) f.node;
        named = f.named;
        plain = f.plain;
        reads = f.reads;
        cell = g.cells f.nd.contents (λ k h l. f.old_cell k h) ∙ f.cell;
        bare = e' ∙ ap (renext _) f.bare;
        old_node = λ k h. f.old_node k (omega (arith, h, g.calls));
        old_cell = λ k h. f.old_cell k (omega (arith, h, g.calls));
        not_dir = λ z. f.not_dir (z ∙ g.tar_root);
        cell_not_dir = λ z. f.cell_not_dir (z ∙ g.tar_root);
      }

  -- The heap gives pairwise different addresses that are not NULL, and of those still to come none
  -- is a node.
  pub record IsNew (s : Fs) : Type 0 where
    pub ne_null : (k : ℕ) → kmalloc k ≢ null
    pub distinct : (j k : ℕ) → j ≢ k → kmalloc j ≢ kmalloc k
    pub bare : (k : ℕ) → s.calls ≤ k → s.nodes (kmalloc k) ≡ none
    pub not_dir : (k : ℕ) → s.calls ≤ k → kmalloc k ≢ s.tar_root

  pub IsNew-Grows : {s t : Fs} → Grows s t → IsNew s → IsNew t
  IsNew-Grows {s} {t} g new = record {
    ne_null = new.ne_null;
    distinct = new.distinct;
    bare = λ k h.
        let (n, e) =
          g.others (kmalloc k) (new.not_dir k (omega (arith, h, g.calls)))
            (λ j _ l. new.distinct j k (λ z. omega (arith, z, h, l))) in
        e ∙ ap (renext n) (new.bare k (omega (arith, h, g.calls)));
    not_dir = λ k h z. new.not_dir k (omega (arith, h, g.calls)) (z ∙ g.tar_root);
  }

  prepared-Grows :
      (name size number : ℕ) (s : Fs) → IsNew s → Grows s (prepared kmalloc junk name size number s)
  prepared-Grows name size number s new =
      let t = prepared kmalloc junk name size number s in
      record {
        tar_root = refl;
        mem = refl;
        root = refl;
        calls = omega arith;
        others = λ q ne old.
            let other = old (s.calls + 1) (omega arith) (omega arith) in
            let here : t.nodes q ≡ s.nodes q = ground (arith, other) in
            let (n, e) = renext-same (s.nodes q) in (n, here ∙ e);
        own = λ old.
            let other = old (s.calls + 1) (omega arith) (omega arith) in
            let here : t.nodes s.tar_root ≡ s.nodes s.tar_root = ground (arith, other) in
            let (c, z, n, e) = redir-same (s.nodes s.tar_root) in (c, z, n, here ∙ e);
        cells =
            λ q old. let other = old s.calls (omega arith) (omega arith) in ground (arith, other);
      }

  pub add_dir-Grows :
      (fuel : ℕ) (file : Ptr) (s t : Fs) → add_dir fuel s.tar_root file s ≡ some t → Grows s t
  add_dir-Grows fuel file s t e =
      let rest = Keeps-some (add_dir-Keeps fuel s.tar_root file s) e in
      let touched = add_dir-Touches fuel file e in
      record {
        tar_root = rest.tar_root;
        mem = rest.mem;
        root = rest.root;
        calls = omega (arith, rest.calls);
        others = λ q ne old. touched.others q ne;
        own = λ old. touched.own;
        cells = λ q old. ap (λ f. f q) rest.ints;
      }

  prepared-IsFile :
      (name size number : ℕ) (s : Fs)
      → IsNew s
      → IsFile (prepared kmalloc junk name size number s) (kmalloc (s.calls + 1)) name number
  prepared-IsFile name size number s new =
      let cell = new.bare s.calls (omega arith) in
      let other = new.distinct s.calls (s.calls + 1) (λ e. omega (arith, e)) in
      record {
        nd = file_node kmalloc junk name size s;
        node = ground arith;
        named = refl;
        plain = refl;
        reads = refl;
        cell = ground arith;
        bare = ground (arith, cell, other);
        old_node = λ k h. new.distinct k (s.calls + 1) (λ e. omega (arith, e, h));
        old_cell = λ k h. new.distinct k s.calls (λ e. omega (arith, e, h));
        not_dir = new.not_dir (s.calls + 1) (omega arith);
        cell_not_dir = new.not_dir s.calls (omega arith);
      }

  -- One file is made and linked.
  pub mkfile-files :
      (fuel name size number : ℕ) (s t : Fs)
      → IsNew s
      → mkfile kmalloc junk fuel name size number s ≡ some t
      → Grows s t × (t.calls ≡ s.calls + 1 + 1) × IsFile t (kmalloc (s.calls + 1)) name number
  mkfile-files fuel name size number s t new e =
      let p = kmalloc (s.calls + 1) in
      let e' = sym (mkfile-add_dir kmalloc junk fuel name size number s new.ne_null) ∙ e in
      let s' = prepared kmalloc junk name size number s in
      let g = add_dir-Grows fuel p s' t e' in
      let rest = Keeps-some (add_dir-Keeps fuel s.tar_root p s') e' in
      (
        Grows-trans (prepared-Grows name size number s new) g,
        rest.calls,
        IsFile-Grows g (prepared-IsFile name size number s new),
      )
