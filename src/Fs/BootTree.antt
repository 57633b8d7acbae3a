-- ===== src/Fs/BootTree.antt =====
-- The root of the tree of files and its one directory after the start: kernel/src/fs/fs.c and
-- tar/tar.c together.
use night.Base.{ℕ, zero, suc, ◌+◌, ◌*◌, ◌≤◌, ◌<◌, ◌≡◌, ◌≢◌, ap, sym, ◌∙◌, some, List, length, arith}
use mathlib.Core.Path.{subst}
use mathlib.Core.Option.{some-injective, none-ne-some}
use night.Fs.Nodes.{Ptr, Node, Fs, tar_read, load}
use night.Fs.Lists.{NotIn, Chain, load-some}
use night.Fs.Forest.{end, entry, TextAt, Represents, nothing, file}
use night.Fs.TreeLaws.{
  row, pointers, IsPlain, ArePlain, Chain-Represents, Chain-kept, Chain-single, load-null,
}
use night.Fs.FrameLaws.{SameRest}
use night.Fs.TouchLaws.{renext, redir, Touches}
use night.Fs.ParseLaws.{header_at}
use night.Fs.FileLaws.{IsFile}
use night.Fs.ParsedFiles.{MadeFiles}
use night.Fs.MountLaws.{IsLinked, mount-IsLinked}
use night.Fs.BootLaws.{tar_rooted, node_at, listing, pointers-listing}
use night.Fs.ArchiveLaws
use night.Fs.MountLaws

module _ (kmalloc : ℕ → Ptr) (junk : ℕ → Node) where
  -- A file of the archive that can be read.
  pub record IsReadable (t : Fs) (p number : ℕ) : Type 0 where
    pub nd : Node
    pub node : t.nodes p ≡ some nd
    pub plain : nd.flags ≡ 0
    pub reads : nd.read ≡ some tar_read
    pub cell : t.ints nd.contents ≡ some number

  pub record IsReady (s t : Fs) (loc : ℕ) (sizes label : List ℕ) (names : ℕ → List ℕ) : Type 0 where
    pub d : Node
    pub root : load t.root t ≡ some d
    pub tree : Represents t d.contents (
        entry (kmalloc (s.calls + 1)) label (row (listing kmalloc junk (length sizes) names s)) end)
    pub files : (k : ℕ) → k < length sizes → IsReadable t (node_at kmalloc junk s k) k
    pub headers : (k : ℕ) → k < length sizes → t.files k ≡ header_at loc sizes k
    pub mem : t.mem ≡ s.mem

  module _ (s b t : Fs) (tar_name root_name loc : ℕ) (sizes label : List ℕ) (names : ℕ → List ℕ)
      (m : MadeFiles kmalloc junk loc 0 sizes
        (tar_rooted kmalloc junk tar_name (MountLaws.rooted kmalloc junk root_name s))
        b)
      (l : IsLinked kmalloc junk s b t loc sizes)
      (distinct : (j k : ℕ) → j ≢ k → kmalloc j ≢ kmalloc k) (rest : SameRest b t)
      (touched : Touches b.root b t) (text : TextAt s.mem tar_name label)
      (named : (k : ℕ) → k < length sizes → TextAt s.mem (header_at loc sizes k) (names k)) where
    kept : (x : Ptr) → x ≢ b.root → x ≢ kmalloc (s.calls + 1) → t.nodes x ≡ b.nodes x
    kept x nr nm = l.others x nr (nm, tt)

    made :
        (k : ℕ)
        → k < length sizes
        → IsFile kmalloc junk b (node_at kmalloc junk s k) (header_at loc sizes k) k
    made k lt =
        let at : s.calls + 1 + 1 + 2 * k + 1 ≡ s.calls + 2 * k + 3 = omega arith in
        let same : 0 + k ≡ k = omega arith in
        subst (IsFile kmalloc junk b (node_at kmalloc junk s k) (header_at loc sizes k)) same (
          subst (λ c. IsFile kmalloc junk b (kmalloc c) (header_at loc sizes k) (0 + k)) at
            (m.files k lt))

    not_root : (k : ℕ) → k ≢ s.calls → kmalloc k ≢ b.root
    not_root k ne e = distinct k s.calls ne (e ∙ l.root)

    node-kept :
        (k : ℕ) (lt : k < length sizes) → t.nodes (node_at kmalloc junk s k) ≡ some ((made k lt).nd)
    node-kept k lt =
        let f = made k lt in
        kept (node_at kmalloc junk s k) (not_root (s.calls + 2 * k + 3) (λ e. omega (arith, e)))
          (distinct (s.calls + 2 * k + 3) (s.calls + 1) (λ e. omega (arith, e)))
        ∙ f.node

    file-IsReadable : (k : ℕ) → k < length sizes → IsReadable t (node_at kmalloc junk s k) k
    file-IsReadable k lt =
        let f = made k lt in
        record {
          nd = f.nd;
          node = node-kept k lt;
          plain = f.plain;
          reads = f.reads;
          cell = ap (λ g. g f.nd.contents) rest.ints ∙ f.cell;
        }

    same_mem : t.mem ≡ s.mem
    same_mem = rest.mem ∙ m.grows.mem

    file-IsPlain : (k : ℕ) → k < length sizes → IsPlain t (node_at kmalloc junk s k, names k)
    file-IsPlain k lt =
        let f = made k lt in
        let no_root : f.nd.contents ≢ b.root =
          λ e. none-ne-some l.r (sym f.bare ∙ ap b.nodes e ∙ l.root_at) in
        let no_mount : f.nd.contents ≢ kmalloc (s.calls + 1) =
          λ e. f.cell_not_dir (e ∙ sym m.grows.tar_root) in
        (
          f.nd,
          node-kept k lt,
          subst (λ p. TextAt t.mem p (names k)) (sym f.named)
              (subst (λ g. TextAt g (header_at loc sizes k) (names k)) (sym same_mem) (named k lt)),
          kept f.nd.contents no_root no_mount ∙ f.bare,
        )

    listing-ArePlain : (n : ℕ) → n ≤ length sizes → ArePlain t (listing kmalloc junk n names s)
    listing-ArePlain zero h = tt
    listing-ArePlain (suc zero) h = (file-IsPlain 0 (omega (arith, h)), tt)
    listing-ArePlain (suc (suc n)) h =
        (file-IsPlain 0 (omega (arith, h)), (file-IsPlain 1 (omega (arith, h)), tt))

    listing-NotIn : (n : ℕ) → NotIn b.root (pointers (listing kmalloc junk n names s))
    listing-NotIn zero = tt
    listing-NotIn (suc zero) =
        (λ e. not_root (s.calls + 2 * 0 + 3) (λ w. omega (arith, w)) (sym e), tt)
    listing-NotIn (suc (suc n)) = (
      λ e. not_root (s.calls + 2 * 0 + 3) (λ w. omega (arith, w)) (sym e),
      (λ e. not_root (s.calls + 2 * 1 + 3) (λ w. omega (arith, w)) (sym e), tt),
    )

    listing-Represents :
        Represents t l.f.contents (row (listing kmalloc junk (length sizes) names s))
    listing-Represents =
        let fs = listing kmalloc junk (length sizes) names s in
        let e = pointers-listing kmalloc junk (length sizes) names s in
        Chain-Represents fs
          (Chain-kept kept (listing-NotIn (length sizes))
            (subst (NotIn (kmalloc (s.calls + 1))) e l.files.apart)
            (subst (Chain b l.f.contents) e l.files.chain))
          (listing-ArePlain (length sizes) (omega arith))

    mount_name : l.f.name ≡ tar_name
    mount_name =
        let (c, z, n, e) =
          m.grows.own (λ k h _. distinct k (s.calls + 1) (λ w. omega (arith, w, h))) in
        let a = MountLaws.rooted kmalloc junk root_name s in
        let nd = ArchiveLaws.root_node kmalloc junk tar_name a in
        let at : (tar_rooted kmalloc junk tar_name a).nodes (kmalloc (s.calls + 1)) ≡ some nd =
          ground arith in
        ap (λ x. x.name) (some-injective l.f _ (sym l.files.node ∙ e ∙ ap (redir c z n) at))

    pub linked-IsReady : IsReady s t loc sizes label names
    linked-IsReady =
        let mount = kmalloc (s.calls + 1) in
        let below = row (listing kmalloc junk (length sizes) names s) in
        let (nd, first, ne, at, last) = Chain-single l.dir.chain in
        let (n, renewed) =
          touched.others (kmalloc (s.calls + 1)) (not_root (s.calls + 1) (λ w. omega (arith, w))) in
        let is : nd ≡ record l.f { nxt = n } =
          some-injective nd _ (sym at ∙ renewed ∙ ap (renext n) l.files.node) in
        let e : nd.name ≡ tar_name = ap (λ x. x.name) is ∙ mount_name in
        record {
          d = l.d;
          root =
              load-some t.root l.d t (λ z. l.dir.ne_null (sym rest.root ∙ z))
                (ap t.nodes rest.root ∙ l.dir.node);
          tree =
              subst (λ p. Represents t p (entry mount label below end)) (sym first)
                (file nd (load-some mount nd t ne at)
                  (subst (λ p. TextAt t.mem p label) (sym e)
                    (subst (λ g. TextAt g tar_name label) (sym same_mem) text))
                  (ground (arith, last))
                  (subst (λ x. Represents t x.contents below) (sym is) listing-Represents)
                  (nothing (load-null nd.nxt t last)));
          files = file-IsReadable;
          headers = λ k lt. ap (λ g. g k) rest.files ∙ l.headers k lt;
          mem = same_mem;
        }
