-- ===== src/Fs/ReadyLaws.antt =====
-- The start of the tree of files, kernel/src/fs/fs.c and tar/tar.c as kernel/src/kernel/kernel.c
-- calls them, and what `lookup` finds in the directory.
use night.Base.{
  ℕ, zero, suc, ◌+◌, ◌≤◌, ◌<◌, ◌≡◌, ◌≢◌, refl, true, false, none, some, List, [], length, arith,
}
use mathlib.Core.Path.{subst}
use night.Fs.Nodes.{Ptr, null, Node, Fs, init_fs, fs_mount}
use night.Fs.Forest.{size, TextAt, is_prefix, lookup}
use night.Fs.TreeLaws.{row}
use night.Fs.FrameLaws.{Keeps-some, add_dir-Keeps}
use night.Fs.TouchLaws.{add_dir-Touches}
use night.Fs.Tar.{max_ramdisk_files, init_tarfs}
use night.Fs.ParseLaws.{IsArchive, header_at}
use night.Fs.FileLaws.{IsNew}
use night.Fs.MountLaws.{mount-IsLinked}
use night.Fs.BootLaws.{tar_rooted, node_at, listing, init_tarfs-InitOf, InitOf}
use night.Fs.BootTree.{IsReady, linked-IsReady}
use night.Fs.MountLaws

module _ (kmalloc : ℕ → Ptr) (junk : ℕ → Node) where
  -- The three calls of the start, from `s` to `t`.
  abbrev pub Boots : (rounds fuel root_name tar_name loc : ℕ) → Fs → Fs → Type 0
  Boots rounds fuel root_name tar_name loc s t =
      (a : Fs) × (mount : Ptr) × (b : Fs) × (init_fs kmalloc junk root_name s ≡ some a)
      × (init_tarfs kmalloc junk rounds fuel tar_name loc a ≡ some (mount, b))
      × (fs_mount fuel mount b ≡ some t)

  -- What the start is given: a heap whose addresses are pairwise different, not NULL and no nodes
  -- yet, a well-formed archive of at most 32 files with their names, and the name of its directory.
  pub record IsGiven (rounds fuel tar_name loc : ℕ) (sizes label : List ℕ) (names : ℕ → List ℕ)
      (s : Fs) : Type 0 where
    pub ne_null : (k : ℕ) → kmalloc k ≢ null
    pub distinct : (j k : ℕ) → j ≢ k → kmalloc j ≢ kmalloc k
    pub bare : (k : ℕ) → s.nodes (kmalloc k) ≡ none
    pub archive : IsArchive s.mem loc sizes
    pub enough : length sizes < rounds
    pub room : length sizes ≤ max_ramdisk_files
    pub two : 2 ≤ fuel
    pub text : TextAt s.mem tar_name label
    pub named : (k : ℕ) → k < length sizes → TextAt s.mem (header_at loc sizes k) (names k)

  pub boot_lem :
      (rounds fuel root_name tar_name loc : ℕ) (sizes label : List ℕ) (names : ℕ → List ℕ) (s : Fs)
      → IsGiven rounds fuel tar_name loc sizes label names s
      → (t : Fs) × Boots rounds fuel root_name tar_name loc s t
        × IsReady kmalloc junk s t loc sizes label names
  unfolding fs_mount
  boot_lem rounds fuel root_name tar_name loc sizes label names s g =
      let mount = kmalloc (s.calls + 1) in
      let a = MountLaws.rooted kmalloc junk root_name s in
      let (b, t, e, e', e'', l) =
        mount-IsLinked kmalloc junk rounds fuel root_name tar_name loc sizes s g.ne_null g.distinct
          g.archive g.enough g.room g.two in
      let new : IsNew kmalloc junk (tar_rooted kmalloc junk tar_name a) = record {
        ne_null = g.ne_null;
        distinct = g.distinct;
        bare = λ k h.
            let other = g.distinct k s.calls (λ z. omega (arith, z, h)) in
            let other' = g.distinct k (s.calls + 1) (λ z. omega (arith, z, h)) in
            let empty = g.bare k in ground (arith, other, other', empty);
        not_dir = λ k h. g.distinct k (s.calls + 1) (λ z. omega (arith, z, h));
      } in
      let m = subst (InitOf kmalloc junk loc sizes (tar_rooted kmalloc junk tar_name a)) e' (
        init_tarfs-InitOf kmalloc junk rounds fuel tar_name loc sizes a (g.ne_null (s.calls + 1))
          g.archive new) in
      (
        t,
        (a, mount, b, e, e', e''),
        linked-IsReady kmalloc junk s b t tar_name root_name loc sizes label names m l g.distinct
            (Keeps-some (add_dir-Keeps fuel b.root mount b) e'') (add_dir-Touches fuel mount e'')
            g.text g.named,
      )

  -- What the directory answers for a token: the first of the listed files that it fits.
  pub lookup-listing :
      (n k : ℕ) (names : ℕ → List ℕ) (s : Fs) (token : List ℕ)
      → k < n
      → k < 2
      → is_prefix token (names k) ≡ true
      → ((j : ℕ) → j < k → is_prefix token (names j) ≡ false)
      → lookup (row (listing kmalloc junk n names s)) token [] ≡ some (node_at kmalloc junk s k)
  lookup-listing zero k names s token lt two fits first = absurd (omega (arith, lt))
  lookup-listing (suc zero) zero names s token lt two fits first = rw fits refl
  lookup-listing (suc zero) (suc k) names s token lt two fits first = absurd (omega (arith, lt))
  lookup-listing (suc (suc n)) zero names s token lt two fits first = rw fits refl
  lookup-listing (suc (suc n)) (suc zero) names s token lt two fits first =
      rw (first 0 (omega arith), fits) refl
  lookup-listing (suc (suc n)) (suc (suc k)) names s token lt two fits first =
      absurd (omega (arith, two))

  pub lookup-lost :
      (n : ℕ) (names : ℕ → List ℕ) (s : Fs) (token : List ℕ)
      → 2 ≤ n
      → is_prefix token (names 0) ≡ false
      → is_prefix token (names 1) ≡ false
      → lookup (row (listing kmalloc junk n names s)) token [] ≡ some null
  lookup-lost zero names s token h no_first no_second = absurd (omega (arith, h))
  lookup-lost (suc zero) names s token h no_first no_second = absurd (omega (arith, h))
  lookup-lost (suc (suc n)) names s token h no_first no_second = rw (no_first, no_second) refl

  pub size-row-listing :
      (n : ℕ) (names : ℕ → List ℕ) (s : Fs) → size (row (listing kmalloc junk n names s)) ≤ 2
  size-row-listing zero names s = omega arith
  size-row-listing (suc zero) names s = omega arith
  size-row-listing (suc (suc n)) names s = omega arith
