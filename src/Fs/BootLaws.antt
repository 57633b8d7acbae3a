-- ===== src/Fs/BootLaws.antt =====
-- The tree of files after `init_fs`, `init_tarfs` and `fs_mount`, as kernel/src/kernel/kernel.c
-- calls them, with the names and the contents of the archive.
use night.Base.{
  ℕ, zero, suc, ◌+◌, ◌*◌, ◌≡◌, ◌≢◌, refl, ap, ◌∙◌, Option, none, some, List, [], ◌∷◌, arith, ◌>>=◌,
}
use night.Fs.Nodes.{Ptr, null, Node, Fs}
use night.Fs.TreeLaws.{pointers}
use night.Fs.Tar.{init_tarfs}
use night.Fs.ParseLaws.{IsArchive, listed}
use night.Fs.ArchiveLaws.{init_tar_root_lem}
use night.Fs.FileLaws.{IsNew}
use night.Fs.ParsedFiles.{MadeFiles, MadeFilesOf, parse_from-files}
use night.Fs.ArchiveLaws

module _ (kmalloc : ℕ → Ptr) (junk : ℕ → Node) where
  abbrev pub tar_rooted : (tar_name : Ptr) → Fs → Fs
  tar_rooted tar_name a = ArchiveLaws.rooted kmalloc junk tar_name a

  abbrev pub InitOf : (loc : ℕ) (sizes : List ℕ) → Fs → Option (Ptr × Fs) → Type 0
  InitOf loc sizes s none = Unit {0}
  InitOf loc sizes s (some r) = MadeFiles kmalloc junk loc 0 sizes s r.1

  InitOf-parsed :
      (loc : ℕ) (sizes : List ℕ) (s : Fs) (o : Option (ℕ × Fs))
      → MadeFilesOf kmalloc junk loc 0 sizes s o
      → InitOf loc sizes s (o >>= λ r. some (r.1.tar_root, r.1))
  InitOf-parsed loc sizes s none m = tt
  InitOf-parsed loc sizes s (some r) m = m

  pub init_tarfs-InitOf :
      (rounds fuel tar_name loc : ℕ) (sizes : List ℕ) (a : Fs)
      → kmalloc a.calls ≢ null
      → IsArchive a.mem loc sizes
      → IsNew kmalloc junk (tar_rooted tar_name a)
      → InitOf loc sizes
          (tar_rooted tar_name a)
          (init_tarfs kmalloc junk rounds fuel tar_name loc a)
  unfolding init_tarfs
  init_tarfs-InitOf rounds fuel tar_name loc sizes a h ar new =
      rw (init_tar_root_lem kmalloc junk tar_name a h) (
        InitOf-parsed loc sizes (tar_rooted tar_name a) _
          (parse_from-files kmalloc junk rounds fuel loc 0 sizes (tar_rooted tar_name a) ar new))

  -- Where the node of file `k` is, when `s` is the state before `init_fs`.
  abbrev pub node_at : (s : Fs) (k : ℕ) → Ptr
  node_at s k = kmalloc (s.calls + 2 * k + 3)

  -- The files that the directory lists: two at most.
  abbrev pub listing : (n : ℕ) (names : ℕ → List ℕ) → Fs → List (Ptr × List ℕ)
  listing zero names s = []
  listing (suc zero) names s = (node_at s 0, names 0) ∷ []
  listing (suc (suc n)) names s = (node_at s 0, names 0) ∷ (node_at s 1, names 1) ∷ []

  listed-full : (n from : ℕ) (a b : Ptr) → listed kmalloc junk n from (a ∷ b ∷ []) ≡ a ∷ b ∷ []
  listed-full zero from a b = refl
  listed-full (suc n) from a b = listed-full n (from + 1 + 1) a b

  pub pointers-listing :
      (n : ℕ) (names : ℕ → List ℕ) (s : Fs)
      → listed kmalloc junk n (s.calls + 1 + 1) [] ≡ pointers (listing n names s)
  pointers-listing zero names s = refl
  pointers-listing (suc zero) names s = ap (λ c. kmalloc c ∷ []) (omega arith)
  pointers-listing (suc (suc n)) names s =
      listed-full n _ _ _
      ∙ ap (λ c. kmalloc c ∷ kmalloc (s.calls + 1 + 1 + 1 + 1 + 1) ∷ []) (omega arith)
      ∙ ap (λ c. node_at s 0 ∷ kmalloc c ∷ []) (omega arith)
