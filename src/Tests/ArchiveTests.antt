-- ===== src/Tests/ArchiveTests.antt =====
-- kernel/src/fs/tar/tar.c on an archive of two files.
use night.Base.{
  List, ℕ, ◌+◌, ◌≡◌, ◌≢◌, ◌≤◌, ◌<◌, refl, arith, [], ◌∷◌, ◌==◌, leb, if◌then◌else◌, none, some,
}
use night.Libk.Arith.{divide_up}
use night.Fs.Nodes.{Ptr, null, Node, Fs}
use night.Fs.Lists.{IsDir}
use night.Fs.Tar.{init_tarfs}
use night.Fs.ParseLaws.{IsArchive, header_at}
use night.Fs.ArchiveLaws.{init_tarfs_lem}

-- At 4096 the header of a file of 8 bytes, at 5120 one of an empty file, at 5632 the end. The first
-- byte of a name is its letter, and the octal digits of a size are at the offset 124.
abbrev pub archive : ℕ → ℕ
archive a =
    if a == 4096
    then b'a'
    else if a == 5120
    then b'b'
    else if a == 4229
    then b'1'
    else if leb 5632 a
    then 0
    else b'0'

abbrev pub empty_node : Node
empty_node = record {
  name = 0;
  flags = 0;
  sz = 0;
  read = none;
  write = none;
  open_op = none;
  close_op = none;
  contents = null;
  nxt = null;
}

abbrev pub disk : Fs
disk = record {
  mem = archive;
  nodes = λ p. none;
  ints = λ p. none;
  root = null;
  tar_root = null;
  files = λ i. 0;
  calls = 0;
}

abbrev pub sizes : List ℕ
sizes = 8 ∷ 0 ∷ []

pub archive-IsArchive : IsArchive archive 4096 sizes
unfolding divide_up
archive-IsArchive = (
  λ e. omega (arith, e),
  (refl, (refl, (refl, (refl, (refl, (refl, (refl, (refl, (refl, (refl, (refl, tt))))))))))),
  omega arith,
  (
    (λ e. omega (arith, e)),
    (refl, (refl, (refl, (refl, (refl, (refl, (refl, (refl, (refl, (refl, (refl, tt))))))))))),
    omega arith,
    refl,
  ),
)

init_tarfs_lem_example :
    let node = λ (k : ℕ). k + 64 in
    (t : Fs) × (init_tarfs node (λ k. empty_node) 3 2 77 4096 disk ≡ some (64, t))
    × (d : Node) × IsDir t 64 d (66 ∷ 68 ∷ [])
    × (d.sz ≡ 2)
    × (2 ≤ 2)
    × (d.nxt ≡ null)
    × ((k : ℕ) → k < 2 → t.files k ≡ header_at 4096 sizes k)
    × (t.root ≡ null)
    × ((p : Ptr) → ((k : ℕ) → 0 ≤ k → node k ≢ p) → t.nodes p ≡ none)
init_tarfs_lem_example =
    init_tarfs_lem (λ (k : ℕ). k + 64) (λ k. empty_node) 3 2 77 4096 sizes disk
      (λ k e. omega (arith, e)) (λ j k ne e. ne (omega (arith, e))) archive-IsArchive (omega arith)
      (omega arith) (omega arith)
