-- ===== src/Tests/FsTests.antt =====
-- kernel/src/fs at concrete nodes and headers.
use night.Base.{ℕ, ◌≡◌, refl, arith, [], ◌∷◌, ◌==◌, if◌then◌else◌, none, some}
use night.Fs.Nodes.{Ptr, null, Node, Fs, add_dir}
use night.Fs.Lists.{Others, Chain, IsDir, IsNewFile}
use night.Fs.DirLaws.{add_dir_lem}

abbrev plain : Ptr → Ptr → Node
plain contents nxt = record {
  name = 0;
  flags = 0;
  sz = 0;
  read = none;
  write = none;
  open_op = none;
  close_op = none;
  contents = contents;
  nxt = nxt;
}

-- The directory 1 with the file 2, and the new file 3.
abbrev disk : Fs
disk = record {
  mem = λ i. 0;
  nodes = λ p.
      if p == 1
      then some (plain 2 null)
      else if p == 2
      then some (plain null null)
      else if p == 3
      then some (plain null null)
      else none;
  ints = λ p. none;
  root = 1;
  tar_root = 1;
  files = λ i. 0;
  calls = 0;
}

disk-IsDir : IsDir disk 1 (plain 2 null) (2 ∷ [])
disk-IsDir = record {
  ne_null = λ e. omega (arith, e);
  node = refl;
  chain = Chain.cons (plain null null) (λ e. omega (arith, e)) refl (Chain.nil refl);
  apart = ((λ e. omega (arith, e)), tt);
}

disk-IsNewFile : IsNewFile disk 1 3 (2 ∷ [])
disk-IsNewFile = record {
  f = plain null null;
  ne_null = λ e. omega (arith, e);
  node = refl;
  single = refl;
  not_dir = λ e. omega (arith, e);
  apart = ((λ e. omega (arith, e)), tt);
}

add_dir_lem_example :
    (t : Fs) × (add_dir 5 1 3 disk ≡ some t)
    × (d' : Node) × IsDir t 1 d' (2 ∷ 3 ∷ [])
    × (d'.sz ≡ 1)
    × (d'.nxt ≡ null)
    × Others 1 (2 ∷ 3 ∷ []) disk t
add_dir_lem_example = add_dir_lem 5 3 (plain 2 null) disk-IsDir disk-IsNewFile (omega arith)

-- The text 00000001750, which is 1000 in octal.
abbrev header : ℕ → ℕ
header i = if i == 7 then b'1' else if i == 8 then b'7' else if i == 9 then b'5' else b'0'
