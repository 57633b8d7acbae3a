-- ===== src/Tests/ReadTests.antt =====
-- Paths, and the files that they lead to, at a concrete archive.
use night.Base.{
  ℕ, suc, zero, ◌+◌, ◌-◌, ◌≡◌, ◌<◌, refl, arith, List, [], ◌∷◌, ◌==◌, leb, if◌then◌else◌, none,
  some, inl,
}
use mathlib.Core.List.{cons≢nil}
use night.Libk.Arith.{divide_up}
use night.Libk.Memory.{within}
use night.Libk.StrtokLaws.{IsPiece, AreSeparated, spelled, all_tokens, all_tokens_lem}
use night.Fs.Nodes.{Ptr, null, Node, Fs, tar_read, fs_read, get_file, slash, load}
use night.Libk.Strtok.{is_delim}
use night.Fs.Forest.{end, entry, TextAt, Represents, nothing, file, lookup}
use night.Fs.LookupLaws.{get_file-lookup}
use night.Fs.ParseLaws.{IsArchive, header_at}
use night.Fs.Tar.{tar_read_file}
use night.Fs.ReadyLaws.{Boots, IsGiven}
use night.Fs.ReadLaws.{path_of, IsPath, tar_read_file-get_file, get_file-lost}
use night.Tests.ArchiveTests.{empty_node}

abbrev pub dir_token : List ℕ
dir_token = b'S' ∷ b':' ∷ []

abbrev pub two_slashes : List ℕ
two_slashes = b'/' ∷ b'/' ∷ []

abbrev pub letter : ℕ → List ℕ
letter c = c ∷ []

dir-IsPiece : IsPiece slash (two_slashes, dir_token)
unfolding is_delim
dir-IsPiece = ((refl, (refl, tt)), cons≢nil, (refl, (refl, tt)))

a-AreSeparated : AreSeparated slash ((slash, letter b'a') ∷ [])
unfolding is_delim
a-AreSeparated = (cons≢nil, ((refl, tt), cons≢nil, (refl, tt)), tt)

c-AreSeparated : AreSeparated slash ((slash, letter b'c') ∷ [])
unfolding is_delim
c-AreSeparated = (cons≢nil, ((refl, tt), cons≢nil, (refl, tt)), tt)

-- The text `//S:/a`, after another one.
all_tokens_lem_example :
    all_tokens 2 slash (spelled ((two_slashes, dir_token) ∷ (slash, letter b'a') ∷ [])) (some slash)
    ≡ dir_token ∷ letter b'a' ∷ []
all_tokens_lem_example =
    all_tokens_lem 2 slash (two_slashes, dir_token) ((slash, letter b'a') ∷ []) (some slash)
      dir-IsPiece a-AreSeparated (omega arith)

-- The root 1 holds the directory 2 of the name at 10, and that one the file 3 of the name at 20.
abbrev small_mem : ℕ → ℕ
small_mem i = if i == 10 then b'S' else if i == 11 then b':' else if i == 20 then b'a' else 0

abbrev small_node : (name contents : Ptr) → Node
small_node name contents = record empty_node { name = name; contents = contents }

abbrev small_disk : Fs
small_disk = record {
  mem = small_mem;
  nodes = λ p.
      if p == 1
      then some (small_node 0 2)
      else if p == 2
      then some (small_node 10 3)
      else if p == 3
      then some (small_node 20 null)
      else none;
  ints = λ p. none;
  root = 1;
  tar_root = 1;
  files = λ i. 0;
  calls = 0;
}

small-Represents : Represents small_disk 2 (entry 2 dir_token (entry 3 (letter b'a') end end) end)
unfolding load
small-Represents =
    file (small_node 10 3) refl
      (refl, (λ e. omega (arith, e)), (refl, (λ e. omega (arith, e)), refl)) refl
      (file (small_node 20 null) refl (refl, (λ e. omega (arith, e)), refl) refl (nothing refl)
        (nothing refl))
      (nothing refl)

get_file-lookup_example :
    get_file 2 (spelled ((two_slashes, dir_token) ∷ (slash, letter b'a') ∷ [])) small_disk
    ≡ lookup (entry 2 dir_token (entry 3 (letter b'a') end end) end) dir_token (letter b'a' ∷ [])
unfolding load
get_file-lookup_example =
    get_file-lookup 2 small_disk (small_node 0 2)
      (entry 2 dir_token (entry 3 (letter b'a') end end) end) (two_slashes, dir_token)
      ((slash, letter b'a') ∷ []) refl small-Represents dir-IsPiece a-AreSeparated
      (
        ((λ e. omega (arith, e)), ((λ e. omega (arith, e)), tt)),
        (((λ e. omega (arith, e)), tt), tt),
      )
      (omega arith)

-- An archive of three files a, b and c at 4096, of 8, 0 and 0 bytes, and `S:` at 100.
abbrev pub letters : ℕ → List ℕ
letters k = (b'a' + k) ∷ []

abbrev pub archive : ℕ → ℕ
archive i =
    if i == 100
    then b'S'
    else if i == 101
    then b':'
    else if i == 4096
    then b'a'
    else if i == 5120
    then b'b'
    else if i == 5632
    then b'c'
    else if i == 4229
    then b'1'
    else if i == 102
    then 0
    else if i == 4097
    then 0
    else if i == 5121
    then 0
    else if i == 5633
    then 0
    else if leb 6144 i
    then 0
    else b'0'

abbrev pub three : List ℕ
three = 8 ∷ 0 ∷ 0 ∷ []

pub archive-IsArchive : IsArchive archive 4096 three
unfolding divide_up
archive-IsArchive = (
  λ e. omega (arith, e),
  (refl, (refl, (refl, (refl, (refl, (refl, (refl, (refl, (refl, (refl, (refl, tt))))))))))),
  omega arith,
  (
    (λ e. omega (arith, e)),
    (refl, (refl, (refl, (refl, (refl, (refl, (refl, (refl, (refl, (refl, (refl, tt))))))))))),
    omega arith,
    (
      (λ e. omega (arith, e)),
      (refl, (refl, (refl, (refl, (refl, (refl, (refl, (refl, (refl, (refl, (refl, tt))))))))))),
      omega arith,
      refl,
    ),
  ),
)

abbrev pub start : Fs
start = record {
  mem = archive;
  nodes = λ p. none;
  ints = λ p. none;
  root = null;
  tar_root = null;
  files = λ i. 0;
  calls = 0;
}

abbrev heap : ℕ → Ptr
heap k = k + 64

abbrev junk : ℕ → Node
junk k = empty_node

pub letters-TextAt : (k : ℕ) → k < 3 → TextAt archive (header_at 4096 three k) (letters k)
unfolding divide_up
letters-TextAt zero lt = (refl, (λ e. omega (arith, e)), refl)
letters-TextAt (suc zero) lt = (refl, (λ e. omega (arith, e)), refl)
letters-TextAt (suc (suc zero)) lt = (refl, (λ e. omega (arith, e)), refl)
letters-TextAt (suc (suc (suc k))) lt = absurd (omega (arith, lt))

start-IsGiven : IsGiven heap junk 4 2 100 4096 three dir_token letters start
start-IsGiven = record {
  ne_null = λ k e. omega (arith, e);
  distinct = λ j k ne e. ne (omega (arith, e));
  bare = λ k. refl;
  archive = archive-IsArchive;
  enough = omega arith;
  room = omega arith;
  two = omega arith;
  text = (refl, (λ e. omega (arith, e)), (refl, (λ e. omega (arith, e)), refl));
  named = letters-TextAt;
}

pub a-IsPath : IsPath two_slashes dir_token slash (letter b'a')
a-IsPath = (
  dir-IsPiece,
  a-AreSeparated,
  (((λ e. omega (arith, e)), ((λ e. omega (arith, e)), tt)), (((λ e. omega (arith, e)), tt), tt)),
)

c-IsPath : IsPath two_slashes dir_token slash (letter b'c')
c-IsPath = (
  dir-IsPiece,
  c-AreSeparated,
  (((λ e. omega (arith, e)), ((λ e. omega (arith, e)), tt)), (((λ e. omega (arith, e)), tt), tt)),
)

tar_read_file-get_file_example :
    (t : Fs) × (p : Ptr) × (nd : Node) × (u : Fs) × Boots heap junk 4 2 90 100 4096 start t
    × (get_file 3 (spelled (path_of two_slashes dir_token slash (letter b'a'))) t ≡ some p)
    × (t.nodes p ≡ some nd)
    × (fs_read nd ≡ some tar_read)
    × (tar_read_file 8 2000 nd t ≡ some (8, u))
    × ((i : ℕ) → u.mem i ≡ (if within 2000 8 i then archive (4608 + (i - 2000)) else archive i))
tar_read_file-get_file_example =
    tar_read_file-get_file heap junk 4 2 90 100 4096 three dir_token letters start 0 two_slashes
      dir_token slash (letter b'a') 3 8 2000 start-IsGiven (omega arith) (omega arith) a-IsPath refl
      refl (λ j lt. absurd (omega (arith, lt))) (omega arith) (inl (omega arith))

get_file-lost_example :
    (t : Fs) × Boots heap junk 4 2 90 100 4096 start t
    × (get_file 3 (spelled (path_of two_slashes dir_token slash (letter b'c'))) t ≡ some null)
get_file-lost_example =
    get_file-lost heap junk 4 2 90 100 4096 three dir_token letters start two_slashes dir_token
      slash (letter b'c') 3 start-IsGiven (omega arith) c-IsPath refl refl refl (omega arith)
