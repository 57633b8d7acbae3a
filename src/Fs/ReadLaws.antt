-- ===== src/Fs/ReadLaws.antt =====
-- From the archive to its bytes: kernel/src/fs/fs.c and tar/tar.c as kernel/src/kernel/kernel.c
-- calls them, then `get_file`, `fs_read` and the read operation of the file.
use night.Base.{
  ℕ, zero, suc, ◌+◌, ◌-◌, ◌^◌, ◌≤◌, ◌<◌, ◌≡◌, refl, ap, ◌∙◌, true, false, some, List, [], ◌∷◌,
  length, ◌⊎◌, arith, ltb, if◌then◌else◌,
}
use night.Libk.Arith.{u32}
use night.Libk.Memory.{memcpy, within, memcpy_lem}
use night.Libk.StrtokLaws.{Piece, IsPiece, AreSeparated, spelled}
use night.Fs.Nodes.{Ptr, null, Node, Fs, tar_read, slash, fs_read, get_file}
use night.Fs.Forest.{size, is_prefix, lookup}
use night.Fs.LookupLaws.{AllClean, get_file-lookup}
use night.Fs.TreeLaws.{row}
use night.Fs.Tar.{max_ramdisk_files, get_addr_ofsec, tar_read_file}
use night.Fs.ParseLaws.{IsArchive, header_at, behind}
use night.Fs.BootLaws.{node_at, listing}
use night.Fs.ReadyLaws.{Boots, IsGiven, boot_lem, lookup-listing, lookup-lost, size-row-listing}
use night.Fs.BootTree.{IsReadable, IsReady}

-- A path of two tokens, the first for the directory.
abbrev pub path_of : (gap dir gap' token : List ℕ) → List Piece
path_of gap dir gap' token = (gap, dir) ∷ (gap', token) ∷ []

abbrev pub IsPath : (gap dir gap' token : List ℕ) → Type 0
IsPath gap dir gap' token =
    IsPiece slash (gap, dir) × AreSeparated slash ((gap', token) ∷ []) × AllClean (dir ∷ token ∷ [])

module _ (kmalloc : ℕ → Ptr) (junk : ℕ → Node) where
  get_file-ready :
      (fuel loc : ℕ) (sizes label : List ℕ) (names : ℕ → List ℕ) (s t : Fs)
      (gap dir gap' token : List ℕ)
      → IsReady kmalloc junk s t loc sizes label names
      → IsPath gap dir gap' token
      → is_prefix dir label ≡ true
      → 3 ≤ fuel
      → get_file fuel (spelled (path_of gap dir gap' token)) t
        ≡ lookup (row (listing kmalloc junk (length sizes) names s)) token []
  get_file-ready fuel loc sizes label names s t gap dir gap' token r (is, hs, clean) fits enough =
      get_file-lookup fuel t r.d _ (gap, dir) ((gap', token) ∷ []) r.root r.tree is hs clean
        (omega (arith, enough, size-row-listing kmalloc junk (length sizes) names s))
      ∙ rw fits refl

  header_at-small :
      (mem : ℕ → ℕ) (loc : ℕ) (sizes : List ℕ) (k : ℕ)
      → IsArchive mem loc sizes
      → k < length sizes
      → header_at loc sizes k + 1024 < 2 ^ 32
  header_at-small mem loc [] k ar lt = absurd (omega (arith, lt))
  header_at-small mem loc (size ∷ sizes) zero ar lt = omega (arith, ar.2)
  header_at-small mem loc (size ∷ sizes) (suc k) ar lt =
      header_at-small mem (behind loc size) sizes k ar.3 (omega (arith, lt))

  tar_read_file-ready :
      (loc number length' buffer : ℕ) (sizes label : List ℕ) (names : ℕ → List ℕ) (s t : Fs)
      (r : IsReady kmalloc junk s t loc sizes label names)
      → number < length sizes
      → length sizes ≤ max_ramdisk_files
      → IsArchive s.mem loc sizes
      → (f : IsReadable kmalloc junk t (node_at kmalloc junk s number) number)
      → tar_read_file length' buffer f.nd t
        ≡ some (
          length',
          record t { mem = memcpy buffer (header_at loc sizes number + 512) length' t.mem },
        )
  unfolding tar_read_file get_addr_ofsec
  tar_read_file-ready loc number length' buffer sizes label names s t r lt room ar f =
      let fits : ltb number max_ramdisk_files ≡ true = ground (arith, lt, room) in
      let small = header_at-small s.mem loc sizes number ar lt in
      let at : u32 (header_at loc sizes number + 512) ≡ header_at loc sizes number + 512 =
        omega (arith, small) in
      rw (f.cell, fits, r.headers number lt, at) refl

  fs_read-plain : (nd : Node) → nd.flags ≡ 0 → nd.read ≡ some tar_read → fs_read nd ≡ some tar_read
  unfolding fs_read
  fs_read-plain nd plain reads = rw (plain, reads) refl

  -- Given a heap and a well-formed archive of named files, `init_fs`, `init_tarfs` and `fs_mount`
  -- return. Then let a path be a token that begins the name of the directory and one that begins the
  -- name of the first or the second file, and in the second case not that of the first file.
  -- `get_file` of the path, on fuel for three files, gives the node of the file; `fs_read` calls its
  -- read operation, and that copies as many bytes as asked for from behind the header of the file in
  -- the archive to the buffer and changes nothing else in memory, unless the buffer begins
  -- inside of what is read, behind its first byte.
  pub tar_read_file-get_file :
      (rounds fuel root_name tar_name loc : ℕ) (sizes label : List ℕ) (names : ℕ → List ℕ) (s : Fs)
      (k : ℕ) (gap dir gap' token : List ℕ) (steps count buffer : ℕ)
      → IsGiven kmalloc junk rounds fuel tar_name loc sizes label names s
      → k < length sizes
      → k < 2
      → IsPath gap dir gap' token
      → is_prefix dir label ≡ true
      → is_prefix token (names k) ≡ true
      → ((j : ℕ) → j < k → is_prefix token (names j) ≡ false)
      → 3 ≤ steps
      → let content = header_at loc sizes k + 512 in
        (buffer ≤ content) ⊎ (content + count ≤ buffer)
        → (t : Fs) × (p : Ptr) × (nd : Node) × (u : Fs) × Boots kmalloc junk rounds fuel root_name
            tar_name loc s t
          × (get_file steps (spelled (path_of gap dir gap' token)) t ≡ some p)
          × (t.nodes p ≡ some nd)
          × (fs_read nd ≡ some tar_read)
          × (tar_read_file count buffer nd t ≡ some (count, u))
          × ((i : ℕ)
              → u.mem i ≡ (
                  if within buffer count i
                  then s.mem (header_at loc sizes k + 512 + (i - buffer))
                  else s.mem i))
  tar_read_file-get_file rounds fuel root_name tar_name loc sizes label names s k gap dir gap' token
        steps count buffer g lt two path in_label fits first enough apart =
      let (t, boots, r) =
        boot_lem kmalloc junk rounds fuel root_name tar_name loc sizes label names s g in
      let f = r.files k lt in
      let content = header_at loc sizes k + 512 in
      (
        t,
        node_at kmalloc junk s k,
        f.nd,
        record t { mem = memcpy buffer content count t.mem },
        boots,
        get_file-ready steps loc sizes label names s t gap dir gap' token r path in_label enough
            ∙ lookup-listing kmalloc junk (length sizes) k names s token lt two fits first,
        f.node,
        fs_read-plain f.nd f.plain f.reads,
        tar_read_file-ready loc k count buffer sizes label names s t r lt g.room g.archive f,
        λ i.
            ap (λ m. memcpy buffer content count m i) r.mem
            ∙ memcpy_lem buffer content count s.mem i apart,
      )

  -- The same start with two files at least: `get_file` of a path to a token that begins the name of
  -- neither the first nor the second file gives NULL, whatever the names behind those are.
  pub get_file-lost :
      (rounds fuel root_name tar_name loc : ℕ) (sizes label : List ℕ) (names : ℕ → List ℕ) (s : Fs)
      (gap dir gap' token : List ℕ) (steps : ℕ)
      → IsGiven kmalloc junk rounds fuel tar_name loc sizes label names s
      → 2 ≤ length sizes
      → IsPath gap dir gap' token
      → is_prefix dir label ≡ true
      → is_prefix token (names 0) ≡ false
      → is_prefix token (names 1) ≡ false
      → 3 ≤ steps
      → (t : Fs) × Boots kmalloc junk rounds fuel root_name tar_name loc s t
        × (get_file steps (spelled (path_of gap dir gap' token)) t ≡ some null)
  get_file-lost rounds fuel root_name tar_name loc sizes label names s gap dir gap' token steps g
        two path in_label no_first no_second enough =
      let (t, boots, r) =
        boot_lem kmalloc junk rounds fuel root_name tar_name loc sizes label names s g in
      (
        t,
        boots,
        get_file-ready steps loc sizes label names s t gap dir gap' token r path in_label enough
            ∙ lookup-lost kmalloc junk (length sizes) names s token two no_first no_second,
      )
