-- ===== src/Fs/Tar.antt =====
-- kernel/src/fs/tar/tar.c: the archive that GRUB loads as a module.
use night.Base.{
  ℕ, zero, suc, ◌+◌, ◌-◌, ◌*◌, ◌/◌, ◌%◌, ◌^◌, Option, none, some, ltb, ◌==◌, if◌then◌else◌, update,
  ◌>>=◌,
}
use night.Libk.Arith.{u32}
use night.Libk.Memory.{memcpy}
use night.Fs.Nodes.{Ptr, null, Node, Fs, tar_read, tar_write, load, store, add_dir, make_file}

abbrev pub max_ramdisk_files : ℕ
max_ramdisk_files = 32

-- The offset of `size` in `tar_h`, behind a name of 100 bytes and three fields of 8.
abbrev pub size_offset : ℕ
size_offset = 124

-- `size` rounds of `n *= 8; n += *c - '0'; c++`, in 32-bit arithmetic.
unfoldable pub oct2bin_from : (n : ℕ) (mem : ℕ → ℕ) (str size : ℕ) → ℕ
oct2bin_from n mem str zero = n
oct2bin_from n mem str (suc size) =
    oct2bin_from (u32 (u32 (n * 8) + 2 ^ 32 + mem str - b'0')) mem (str + 1) size

unfoldable pub oct2bin : (mem : ℕ → ℕ) (str size : ℕ) → ℕ
unfolding oct2bin_from
oct2bin mem str size = oct2bin_from 0 mem str size

unfoldable pub get_addr_ofsec : (section : ℕ) → ℕ
get_addr_ofsec section = u32 (section + 512)

-- The contents of a file of the archive point to the number of its header. The length is not
-- compared with the size of the file.
unfoldable pub tar_read_file : (length buffer : ℕ) → Node → Fs → Option (ℕ × Fs)
tar_read_file length buffer nd s = do
  sectr ← s.ints nd.contents
  let addr = get_addr_ofsec (s.files sectr)
  if ltb sectr max_ramdisk_files
      then some (length, record s { mem = memcpy buffer addr length s.mem })
      else none

unfoldable pub tar_write_file : (length buffer : ℕ) → Node → Fs → ℕ × Fs
tar_write_file length buffer nd s = (0, s)

-- The address behind a file of `size` bytes whose header is at `address`.
unfoldable pub next_header : (address size : ℕ) → ℕ
next_header address size =
    let behind = u32 (address + (size / 512 + 1) * 512) in
    if size % 512 == 0 then behind else u32 (behind + 512)

module _ (kmalloc : ℕ → Ptr) (junk : ℕ → Node) where
  -- `fuel` is for the walk of `add_dir`.
  unfoldable pub mkfile : (fuel name size sec : ℕ) → Fs → Option Fs
  mkfile fuel name size sec s = do
    let sect = kmalloc s.calls
    let s' : Fs = record s { ints = update s.ints sect (some sec); calls = s.calls + 1 }
    r ← (if sect == null then none else make_file kmalloc junk name 0 size sect null s')
    nd ← load r.0 r.1
    let nd' : Node = record nd {
      open_op = none;
      close_op = none;
      read = some tar_read;
      write = some tar_write;
    }
    t ← store r.0 nd' r.1
    add_dir fuel t.tar_root r.0 t

  -- The loop of `parse` at file `i`; `rounds` bounds the headers that are looked at. The result is
  -- the number of files. A file past the end of `files` is a fault.
  unfoldable pub parse_from : (rounds fuel address i : ℕ) → Fs → Option (ℕ × Fs)
  unfolding mkfile
  parse_from zero fuel address i s = none
  parse_from (suc rounds) fuel address i s =
      let size = oct2bin s.mem (address + size_offset) 11 in
      let file : Option Fs =
        if ltb i max_ramdisk_files
        then mkfile fuel address size i (record s { files = update s.files i address })
        else none in
      let rest : Option (ℕ × Fs) =
        file >>= λ t. parse_from rounds fuel (next_header address size) (i + 1) t in
      if s.mem address == 0 then some (i, s) else rest

  -- `name` is the address of the text "S:".
  unfoldable pub init_tar_root : (name : Ptr) → Fs → Option Fs
  init_tar_root name s = do
    r ← make_file kmalloc junk name 0 0 null null s
    nd ← load r.0 r.1
    let nd' : Node = record nd { open_op = none; close_op = none; read = none; write = none }
    store r.0 nd' (record r.1 { tar_root = r.0 })

  unfoldable pub init_tarfs : (rounds fuel : ℕ) (name loc : Ptr) → Fs → Option (Ptr × Fs)
  init_tarfs rounds fuel name loc s = do
    t ← init_tar_root name s
    r ← parse_from rounds fuel loc 0 t
    some (r.1.tar_root, r.1)
