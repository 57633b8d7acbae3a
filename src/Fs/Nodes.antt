-- ===== src/Fs/Nodes.antt =====
-- kernel/src/fs/fs.c: nodes on a heap. `none` is a fault, or, in a walk on fuel, that the fuel ran
-- out. `kmalloc` is the allocator of lib/liballoc: call `k` returns the address `kmalloc k`, whose
-- memory then holds what `junk k` says.
use night.Base.{
  ℕ, zero, suc, ◌+◌, ◌/◌, ◌^◌, bit_and, bit_or, Bool, true, false, not, ◌||◌, Option, none, some,
  List, [], ◌∷◌, ◌==◌, if◌then◌else◌, update, ◌>>=◌,
}
use night.Libk.Arith.{u32}
use night.Libk.Strtok.{strtok}

abbrev pub Ptr : Type 0
Ptr = ℕ

abbrev pub null : Ptr
null = 0

-- The functions that the kernel stores in a node.
pub data FileOp : Type 0 where
  tar_read tar_write : FileOp

-- `struct fs_node`; `name` is the address of a text.
pub record Node : Type 0 where
  pub name : Ptr
  pub flags : ℕ
  pub sz : ℕ
  pub read : Option FileOp
  pub write : Option FileOp
  pub open_op : Option FileOp
  pub close_op : Option FileOp
  pub contents : Ptr
  pub nxt : Ptr

-- `mem` holds bytes, `nodes` and `ints` what `kmalloc` gave for nodes and for `int` cells, `files`
-- and `tar_root` are those of tar.c, `calls` counts the calls of `kmalloc`.
pub record Fs : Type 0 where
  pub mem : ℕ → ℕ
  pub nodes : Ptr → Option Node
  pub ints : Ptr → Option ℕ
  pub root : Ptr
  pub tar_root : Ptr
  pub files : ℕ → ℕ
  pub calls : ℕ

abbrev pub is_directory : Node → Bool
is_directory nd = not (bit_and (nd.flags / 2 ^ 3) 1 == 0)

-- The macro reads the same digit as `is_directory`.
abbrev pub is_readonly : Node → Bool
is_readonly nd = not (bit_and (nd.flags / 2 ^ 3) 1 == 0)

abbrev pub is_null : Option FileOp → Bool
is_null none = true
is_null (some f) = false

-- What `fs_read` and `fs_write` call: nothing, and the result is 0, or an operation of the node.
unfoldable pub fs_read : Node → Option FileOp
fs_read nd = if is_directory nd || is_null nd.read then none else nd.read

unfoldable pub fs_write : Node → Option FileOp
fs_write nd = if is_directory nd || is_readonly nd || is_null nd.read then none else nd.read

unfoldable pub load : Ptr → Fs → Option Node
load p s = if p == null then none else s.nodes p

unfoldable pub store : Ptr → Node → Fs → Option Fs
store p nd s = load p s >>= λ _. some (record s { nodes = update s.nodes p (some nd) })

-- `while(holder->nxt != NULL) holder = holder->nxt;`
unfoldable pub last : (fuel : ℕ) → Ptr → Fs → Option Ptr
last zero holder s = none
last (suc fuel) holder s = do
  nd ← load holder s
  let rest = last fuel nd.nxt s
  if nd.nxt == null then some holder else rest

-- Behind the second node: the last node's own `nxt` is stored back into it.
unfoldable pub link_behind : (fuel : ℕ) (second file : Ptr) → Fs → Option Fs
unfolding load store last
link_behind fuel second file s = do
  holder ← last fuel second s
  h ← load holder s
  store holder (record h { nxt = h.nxt }) s

-- The three branches of `add_dir`.
unfoldable pub link_first : (fuel : ℕ) (contents file : Ptr) → Fs → Option Fs
unfolding link_behind
link_first fuel contents file s = do
  first ← load contents s
  let here = store contents (record first { nxt = file }) s
  if first.nxt == null then here else link_behind fuel first.nxt file s

unfoldable pub link_file : (fuel : ℕ) (dir file : Ptr) → Fs → Option Fs
unfolding link_first
link_file fuel dir file s = do
  d ← load dir s
  let here = store dir (record d { contents = file }) s
  if d.contents == null then here else link_first fuel d.contents file s

unfoldable pub add_dir : (fuel : ℕ) (dir file : Ptr) → Fs → Option Fs
unfolding link_file
add_dir fuel dir file s = do
  s' ← link_file fuel dir file s
  d ← load dir s'
  store dir (record d { sz = u32 (d.sz + 1) }) s'

-- `memcmp(name, tk, strlen(tk))`: 0 when the bytes from `name` on begin with the token.
unfoldable pub same_prefix : (mem : ℕ → ℕ) (name : Ptr) → List ℕ → Bool
same_prefix mem name [] = true
same_prefix mem name (c ∷ tk) =
    let rest = same_prefix mem (name + 1) tk in if mem name == c then rest else false

abbrev pub slash : List ℕ
slash = b'/' ∷ []

-- The loop of `get_file` at the node `rot` with the token `tk`; `left` is `strtok`'s rest. After a
-- match the next token is looked for among the contents.
unfoldable pub find_file :
    (fuel : ℕ) (rot : Ptr) (tk : List ℕ) (left : Option (List ℕ)) → Fs → Option Ptr
unfolding load same_prefix
find_file zero rot tk left s = none
find_file (suc fuel) rot tk left s = do
  nd ← load rot s
  let next = strtok none slash left
  let along = find_file fuel nd.nxt tk left s
  let miss : Option Ptr = if nd.nxt == null then some null else along
  let hit : Option Ptr = elim next.0 [
    | none ↦ some rot
    | some tk' ↦ find_file fuel nd.contents tk' next.1 s
  ]
  if same_prefix s.mem nd.name tk then hit else miss

-- `get_file` on a path; `null` is its NULL. `strtok` of a path always gives a token.
unfoldable pub get_file : (fuel : ℕ) (path : List ℕ) → Fs → Option Ptr
unfolding find_file
get_file fuel path s = do
  r ← load s.root s
  let first = strtok (some path) slash none
  elim first.0 [ none ↦ some null | some tk ↦ find_file fuel r.contents tk first.1 s ]

module _ (kmalloc : ℕ → Ptr) (junk : ℕ → Node) where
  -- The result of `kmalloc` is used without a test: a null pointer is a fault. The operations keep
  -- what the memory held.
  unfoldable pub make_file :
      (name : Ptr) (flags sz : ℕ) (contents nxt : Ptr) → Fs → Option (Ptr × Fs)
  make_file name flags sz contents nxt s =
      let p = kmalloc s.calls in
      let nd : Node = record (junk s.calls) {
        name = name;
        flags = flags;
        sz = sz;
        contents = contents;
        nxt = nxt;
      } in
      if p == null
      then none
      else some (p, record s { nodes = update s.nodes p (some nd); calls = s.calls + 1 })

  -- `name` is the address of the text "rt".
  unfoldable pub init_fs : (name : Ptr) → Fs → Option Fs
  init_fs name s = do
    (p, t) ← make_file name 0 0 null null s
    nd ← load p t
    store p (record nd { flags = bit_or nd.flags (2 ^ 3) }) (record t { root = p })

unfoldable pub fs_mount : (fuel : ℕ) (nd : Ptr) → Fs → Option Fs
fs_mount fuel nd s = add_dir fuel s.root nd s
