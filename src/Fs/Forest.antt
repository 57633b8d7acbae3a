-- ===== src/Fs/Forest.antt =====
-- The tree of files that the nodes of kernel/src/fs/fs.c stand for, and what a path names in it.
use night.Base.{
  ℕ, suc, ◌+◌, ◌≡◌, ◌≢◌, Bool, true, false, Option, none, some, List, [], ◌∷◌, ◌==◌, ◌&&◌,
  if◌then◌else◌,
}
use night.Fs.Nodes.{Ptr, null, Node, Fs, load}

-- The files of a directory in their order: the node of the first, its name, what it holds, and the
-- files behind it.
pub data Forest : Type 0 where
  end : Forest
  entry : (p : Ptr) (name : List ℕ) (kids rest : Forest) → Forest

abbrev pub is_end : Forest → Bool
is_end end = true
is_end (entry p name kids rest) = false

abbrev pub size : Forest → ℕ
size end = 0
size (entry p name kids rest) = suc (size kids + size rest)

-- A text that ends with a NUL stands at an address.
abbrev pub TextAt : (mem : ℕ → ℕ) (p : Ptr) → List ℕ → Type 0
TextAt mem p [] = mem p ≡ 0
TextAt mem p (c ∷ cs) = (mem p ≡ c) × (c ≢ 0) × TextAt mem (p + 1) cs

-- The nodes from `p` on stand for a forest. A pointer to what is no node stands for the empty one:
-- the `contents` of a file of an archive are such a pointer. The last `nxt` is NULL.
pub data Represents (s : Fs) : Ptr → Forest → Type 0 where
  nothing : {p : Ptr} → load p s ≡ none → Represents s p end
  file :
      {p : Ptr} (nd : Node) {name : List ℕ} {kids rest : Forest}
      → load p s ≡ some nd
      → TextAt s.mem nd.name name
      → ((nd.nxt == null) ≡ is_end rest)
      → Represents s nd.contents kids
      → Represents s nd.nxt rest
      → Represents s p (entry p name kids rest)

abbrev pub is_prefix : (token name : List ℕ) → Bool
is_prefix [] name = true
is_prefix (c ∷ token) [] = false
is_prefix (c ∷ token) (d ∷ name) = (d == c) && is_prefix token name

-- The node that a path names: in each directory the first file whose name begins with the token.
-- There is no answer in an empty directory, and NULL where no name fits.
abbrev pub lookup : Forest → (token : List ℕ) (more : List (List ℕ)) → Option Ptr
lookup end token more = none
lookup (entry p name kids rest) token more =
    let inside : Option Ptr = elim more [ [] ↦ some p | next ∷ others ↦ lookup kids next others ] in
    let along = lookup rest token more in
    let missing : Option Ptr = if is_end rest then some null else along in
    if is_prefix token name then inside else missing
