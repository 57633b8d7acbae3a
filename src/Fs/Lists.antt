-- ===== src/Fs/Lists.antt =====
-- The list of the nodes of a directory of kernel/src/fs/fs.c, linked by their `nxt` pointers.
use night.Base.{
  ℕ, zero, suc, ◌≤◌, ◌<◌, ◌≡◌, ◌≢◌, sym, ◌∙◌, false, some, List, [], ◌∷◌, ◌==◌, update, length,
  arith,
}
use night.Fs.Nodes.{Ptr, null, Node, Fs, load, store, last}

-- From `p` the `nxt` pointers lead through the nodes of the list to NULL.
pub data Chain (s : Fs) : Ptr → List Ptr → Type 0 where
  nil : {p : Ptr} → p ≡ null → Chain s p []
  cons :
      {p : Ptr} (nd : Node) {ps : List Ptr}
      → p ≢ null
      → s.nodes p ≡ some nd
      → Chain s nd.nxt ps
      → Chain s p (p ∷ ps)

abbrev pub NotIn : Ptr → List Ptr → Type 0
NotIn p [] = Unit {0}
NotIn p (q ∷ qs) = (p ≢ q) × NotIn p qs

-- `t` differs from `s` at most at the node `p`.
abbrev pub SameBut : Ptr → Fs → Fs → Type 0
SameBut p s t = (q : Ptr) → q ≢ p → t.nodes q ≡ s.nodes q

pub Chain-SameBut :
    {s t : Fs} {p h : Ptr} {ps : List Ptr}
    → SameBut p s t
    → NotIn p ps
    → Chain s h ps
    → Chain t h ps
Chain-SameBut same out (nil e) = nil e
Chain-SameBut same out (cons {p = q} nd ne at rest) =
    cons nd ne (same q (λ e. out.0 (sym e)) ∙ at) (Chain-SameBut same out.1 rest)

-- A directory and its list.
pub record IsDir (s : Fs) (dir : Ptr) (d : Node) (ps : List Ptr) : Type 0 where
  pub ne_null : dir ≢ null
  pub node : s.nodes dir ≡ some d
  pub chain : Chain s d.contents ps
  pub apart : NotIn dir ps

pub load-some : (p : Ptr) (nd : Node) (s : Fs) → p ≢ null → s.nodes p ≡ some nd → load p s ≡ some nd
unfolding load
load-some p nd s ne at = ground arith

abbrev pub put : Ptr → Node → Fs → Fs
put p nd s = record s { nodes = update s.nodes p (some nd) }

pub store-some :
    (p : Ptr) (nd new : Node) (s : Fs)
    → p ≢ null
    → s.nodes p ≡ some nd
    → store p new s ≡ some (put p new s)
unfolding store
store-some p nd new s ne at = rw (load-some p nd s ne at)

-- The walk ends at the last node.
pub last-Chain :
    (fuel : ℕ) {p : Ptr} {ps : List Ptr} (s : Fs)
    → Chain s p ps
    → 0 < length ps
    → length ps ≤ fuel
    → (q : Ptr) × (nd : Node) × (last fuel p s ≡ some q) × (q ≢ null) × (s.nodes q ≡ some nd)
unfolding last
last-Chain zero s c pos h = absurd (omega (arith, pos, h))
last-Chain (suc fuel) s (nil e) pos h = absurd (omega arith)
last-Chain (suc fuel) {p} s (cons nd ne at (nil e)) pos h =
    (p, nd, rw (load-some p nd s ne at, e), ne, at)
last-Chain (suc fuel) {p} s (cons nd ne at (cons nd' ne' at' rest)) pos h =
    let (q, n, e, ne'', at'') =
      last-Chain fuel s (cons nd' ne' at' rest) (omega arith) (omega arith) in
    let more : (nd.nxt == null) ≡ false = ground arith in
    (q, n, rw (load-some p nd s ne at, more, e), ne'', at'')

-- The list after `add_dir`: a third file and all later ones are dropped.
abbrev pub added : List Ptr → Ptr → List Ptr
added [] file = file ∷ []
added (a ∷ []) file = a ∷ file ∷ []
added (a ∷ b ∷ ps) file = a ∷ b ∷ ps

-- A file that is not yet in the directory, with nothing behind it.
pub record IsNewFile (s : Fs) (dir file : Ptr) (ps : List Ptr) : Type 0 where
  pub f : Node
  pub ne_null : file ≢ null
  pub node : s.nodes file ≡ some f
  pub single : f.nxt ≡ null
  pub not_dir : file ≢ dir
  pub apart : NotIn file ps

-- Only the directory and the nodes of its list may differ.
abbrev pub Others : (dir : Ptr) → List Ptr → Fs → Fs → Type 0
Others dir ps s t = (p : Ptr) → p ≢ dir → NotIn p ps → t.nodes p ≡ s.nodes p
