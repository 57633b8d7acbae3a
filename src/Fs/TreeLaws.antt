-- ===== src/Fs/TreeLaws.antt =====
-- A directory's list in kernel/src/fs/fs.c as a tree of files.
use night.Base.{ℕ, ◌≡◌, ◌≢◌, refl, sym, ◌∙◌, none, some, List, [], ◌∷◌, ◌==◌, arith, map}
use mathlib.Core.Path.{subst}
use mathlib.Core.Option.{some-injective}
use night.Fs.Nodes.{Ptr, null, Node, Fs, load}
use night.Fs.Lists.{NotIn, Chain, nil, cons, load-some}
use night.Fs.Forest.{Forest, end, entry, is_end, TextAt, Represents, nothing, file}

-- Files that hold no files.
abbrev pub row : List (Ptr × List ℕ) → Forest
row [] = end
row (f ∷ fs) = entry f.0 f.1 end (row fs)

abbrev pub pointers : List (Ptr × List ℕ) → List Ptr
pointers fs = map (λ f. f.0) fs

-- A node with a name whose contents are no node.
abbrev pub IsPlain : Fs → Ptr × List ℕ → Type 0
IsPlain t f =
    (nd : Node) × (t.nodes f.0 ≡ some nd) × TextAt t.mem nd.name f.1 × (t.nodes nd.contents ≡ none)

abbrev pub ArePlain : Fs → List (Ptr × List ℕ) → Type 0
ArePlain t [] = Unit {0}
ArePlain t (f ∷ fs) = IsPlain t f × ArePlain t fs

load-none : (p : Ptr) (s : Fs) → s.nodes p ≡ none → load p s ≡ none
unfolding load
load-none p s e = ground (arith, e)

pub load-null : (p : Ptr) (s : Fs) → p ≡ null → load p s ≡ none
unfolding load
load-null p s e = ground (arith, e)

Chain-is_end :
    {t : Fs} {p : Ptr} (fs : List (Ptr × List ℕ))
    → Chain t p (pointers fs)
    → (p == null) ≡ is_end (row fs)
Chain-is_end [] (nil e) = ground (arith, e)
Chain-is_end (f ∷ fs) (cons nd ne at rest) = ground (arith, ne)

pub Chain-Represents :
    {t : Fs} {p : Ptr} (fs : List (Ptr × List ℕ))
    → Chain t p (pointers fs)
    → ArePlain t fs
    → Represents t p (row fs)
Chain-Represents {t} {p} [] (nil e) plain = nothing (load-null p t e)
Chain-Represents {t} (f ∷ fs) (cons nd ne at rest) ((nd', at', name, bare), plain) =
    let same : nd' ≡ nd = some-injective nd' nd (sym at' ∙ at) in
    file nd (load-some f.0 nd t ne at) (subst (λ n. TextAt t.mem n.name f.1) same name)
      (Chain-is_end fs rest)
      (nothing (load-none nd.contents t (subst (λ n. t.nodes n.contents ≡ none) same bare)))
      (Chain-Represents fs rest plain)

-- A chain is where its nodes are.
pub Chain-kept :
    {s t : Fs} {p q r : Ptr} {ps : List Ptr}
    → ((x : Ptr) → x ≢ q → x ≢ r → t.nodes x ≡ s.nodes x)
    → NotIn q ps
    → NotIn r ps
    → Chain s p ps
    → Chain t p ps
Chain-kept same q r (nil e) = nil e
Chain-kept same q r (cons {p = x} nd ne at rest) =
    cons nd ne (same x (λ e. q.0 (sym e)) (λ e. r.0 (sym e)) ∙ at) (Chain-kept same q.1 r.1 rest)

-- The one node of a list.
pub Chain-single :
    {s : Fs} {p q : Ptr}
    → Chain s p (q ∷ [])
    → (nd : Node) × (p ≡ q) × (q ≢ null) × (s.nodes q ≡ some nd) × (nd.nxt ≡ null)
Chain-single (cons nd ne at (nil e)) = (nd, refl, ne, at, e)
