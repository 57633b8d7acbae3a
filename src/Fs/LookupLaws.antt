-- ===== src/Fs/LookupLaws.antt =====
-- `get_file` of kernel/src/fs/fs.c against `lookup` in the tree that the nodes stand for.
use night.Base.{
  ℕ, zero, suc, ◌+◌, ◌≤◌, ◌≡◌, refl, ap, ◌∙◌, false, Option, none, some, List, [], ◌∷◌, ◌==◌,
  if◌then◌else◌, arith,
}
use night.Libk.Strtok.{strtok}
use night.Libk.StrtokLaws.{
  Piece, IsPiece, AreSeparated, spelled, tokens, behind_token, strtok-first, strtok-next,
}
use night.Console.PrintfLaws.{NoNul}
use night.Fs.Nodes.{Ptr, null, Node, Fs, load, same_prefix, slash, find_file, get_file}
use night.Fs.Forest.{Forest, size, TextAt, Represents, nothing, file, is_prefix, lookup}

-- The comparison of `strlen(tk)` bytes reads the name up to its NUL at most.
same_prefix-is_prefix :
    (mem : ℕ → ℕ) (p : Ptr) (token name : List ℕ)
    → TextAt mem p name
    → NoNul token
    → same_prefix mem p token ≡ is_prefix token name
unfolding same_prefix
same_prefix-is_prefix mem p [] name at clean = refl
same_prefix-is_prefix mem p (c ∷ token) [] at (ne, clean) =
    let other : (mem p == c) ≡ false = ground (arith, at, ne) in rw other refl
same_prefix-is_prefix mem p (c ∷ token) (d ∷ name) (at, _, more) (ne, clean) =
    rw (at, same_prefix-is_prefix mem (p + 1) token name more clean) (ground arith)

-- What `strtok(NULL, "/")` will give.
abbrev Yields : (left : Option (List ℕ)) → List (List ℕ) → Type 0
Yields left [] = strtok none slash left ≡ (none, none)
Yields left (t ∷ ts) =
    (left' : Option (List ℕ)) × (strtok none slash left ≡ (some t, left')) × Yields left' ts

abbrev pub AllClean : List (List ℕ) → Type 0
AllClean [] = Unit {0}
AllClean (t ∷ ts) = NoNul t × AllClean ts

find_file-end :
    (fuel : ℕ) (p : Ptr) (token : List ℕ) (left : Option (List ℕ)) (s : Fs)
    → load p s ≡ none
    → find_file fuel p token left s ≡ none
unfolding find_file
find_file-end zero p token left s e = refl
find_file-end (suc fuel) p token left s e = rw e refl

-- The next token decides whether the file is the answer or a directory to look into.
abbrev enter :
    (fuel : ℕ) (found contents : Ptr) → Fs → Option (List ℕ) × Option (List ℕ) → Option Ptr
enter fuel found contents s next = elim next.0 [
  | none ↦ some found
  | some token ↦ find_file fuel contents token next.1 s
]

find_file-step :
    (fuel : ℕ) (p : Ptr) (token : List ℕ) (left : Option (List ℕ)) (s : Fs) (nd : Node)
    → load p s ≡ some nd
    → find_file (suc fuel) p token left s ≡ (
        if same_prefix s.mem nd.name token
        then enter fuel p nd.contents s (strtok none slash left)
        else if nd.nxt == null
        then some null
        else find_file fuel nd.nxt token left s)
unfolding find_file
find_file-step fuel p token left s nd at = rw at refl

get_file-step :
    (fuel : ℕ) (path : List ℕ) (s : Fs) (r : Node)
    → load s.root s ≡ some r
    → get_file fuel path s ≡ enter fuel null r.contents s (strtok (some path) slash none)
unfolding get_file
get_file-step fuel path s r root = rw root refl

-- Where the contents are searched for the next token as `lookup` says, so is the whole rest.
entered :
    (fuel : ℕ) (s : Fs) (p contents : Ptr) (kids : Forest) (more : List (List ℕ))
    (left : Option (List ℕ))
    → ((next : List ℕ) (others : List (List ℕ)) (left' : Option (List ℕ))
        → NoNul next
        → AllClean others
        → Yields left' others
        → find_file fuel contents next left' s ≡ lookup kids next others)
    → AllClean more
    → Yields left more
    → enter fuel p contents s (strtok none slash left)
      ≡ elim more [ [] ↦ some p | next ∷ others ↦ lookup kids next others ]
entered fuel s p contents kids [] left search all is = ap (enter fuel p contents s) is
entered fuel s p contents kids (next ∷ others) left search all is =
    ap (enter fuel p contents s) is.1 ∙ search next others is.0 all.0 all.1 is.2

find_file_lem :
    (s : Fs) (fuel : ℕ) {p : Ptr} {f : Forest} (token : List ℕ) (more : List (List ℕ))
    (left : Option (List ℕ))
    → Represents s p f
    → NoNul token
    → AllClean more
    → Yields left more
    → size f ≤ fuel
    → find_file fuel p token left s ≡ lookup f token more
unfolding find_file
find_file_lem s fuel {p} token more left (nothing e) clean all is enough =
    find_file-end fuel p token left s e
find_file_lem s zero token more left (file nd at text last kids rest) clean all is enough =
    absurd (omega (arith, enough))
find_file_lem s (suc fuel) {p} token more left
      (file nd {name} {kids} {rest} at text last inside behind) clean all is enough =
    find_file-step fuel p token left s nd at
    ∙ rw
        (
          same_prefix-is_prefix s.mem nd.name token name text clean,
          last,
          find_file_lem s fuel token more left behind clean all is (omega (arith, enough)),
          entered fuel s p nd.contents kids more left
              (λ next others left' c cs y.
                find_file_lem s fuel next others left' inside c cs y (omega (arith, enough)))
              all is,
        )
        refl

Yields-pieces : (ps : List Piece) → AreSeparated slash ps → Yields (behind_token ps) (tokens ps)
unfolding strtok
Yields-pieces [] hs = refl
Yields-pieces (p ∷ ps) hs = (behind_token ps, strtok-next slash p ps hs, Yields-pieces ps hs.2)

-- The nodes from the root's `contents` on stand for a tree of files. A path is spelled by tokens
-- without a slash, with one slash or several between them and perhaps before the first. Then
-- `get_file` of the path gives what `lookup` gives for the tokens in that tree, a fault included,
-- when the fuel is at least the number of files.
pub get_file-lookup :
    (fuel : ℕ) (s : Fs) (r : Node) (f : Forest) (p : Piece) (ps : List Piece)
    → load s.root s ≡ some r
    → Represents s r.contents f
    → IsPiece slash p
    → AreSeparated slash ps
    → AllClean (tokens (p ∷ ps))
    → size f ≤ fuel
    → get_file fuel (spelled (p ∷ ps)) s ≡ lookup f p.1 (tokens ps)
get_file-lookup fuel s r f p ps root tree is hs clean enough =
    get_file-step fuel (spelled (p ∷ ps)) s r root
    ∙ ap (enter fuel null r.contents s) (strtok-first slash p ps none is hs)
    ∙ find_file_lem s fuel p.1 (tokens ps) (behind_token ps) tree clean.0 clean.1
        (Yields-pieces ps hs) enough
