-- ===== src/Fs/FrameLaws.antt =====
-- What `add_dir` and `mkfile` of kernel/src/fs leave alone.
use night.Base.{
  ℕ, ◌+◌, ◌≡◌, refl, ◌∙◌, Bool, true, false, Option, none, some, ◌==◌, if◌then◌else◌, ◌>>=◌,
}
use mathlib.Core.Path.{subst}
use night.Libk.Arith.{u32}
use night.Fs.Nodes.{
  Ptr, null, Node, Fs, load, store, last, link_behind, link_first, link_file, add_dir,
}

-- Everything but the nodes.
pub record SameRest (s t : Fs) : Type 0 where
  pub mem : t.mem ≡ s.mem
  pub ints : t.ints ≡ s.ints
  pub root : t.root ≡ s.root
  pub tar_root : t.tar_root ≡ s.tar_root
  pub files : t.files ≡ s.files
  pub calls : t.calls ≡ s.calls

SameRest-refl : (s : Fs) → SameRest s s
SameRest-refl s = record {
  mem = refl;
  ints = refl;
  root = refl;
  tar_root = refl;
  files = refl;
  calls = refl;
}

SameRest-trans : {s t u : Fs} → SameRest s t → SameRest t u → SameRest s u
SameRest-trans a b = record {
  mem = b.mem ∙ a.mem;
  ints = b.ints ∙ a.ints;
  root = b.root ∙ a.root;
  tar_root = b.tar_root ∙ a.tar_root;
  files = b.files ∙ a.files;
  calls = b.calls ∙ a.calls;
}

-- A result, if there is one, differs in the nodes only.
abbrev pub Keeps : Fs → Option Fs → Type 0
Keeps s none = Unit {0}
Keeps s (some t) = SameRest s t

pub Keeps-some : {s t : Fs} {o : Option Fs} → Keeps s o → o ≡ some t → SameRest s t
Keeps-some {s} k e = subst (Keeps s) e k

Keeps-if :
    (s : Fs) (x y : Option Fs) (b : Bool) → Keeps s x → Keeps s y → Keeps s (if b then x else y)
Keeps-if s x y true p q = p
Keeps-if s x y false p q = q

Keeps->>= :
    {A : Type 0} (s : Fs) (o : Option A) (f : A → Option Fs)
    → ((a : A) → Keeps s (f a))
    → Keeps s (o >>= f)
Keeps->>= s none f h = tt
Keeps->>= s (some a) f h = h a

Keeps-trans : {s t : Fs} (o : Option Fs) → SameRest s t → Keeps t o → Keeps s o
Keeps-trans none r k = tt
Keeps-trans (some u) r k = SameRest-trans r k

Keeps-then :
    (s : Fs) (o : Option Fs) (f : Fs → Option Fs)
    → Keeps s o
    → ((t : Fs) → Keeps t (f t))
    → Keeps s (o >>= f)
Keeps-then s none f k h = tt
Keeps-then s (some t) f k h = Keeps-trans (f t) k (h t)

store-Keeps : (p : Ptr) (nd : Node) (s : Fs) → Keeps s (store p nd s)
unfolding store
store-Keeps p nd s = Keeps->>= s (load p s) _ (λ q. record {
  mem = refl;
  ints = refl;
  root = refl;
  tar_root = refl;
  files = refl;
  calls = refl;
})

link_behind-Keeps :
    (fuel : ℕ) (second file : Ptr) (s : Fs) → Keeps s (link_behind fuel second file s)
unfolding link_behind
link_behind-Keeps fuel second file s =
    Keeps->>= s (last fuel second s) _ (λ holder.
      Keeps->>= s (load holder s) _ (λ h. store-Keeps holder (record h { nxt = h.nxt }) s))

link_first-Keeps :
    (fuel : ℕ) (contents file : Ptr) (s : Fs) → Keeps s (link_first fuel contents file s)
unfolding link_first
link_first-Keeps fuel contents file s = Keeps->>= s (load contents s) _ (λ first.
    Keeps-if s _ _ (first.nxt == null) (store-Keeps contents (record first { nxt = file }) s)
      (link_behind-Keeps fuel first.nxt file s))

link_file-Keeps : (fuel : ℕ) (dir file : Ptr) (s : Fs) → Keeps s (link_file fuel dir file s)
unfolding link_file
link_file-Keeps fuel dir file s = Keeps->>= s (load dir s) _ (λ d.
    Keeps-if s _ _ (d.contents == null) (store-Keeps dir (record d { contents = file }) s)
      (link_first-Keeps fuel d.contents file s))

-- `add_dir` changes nodes only.
pub add_dir-Keeps : (fuel : ℕ) (dir file : Ptr) (s : Fs) → Keeps s (add_dir fuel dir file s)
unfolding add_dir
add_dir-Keeps fuel dir file s =
    Keeps-then s (link_file fuel dir file s) _ (link_file-Keeps fuel dir file s)
      (λ t. Keeps->>= t (load dir t) _ (λ d. store-Keeps dir (record d { sz = u32 (d.sz + 1) }) t))
