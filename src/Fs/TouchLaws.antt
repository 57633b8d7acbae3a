-- ===== src/Fs/TouchLaws.antt =====
-- `add_dir` of kernel/src/fs/fs.c links: of other nodes it changes `nxt` at most, and of its
-- directory neither the name nor the operations.
use night.Base.{
  ℕ, ◌+◌, ◌≡◌, ◌≢◌, refl, ap, sym, ◌∙◌, Bool, true, false, Option, none, some, ◌==◌, update,
  if◌then◌else◌, ◌>>=◌, Bool-cases, inl, inr, Option-cases, arith,
}
use mathlib.Core.Path.{subst}
use night.Libk.Arith.{u32}
use night.Fs.Nodes.{
  Ptr, null, Node, Fs, load, store, last, link_behind, link_first, link_file, add_dir,
}

abbrev pub renext : (nxt : Ptr) → Option Node → Option Node
renext nxt none = none
renext nxt (some nd) = some (record nd { nxt = nxt })

abbrev pub redir : (contents : Ptr) (sz : ℕ) (nxt : Ptr) → Option Node → Option Node
redir contents sz nxt none = none
redir contents sz nxt (some nd) = some (record nd { contents = contents; sz = sz; nxt = nxt })

pub record Touches (dir : Ptr) (s t : Fs) : Type 0 where
  pub others : (q : Ptr) → q ≢ dir → (n : Ptr) × (t.nodes q ≡ renext n (s.nodes q))
  pub own : (c : Ptr) × (z : ℕ) × (n : Ptr) × (t.nodes dir ≡ redir c z n (s.nodes dir))

pub renext-same : (o : Option Node) → (n : Ptr) × (o ≡ renext n o)
renext-same none = (null, refl)
renext-same (some nd) = (nd.nxt, refl)

pub redir-same : (o : Option Node) → (c : Ptr) × (z : ℕ) × (n : Ptr) × (o ≡ redir c z n o)
redir-same none = (null, 0, null, refl)
redir-same (some nd) = (nd.contents, nd.sz, nd.nxt, refl)

pub renext-renext : (m n : Ptr) (o : Option Node) → renext n (renext m o) ≡ renext n o
renext-renext m n none = refl
renext-renext m n (some nd) = refl

pub redir-redir :
    (c : Ptr) (z : ℕ) (m : Ptr) (c' : Ptr) (z' : ℕ) (n : Ptr) (o : Option Node)
    → redir c' z' n (redir c z m o) ≡ redir c' z' n o
redir-redir c z m c' z' n none = refl
redir-redir c z m c' z' n (some nd) = refl

Touches-trans : {dir : Ptr} {s t u : Fs} → Touches dir s t → Touches dir t u → Touches dir s u
Touches-trans {dir} {s} a b = record {
  others = λ q ne.
      let (m, e) = a.others q ne in
      let (n, e') = b.others q ne in (n, e' ∙ ap (renext n) e ∙ renext-renext m n (s.nodes q));
  own =
      let (c, z, m, e) = a.own in
      let (c', z', n, e') = b.own in
      (c', z', n, e' ∙ ap (redir c' z' n) e ∙ redir-redir c z m c' z' n (s.nodes dir));
}

-- A result, if there is one.
abbrev TouchesOf : (dir : Ptr) → Fs → Option Fs → Type 0
TouchesOf dir s none = Unit {0}
TouchesOf dir s (some t) = Touches dir s t

TouchesOf->>= :
    {A : Type 0} (dir : Ptr) (s : Fs) (o : Option A) (f : A → Option Fs)
    → ((a : A) → o ≡ some a → TouchesOf dir s (f a))
    → TouchesOf dir s (o >>= f)
TouchesOf->>= dir s none f h = tt
TouchesOf->>= dir s (some a) f h = h a refl

TouchesOf-if :
    (dir : Ptr) (s : Fs) (x y : Option Fs) (b : Bool)
    → TouchesOf dir s x
    → TouchesOf dir s y
    → TouchesOf dir s (if b then x else y)
TouchesOf-if dir s x y true p q = p
TouchesOf-if dir s x y false p q = q

TouchesOf-trans :
    {dir : Ptr} {s t : Fs} (o : Option Fs) → Touches dir s t → TouchesOf dir t o → TouchesOf dir s o
TouchesOf-trans none r k = tt
TouchesOf-trans (some u) r k = Touches-trans r k

load-node : (p : Ptr) (nd : Node) (s : Fs) → load p s ≡ some nd → s.nodes p ≡ some nd
unfolding load
load-node p nd s e = ground (arith, e)

-- A new `nxt` anywhere.
store_next-Touches :
    (dir p : Ptr) (nd : Node) (n : Ptr) (s : Fs)
    → load p s ≡ some nd
    → TouchesOf dir s (store p (record nd { nxt = n }) s)
unfolding store
store_next-Touches dir p nd n s e =
    let at = load-node p nd s e in
    let t : Fs = record s { nodes = update s.nodes p (some (record nd { nxt = n })) } in
    rw e (record {
      others = λ q ne. elim (Bool-cases (q == p)) [
        | inl y ↦
            let same : q ≡ p = ground (arith, y) in
            let here : t.nodes q ≡ some (record nd { nxt = n }) = ground (arith, y) in
            (n, here ∙ sym (ap (renext n) (ap s.nodes same ∙ at)))
        | inr y ↦
            let here : t.nodes q ≡ s.nodes q = ground (arith, y) in
            let (m, e') = renext-same (s.nodes q) in (m, here ∙ e')
      ];
      own = elim (Bool-cases (dir == p)) [
        | inl y ↦
            let same : dir ≡ p = ground (arith, y) in
            let here : t.nodes dir ≡ some (record nd { nxt = n }) = ground (arith, y) in
            (
              nd.contents,
              nd.sz,
              n,
              here ∙ sym (ap (redir nd.contents nd.sz n) (ap s.nodes same ∙ at)),
            )
        | inr y ↦
            let here : t.nodes dir ≡ s.nodes dir = ground (arith, y) in
            let (c, z, m, e') = redir-same (s.nodes dir) in (c, z, m, here ∙ e')
      ];
    })

-- New contents or a new size of the directory.
store_dir-Touches :
    (dir : Ptr) (nd : Node) (c : Ptr) (z : ℕ) (s : Fs)
    → load dir s ≡ some nd
    → TouchesOf dir s (store dir (record nd { contents = c; sz = z }) s)
unfolding store
store_dir-Touches dir nd c z s e =
    let t : Fs = record s {
      nodes = update s.nodes dir (some (record nd { contents = c; sz = z }));
    } in
    rw e (record {
      others = λ q ne.
          let here : t.nodes q ≡ s.nodes q = ground (arith, ne) in
          let (m, e') = renext-same (s.nodes q) in (m, here ∙ e');
      own =
          let here : t.nodes dir ≡ some (record nd { contents = c; sz = z }) = ground arith in
          (c, z, nd.nxt, here ∙ sym (ap (redir c z nd.nxt) (load-node dir nd s e)));
    })

link_behind-Touches :
    (fuel : ℕ) (dir second file : Ptr) (s : Fs) → TouchesOf dir s (link_behind fuel second file s)
unfolding link_behind
link_behind-Touches fuel dir second file s = TouchesOf->>= dir s (last fuel second s) _ (λ holder _.
    TouchesOf->>= dir s (load holder s) _ (λ h e. store_next-Touches dir holder h h.nxt s e))

link_first-Touches :
    (fuel : ℕ) (dir contents file : Ptr) (s : Fs)
    → TouchesOf dir s (link_first fuel contents file s)
unfolding link_first
link_first-Touches fuel dir contents file s = TouchesOf->>= dir s (load contents s) _ (λ first e.
    TouchesOf-if dir s _ _ (first.nxt == null) (store_next-Touches dir contents first file s e)
      (link_behind-Touches fuel dir first.nxt file s))

link_file-Touches :
    (fuel : ℕ) (dir file : Ptr) (s : Fs) → TouchesOf dir s (link_file fuel dir file s)
unfolding link_file
link_file-Touches fuel dir file s = TouchesOf->>= dir s (load dir s) _ (λ d e.
    TouchesOf-if dir s _ _ (d.contents == null) (store_dir-Touches dir d file d.sz s e)
      (link_first-Touches fuel dir d.contents file s))

add_dir-TouchesOf : (fuel : ℕ) (dir file : Ptr) (s : Fs) → TouchesOf dir s (add_dir fuel dir file s)
unfolding add_dir
add_dir-TouchesOf fuel dir file s = elim (Option-cases (link_file fuel dir file s)) [
  | inl z ↦ rw z tt
  | inr (t, e) ↦ rw e (
      TouchesOf-trans (load dir t >>= λ d. store dir (record d { sz = u32 (d.sz + 1) }) t)
        (subst (TouchesOf dir s) e (link_file-Touches fuel dir file s))
        (TouchesOf->>= dir t (load dir t) _
          (λ d e'. store_dir-Touches dir d d.contents (u32 (d.sz + 1)) t e')))
]

pub add_dir-Touches :
    (fuel : ℕ) {dir : Ptr} (file : Ptr) {s t : Fs}
    → add_dir fuel dir file s ≡ some t
    → Touches dir s t
add_dir-Touches fuel {dir} file {s} e =
    subst (TouchesOf dir s) e (add_dir-TouchesOf fuel dir file s)
