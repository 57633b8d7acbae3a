-- ===== src/Fs/DirLaws.antt =====
-- What `add_dir` of kernel/src/fs/fs.c makes of a directory's list.
use night.Base.{
  ℕ, ◌+◌, ◌≤◌, ◌<◌, ◌≡◌, ◌≢◌, refl, ap, sym, ◌∙◌, false, Option, some, List, [], ◌∷◌, ◌==◌, length,
  arith,
}
use night.Libk.Arith.{u32}
use night.Fs.Nodes.{Ptr, null, Node, Fs, last, link_behind, link_first, link_file, add_dir}
use night.Fs.Lists.{
  Chain, nil, cons, NotIn, Chain-SameBut, IsDir, put, last-Chain, added, IsNewFile, Others,
}

abbrev Linked : Fs → Ptr → Node → List Ptr → Option Fs → Type 0
Linked s dir d ps o =
    (t : Fs) × (o ≡ some t)
    × (d' : Node) × IsDir t dir d' ps
    × (d'.sz ≡ d.sz)
    × (d'.nxt ≡ d.nxt)
    × Others dir ps s t

module _ {s : Fs} {dir : Ptr} (file : Ptr) (fuel : ℕ) (d : Node) (ne_null : dir ≢ null)
    (at_dir : s.nodes dir ≡ some d) where
  link_empty :
      d.contents ≡ null
      → IsNewFile s dir file []
      → Linked s dir d (file ∷ []) (link_file fuel dir file s)
  unfolding link_file
  link_empty e new =
      let d' : Node = record d { contents = file } in
      (
        put dir d' s,
        ground arith,
        d',
        record {
          ne_null = ne_null;
          node = ground arith;
          chain = cons new.f new.ne_null (ground (arith, new.not_dir, new.node)) (nil new.single);
          apart = (λ k. new.not_dir (sym k), tt);
        },
        refl,
        refl,
        λ p other out. ground (arith, other),
      )

  link_second :
      (a : Ptr) (nd : Node)
      → d.contents ≡ a
      → a ≢ null
      → s.nodes a ≡ some nd
      → nd.nxt ≡ null
      → dir ≢ a
      → IsNewFile s dir file (a ∷ [])
      → Linked s dir d (a ∷ file ∷ []) (link_file fuel dir file s)
  unfolding link_file link_first
  link_second a nd e ne at end apart new =
      let nd' : Node = record nd { nxt = file } in
      (
        put a nd' s,
        ground arith,
        d,
        record {
          ne_null = ne_null;
          node = ground (arith, apart);
          chain = rw e (
              cons nd' ne (ground arith)
                (cons new.f new.ne_null (ground (arith, new.apart.0, new.node)) (nil new.single)));
          apart = (apart, (λ k. new.not_dir (sym k), tt));
        },
        refl,
        refl,
        λ p other out. ground (arith, out.0),
      )

  -- With two files or more, nothing is linked.
  link_nothing :
      (a : Ptr) (nd : Node) {ps : List Ptr}
      → d.contents ≡ a
      → a ≢ null
      → s.nodes a ≡ some nd
      → Chain s nd.nxt ps
      → 0 < length ps
      → length ps ≤ fuel
      → NotIn dir (a ∷ ps)
      → Linked s dir d (a ∷ ps) (link_file fuel dir file s)
  unfolding link_file link_first
  link_nothing a nd {ps} e ne at rest pos enough apart =
      let (q, h, found, ne', at') = last-Chain fuel s rest pos enough in
      let more : (nd.nxt == null) ≡ false = not_null rest pos in
      let same : (p : Ptr) → (put q h s).nodes p ≡ s.nodes p = λ p. ground arith in
      (
        put q h s,
        ground (arith, behind q h found ne' at'),
        d,
        record {
          ne_null = ne_null;
          node = same dir ∙ at_dir;
          chain = rw e (cons nd ne (same a ∙ at) (everywhere same rest));
          apart = apart;
        },
        refl,
        refl,
        λ p other out. same p,
      )
    where
      not_null : {p : Ptr} {qs : List Ptr} → Chain s p qs → 0 < length qs → (p == null) ≡ false
      not_null (nil e) h = absurd (omega arith)
      not_null (cons n ne at c) h = ground arith

      everywhere :
          {t : Fs} {p : Ptr} {qs : List Ptr}
          → ((r : Ptr) → t.nodes r ≡ s.nodes r)
          → Chain s p qs
          → Chain t p qs
      everywhere same (nil e) = nil e
      everywhere same (cons {p = r} n ne at c) = cons n ne (same r ∙ at) (everywhere same c)

      behind :
          (q : Ptr) (h : Node)
          → last fuel nd.nxt s ≡ some q
          → q ≢ null
          → s.nodes q ≡ some h
          → link_behind fuel nd.nxt file s ≡ some (put q h s)
      behind q h found ne at = rw found (ground arith)

Linked-add_dir :
    (s : Fs) (dir file : Ptr) (d : Node) (ps : List Ptr) (fuel : ℕ)
    → dir ≢ null
    → Linked s dir d ps (link_file fuel dir file s)
    → (t : Fs) × (add_dir fuel dir file s ≡ some t)
      × (d' : Node) × IsDir t dir d' ps
      × (d'.sz ≡ u32 (d.sz + 1))
      × (d'.nxt ≡ d.nxt)
      × Others dir ps s t
unfolding add_dir
Linked-add_dir s dir file d ps fuel ne (t, e, d', is, size, next, others) =
    let d'' : Node = record d' { sz = u32 (d'.sz + 1) } in
    (
      put dir d'' t,
      counted t d' e is.node,
      d'',
      record {
        ne_null = ne;
        node = ground arith;
        chain = Chain-SameBut (λ q other. ground arith) is.apart is.chain;
        apart = is.apart;
      },
      ap (λ k. u32 (k + 1)) size,
      next,
      λ p other out. ground (arith, others p other out, other),
    )
  where
    counted :
        (t : Fs) (d' : Node)
        → link_file fuel dir file s ≡ some t
        → t.nodes dir ≡ some d'
        → add_dir fuel dir file s ≡ some (put dir (record d' { sz = u32 (d'.sz + 1) }) t)
    counted t d' e at = rw e (ground arith)

Linked-link_file :
    {s : Fs} {dir p : Ptr} {ps : List Ptr} (fuel : ℕ) (file : Ptr) (d : Node)
    → dir ≢ null
    → s.nodes dir ≡ some d
    → d.contents ≡ p
    → Chain s p ps
    → NotIn dir ps
    → IsNewFile s dir file ps
    → length ps ≤ fuel
    → Linked s dir d (added ps file) (link_file fuel dir file s)
Linked-link_file fuel file d ne at e (nil z) apart new h = link_empty file fuel d ne at (e ∙ z) new
Linked-link_file fuel file d ne at e (cons {p = a} nd na at' (nil z)) apart new h =
    link_second file fuel d ne at a nd e na at' z apart.0 new
Linked-link_file fuel file d ne at e (cons {p = a} nd na at' (cons nd' nb at'' rest)) apart new h =
    link_nothing file fuel d ne at a nd e na at' (cons nd' nb at'' rest) (omega arith) (omega arith)
      apart

-- On a directory with a well-formed list and a new file, `add_dir` returns, given fuel for the list;
-- an empty list and a list of one file get the file at their end; a list of two or more is left as
-- it was, so that the file is lost. The size grows by one in each case; the directory's place among
-- its own neighbours stays, and so does every node but the directory and those of its list.
pub add_dir_lem :
    {s : Fs} {dir : Ptr} {ps : List Ptr} (fuel : ℕ) (file : Ptr) (d : Node)
    → IsDir s dir d ps
    → IsNewFile s dir file ps
    → length ps ≤ fuel
    → (t : Fs) × (add_dir fuel dir file s ≡ some t)
      × (d' : Node) × IsDir t dir d' (added ps file)
      × (d'.sz ≡ u32 (d.sz + 1))
      × (d'.nxt ≡ d.nxt)
      × Others dir (added ps file) s t
add_dir_lem {s} {dir} {ps} fuel file d is new h =
    Linked-add_dir s dir file d (added ps file) fuel is.ne_null
      (Linked-link_file fuel file d is.ne_null is.node refl is.chain is.apart new h)
