-- ===== src/Libk/StrtokLaws.antt =====
-- `strtok` of lib/libk/src/string.c, called until it gives NULL, takes a text apart.
use night.Base.{
  ℕ, zero, suc, ◌<◌, ◌≡◌, ◌≢◌, refl, ap, ◌∙◌, true, false, Option, none, some, List, [], ◌∷◌, ◌++◌,
  map, length, arith,
}
use night.Libk.Strtok.{is_delim, skip_delims, cut_token, strtok}

-- A piece of a text: the delimiters before a token, and the token.
abbrev pub Piece : Type 0
Piece = List ℕ × List ℕ

abbrev AllDelims : (delim gap : List ℕ) → Type 0
AllDelims delim [] = Unit {0}
AllDelims delim (c ∷ gap) = (is_delim c delim ≡ true) × AllDelims delim gap

abbrev NoDelims : (delim token : List ℕ) → Type 0
NoDelims delim [] = Unit {0}
NoDelims delim (c ∷ token) = (is_delim c delim ≡ false) × NoDelims delim token

abbrev pub IsPiece : (delim : List ℕ) → Piece → Type 0
IsPiece delim (gap, token) = AllDelims delim gap × (token ≢ []) × NoDelims delim token

-- Later pieces do have a delimiter before the token.
abbrev pub AreSeparated : (delim : List ℕ) → List Piece → Type 0
AreSeparated delim [] = Unit {0}
AreSeparated delim (p ∷ ps) = (p.0 ≢ []) × IsPiece delim p × AreSeparated delim ps

abbrev pub spelled : List Piece → List ℕ
spelled [] = []
spelled (p ∷ ps) = p.0 ++ (p.1 ++ spelled ps)

abbrev pub tokens : List Piece → List (List ℕ)
tokens ps = map (λ p. p.1) ps

-- What is left of the text once a token is cut off: one delimiter is gone.
abbrev pub behind_token : List Piece → Option (List ℕ)
behind_token [] = none
behind_token (([], token) ∷ ps) = none
behind_token ((c ∷ gap, token) ∷ ps) = some (gap ++ (token ++ spelled ps))

skip_delims-gap :
    (delim gap text : List ℕ)
    → AllDelims delim gap
    → skip_delims delim (gap ++ text) ≡ skip_delims delim text
unfolding skip_delims
skip_delims-gap delim [] text h = refl
skip_delims-gap delim (c ∷ gap) text (h, hs) = rw h (skip_delims-gap delim gap text hs)

skip_delims-token :
    (delim token text : List ℕ)
    → token ≢ []
    → NoDelims delim token
    → skip_delims delim (token ++ text) ≡ token ++ text
unfolding skip_delims
skip_delims-token delim [] text some_char h = absurd (some_char refl)
skip_delims-token delim (c ∷ token) text some_char (h, hs) = rw h refl

cut_token-last :
    (delim token : List ℕ) → NoDelims delim token → cut_token delim (token ++ []) ≡ (token, none)
unfolding cut_token
cut_token-last delim [] h = refl
cut_token-last delim (c ∷ token) (h, hs) = rw (h, cut_token-last delim token hs) refl

cut_token-delim :
    (delim token : List ℕ) (d : ℕ) (text : List ℕ)
    → NoDelims delim token
    → is_delim d delim ≡ true
    → cut_token delim (token ++ d ∷ text) ≡ (token, some text)
unfolding cut_token
cut_token-delim delim [] d text h k = rw k refl
cut_token-delim delim (c ∷ token) d text (h, hs) k =
    rw (h, cut_token-delim delim token d text hs k) refl

cut_token-behind :
    (delim token : List ℕ) (ps : List Piece)
    → NoDelims delim token
    → AreSeparated delim ps
    → cut_token delim (token ++ spelled ps) ≡ (token, behind_token ps)
cut_token-behind delim token [] h hs = cut_token-last delim token h
cut_token-behind delim token (([], word) ∷ ps) h (gap, is, hs) = absurd (gap refl)
cut_token-behind delim token ((c ∷ gap, word) ∷ ps) h (more, (delims, chars, clean), hs) =
    cut_token-delim delim token c (gap ++ (word ++ spelled ps)) h delims.0

cut_piece :
    (delim gap token : List ℕ) (ps : List Piece)
    → IsPiece delim (gap, token)
    → AreSeparated delim ps
    → cut_token delim (skip_delims delim (gap ++ (token ++ spelled ps))) ≡ (token, behind_token ps)
cut_piece delim gap token ps (delims, some_char, clean) hs =
    rw
      (
        skip_delims-gap delim gap (token ++ spelled ps) delims,
        skip_delims-token delim token (spelled ps) some_char clean,
      )
      (cut_token-behind delim token ps clean hs)

-- The first call.
pub strtok-first :
    (delim : List ℕ) (p : Piece) (ps : List Piece) (left : Option (List ℕ))
    → IsPiece delim p
    → AreSeparated delim ps
    → strtok (some (spelled (p ∷ ps))) delim left ≡ (some p.1, behind_token ps)
unfolding strtok
strtok-first delim (gap, token) ps left is hs = rw (cut_piece delim gap token ps is hs) refl

-- A later call.
pub strtok-next :
    (delim : List ℕ) (p : Piece) (ps : List Piece)
    → AreSeparated delim (p ∷ ps)
    → strtok none delim (behind_token (p ∷ ps)) ≡ (some p.1, behind_token ps)
unfolding strtok
strtok-next delim ([], token) ps (more, is, hs) = absurd (more refl)
strtok-next delim (c ∷ gap, token) ps (more, (delims, chars, clean), hs) =
    rw (cut_piece delim gap token ps (delims.1, chars, clean) hs) refl

-- The calls `strtok(NULL, delim)` until the result is NULL.
unfoldable later_tokens : (rounds : ℕ) (delim : List ℕ) (left : Option (List ℕ)) → List (List ℕ)
later_tokens zero delim left = []
later_tokens (suc rounds) delim left =
    let r = strtok none delim left in
    elim r.0 [ none ↦ [] | some t ↦ t ∷ later_tokens rounds delim r.1 ]

unfoldable pub all_tokens :
    (rounds : ℕ) (delim text : List ℕ) (left : Option (List ℕ)) → List (List ℕ)
unfolding later_tokens
all_tokens rounds delim text left =
    let r = strtok (some text) delim left in
    elim r.0 [ none ↦ [] | some t ↦ t ∷ later_tokens rounds delim r.1 ]

-- The list from the result of a call on.
abbrev from_call : (rounds : ℕ) (delim : List ℕ) → Option (List ℕ) × Option (List ℕ) → List (List ℕ)
from_call rounds delim (none, left) = []
from_call rounds delim (some t, left) = t ∷ later_tokens rounds delim left

later_tokens-step :
    (rounds : ℕ) (delim : List ℕ) (left : Option (List ℕ))
    → later_tokens (suc rounds) delim left ≡ from_call rounds delim (strtok none delim left)
unfolding later_tokens strtok
later_tokens-step rounds delim none = refl
later_tokens-step rounds delim (some t) = refl

all_tokens-step :
    (rounds : ℕ) (delim text : List ℕ) (left : Option (List ℕ))
    → all_tokens rounds delim text left ≡ from_call rounds delim (strtok (some text) delim left)
unfolding all_tokens strtok
all_tokens-step rounds delim text left = refl

later_tokens_lem :
    (rounds : ℕ) (delim : List ℕ) (ps : List Piece)
    → AreSeparated delim ps
    → length ps < rounds
    → later_tokens rounds delim (behind_token ps) ≡ tokens ps
unfolding later_tokens strtok
later_tokens_lem zero delim ps hs lt = absurd (omega (arith, lt))
later_tokens_lem (suc rounds) delim [] hs lt = later_tokens-step rounds delim none
later_tokens_lem (suc rounds) delim (p ∷ ps) hs lt =
    later_tokens-step rounds delim (behind_token (p ∷ ps))
    ∙ ap (from_call rounds delim) (strtok-next delim p ps hs)
    ∙ ap (◌∷◌ p.1) (later_tokens_lem rounds delim ps hs.2 (omega (arith, lt)))

-- A text is spelled by tokens that are not empty and hold no delimiter, with runs of delimiters
-- between them, and perhaps a run before the first. Then `strtok` of the text and the calls with
-- NULL after it give the tokens in their order, and NULL behind the last, whatever was left over
-- from an earlier text.
pub all_tokens_lem :
    (rounds : ℕ) (delim : List ℕ) (p : Piece) (ps : List Piece) (left : Option (List ℕ))
    → IsPiece delim p
    → AreSeparated delim ps
    → length ps < rounds
    → all_tokens rounds delim (spelled (p ∷ ps)) left ≡ tokens (p ∷ ps)
all_tokens_lem rounds delim p ps left is hs lt =
    all_tokens-step rounds delim (spelled (p ∷ ps)) left
    ∙ ap (from_call rounds delim) (strtok-first delim p ps left is hs)
    ∙ ap (◌∷◌ p.1) (later_tokens_lem rounds delim ps hs lt)
