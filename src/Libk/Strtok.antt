-- ===== src/Libk/Strtok.antt =====
-- `strtok` of lib/libk/src/string.c. A text is the list of its bytes before the NUL; the static
-- variable `left` is the text from there on.
use night.Base.{ℕ, Bool, false, ◌||◌, Option, none, some, List, [], ◌∷◌, ◌==◌, if◌then◌else◌}

-- The inner loops: is `c` one of the delimiters?
unfoldable pub is_delim : ℕ → List ℕ → Bool
is_delim c [] = false
is_delim c (d ∷ delim) = (d == c) || is_delim c delim

-- The first loop: pass over delimiters.
unfoldable pub skip_delims : (delim str : List ℕ) → List ℕ
skip_delims delim [] = []
skip_delims delim (c ∷ str) =
    let rest = skip_delims delim str in if is_delim c delim then rest else c ∷ str

-- The second loop: the token, cut at the first delimiter, and the text behind that, if there is one.
unfoldable pub cut_token : (delim str : List ℕ) → List ℕ × Option (List ℕ)
cut_token delim [] = ([], none)
cut_token delim (c ∷ str) =
    let (token, left) = cut_token delim str in
    if is_delim c delim then ([], some str) else (c ∷ token, left)

-- The result and the new `left`. A text of delimiters alone gives an empty token, not NULL.
unfoldable pub strtok :
    (str : Option (List ℕ)) (delim : List ℕ) (left : Option (List ℕ))
    → Option (List ℕ) × Option (List ℕ)
unfolding skip_delims cut_token
strtok (some str) delim left =
    let (token, left') = cut_token delim (skip_delims delim str) in (some token, left')
strtok none delim none = (none, none)
strtok none delim (some str) =
    let (token, left') = cut_token delim (skip_delims delim str) in (some token, left')
