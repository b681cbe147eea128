-- ===== src/Strings.antt =====
-- Python's text functions that OrbitLab uses. A decoded text is its code points.
use orbit_lab.Prelude.{
  ℕ, Bool, true, false, not, ◌&&◌, ◌||◌, List, [], ◌∷◌, ◌++◌, leb, eqb, if◌then◌else◌,
}
use orbit_lab.Manifest.Ref.{Text}

-- `str.isspace` of one character
unfoldable pub is_space : ℕ → Bool
is_space c =
    (leb 9 c && leb c 13)
    || (leb 28 c && leb c 32)
    || eqb c 133
    || eqb c 160
    || eqb c 5760
    || (leb 8192 c && leb c 8202)
    || eqb c 8232
    || eqb c 8233
    || eqb c 8239
    || eqb c 8287
    || eqb c 12288

-- `text.rstrip()`
unfoldable pub rstrip : Text → Text
unfolding is_space
rstrip [] = []
rstrip (c ∷ t) = elim (rstrip t) [ [] ↦ if is_space c then [] else c ∷ [] | d ∷ u ↦ c ∷ d ∷ u ]

unfoldable pub lstrip : Text → Text
unfolding is_space
lstrip [] = []
lstrip (c ∷ t) = let rest = lstrip t in if is_space c then rest else c ∷ t

-- `text.strip()`
unfoldable pub strip : Text → Text
unfolding lstrip rstrip
strip t = rstrip (lstrip t)

-- A word that ends, before the others: none where it has not begun.
unfoldable pub started : Text → List Text → List Text
started [] rest = rest
started (c ∷ word) rest = (c ∷ word) ∷ rest

-- `text.split()`, where `word` has begun
unfoldable pub split_from : Text → Text → List Text
unfolding is_space started
split_from word [] = started word []
split_from word (c ∷ t) =
    let more = split_from (word ++ c ∷ []) t in
    let rest = split_from [] t in if is_space c then started word rest else more

unfoldable pub split : Text → List Text
unfolding split_from
split t = split_from [] t

-- A character at the start of the first part.
unfoldable pub first : ℕ → List Text → List Text
first c [] = (c ∷ []) ∷ []
first c (l ∷ ls) = (c ∷ l) ∷ ls

-- `text.split(sep)` for a separator of one character
unfoldable pub split_on : ℕ → Text → List Text
unfolding first
split_on sep [] = [] ∷ []
split_on sep (c ∷ t) = if eqb c sep then [] ∷ split_on sep t else first c (split_on sep t)

-- The characters at which `splitlines` cuts, in a text without the pair of a carriage return and a line feed.
unfoldable pub is_break : ℕ → Bool
is_break c =
    (leb 10 c && leb c 13) || (leb 28 c && leb c 30) || eqb c 133 || eqb c 8232 || eqb c 8233

-- `text.splitlines()`, in a text without that pair
unfoldable pub splitlines : Text → List Text
unfolding is_break first
splitlines [] = []
splitlines (c ∷ t) = if is_break c then [] ∷ splitlines t else first c (splitlines t)

-- `sep.join(texts)` for a separator of one character
unfoldable pub join_with : ℕ → List Text → Text
join_with sep [] = []
join_with sep (t ∷ []) = t
join_with sep (t ∷ u ∷ texts) = t ++ sep ∷ join_with sep (u ∷ texts)

-- What is read of a text file: the ends of its lines are line feeds.
unfoldable pub universal_newlines : Text → Text
universal_newlines [] = []
universal_newlines (c ∷ []) = (if eqb c 13 then 10 else c) ∷ []
universal_newlines (c ∷ d ∷ t) =
    let rest = universal_newlines (d ∷ t) in
    if eqb c 13 then if eqb d 10 then rest else 10 ∷ rest else c ∷ rest

-- `s < t` on texts, by code points
unfoldable pub text_ltb : Text → Text → Bool
text_ltb s [] = false
text_ltb [] (d ∷ t) = true
text_ltb (c ∷ s) (d ∷ t) = if eqb c d then text_ltb s t else not (leb d c)
