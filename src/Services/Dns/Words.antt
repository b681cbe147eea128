-- ===== src/Services/Dns/Words.antt =====
-- The words of a line of the zone file of orbitlab/services/dns/main.py: `str.split` and `str.strip` on them.
use orbit_lab.Prelude.{
  ℕ, ◌≡◌, refl, sym, ap, ap₂, ◌∙◌, Bool, true, false, not, ◌&&◌, ◌||◌, List, [], ◌∷◌, ◌++◌, arith,
  append_assoc, append-nil, Bool-cases, inl, inr, if◌then◌else◌,
}
use orbit_lab.Manifest.Ref.{Text}
use orbit_lab.Strings.{is_space, rstrip, lstrip, strip, started, split_from, split, join_with}

-- Whether `p` holds for each item, and for some.
unfoldable pub all : {A : Type 0} → (A → Bool) → List A → Bool
all p [] = true
all p (x ∷ xs) = p x && all p xs

unfoldable pub any : {A : Type 0} → (A → Bool) → List A → Bool
any p [] = false
any p (x ∷ xs) = p x || any p xs

pub not_both : (b : Bool) → b ≡ true → b ≡ false → ⊥
not_both b h n = ground arith

pub others_fail : (x y : Bool) → x ≡ true → x && y ≡ false → y ≡ false
others_fail x y h n = ground arith

pub and_parts : (x y : Bool) → x && y ≡ true → (x ≡ true) × (y ≡ true)
and_parts x y h = ground arith

pub all_parts :
    {A : Type 0} (p : A → Bool) (x : A) (xs : List A)
    → all p (x ∷ xs) ≡ true
    → (p x ≡ true) × (all p xs ≡ true)
unfolding all
all_parts p x xs h = and_parts (p x) (all p xs) h

abbrev pub no_space : ℕ → Bool
no_space c = not (is_space c)

-- A name of a host as a line can hold it: some characters, and no space.
unfoldable pub is_word : Text → Bool
unfolding all
is_word [] = false
is_word (c ∷ t) = no_space c && all no_space t

rstrip_case :
    (word : Text) (c : ℕ) (t r : Text)
    → rstrip t ≡ r
    → ((w : Text) → split_from w r ≡ split_from w t)
    → split_from word (rstrip (c ∷ t)) ≡ split_from word (c ∷ t)
unfolding split_from rstrip
rstrip_case word c t [] e ih = elim (Bool-cases (is_space c)) [
  | inl y ↦ rw (e, y) (ap (started word) (ih []))
  | inr n ↦ rw (e, n, n) (ih (word ++ c ∷ []))
]
rstrip_case word c t (d ∷ u) e ih =
    rw e (ap₂ (λ x y. if is_space c then started word x else y) (ih []) (ih (word ++ c ∷ [])))

split_from-rstrip : (word t : Text) → split_from word (rstrip t) ≡ split_from word t
unfolding rstrip
split_from-rstrip word [] = refl
split_from-rstrip word (c ∷ t) = rstrip_case word c t (rstrip t) refl λ w. split_from-rstrip w t

lstrip_from : (c : ℕ) (t : Text) → is_space c ≡ false → lstrip (c ∷ t) ≡ c ∷ t
unfolding lstrip
lstrip_from c t h = rw h refl

split-lstrip : (t : Text) → split (lstrip t) ≡ split t
unfolding split lstrip split_from started
split-lstrip [] = refl
split-lstrip (c ∷ t) = elim (Bool-cases (is_space c)) [
  | inl y ↦ rw y (split-lstrip t)
  | inr n ↦ ap split (lstrip_from c t n)
]

pub split-strip : (t : Text) → split (strip t) ≡ split t
unfolding split strip
split-strip t = split_from-rstrip [] (lstrip t) ∙ split-lstrip t

space_of :
    (c : ℕ) (t : Text)
    → all no_space (c ∷ t) ≡ true
    → (is_space c ≡ false) × (all no_space t ≡ true)
unfolding all
space_of c t h = ground arith

-- A word, and what a space ends.
split_from-word :
    (w word t : Text)
    → all no_space word ≡ true
    → split_from w (word ++ t) ≡ split_from (w ++ word) t
unfolding split_from all
split_from-word w [] t h = rw (append-nil w) refl
split_from-word w (c ∷ word) t h = rw ((space_of c word h).0) (
    split_from-word (w ++ c ∷ []) word t (space_of c word h).1
    ∙ ap (λ x. split_from x t) (append_assoc w (c ∷ []) word))

pub rstrip_from : (c : ℕ) (t : Text) → is_space c ≡ false → rstrip (c ∷ t) ≡ c ∷ rstrip t
unfolding rstrip
rstrip_from c t h = go (rstrip t) refl
  where
    go : (r : Text) → rstrip t ≡ r → rstrip (c ∷ t) ≡ c ∷ rstrip t
    go [] e = rw (e, h) refl
    go (d ∷ u) e = rw e refl

pub strip_from : (c : ℕ) (t : Text) → is_space c ≡ false → strip (c ∷ t) ≡ c ∷ rstrip t
unfolding strip lstrip
strip_from c t h = rw h (rstrip_from c t h)

pub all-no_space : (word : Text) → is_word word ≡ true → all no_space word ≡ true
unfolding is_word all
all-no_space [] h = refl
all-no_space (c ∷ t) h = h

split-word : (word : Text) → is_word word ≡ true → split word ≡ word ∷ []
unfolding split is_word split_from started
split-word [] h = cc
split-word (c ∷ t) h =
    ap split (sym (append-nil (c ∷ t))) ∙ split_from-word [] (c ∷ t) [] (all-no_space (c ∷ t) h)

split-word_then : (word t : Text) → is_word word ≡ true → split (word ++ 32 ∷ t) ≡ word ∷ split t
unfolding split is_word split_from started
split-word_then [] t h = cc
split-word_then (c ∷ u) t h = split_from-word [] (c ∷ u) (32 ∷ t) (all-no_space (c ∷ u) h)

split-join_with :
    (words : List Text) → all is_word words ≡ true → split (join_with 32 words) ≡ words
unfolding join_with all split
split-join_with [] h = refl
split-join_with (w ∷ []) h = split-word w (ground arith)
split-join_with (w ∷ v ∷ words) h =
    split-word_then w (join_with 32 (v ∷ words)) (ground arith)
    ∙ ap (λ x. w ∷ x) (split-join_with (v ∷ words) (ground arith))

pub split-line :
    (word : Text) (words : List Text)
    → is_word word ≡ true
    → all is_word words ≡ true
    → split (word ++ 32 ∷ join_with 32 words) ≡ word ∷ words
split-line word words h g =
    split-word_then word (join_with 32 words) h ∙ ap (λ x. word ∷ x) (split-join_with words g)
