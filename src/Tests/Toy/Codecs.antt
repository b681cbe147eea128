-- ===== src/Tests/Toy/Codecs.antt =====
-- Codecs of numbers, lists and texts over lists of numbers, for the test instance.
use Prim.Native.Nat.{compare, Ordering}
use Prim.Native.Char.{Char, char, code, IsLt, IsScalar}
use orbit_lab.Prelude.{
  ℕ, zero, suc, ◌≡◌, refl, ap, String, Option, none, some, List, [], ◌∷◌, length, map,
}

pub record Codec (A : Type 0) : Type 0 where
  pub put : A → List ℕ → List ℕ
  pub get : List ℕ → Option (A × List ℕ)
  pub get-put : (a : A) (rest : List ℕ) → get (put a rest) ≡ some (a, rest)

abbrev head : List ℕ → Option (ℕ × List ℕ)
head [] = none
head (n ∷ rest) = some (n, rest)

abbrev pub nat : Codec ℕ
nat = record { put = λ n rest. n ∷ rest; get = head; get-put = λ n rest. refl }

module _ {A B : Type 0} where
  abbrev after : Codec B → Option (A × List ℕ) → Option ((A × B) × List ℕ)
  after c none = none
  after c (some (a, rest)) = elim (c.get rest) [
    | none ↦ none
    | some (b, more) ↦ some ((a, b), more)
  ]

  abbrev pub pair : Codec A → Codec B → Codec (A × B)
  pair c d = record {
    put = λ p rest. c.put p.0 (d.put p.1 rest);
    get = λ b. after d (c.get b);
    get-put = λ p rest. rw (c.get-put p.0 (d.put p.1 rest), after, d.get-put p.1 rest);
  }

module _ {A : Type 0} where
  abbrev put_all : Codec A → List A → List ℕ → List ℕ
  put_all c [] rest = rest
  put_all c (a ∷ as') rest = c.put a (put_all c as' rest)

  abbrev add : A → Option (List A × List ℕ) → Option (List A × List ℕ)
  add a none = none
  add a (some (more, rest)) = some (a ∷ more, rest)

  abbrev get_all : Codec A → ℕ → List ℕ → Option (List A × List ℕ)
  get_all c zero b = some ([], b)
  get_all c (suc n) b = elim (c.get b) [ none ↦ none | some (a, rest) ↦ add a (get_all c n rest) ]

  abbrev get_all-put_all :
      (c : Codec A) (items : List A) (rest : List ℕ)
      → get_all c (length items) (put_all c items rest) ≡ some (items, rest)
  get_all-put_all c [] rest = refl
  get_all-put_all c (a ∷ items) rest =
      rw (c.get-put a (put_all c items rest), get_all-put_all c items rest)

  abbrev counted : Codec A → Option (ℕ × List ℕ) → Option (List A × List ℕ)
  counted c none = none
  counted c (some (n, rest)) = get_all c n rest

  abbrev pub list : Codec A → Codec (List A)
  list c = record {
    put = λ items rest. length items ∷ put_all c items rest;
    get = λ b. counted c (head b);
    get-put = λ items rest. get_all-put_all c items rest;
  }

  abbrev to_list : Option A → List A
  to_list none = []
  to_list (some a) = a ∷ []

  abbrev to_option : Option (List A × List ℕ) → Option (Option A × List ℕ)
  to_option none = none
  to_option (some ([], rest)) = some (none, rest)
  to_option (some (a ∷ more, rest)) = some (some a, rest)

  abbrev to_option-to_list :
      (o : Option A) (rest : List ℕ) → to_option (some (to_list o, rest)) ≡ some (o, rest)
  to_option-to_list none rest = refl
  to_option-to_list (some a) rest = refl

  abbrev pub option : Codec A → Codec (Option A)
  option c = record {
    put = λ o rest. (list c).put (to_list o) rest;
    get = λ b. to_option ((list c).get b);
    get-put = λ o rest. rw ((list c).get-put (to_list o) rest) (to_option-to_list o rest);
  }

-- Characters, by their code points. These two have the clauses of the helpers behind `IsScalar`.
abbrev BothLt : Ordering → Ordering → Type 0
BothLt Ordering.lt o = IsLt o
BothLt Ordering.eq _ = ⊥
BothLt Ordering.gt _ = ⊥

abbrev Scalar : Ordering → Ordering → Ordering → Type 0
Scalar Ordering.lt _ _ = Unit
Scalar Ordering.eq o p = BothLt o p
Scalar Ordering.gt o p = BothLt o p

abbrev both_lt : (p q : Ordering) → Option (BothLt p q)
both_lt Ordering.lt Ordering.lt = some tt
both_lt Ordering.lt Ordering.eq = none
both_lt Ordering.lt Ordering.gt = none
both_lt Ordering.eq q = none
both_lt Ordering.gt q = none

abbrev both_lt_found : (p q : Ordering) (h : BothLt p q) → both_lt p q ≡ some h
both_lt_found Ordering.lt Ordering.lt h = refl
both_lt_found Ordering.lt Ordering.eq h = absurd h
both_lt_found Ordering.lt Ordering.gt h = absurd h
both_lt_found Ordering.eq q h = absurd h
both_lt_found Ordering.gt q h = absurd h

abbrev scalar : (o p q : Ordering) → Option (Scalar o p q)
scalar Ordering.lt p q = some tt
scalar Ordering.eq p q = both_lt p q
scalar Ordering.gt p q = both_lt p q

abbrev scalar_found : (o p q : Ordering) (h : Scalar o p q) → scalar o p q ≡ some h
scalar_found Ordering.lt p q h = refl
scalar_found Ordering.eq p q h = both_lt_found p q h
scalar_found Ordering.gt p q h = both_lt_found p q h

abbrev made : (n : ℕ) → List ℕ → Option (IsScalar n) → Option (Char × List ℕ)
made n rest none = none
made n rest (some h) = some (char n h, rest)

abbrev get_char : Option (ℕ × List ℕ) → Option (Char × List ℕ)
get_char none = none
get_char (some (n, rest)) =
    made n rest (scalar (compare n 55296) (compare 57343 n) (compare n 1114112))

abbrev get_char_found : (c : Char) (rest : List ℕ) → get_char (some (code c, rest)) ≡ some (c, rest)
get_char_found (char n h) rest =
    ap (made n rest) (scalar_found (compare n 55296) (compare 57343 n) (compare n 1114112) h)

abbrev char_codec : Codec Char
char_codec = record {
  put = λ c rest. code c ∷ rest;
  get = λ b. get_char (head b);
  get-put = get_char_found;
}

abbrev chars : String → List Char
chars String.[] = []
chars (String.◌∷◌ c s) = c ∷ chars s

abbrev pub codes : String → List ℕ
codes s = map code (chars s)

abbrev unchars : List Char → String
unchars [] = String.[]
unchars (c ∷ cs) = String.◌∷◌ c (unchars cs)

abbrev unchars-chars : (s : String) → unchars (chars s) ≡ s
unchars-chars String.[] = refl
unchars-chars (String.◌∷◌ c s) = ap (String.◌∷◌ c) (unchars-chars s)

abbrev to_text : Option (List Char × List ℕ) → Option (String × List ℕ)
to_text none = none
to_text (some (cs, rest)) = some (unchars cs, rest)

abbrev pub text : Codec String
text = record {
  put = λ s rest. (list char_codec).put (chars s) rest;
  get = λ b. to_text ((list char_codec).get b);
  get-put = λ s rest. rw ((list char_codec).get-put (chars s) rest, unchars-chars s);
}
