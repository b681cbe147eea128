-- ===== src/Services/Dns/Valid.antt =====
-- A text that `ip_address` takes has digits and dots only.
use orbit_lab.Prelude.{
  ℕ, ◌+◌, ◌-◌, ◌*◌, ◌≡◌, refl, ap, Bool, true, false, ◌&&◌, Option, none, some, List, [], ◌∷◌, leb,
  eqb, arith, Bool-cases, ◌⊎◌, inl, inr,
}
use orbit_lab.Manifest.Ref.{Text}
use orbit_lab.Strings.{is_space, first, split_on}
use orbit_lab.Services.Dns.Hosts.{octet_from, octet, octets, four, ip_address}
use orbit_lab.Services.Dns.Words.{not_both, all, no_space, is_word}

pub Option-cases : {A : Type 0} (o : Option A) → (o ≡ none) ⊎ ((a : A) × (o ≡ some a))
Option-cases none = inl refl
Option-cases (some a) = inr (a, refl)

unfoldable pub taken : Option ℕ → Bool
taken none = false
taken (some a) = true

-- Whether `ip_address` takes a text.
unfoldable pub is_address : Text → Bool
unfolding taken ip_address
is_address t = taken (ip_address t)

pub is_digit : ℕ → Bool
is_digit c = leb b'0' c && leb c b'9'

pub in_address : ℕ → Bool
in_address c = leb b'.' c && leb c b'9'

pub in_address-mark : (c : ℕ) → in_address c ≡ true → eqb c b'#' ≡ false
unfolding in_address
in_address-mark c h = ground arith

octet_from-digits : (n : ℕ) (t : Text) (m : ℕ) → octet_from n t ≡ some m → all is_digit t ≡ true
unfolding octet_from all is_digit
octet_from-digits n [] m h = refl
octet_from-digits n (c ∷ t) m h = ground (arith, octet_from-digits (n * 10 + (c - b'0')) t m)

octet-digits : (t : Text) (m : ℕ) → octet t ≡ some m → all is_digit t ≡ true
unfolding octet
octet-digits [] m h = cc
octet-digits (c ∷ []) m h = octet_from-digits 0 (c ∷ []) m h
octet-digits (c ∷ d ∷ t) m h = ground (arith, octet_from-digits 0 (c ∷ d ∷ t) m)

no_octet :
    (t : Text) (texts : List Text) (ns : List ℕ) → octet t ≡ none → octets (t ∷ texts) ≡ some ns → ⊥
unfolding octets
no_octet t texts ns e h = ground arith

no_octets :
    (t : Text) (texts : List Text) (ns : List ℕ) (m : ℕ)
    → octet t ≡ some m
    → octets texts ≡ none
    → octets (t ∷ texts) ≡ some ns
    → ⊥
unfolding octets
no_octets t texts ns m e f h = ground arith

octets-digits :
    (texts : List Text) (ns : List ℕ) → octets texts ≡ some ns → all (all is_digit) texts ≡ true
unfolding octets all
octets-digits [] ns h = refl
octets-digits (t ∷ texts) ns h = elim (Option-cases (octet t)) [
  | inl n ↦ absurd (no_octet t texts ns n h)
  | inr (m, e) ↦ elim (Option-cases (octets texts)) [
    | inl n ↦ absurd (no_octets t texts ns m e n h)
    | inr (ms, es) ↦ rw (octet-digits t m e) (octets-digits texts ms es)
  ]
]

first-digits :
    (c : ℕ) (texts : List Text)
    → all (all is_digit) (first c texts) ≡ (is_digit c && all (all is_digit) texts)
unfolding first all
first-digits c [] = ground arith
first-digits c (l ∷ ls) = ground arith

split_on-digits : (t : Text) → all (all is_digit) (split_on b'.' t) ≡ true → all in_address t ≡ true
unfolding split_on all is_digit in_address
split_on-digits [] h = refl
split_on-digits (c ∷ t) h = elim (Bool-cases (eqb c b'.')) [
  | inl y ↦ ground (arith, split_on-digits t)
  | inr n ↦ ground (arith, first-digits c (split_on b'.' t), split_on-digits t)
]

pub in_address-space : (c : ℕ) → in_address c ≡ true → is_space c ≡ false
unfolding in_address is_space
in_address-space c h = ground arith

in_address-no_space : (c : ℕ) → in_address c ≡ true → no_space c ≡ true
in_address-no_space c h = rw (in_address-space c h) refl

pub all_mono :
    (p q : ℕ → Bool)
    → ((c : ℕ) → p c ≡ true → q c ≡ true)
    → (t : Text) → all p t ≡ true
    → all q t ≡ true
unfolding all
all_mono p q i [] h = refl
all_mono p q i (c ∷ t) h = ground (arith, i c, all_mono p q i t)

ip_address-digits : (t : Text) (a : ℕ) → ip_address t ≡ some a → all in_address t ≡ true
unfolding ip_address four
ip_address-digits t a h = elim (Option-cases (octets (split_on b'.' t))) [
  | inl n ↦ absurd (ground arith)
  | inr (ns, e) ↦ split_on-digits t (octets-digits (split_on b'.' t) ns e)
]

ip_address_nil : (a : ℕ) → ip_address [] ≡ some a → ⊥
unfolding ip_address four octets octet split_on
ip_address_nil a h = cc

-- An address is a word that starts with a digit or a dot.
pub ip_address-is_word :
    (t : Text) (a : ℕ)
    → ip_address t ≡ some a
    → (c : ℕ) × (u : Text) × (t ≡ c ∷ u) × (in_address c ≡ true) × (is_word t ≡ true)
unfolding all is_word
ip_address-is_word [] a h = absurd (ip_address_nil a h)
ip_address-is_word (c ∷ u) a h =
    let d = ip_address-digits (c ∷ u) a h in (c, u, refl, head d, word (c ∷ u) d)
  where
    head : all in_address (c ∷ u) ≡ true → in_address c ≡ true
    head d = ground arith

    word : (t : Text) → all in_address t ≡ true → all no_space t ≡ true
    word = all_mono in_address no_space in_address-no_space

pub is_address-some : (t : Text) (a : ℕ) → ip_address t ≡ some a → is_address t ≡ true
unfolding is_address taken
is_address-some t a h = ap taken h

pub is_address-none : (t : Text) → ip_address t ≡ none → is_address t ≡ false
unfolding is_address taken
is_address-none t h = ap taken h

pub address_of : (t : Text) → is_address t ≡ true → (a : ℕ) × (ip_address t ≡ some a)
address_of t h = elim (Option-cases (ip_address t)) [
  | inl n ↦ absurd (not_both (is_address t) h (is_address-none t n))
  | inr e ↦ e
]
  where
    both : (b : Bool) → b ≡ true → b ≡ false → ⊥
    both b h n = ground arith

pub not_address : (t : Text) → is_address t ≡ false → ip_address t ≡ none
not_address t h = elim (Option-cases (ip_address t)) [
  | inl n ↦ n
  | inr (a, e) ↦ absurd (not_both (is_address t) (is_address-some t a e) h)
]
  where
    both : (b : Bool) → b ≡ true → b ≡ false → ⊥
    both b h n = ground arith
