-- ===== src/Services/Dns/Parsed.antt =====
-- `parse_hosts_block` of orbitlab/services/dns/main.py on lines of hosts.
use orbit_lab.Prelude.{
  ℕ, ◌≡◌, refl, sym, ap, ap₂, subst, ◌∙◌, Bool, true, false, ◌&&◌, ◌||◌, some, List, [], ◌∷◌, ◌++◌,
  ◌==◌, map, nat_eq, list_eq, contains, arith,
}
use orbit_lab.Prelude.Exec.{Result, ok}
use orbit_lab.Exceptions.{Exception}
use orbit_lab.Manifest.Ref.{Text}
use orbit_lab.Strings.{strip, split, text_ltb, join_with}
use orbit_lab.Services.Dns.Hosts.{
  Entries, ip_address, extend, is_skipped, parse_parts, parse_lines, sorted, line_of, host_line,
}
use orbit_lab.Services.Dns.Words.{all, any, is_word, split-strip, split-line, strip_from}
use orbit_lab.Services.Dns.Sorting.{any-sorted, all-sorted}
use orbit_lab.Services.Dns.Valid.{
  is_address, address_of, in_address, in_address-space, in_address-mark, ip_address-is_word,
}
use orbit_lab.Services.Dns.Entries.{has_record, has_record-extend}
use orbit_lab.Services.Dns.Proper.{proper, proper-extend, addressed, addressed-extend}

abbrev pub Keyed : Type 0
Keyed = ℕ × Text × List Text

unfoldable pub valid : Keyed → Bool
valid (a, ip, names) = is_address ip && all is_word names

unfoldable pub lists : Text → Text → Keyed → Bool
lists i n (a, ip, names) = ip == i && contains names n

contains-any : (names : List Text) (n : Text) → contains names n ≡ any (λ m. n == m) names
unfolding contains any
contains-any [] n = refl
contains-any (m ∷ names) n = ap (λ b. n == m || b) (contains-any names n)

contains-sorted :
    (names : List Text) (n : Text) → contains (sorted text_ltb names) n ≡ contains names n
contains-sorted names n =
    contains-any (sorted text_ltb names) n
    ∙ any-sorted (λ m. n == m) text_ltb names
    ∙ sym (contains-any names n)

kept_line : (c : ℕ) (t : Text) → in_address c ≡ true → is_skipped (strip (c ∷ t)) ≡ false
unfolding is_skipped
kept_line c t d = rw (strip_from c t (in_address-space c d)) (in_address-mark c d)

-- A line of a host starts like an address, and its words are the address and the names.
host_line-parts :
    (ip : Text) (names : List Text) (a : ℕ)
    → ip_address ip ≡ some a
    → all is_word names ≡ true
    → (is_skipped (strip (host_line ip names)) ≡ false)
      × (split (strip (host_line ip names)) ≡ ip ∷ sorted text_ltb names)
unfolding host_line is_skipped
host_line-parts ip names a h g =
    let (c, u, e, d, w) = ip_address-is_word ip a h in
    (
      ap (λ t. is_skipped (strip (t ++ 32 ∷ join_with 32 (sorted text_ltb names)))) e
          ∙ kept_line c _ d,
      split-strip (host_line ip names)
          ∙ split-line ip (sorted text_ltb names) w (all-sorted is_word text_ltb names ∙ g),
    )

parse-line :
    (e : Entries) (ip : Text) (names : List Text) (lines : List Text) (a : ℕ)
    → ip_address ip ≡ some a
    → all is_word names ≡ true
    → parse_lines e (host_line ip names ∷ lines)
      ≡ parse_lines (extend e ip (sorted text_ltb names)) lines
unfolding parse_lines parse_parts
parse-line e ip names lines a h g = let (s, p) = host_line-parts ip names a h g in rw (s, p, h) refl

unfoldable pub Parses : Entries → List Keyed → Result Exception Entries → Type 0
Parses e xs r =
    (f : Entries) × (r ≡ ok f)
    × ((i n : Text) → has_record f i n ≡ (has_record e i n || any (lists i n) xs))
    × (proper e ≡ true → proper f ≡ true)
    × (addressed e ≡ true → addressed f ≡ true)

pub valid_parts :
    (a : ℕ) (ip : Text) (names : List Text) (xs : List Keyed)
    → all valid ((a, ip, names) ∷ xs) ≡ true
    → (is_address ip ≡ true) × (all is_word names ≡ true) × (all valid xs ≡ true)
unfolding all valid
valid_parts a ip names xs h = parts (is_address ip) (all is_word names) (all valid xs) h
  where
    parts : (x y z : Bool) → (x && y) && z ≡ true → (x ≡ true) × (y ≡ true) × (z ≡ true)
    parts x y z h = ground arith

Parses-extend :
    (e : Entries) (a : ℕ) (ip : Text) (names : List Text) (xs : List Keyed)
    (r : Result Exception Entries)
    → is_address ip ≡ true
    → all is_word names ≡ true
    → Parses (extend e ip (sorted text_ltb names)) xs r
    → Parses e ((a, ip, names) ∷ xs) r
unfolding Parses any lists
Parses-extend e a ip names xs r s g (f, q, c, p, d) = (
  f,
  q,
  (λ i n.
      c i n
      ∙ ap (λ b. b || any (lists i n) xs) (has_record-extend e ip i n (sorted text_ltb names))
      ∙ ap (λ b. (has_record e i n || (ip == i && b)) || any (lists i n) xs)
          (contains-sorted names n)
      ∙ or_assoc (has_record e i n) (ip == i && contains names n) (any (lists i n) xs)),
  (λ h. p (proper-extend e ip (sorted text_ltb names) h (all-sorted is_word text_ltb names ∙ g))),
  λ h. d (addressed-extend e ip (sorted text_ltb names) ∙ ap₂ (λ x y. x && y) s h),
)
  where
    or_assoc : (x y z : Bool) → ((x || y) || z) ≡ (x || (y || z))
    or_assoc x y z = ground arith

Parses-nil : (e : Entries) → Parses e [] (parse_lines e [])
unfolding Parses parse_lines any
Parses-nil e = (e, refl, (λ i n. or_false (has_record e i n)), (λ p. p), λ d. d)
  where
    or_false : (x : Bool) → x ≡ (x || false)
    or_false x = ground arith

pub parse_lines-Parses :
    (e : Entries) (xs : List Keyed)
    → all valid xs ≡ true
    → Parses e xs (parse_lines e (map line_of xs))
parse_lines-Parses e [] h = Parses-nil e
parse_lines-Parses e ((a, ip, names) ∷ xs) h =
    let (s, g, v) = valid_parts a ip names xs h in
    let (b, q) = address_of ip s in
    subst (Parses e ((a, ip, names) ∷ xs)) (sym (parse-line e ip names (map line_of xs) b q g)) (
      Parses-extend e a ip names xs
        (parse_lines (extend e ip (sorted text_ltb names)) (map line_of xs)) s g
        (parse_lines-Parses (extend e ip (sorted text_ltb names)) xs v))
