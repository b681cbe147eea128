-- ===== src/Services/Dns/Rendered.antt =====
-- `parse_hosts_block` of orbitlab/services/dns/main.py on the lines of `render_hosts_block`.
use orbit_lab.Prelude.{
  ℕ, ◌≡◌, refl, sym, ap, ap₂, subst, ◌∙◌, true, false, ◌&&◌, ◌||◌, none, some, List, [], ◌∷◌, ◌==◌,
  map, nat_eq, list_eq, contains, arith, inl, inr,
}
use orbit_lab.Prelude.Dict
use orbit_lab.Prelude.Exec.{ok, err, Result-cases}
use orbit_lab.Exceptions.{Exception}
use orbit_lab.Manifest.Ref.{Text}
use orbit_lab.Services.Dns.Hosts.{
  Entries, ip_address, names_of, or_empty, parse_hosts_block, parse_lines, sorted, keyed, before,
  line_of, render_sorted, render_hosts_block,
}
use orbit_lab.Services.Dns.Words.{all, any, is_word}
use orbit_lab.Services.Dns.Sorting.{any-sorted, all-sorted}
use orbit_lab.Services.Dns.Valid.{is_address-some, Option-cases}
use orbit_lab.Services.Dns.Entries.{has_record, has_record-cons}
use orbit_lab.Services.Dns.Proper.{proper, proper_parts, addressed}
use orbit_lab.Services.Dns.Parsed.{Keyed, valid, lists, Parses, parse_lines-Parses}

no_key :
    (ip : Text) (names : List Text) (e : Entries) (xs : List Keyed)
    → ip_address ip ≡ none
    → keyed ((ip, names) ∷ e) ≡ ok xs
    → ⊥
unfolding keyed
no_key ip names e xs n h = ground arith

no_keys :
    (ip : Text) (names : List Text) (e : Entries) (xs : List Keyed) (a : ℕ) (x : Exception)
    → ip_address ip ≡ some a
    → keyed e ≡ err x
    → keyed ((ip, names) ∷ e) ≡ ok xs
    → ⊥
unfolding keyed
no_keys ip names e xs a x m n h = ground arith

keys :
    (ip : Text) (names : List Text) (e : Entries) (xs rest : List Keyed) (a : ℕ)
    → ip_address ip ≡ some a
    → keyed e ≡ ok rest
    → keyed ((ip, names) ∷ e) ≡ ok xs
    → xs ≡ (a, ip, names) ∷ rest
unfolding keyed
keys ip names e xs rest a m n h = ground arith

keyed_inv :
    (ip : Text) (names : List Text) (e : Entries) (xs : List Keyed)
    → keyed ((ip, names) ∷ e) ≡ ok xs
    → (a : ℕ) × (rest : List Keyed) × (ip_address ip ≡ some a)
      × (keyed e ≡ ok rest)
      × (xs ≡ (a, ip, names) ∷ rest)
keyed_inv ip names e xs h = elim (Option-cases (ip_address ip)) [
  | inl n ↦ absurd (no_key ip names e xs n h)
  | inr (a, m) ↦ elim (Result-cases (keyed e)) [
    | inl (x, n) ↦ absurd (no_keys ip names e xs a x m n h)
    | inr (rest, n) ↦ (a, rest, m, n, keys ip names e xs rest a m n h)
  ]
]

-- The entries with their keys have the same records.
SameRecords : Entries → List Keyed → Type 0
SameRecords e xs = (all valid xs ≡ true) × ((i n : Text) → any (lists i n) xs ≡ has_record e i n)

SameRecords-nil : SameRecords [] []
unfolding SameRecords all any has_record names_of Dict.get or_empty contains
SameRecords-nil = (refl, λ i n. refl)

SameRecords-cons :
    (a : ℕ) (ip : Text) (names : List Text) (e : Entries) (xs : List Keyed)
    → ip_address ip ≡ some a
    → Dict.has e ip ≡ false
    → all is_word names ≡ true
    → SameRecords e xs
    → SameRecords ((ip, names) ∷ e) ((a, ip, names) ∷ xs)
unfolding SameRecords all any valid lists
SameRecords-cons a ip names e xs h m g (v, r) = (
  ap₂ (λ x y. x && y) (ap₂ (λ x y. x && y) (is_address-some ip a h) g) v,
  λ i n.
      ap (λ b. (ip == i && contains names n) || b) (r i n) ∙ sym (has_record-cons ip names e i n m),
)

keyed_nil : (xs : List Keyed) → keyed [] ≡ ok xs → xs ≡ []
unfolding keyed
keyed_nil xs h = ground arith

keyed-SameRecords :
    (e : Entries) (xs : List Keyed) → keyed e ≡ ok xs → proper e ≡ true → SameRecords e xs
keyed-SameRecords [] xs h p = subst (SameRecords []) (sym (keyed_nil xs h)) SameRecords-nil
keyed-SameRecords ((ip, names) ∷ e) xs h p =
    let (a, rest, m, k, same) = keyed_inv ip names e xs h in
    let (u, g, q) = proper_parts ip names e p in
    subst (SameRecords ((ip, names) ∷ e)) (sym same)
      (SameRecords-cons a ip names e rest m u g (keyed-SameRecords e rest k q))

rendered_inv :
    (e : Entries) (lines : List Text)
    → render_hosts_block e ≡ ok lines
    → (xs : List Keyed) × (keyed e ≡ ok xs) × (lines ≡ map line_of (sorted before xs))
unfolding render_hosts_block render_sorted
rendered_inv e lines h = elim (Result-cases (keyed e)) [
  | inl (x, n) ↦ absurd (not_rendered x n)
  | inr (xs, k) ↦ (xs, k, lines_of xs k)
]
  where
    not_rendered : (x : Exception) → keyed e ≡ err x → ⊥
    not_rendered x n = ground arith

    lines_of : (xs : List Keyed) → keyed e ≡ ok xs → lines ≡ map line_of (sorted before xs)
    lines_of xs k = ground arith

no_records : (i n : Text) → has_record [] i n ≡ false
unfolding has_record names_of Dict.get or_empty contains
no_records i n = refl

proper_nil : proper [] ≡ true
unfolding proper
proper_nil = refl

addressed_nil : addressed [] ≡ true
unfolding addressed
addressed_nil = refl

pub rendered-valid :
    (e : Entries) (lines : List Text)
    → proper e ≡ true
    → render_hosts_block e ≡ ok lines
    → (xs : List Keyed) × (lines ≡ map line_of xs) × (all valid xs ≡ true)
unfolding SameRecords
rendered-valid e lines p h =
    let (xs, k, same) = rendered_inv e lines h in
    let (v, r) = keyed-SameRecords e xs k p in
    (sorted before xs, same, all-sorted valid before xs ∙ v)

-- The lines that are written of entries read back as entries with the same records.
pub parse_hosts_block-render_hosts_block :
    (e : Entries) (lines : List Text)
    → proper e ≡ true
    → render_hosts_block e ≡ ok lines
    → (f : Entries) × (parse_hosts_block lines ≡ ok f)
      × ((i n : Text) → has_record f i n ≡ has_record e i n)
      × (proper f ≡ true)
      × (addressed f ≡ true)
unfolding parse_hosts_block Parses SameRecords
parse_hosts_block-render_hosts_block e lines p h =
    let (xs, k, same) = rendered_inv e lines h in
    let (v, r) = keyed-SameRecords e xs k p in
    let (f, q, c, g, d) =
      parse_lines-Parses [] (sorted before xs) (all-sorted valid before xs ∙ v) in
    (
      f,
      ap (parse_lines []) same ∙ q,
      (λ i n.
          c i n
          ∙ ap (λ b. b || any (lists i n) (sorted before xs)) (no_records i n)
          ∙ any-sorted (lists i n) before xs
          ∙ r i n),
      g proper_nil,
      d addressed_nil,
    )
