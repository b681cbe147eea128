-- ===== src/Services/Dns/Shape.antt =====
-- The lines that `render_hosts_block` of orbitlab/services/dns/main.py makes are lines of a file, and no marks.
use orbit_lab.Prelude.{ℕ, ◌≡◌, refl, ap, ap₂, ◌∙◌, true, ◌&&◌, some, List, [], ◌∷◌, ◌++◌, map}
use orbit_lab.Prelude.Exec.{ok}
use orbit_lab.Manifest.Ref.{Text}
use orbit_lab.Strings.{text_ltb, join_with, is_break}
use orbit_lab.Services.Dns.Hosts.{
  Entries, ip_address, sorted, line_of, host_line, render_hosts_block,
}
use orbit_lab.Services.Dns.Words.{all, all_parts, is_word, all-no_space}
use orbit_lab.Services.Dns.Sorting.{all-sorted}
use orbit_lab.Services.Dns.Valid.{ip_address-is_word, address_of}
use orbit_lab.Services.Dns.Proper.{proper}
use orbit_lab.Services.Dns.Parsed.{Keyed, valid, valid_parts}
use orbit_lab.Services.Dns.Rendered.{rendered-valid}
use orbit_lab.Services.Dns.Written.{in_line, all-append, all-in_line, starts_address}

join-in_line :
    (words : List Text) → all is_word words ≡ true → all in_line (join_with 32 words) ≡ true
unfolding join_with all in_line is_break
join-in_line [] h = refl
join-in_line (w ∷ []) h = let (a, b) = all_parts is_word w [] h in all-in_line w (all-no_space w a)
join-in_line (w ∷ v ∷ words) h =
    let (a, b) = all_parts is_word w (v ∷ words) h in
    all-append in_line w (32 ∷ join_with 32 (v ∷ words))
    ∙ ap₂ (λ x y. x && y) (all-in_line w (all-no_space w a)) (join-in_line (v ∷ words) b)

host_line-shape :
    (ip : Text) (names : List Text) (a : ℕ)
    → ip_address ip ≡ some a
    → all is_word names ≡ true
    → (starts_address (host_line ip names) ≡ true) × (all in_line (host_line ip names) ≡ true)
unfolding host_line starts_address all in_line is_break
host_line-shape ip names a h g =
    let (c, u, e, d, w) = ip_address-is_word ip a h in
    (
      ap (λ t. starts_address (t ++ 32 ∷ join_with 32 (sorted text_ltb names))) e ∙ d,
      all-append in_line ip (32 ∷ join_with 32 (sorted text_ltb names))
          ∙ ap₂ (λ x y. x && y) (all-in_line ip (all-no_space ip w))
              (join-in_line (sorted text_ltb names) (all-sorted is_word text_ltb names ∙ g)),
    )

lines-shape :
    (xs : List Keyed)
    → all valid xs ≡ true
    → (all starts_address (map line_of xs) ≡ true) × (all (all in_line) (map line_of xs) ≡ true)
unfolding all
lines-shape [] h = (refl, refl)
lines-shape ((a, ip, names) ∷ xs) h =
    let (s, g, v) = valid_parts a ip names xs h in
    let (b, q) = address_of ip s in
    let (p, r) = host_line-shape ip names b q g in
    let (ps, rs) = lines-shape xs v in (ap₂ (λ x y. x && y) p ps, ap₂ (λ x y. x && y) r rs)

pub rendered-shape :
    (e : Entries) (lines : List Text)
    → proper e ≡ true
    → render_hosts_block e ≡ ok lines
    → (all starts_address lines ≡ true) × (all (all in_line) lines ≡ true)
rendered-shape e lines p h =
    let (xs, same, v) = rendered-valid e lines p h in
    let (a, b) = lines-shape xs v in
    (ap (all starts_address) same ∙ a, ap (all (all in_line)) same ∙ b)
