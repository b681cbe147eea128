-- ===== src/Services/Dns/Written.antt =====
-- `load_existing` of orbitlab/services/dns/main.py on what `write_zone` wrote.
use orbit_lab.Prelude.{
  ℕ, ◌≡◌, refl, ap, ap₂, ◌∙◌, Bool, true, false, not, ◌&&◌, some, List, [], ◌∷◌, ◌++◌, ◌==◌,
  beq_list, nat_eq, list_eq, append_assoc, append-nil, eqb, arith,
}
use orbit_lab.Prelude.Exec.{ok}
use orbit_lab.Manifest.Ref.{Text}
use orbit_lab.Strings.{is_space, is_break, strip, first, splitlines, universal_newlines}
use orbit_lab.Services.Dns.Zone.{
  Section, Zone, append_to, load_lines, load_existing, managed_header, managed_footer,
  with_newlines, block, zone_text,
}
use orbit_lab.Services.Dns.Words.{all, all_parts, no_space, strip_from}
use orbit_lab.Services.Dns.Valid.{all_mono, in_address, in_address-space, in_address-mark}

unfoldable pub in_line : ℕ → Bool
in_line c = not (is_break c)

pub all-append : {A : Type 0} (p : A → Bool) (s t : List A) → all p (s ++ t) ≡ (all p s && all p t)
unfolding all
all-append p [] t = refl
all-append p (c ∷ s) t = ap (λ b. p c && b) (all-append p s t) ∙ and_assoc (p c) (all p s) (all p t)
  where
    and_assoc : (x y z : Bool) → (x && (y && z)) ≡ ((x && y) && z)
    and_assoc x y z = ground arith

no_space-in_line : (c : ℕ) → no_space c ≡ true → in_line c ≡ true
unfolding in_line is_space is_break
no_space-in_line c h = ground arith

pub all-in_line : (t : Text) → all no_space t ≡ true → all in_line t ≡ true
unfolding all
all-in_line [] h = refl
all-in_line (c ∷ t) h =
    let (a, b) = all_parts no_space c t h in
    ap₂ (λ x y. x && y) (no_space-in_line c a) (all-in_line t b)

in_line-break : (c : ℕ) → in_line c ≡ true → is_break c ≡ false
unfolding in_line
in_line-break c h = negated (is_break c) h
  where
    negated : (b : Bool) → not b ≡ true → b ≡ false
    negated b h = ground arith

-- A line with a line feed behind it is cut off.
splitlines-line : (l t : Text) → all in_line l ≡ true → splitlines (l ++ 10 ∷ t) ≡ l ∷ splitlines t
unfolding splitlines first
splitlines-line [] t h = refl
splitlines-line (c ∷ l) t h =
    let (a, b) = all_parts in_line c l h in rw (in_line-break c a, splitlines-line l t b) refl

splitlines-with_newlines :
    (lines : List Text) → all (all in_line) lines ≡ true → splitlines (with_newlines lines) ≡ lines
unfolding with_newlines splitlines
splitlines-with_newlines [] h = refl
splitlines-with_newlines (l ∷ lines) h =
    let (a, b) = all_parts (all in_line) l lines h in
    splitlines-line l (with_newlines lines) a ∙ ap (λ x. l ∷ x) (splitlines-with_newlines lines b)

not_return : ℕ → Bool
not_return c = not (eqb c 13)

universal_newlines_same : (t : Text) → all not_return t ≡ true → universal_newlines t ≡ t
unfolding universal_newlines all not_return
universal_newlines_same [] h = refl
universal_newlines_same (c ∷ []) h = ground arith
universal_newlines_same (c ∷ d ∷ t) h = ground (arith, universal_newlines_same (d ∷ t))

in_line-not_return : (c : ℕ) → in_line c ≡ true → not_return c ≡ true
unfolding in_line not_return is_break
in_line-not_return c h = ground arith

all-with_newlines :
    (lines : List Text)
    → all (all in_line) lines ≡ true
    → all not_return (with_newlines lines) ≡ true
unfolding with_newlines all not_return
all-with_newlines [] h = refl
all-with_newlines (l ∷ lines) h =
    let (a, b) = all_parts (all in_line) l lines h in
    all-append not_return l (10 ∷ with_newlines lines)
    ∙ ap₂ (λ x y. x && y) (line l a) (all-with_newlines lines b)
  where
    line : (t : Text) → all in_line t ≡ true → all not_return t ≡ true
    line = all_mono in_line not_return in_line-not_return

pub read_lines :
    (lines : List Text)
    → all (all in_line) lines ≡ true
    → splitlines (universal_newlines (with_newlines lines)) ≡ lines
read_lines lines h =
    ap splitlines (universal_newlines_same (with_newlines lines) (all-with_newlines lines h))
    ∙ splitlines-with_newlines lines h

-- A line that starts like an address.
unfoldable pub starts_address : Text → Bool
starts_address [] = false
starts_address (c ∷ t) = in_address c

not_mark :
    (line : Text)
    → starts_address line ≡ true
    → (strip line == managed_header ≡ false) × (strip line == managed_footer ≡ false)
unfolding starts_address beq_list
not_mark [] h = cc
not_mark (c ∷ t) h = rw (strip_from c t (in_address-space c h), in_address-mark c h) (refl, refl)

load-managed :
    (z : Zone) (lines : List Text)
    → all starts_address lines ≡ true
    → load_lines Section.managed z (lines ++ managed_footer ∷ [])
      ≡ record z { managed = z.managed ++ lines }
unfolding load_lines all append_to beq_list
load-managed z [] h = rw (append-nil z.managed) refl
load-managed z (line ∷ lines) h =
    let (a, b) = all_parts starts_address line lines h in
    let (m, f) = not_mark line a in
    rw (m, f)
      (load-managed (record z { managed = z.managed ++ line ∷ [] }) lines b
        ∙ ap (λ x. record z { managed = x }) (append_assoc z.managed (line ∷ []) lines))

marked : List Text → List Text
marked lines = managed_header ∷ lines ++ managed_footer ∷ []

zone_text_lines : (lines : List Text) → zone_text lines [] [] ≡ with_newlines (marked lines)
unfolding zone_text block marked
zone_text_lines lines = append-nil (with_newlines (managed_header ∷ lines ++ managed_footer ∷ []))

marked-in_line :
    (lines : List Text) → all (all in_line) lines ≡ true → all (all in_line) (marked lines) ≡ true
unfolding marked all in_line is_break
marked-in_line lines g =
    all-append (all in_line) lines (managed_footer ∷ []) ∙ ap (λ b. b && true) g

load-marked :
    (z : Zone) (lines : List Text)
    → load_lines Section.pre z (marked lines)
      ≡ load_lines Section.managed z (lines ++ managed_footer ∷ [])
unfolding load_lines marked strip beq_list
load-marked z lines = refl

loaded :
    (lines : List Text)
    → all starts_address lines ≡ true
    → all (all in_line) lines ≡ true
    → load_lines Section.pre
        (record { pre = []; managed = []; post = [] })
        (splitlines (universal_newlines (zone_text lines [] [])))
      ≡ record { pre = []; managed = lines; post = [] }
loaded lines h g =
    ap
      (λ t.
        load_lines Section.pre (record { pre = []; managed = []; post = [] })
          (splitlines (universal_newlines t)))
      (zone_text_lines lines)
    ∙ ap (load_lines Section.pre (record { pre = []; managed = []; post = [] }))
        (read_lines (marked lines) (marked-in_line lines g))
    ∙ load-marked (record { pre = []; managed = []; post = [] }) lines
    ∙ load-managed (record { pre = []; managed = []; post = [] }) lines h

pub load_existing-zone_text :
    (lines : List Text)
    → all starts_address lines ≡ true
    → all (all in_line) lines ≡ true
    → load_existing (some (zone_text lines [] []))
      ≡ (ok (record { pre = []; managed = lines; post = [] }), some (zone_text lines [] []))
unfolding load_existing
load_existing-zone_text lines h g =
    ap (λ r. (ok r, some (zone_text lines [] []))) (loaded lines h g)
