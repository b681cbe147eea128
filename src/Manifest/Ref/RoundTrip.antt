-- ===== src/Manifest/Ref/RoundTrip.antt =====
-- A reference that is created names the manifest that it was created from.
use orbit_lab.Prelude.{
  ℕ, ◌≡◌, refl, ap, ap₂, ◌∙◌, true, false, Option, none, some, [], ◌∷◌, ◌++◌, eqb, eqb_iff,
  beq_list, nat_eq, append_assoc, contains, Bool-cases, inl, inr, arith,
}
use orbit_lab.Prelude.Exec.{ok, err}
use orbit_lab.DataTypes.{ManifestKind, kind_value}
use orbit_lab.Exceptions.{value_error}
use orbit_lab.Manifest.Ref.{
  Text, codes, cut, pair_up, split_rest, split_two, of_kind, starts_with, before_suffix,
  manifest_kind, Exists, of_parts, validate_ref, create,
}

cut-append :
    (sep : ℕ) (xs ys : Text) → contains xs sep ≡ false → cut sep (xs ++ sep ∷ ys) ≡ (xs, some ys)
unfolding cut contains
cut-append sep [] ys h = ground arith
cut-append sep (x ∷ xs) ys h = ground (arith, eqb_iff sep x, eqb_iff x sep, cut-append sep xs ys)

cut-lacks : (sep : ℕ) (xs : Text) → contains xs sep ≡ false → cut sep xs ≡ (xs, none)
unfolding cut contains
cut-lacks sep [] h = refl
cut-lacks sep (x ∷ xs) h = ground (arith, cut-lacks sep xs)

kind-lacks_slash : (k : ManifestKind) → contains (codes (kind_value k)) b'/' ≡ false
unfolding contains kind_value
kind-lacks_slash ManifestKind.base_appliance = refl
kind-lacks_slash _ = refl

manifest_kind-value : (k : ManifestKind) → manifest_kind (codes (kind_value k)) ≡ some k
unfolding manifest_kind beq_list kind_value
manifest_kind-value ManifestKind.base_appliance = refl
manifest_kind-value _ = refl

abbrev suffix : Text
suffix = codes ".yaml"

-- No occurrence of the suffix begins in a name and ends behind it.
starts_with-append :
    (x : ℕ) (xs : Text)
    → starts_with suffix (x ∷ xs) ≡ false
    → starts_with suffix ((x ∷ xs) ++ suffix) ≡ false
unfolding starts_with
starts_with-append x [] h = ground arith
starts_with-append x (a ∷ []) h = ground arith
starts_with-append x (a ∷ b ∷ []) h = ground arith
starts_with-append x (a ∷ b ∷ c ∷ []) h = ground arith
starts_with-append x (a ∷ b ∷ c ∷ d ∷ xs) h = h

before_suffix-length : (xs : Text) → before_suffix xs ≡ xs → before_suffix (xs ++ suffix) ≡ xs
unfolding before_suffix
before_suffix-length [] h = refl
before_suffix-length (x ∷ xs) h = ground (arith, starts_with-append x xs, before_suffix-length xs)

split_two-create :
    (kind : ManifestKind) (name : Text)
    → split_two (codes (kind_value kind) ++ b'/' ∷ name ++ suffix)
      ≡ pair_up (codes (kind_value kind)) (cut b'/' (name ++ suffix))
unfolding split_two split_rest
split_two-create kind name = ap split_rest (
    ap (cut b'/') (append_assoc (codes (kind_value kind)) (b'/' ∷ name) suffix)
    ∙ cut-append b'/' (codes (kind_value kind)) (name ++ suffix) (kind-lacks_slash kind))

contains-suffix :
    (name : Text) → contains name b'/' ≡ false → contains (name ++ suffix) b'/' ≡ false
unfolding contains
contains-suffix [] h = refl
contains-suffix (x ∷ xs) h = ground (arith, contains-suffix xs)

abbrev ref_text : ManifestKind → Text → Text
ref_text kind name = codes (kind_value kind) ++ b'/' ∷ name ++ suffix

split_two-name :
    (kind : ManifestKind) (name : Text)
    → contains name b'/' ≡ false
    → split_two (ref_text kind name) ≡ some (codes (kind_value kind), name ++ suffix)
unfolding pair_up
split_two-name kind name slash =
    split_two-create kind name
    ∙ ap (pair_up (codes (kind_value kind)))
        (cut-lacks b'/' (name ++ suffix) (contains-suffix name slash))

of_parts-name :
    (exists : Exists) (kind : ManifestKind) (name : Text)
    → before_suffix name ≡ name
    → of_parts exists (ref_text kind name) (some (codes (kind_value kind), name ++ suffix))
      ≡ of_kind exists (ref_text kind name) name (some kind)
unfolding of_parts
of_parts-name exists kind name dot =
    ap₂ (of_kind exists (ref_text kind name)) (before_suffix-length name dot)
      (manifest_kind-value kind)

create-name :
    (exists : Exists) (kind : ManifestKind) (name : Text)
    → contains name b'/' ≡ false
    → before_suffix name ≡ name
    → create exists kind name ≡ of_kind exists (ref_text kind name) name (some kind)
unfolding create validate_ref
create-name exists kind name slash dot =
    ap (of_parts exists (ref_text kind name)) (split_two-name kind name slash)
    ∙ of_parts-name exists kind name dot

-- For a manifest that is there, under a name with no slash and no ".yaml", the created reference has its
-- kind and its name.
pub create-reads_back :
    (exists : Exists) (kind : ManifestKind) (name : Text)
    → exists kind name ≡ true
    → contains name b'/' ≡ false
    → before_suffix name ≡ name
    → create exists kind name
      ≡ ok (record {
        ref = codes (kind_value kind) ++ b'/' ∷ name ++ suffix;
        kind = kind;
        name = name;
      })
unfolding of_kind
create-reads_back exists kind name there slash dot =
    create-name exists kind name slash dot ∙ ground arith

cut-slash :
    (sep : ℕ) (xs : Text)
    → contains xs sep ≡ true
    → (rest : Text) × ((cut sep (xs ++ suffix)).1 ≡ some rest)
unfolding cut contains
cut-slash sep [] h = cc
cut-slash sep (x ∷ xs) h = elim (Bool-cases (eqb x sep)) [
  | inl y ↦ (xs ++ suffix, rw y)
  | inr n ↦ let (rest, e) = cut-slash sep xs (ground (arith, eqb_iff sep x)) in (rest, rw n e)
]

pair_up-some :
    (a : Text) (p : Text × Option Text) (rest : Text) → p.1 ≡ some rest → pair_up a p ≡ none
unfolding pair_up
pair_up-some a (b, none) rest h = cc
pair_up-some a (b, some more) rest h = refl

pair_up-slash :
    (a : Text) (sep : ℕ) (xs : Text)
    → contains xs sep ≡ true
    → pair_up a (cut sep (xs ++ suffix)) ≡ none
pair_up-slash a sep xs h =
    let (rest, e) = cut-slash sep xs h in pair_up-some a (cut sep (xs ++ suffix)) rest e

-- A name with a slash in it has no reference: creating one raises ValueError.
create_slash :
    (exists : Exists) (kind : ManifestKind) (name : Text)
    → contains name b'/' ≡ true
    → create exists kind name ≡ err value_error
unfolding create validate_ref of_parts
create_slash exists kind name slash =
    ap (of_parts exists (ref_text kind name))
      (split_two-create kind name ∙ pair_up-slash (codes (kind_value kind)) b'/' name slash)
