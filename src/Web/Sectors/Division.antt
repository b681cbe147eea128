-- ===== src/Web/Sectors/Division.antt =====
-- How `sector_specs` of orbitlab/web/pages/sectors/dashboard/states.py divides a network.
use orbit_lab.Prelude.{
  ℕ, zero, suc, ◌+◌, ◌-◌, ◌*◌, ◌/◌, ◌^◌, ◌≤◌, ◌<◌, ◌≡◌, refl, ap, subst, false, List, [], ◌∷◌,
  length, ltb, eqb, arith, inl, inr, Bool-cases, if◌then◌else◌,
}
use native.Mathlib.Nat.{mul_assoc}
use native.Mathlib.Omega.{pow_step}
use orbit_lab.Prelude.Exec.{ok, Result-cases}
use orbit_lab.Net.{Network, num_addresses, in_network}
use orbit_lab.Web.Sectors.{bit_length_from, bit_length, subnets_from, subnets, first, sector_specs}

-- How many of the networks hold the address.
unfoldable pub holders : ℕ → List Network → ℕ
holders a [] = 0
holders a (n ∷ ns) = let rest = holders a ns in if in_network a n then rest + 1 else rest

two_pow : (k : ℕ) → 2 ^ (k + 1) ≡ 2 * 2 ^ k
two_pow k = subst (λ n. 2 ^ n ≡ 2 * 2 ^ k) succ (pow_step 2 k)
  where
    succ : suc k ≡ k + 1
    succ = omega arith

pow_add : (m n : ℕ) → 2 ^ (m + n) ≡ 2 ^ m * 2 ^ n
pow_add zero n = ground arith
pow_add (suc m) n = ground (
  arith,
  ap (λ k. 2 ^ k) {x = suc m + n} {y = suc (m + n)},
  pow_step 2 (m + n),
  pow_add m n,
  ap (λ t. t * 2 ^ n) (pow_step 2 m),
  mul_assoc 2 (2 ^ m) (2 ^ n),
)

bit_length_from_bound : (fuel n : ℕ) → n ≤ fuel → n < 2 ^ bit_length_from fuel n
unfolding bit_length_from
bit_length_from_bound zero n h = ground arith
bit_length_from_bound (suc fuel) n h =
    ground (arith, bit_length_from_bound fuel (n / 2), two_pow (bit_length_from fuel (n / 2)))

-- The fuel is enough, and so many bits are enough for the number.
pub bit_length_bound : (n : ℕ) → n < 2 ^ bit_length n
unfolding bit_length
bit_length_bound n = bit_length_from_bound n n (ground arith)

holders-below :
    (a start step prefix count : ℕ)
    → a < start
    → holders a (subnets_from start step prefix count) ≡ 0
unfolding subnets_from holders in_network
holders-below a start step prefix zero h = refl
holders-below a start step prefix (suc count) h =
    ground (arith, holders-below a (start + step) step prefix count)

-- Networks that are a whole size apart hold an address at most once, and none past their end.
holders-subnets_from :
    (a start step prefix count : ℕ)
    → 2 ^ (32 - prefix) ≡ step
    → (holders a (subnets_from start step prefix count) ≤ 1)
      × (start + count * step ≤ a → holders a (subnets_from start step prefix count) ≡ 0)
unfolding subnets_from holders in_network num_addresses
holders-subnets_from a start step prefix zero h = (ground arith, λ _. refl)
holders-subnets_from a start step prefix (suc count) h =
    let (once, past) = holders-subnets_from a (start + step) step prefix count h in
    (ground (arith, holders-below a (start + step) step prefix count), λ end. ground arith)

holders-first : (a count : ℕ) (ns : List Network) → holders a (first count ns) ≤ holders a ns
unfolding first holders
holders-first a zero ns = ground arith
holders-first a (suc count) [] = ground arith
holders-first a (suc count) (n ∷ ns) = ground (arith, holders-first a count ns)

length-subnets_from :
    (start step prefix count : ℕ) → length (subnets_from start step prefix count) ≡ count
unfolding subnets_from
length-subnets_from start step prefix zero = refl
length-subnets_from start step prefix (suc count) =
    ground (arith, length-subnets_from (start + step) step prefix count)

length-first : (count : ℕ) (ns : List Network) → count ≤ length ns → length (first count ns) ≡ count
unfolding first
length-first zero ns h = refl
length-first (suc count) [] h = ground arith
length-first (suc count) (n ∷ ns) h = ground (arith, length-first count ns)

-- A network's size is the number of its subnets times their size.
split_size :
    (p bits : ℕ) → p + bits ≤ 32 → 2 ^ (32 - p) ≡ 2 ^ (p + bits - p) * 2 ^ (32 - (p + bits))
split_size p bits h = ground (
  arith,
  ap (λ k. 2 ^ k) {x = 32 - p} {y = (p + bits - p) + (32 - (p + bits))},
  pow_add (p + bits - p) (32 - (p + bits)),
)

-- The subnets for so many more bits: no address is in two of them, none outside the network is in one,
-- and there are two to the number of bits.
subnets_ok :
    (n : Network) (bits : ℕ) (ns : List Network) (a : ℕ)
    → subnets n (n.prefixlen + bits) ≡ ok ns
    → (holders a ns ≤ 1)
      × (in_network a n ≡ false → holders a ns ≡ 0)
      × (n.prefixlen < 32 → length ns ≡ 2 ^ bits)
unfolding subnets in_network num_addresses holders
subnets_ok n bits ns a h =
    let new = n.prefixlen + bits in
    elim (Bool-cases (eqb n.prefixlen 32)) [
      | inl e ↦
          let is : ns ≡ n ∷ [] = ground arith in
          (rw is (ground arith), λ out. rw is (ground arith), λ small. absurd (ground arith))
      | inr e ↦ elim (Bool-cases (ltb 32 new)) [
        | inl g ↦ absurd (ground arith)
        | inr g ↦
            let step = 2 ^ (32 - new) in
            let count = 2 ^ (new - n.prefixlen) in
            let (once, past) = holders-subnets_from a n.address step new count refl in
            let is : ns ≡ subnets_from n.address step new count = ground arith in
            (
              rw is once,
              λ out. rw is (elim (Bool-cases (ltb a n.address)) [
                | inl b ↦ holders-below a n.address step new count (ground arith)
                | inr b ↦ past (ground (arith, split_size n.prefixlen bits))
              ]),
              λ small. rw is (
                  ground (
                    arith,
                    length-subnets_from n.address step new count,
                    ap (λ k. 2 ^ k) {x = new - n.prefixlen} {y = bits},
                  )),
            )
      ]
    ]

-- The specifications share no address and hold none outside the sector's network, and unless that is a single
-- address there are as many as were asked for.
pub sector_specs_divide :
    (n : Network) (count : ℕ) (specs : List Network) (a : ℕ)
    → sector_specs n count ≡ ok specs
    → (holders a specs ≤ 1)
      × (in_network a n ≡ false → holders a specs ≡ 0)
      × (n.prefixlen < 32 → length specs ≡ count)
unfolding sector_specs
sector_specs_divide n count specs a h =
    let bits = if eqb count 0 then 1 else bit_length (count - 1) in
    elim (Result-cases (subnets n (n.prefixlen + bits))) [
      | inl (y, e) ↦ absurd (ground arith)
      | inr (ns, e) ↦
          let (once, out, many) = subnets_ok n bits ns a e in
          let is : specs ≡ first count ns = ground arith in
          let fewer = holders-first a count ns in
          (
            rw is (ground arith),
            λ o. rw is (ground arith),
            λ small.
                rw is (
                  length-first count ns (ground (arith, bit_length_bound (count - 1), many small))),
          )
    ]
