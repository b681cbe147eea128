-- ===== src/Services/Pki/Sign.antt =====
-- The outcomes of `sign_csr` of orbitlab/services/pki/client.py.
use orbit_lab.Prelude.{
  ℕ, ◌-◌, ◌≤◌, ◌≡◌, refl, sym, ap, ◌∙◌, String, true, false, some, ◌==◌, string_eq, arith,
  beq_list_iff, nat_eq, list_eq, inl, inr, Bool-cases, Option-cases, contains, ltb,
}
use orbit_lab.Prelude.Dict
use orbit_lab.Prelude.Exec.{ok, Result-cases}
use orbit_lab.DataTypes.{CsrStatus}
use orbit_lab.Manifest.Ref.{Text}
use orbit_lab.Manifest.Base.{load}
use orbit_lab.Manifest.Secrets.{CsrManifest, days}
use orbit_lab.Services.Vault.Cipher.{Crypto}
use orbit_lab.Services.Pki.{Pki, is_pending, verify_csr_signing_request, fingerprint}
use orbit_lab.Services.Pki.Models.{X509}
use orbit_lab.Services.Pki.Requests.{
  Signing, issue_certificate, sign_manifest, sign_csr, common_name_of,
}
use orbit_lab.Services.Pki.Issue.{IsIssued, issue_certificate_ok}

module _ (c : Crypto) (x : X509) where
  -- The request may be signed: it is pending, not older than thirty days, and the one that was submitted.
  pub record IsFresh (now : ℕ) (csr : x.Request) (m : CsrManifest) : Type 0 where
    pub pending : m.spec.status ≡ CsrStatus.pending
    pub recent : now - days 30 ≤ m.spec.submitted_at
    pub same : m.spec.csr_fingerprint ≡ fingerprint c x (x.csr_to_pem csr)

  is_pending_lem : (st : CsrStatus) → is_pending st ≡ true → st ≡ CsrStatus.pending
  is_pending_lem CsrStatus.pending h = refl
  is_pending_lem CsrStatus.issued h = absurd cc
  is_pending_lem CsrStatus.rejected h = absurd cc

  pub verify_pending :
      (now : ℕ) (m : CsrManifest) (csr : x.Request)
      → is_pending (verify_csr_signing_request c x now m csr).spec.status ≡ true
      → (verify_csr_signing_request c x now m csr ≡ m) × IsFresh now csr m
  unfolding verify_csr_signing_request
  verify_pending now m csr h =
      let old = ltb m.spec.submitted_at (now - days 30) in
      let same = m.spec.csr_fingerprint == fingerprint c x (x.csr_to_pem csr) in
      elim (Bool-cases (is_pending m.spec.status)) [
        | inr n ↦ absurd (ground arith)
        | inl y ↦ elim (Bool-cases old) [
          | inl o ↦ absurd (ground arith)
          | inr o ↦ elim (Bool-cases same) [
            | inr e ↦ absurd (ground arith)
            | inl e ↦ (
              ground arith,
              record {
                pending = is_pending_lem m.spec.status y;
                recent = ground arith;
                same =
                    (beq_list_iff m.spec.csr_fingerprint (fingerprint c x (x.csr_to_pem csr))).0 e;
              },
            )
          ]
        ]
      ]

  -- What the returned manifest is: the stored one after the check with nothing written, or the stored
  -- one with a certificate.
  pub data Outcome (s : Signing) (csr : x.Request) (m m' : CsrManifest) (p q : Pki) : Type 0 where
    left :
        (m' ≡ verify_csr_signing_request c x s.checked_at m csr)
        → (is_pending m'.spec.status ≡ false)
        → (q ≡ p)
        → Outcome s csr m m' p q
    issued : IsFresh s.checked_at csr m → IsIssued c x s csr m m' p q → Outcome s csr m m' p q

  sign_manifest_ok :
      (s : Signing) (csr : x.Request) (m m' : CsrManifest) (p q : Pki)
      → sign_manifest c x s csr (verify_csr_signing_request c x s.checked_at m csr) p ≡ (ok m', q)
      → Outcome s csr m m' p q
  unfolding sign_manifest
  sign_manifest_ok s csr m m' p q h =
      let v = verify_csr_signing_request c x s.checked_at m csr in
      elim (Bool-cases (is_pending v.spec.status)) [
        | inr n ↦ left (ground arith) (ground arith) (ground arith)
        | inl y ↦
            let (same, fresh) = verify_pending s.checked_at m csr y in
            issued fresh (
              issue_certificate_ok c x s csr m m' p q
                (ap (λ n. issue_certificate c x s csr n p) (sym same) ∙ ground arith))
      ]

  -- A call of `sign_csr` that returns has read the request and found its manifest. Either it wrote nothing
  -- and returns the manifest as the check left it, no longer pending, or the stored request was pending,
  -- recent and the one submitted, and an intermediate certificate of this store signed it.
  pub sign_csr-Outcome :
      (s : Signing) (pem : Text) (p q : Pki) (m' : CsrManifest)
      → sign_csr c x s pem p ≡ (ok m', q)
      → (csr : x.Request) × (name : String) × (m : CsrManifest) × (x.load_csr pem ≡ some csr)
        × ((common_name_of c x csr p).0 ≡ ok name)
        × (contains p.existing_requests name ≡ true)
        × (Dict.get p.requests name ≡ some m)
        × Outcome s csr m m' p q
  unfolding sign_csr load common_name_of
  sign_csr-Outcome s pem p q m' h = elim (Option-cases (x.load_csr pem)) [
    | inl e ↦ absurd (ground arith)
    | inr (csr, e) ↦ elim (Result-cases (common_name_of c x csr p).0) [
      | inl (y, f) ↦ absurd (ground arith)
      | inr (name, f) ↦ elim (Bool-cases (contains p.existing_requests name)) [
        | inr g ↦ absurd (ground arith)
        | inl g ↦ elim (Option-cases (Dict.get p.requests name)) [
          | inl k ↦ absurd (ground arith)
          | inr (m, k) ↦ (csr, name, m, e, f, g, k, sign_manifest_ok s csr m m' p q (ground arith))
        ]
      ]
    ]
  ]

  -- The rejection that `sign_csr` returns for a pending request is not stored: the request on disk stays
  -- pending, and its files are as before.
  pub sign_csr_rejection_unsaved :
      (s : Signing) (pem : Text) (p q : Pki) (m : CsrManifest)
      → sign_csr c x s pem p ≡ (ok m, q)
      → m.spec.status ≡ CsrStatus.rejected
      → q ≡ p
  sign_csr_rejection_unsaved s pem p q m h is_rejected =
      let (csr, name, stored, e, f, g, k, o) = sign_csr-Outcome s pem p q m h in
      unsaved csr stored o
    where
      unsaved : (csr : x.Request) (stored : CsrManifest) → Outcome s csr stored m p q → q ≡ p
      unsaved csr stored (left a b d) = d
      unsaved csr stored (issued a b) = let done = b.status in absurd (ground arith)

  common_name_of-state :
      (csr : x.Request) (p q : Pki) (name : String)
      → (common_name_of c x csr p).0 ≡ ok name
      → common_name_of c x csr q ≡ (ok name, q)
  unfolding common_name_of
  common_name_of-state csr p q name h = ground arith

  issued_once :
      (s : Signing) (csr : x.Request) (m : CsrManifest) (q : Pki)
      → m.spec.status ≡ CsrStatus.issued
      → sign_manifest c x s csr (verify_csr_signing_request c x s.checked_at m csr) q ≡ (ok m, q)
  unfolding sign_manifest verify_csr_signing_request
  issued_once s csr m q h = rw (h, sign_manifest, verify_csr_signing_request)

  verify_issued :
      (now : ℕ) (m : CsrManifest) (csr : x.Request)
      → (verify_csr_signing_request c x now m csr).spec.status ≡ CsrStatus.issued
      → verify_csr_signing_request c x now m csr ≡ m
  unfolding verify_csr_signing_request
  verify_issued now m csr h = ground arith

  kept_in_store :
      (s : Signing) (csr : x.Request) (name : String) (stored m : CsrManifest) (p q : Pki)
      → contains p.existing_requests name ≡ true
      → Dict.get p.requests name ≡ some stored
      → stored.name ≡ name
      → m.spec.status ≡ CsrStatus.issued
      → Outcome s csr stored m p q
      → (contains q.existing_requests name ≡ true) × (Dict.get q.requests name ≡ some m)
  kept_in_store s csr name stored m p q g k n i (left a b d) =
      let same : m ≡ stored = a ∙ verify_issued s.checked_at stored csr (ground arith) in
      (ground arith, ground arith)
  kept_in_store s csr name stored m p q g k n i (issued a b) =
      (rw b.saved g, rw (b.saved, n) (Dict.get-set_self p.requests name m))

  -- A request is signed once: signing it again, at any time and with any serial number, returns the issued
  -- manifest and changes nothing. Request manifests are stored under their own names.
  pub sign_csr-sign_csr :
      (s again : Signing) (pem : Text) (p q : Pki) (m : CsrManifest)
      → ((name : String) (r : CsrManifest) → Dict.get p.requests name ≡ some r → r.name ≡ name)
      → sign_csr c x s pem p ≡ (ok m, q)
      → m.spec.status ≡ CsrStatus.issued
      → sign_csr c x again pem q ≡ (ok m, q)
  unfolding sign_csr load
  sign_csr-sign_csr s again pem p q m named h is_issued =
      let (csr, name, stored, e, f, g, k, o) = sign_csr-Outcome s pem p q m h in
      repeat csr name stored e f g k o
    where
      repeat :
          (csr : x.Request) (name : String) (stored : CsrManifest)
          → x.load_csr pem ≡ some csr
          → (common_name_of c x csr p).0 ≡ ok name
          → contains p.existing_requests name ≡ true
          → Dict.get p.requests name ≡ some stored
          → Outcome s csr stored m p q
          → sign_csr c x again pem q ≡ (ok m, q)
      repeat csr name stored e f g k o =
          let in_q = kept_in_store s csr name stored m p q g k (named name stored k) is_issued o in
          rw (e, sign_csr, common_name_of-state csr p q name f, in_q.0, in_q.1)
            (issued_once again csr m q is_issued)
