-- ===== src/Tests/Leaf.antt =====
-- A run of `create_leaf_certificate` with the toy ciphers.
use orbit_lab.Prelude.{string_eq}
use orbit_lab.Services.Pki.{Pki}
use orbit_lab.Services.Pki.Requests.{create_leaf_certificate}
use orbit_lab.Prelude.Dict
use orbit_lab.Manifest.Secrets.{CertificateManifest}
use orbit_lab.Tests.Toy.{toy}
use orbit_lab.Tests.Toy.Certificates.{toy_x509}
use orbit_lab.Tests.Pki.{again, with_mid, leaf, in_time, now, made}

abbrev issued : CertificateManifest
issued =
    made (create_leaf_certificate toy toy_x509 "lk" 2000000 in_time now leaf (again with_mid)).0

abbrev after : Pki
after = (create_leaf_certificate toy toy_x509 "lk" 2000000 in_time now leaf (again with_mid)).1
