-- ===== src/DataTypes.antt =====
-- orbitlab/data_types.py: the enumerations that the model uses, and their values. `auto()` gives the
-- lower-case name of the member.
use orbit_lab.Prelude.{String, Bool, false, ◌||◌, List, [], ◌∷◌, map, ◌==◌, nat_eq, string_eq}
use orbit_lab.Prelude.Dict.{Dict}

pub data ManifestKind : Type 0 where
  base_appliance custom_appliance cluster node ipam : ManifestKind
  sector lxc secret certificate csr : ManifestKind
  ssh_key autoscaling : ManifestKind

unfoldable pub kind_value : ManifestKind → String
kind_value ManifestKind.base_appliance = "base_appliance"
kind_value ManifestKind.custom_appliance = "custom_appliance"
kind_value ManifestKind.cluster = "cluster"
kind_value ManifestKind.node = "node"
kind_value ManifestKind.ipam = "ipam"
kind_value ManifestKind.sector = "sector"
kind_value ManifestKind.lxc = "lxc"
kind_value ManifestKind.secret = "secret"
kind_value ManifestKind.certificate = "certificate"
kind_value ManifestKind.csr = "csr"
kind_value ManifestKind.ssh_key = "ssh_key"
kind_value ManifestKind.autoscaling = "autoscaling"

pub data CertificateTypes : Type 0 where
  root intermediate leaf client : CertificateTypes

unfoldable pub certificate_type_value : CertificateTypes → String
certificate_type_value CertificateTypes.root = "root"
certificate_type_value CertificateTypes.intermediate = "intermediate"
certificate_type_value CertificateTypes.leaf = "leaf"
certificate_type_value CertificateTypes.client = "client"

pub data SshKeyTypes : Type 0 where
  rsa ed25519 : SshKeyTypes

unfoldable pub ssh_key_type_value : SshKeyTypes → String
ssh_key_type_value SshKeyTypes.rsa = "rsa"
ssh_key_type_value SshKeyTypes.ed25519 = "ed25519"

pub data KeyUsageTypes : Type 0 where
  digital_signature key_encipherment key_cert_sign data_encipherment crl_sign : KeyUsageTypes
  content_commitment key_agreement encipher_only decipher_only : KeyUsageTypes

unfoldable pub key_usage_value : KeyUsageTypes → String
key_usage_value KeyUsageTypes.digital_signature = "digital_signature"
key_usage_value KeyUsageTypes.key_encipherment = "key_encipherment"
key_usage_value KeyUsageTypes.key_cert_sign = "key_cert_sign"
key_usage_value KeyUsageTypes.data_encipherment = "data_encipherment"
key_usage_value KeyUsageTypes.crl_sign = "crl_sign"
key_usage_value KeyUsageTypes.content_commitment = "content_commitment"
key_usage_value KeyUsageTypes.key_agreement = "key_agreement"
key_usage_value KeyUsageTypes.encipher_only = "encipher_only"
key_usage_value KeyUsageTypes.decipher_only = "decipher_only"

pub data CsrStatus : Type 0 where
  pending issued rejected : CsrStatus

pub data StorageContentType : Type 0 where
  backup images rootdir snippets vztmpl : StorageContentType
  iso import : StorageContentType

unfoldable pub content_type_value : StorageContentType → String
content_type_value StorageContentType.backup = "backup"
content_type_value StorageContentType.images = "images"
content_type_value StorageContentType.rootdir = "rootdir"
content_type_value StorageContentType.snippets = "snippets"
content_type_value StorageContentType.vztmpl = "vztmpl"
content_type_value StorageContentType.iso = "iso"
content_type_value StorageContentType.import = "import"

pub data StorageProfile : Type 0 where
  local linstor : StorageProfile

pub data ApplianceType : Type 0 where
  system turnkey : ApplianceType

pub data OrbitLabApplianceType : Type 0 where
  sector_gateway sector_dns backplane_dns : OrbitLabApplianceType

pub data TaskStatus : Type 0 where
  running stopped : TaskStatus

pub data CustomApplianceStepType : Type 0 where
  script files : CustomApplianceStepType

pub data ClusterMode : Type 0 where
  local cluster : ClusterMode

pub data InitializationState : Type 0 where
  not_started running backplane finalize aborted : InitializationState
  complete : InitializationState

pub data SectorState : Type 0 where
  pending available deleting : SectorState

pub data CustomApplianceWorkflowStatus : Type 0 where
  pending starting running finalizing succeeded : CustomApplianceWorkflowStatus
  failed : CustomApplianceWorkflowStatus

pub data LxcState : Type 0 where
  starting running stopping stopped restarting : LxcState
  terminating : LxcState

pub data LxcStatus : Type 0 where
  reboot start stop shutdown : LxcStatus

unfoldable pub lxc_status_value : LxcStatus → String
lxc_status_value LxcStatus.reboot = "reboot"
lxc_status_value LxcStatus.start = "start"
lxc_status_value LxcStatus.stop = "stop"
lxc_status_value LxcStatus.shutdown = "shutdown"

-- The members of `KeyUsageTypes` in their order.
abbrev pub key_usage_types : List KeyUsageTypes
key_usage_types =
    KeyUsageTypes.digital_signature ∷ KeyUsageTypes.key_encipherment ∷ KeyUsageTypes.key_cert_sign
    ∷ KeyUsageTypes.data_encipherment ∷ KeyUsageTypes.crl_sign ∷ KeyUsageTypes.content_commitment
    ∷ KeyUsageTypes.key_agreement ∷ KeyUsageTypes.encipher_only ∷ KeyUsageTypes.decipher_only ∷ []

-- `usage in key_usages`: members of a string enumeration compare by their values.
unfoldable pub usage_in : KeyUsageTypes → List KeyUsageTypes → Bool
unfolding key_usage_value
usage_in u [] = false
usage_in u (v ∷ vs) = key_usage_value v == key_usage_value u || usage_in u vs

unfoldable pub to_x509_usage_params : List KeyUsageTypes → Dict String Bool
unfolding usage_in
to_x509_usage_params key_usages =
    map (λ u. (key_usage_value u, usage_in u key_usages)) key_usage_types
