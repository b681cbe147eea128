-- ===== src/Lib.antt =====
-- A model of OrbitLab, a control plane for Proxmox clusters, and theorems on it.
--
-- The program keeps its state in manifests, YAML files of one kind each under one directory, and in a vault of
-- encrypted files. Its parts, and the files here that model them:
--   * orbitlab/data_types.py and orbitlab/constants.py: DataTypes and Constants. Exceptions of all packages are
--     in Exceptions, and Net has the part of Python's `ipaddress` that is used.
--   * orbitlab/manifest/base.py: Manifest/Base. The files of a kind are a dictionary from names to manifests;
--     `load`, `save`, `delete` and `get_existing` have their names.
--   * orbitlab/manifest/ref.py: Manifest/Ref (`validate_ref`, `create`).
--   * orbitlab/manifest/ipam.py: Manifest/Ipam. An object in memory and the files of its kind are a `Live`; the
--     methods are actions on it. Next, Valid, Assign and Lookup have the proofs.
--   * orbitlab/manifest/cluster.py: Manifest/Cluster, and Manifest/Cluster/BackplaneIpam for its addresses, which
--     it takes from the IPAM manifest that it loads on each call.
--   * orbitlab/manifest/sector.py, nodes.py and secrets.py: Manifest/Sector, Manifest/Nodes, Manifest/Secrets.
--   * orbitlab/services/vault: Services/Vault, with Cipher for encryption and Paths for file names. The vault's
--     state is a dictionary from file paths to bytes.
--   * orbitlab/services/pki: Services/Pki (`Certificates`), with Certify for its authorities and Requests for
--     its signing requests, and Services/Pki/SshKeys (`SSHKey`). Authority, Leaf, Issue and Sign have the
--     proofs. Private keys go to the vault, so these act on the manifests and the vault.
--   * orbitlab/services/dns/main.py: Services/Dns/Hosts (entries and the lines of the managed block) and
--     Services/Dns/Zone (the zone file and the commands); the other modules of Services/Dns have the proofs. Strings
--     has Python's text functions.
--   * orbitlab/clients/proxmox/appliances/client.py: Clients/Workflow (`run_workflow`). The cluster is the list of
--     its answers, each of which returns or raises, and what was asked of it.
--   * orbitlab/clients/proxmox/base/client.py: Clients/Base (`Proxmox`: requests, tasks, `create_lxc`),
--     Clients/Waiting (`wait_for_task`) and Clients/Terminal (`__normalize_terminal_output__`).
--   * orbitlab/clients/proxmox/compute/client.py and orbitlab/manifest/lxc.py: Clients/Compute, which launches
--     containers and sets their status, and Manifest/Lxc.
--   * orbitlab/clients/proxmox/networks/client.py: Clients/Networks (the backplane, zones, networks, subnets and
--     their deletion), and Containers for the gateway and the DNS server of a sector. A client acts on a `Cloud`: the
--     files of the manifests, the requests so far and the answers to come, each of which returns or raises.
--   * orbitlab/web/pages/sectors/dashboard: Web/Sectors, which divides a network and makes the manifests of a
--     sector, and Lifecycle for the background events of dialogs.py that make a sector and remove it.
-- Prelude has what they share: tests and equality, dictionaries in insertion order, and actions that return or
-- raise (Prelude/Exec), where what was written before a raise stays written. Tests runs the theorems on
-- concrete inputs; Tests/Toy is an instance of the parameters.
--
-- How values are modelled. An IPv4 address is its 32-bit number, and the two checks that could leave that range
-- are written out; the DNS tool takes IPv4 addresses only. Times are natural numbers of seconds, more than thirty
-- days after the first, and are arguments, as are serial numbers, generated keys and random bytes. Texts that the
-- code takes apart, zone files, PEM texts and fingerprints are lists of code points; other names are strings. Numbers are unbounded, as Python's are. The
-- loops over lists and ranges are structural. `bit_length` halves on fuel, which its bound shows to be enough; the loop
-- over a terminal's text has fuel for each character and one round more; `wait_for_task` has fuel for
-- `timeout / interval + 1` requests, enough where a sleep lasts for its interval. The name of the local node, the
-- numbers that the cluster gives out and the passwords of containers are arguments of the clients' operations.
--
-- What is a parameter. The ciphers, hashes, base64 and the JSON of a secret are the record `Crypto`, and the X.509
-- library is the record `X509`; their laws say that what was written reads back and that a signed certificate
-- has the fields it was signed with.
--
-- What is not modelled. The YAML of a manifest and the field patterns of the pydantic models: a file holds the
-- manifest last saved. Directories: a vault file stands for its path. The HTTP
-- session and the websocket, discovery, and the components of the web pages, which are requests, input and output.
-- The log texts of a workflow. The vault's master key setup and the generator of passwords.
mod Prelude
pub mod DataTypes
pub mod Exceptions
pub mod Constants
pub mod Net
pub mod Strings
pub mod Manifest
pub mod Services
pub mod Web
pub mod Clients
mod Tests
