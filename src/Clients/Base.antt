-- ===== src/Clients/Base.antt =====
-- orbitlab/clients/proxmox/base/client.py, the class `Proxmox`: requests to the cluster, and the manifests that
-- the clients change while they make them. The name of the local node is an argument: the client caches it.
use orbit_lab.Prelude.{
  ℕ, zero, suc, ◌+◌, ◌/◌, ◌%◌, ◌^◌, String, Option, none, some, List, [], ◌∷◌, ◌++◌, map, eqb,
  nat_eq, list_eq, if◌then◌else◌, ltb,
}
use orbit_lab.Prelude.Int.{ℤ, pos}
use orbit_lab.Prelude.Dict
use orbit_lab.Prelude.Dict.{Dict}
use orbit_lab.Prelude.Exec.{Result, ok, err, Exec, ◌>>◌}
use orbit_lab.Exceptions.{Exception, stop_iteration}
use orbit_lab.DataTypes.{ManifestKind}
use orbit_lab.Net.{Network, Interface}
use orbit_lab.Manifest.Ref.{Text, codes}
use orbit_lab.Manifest.Base.{load, get_existing}
use orbit_lab.Manifest.Cluster.{ClusterManifest}
use orbit_lab.Manifest.Cluster.BackplaneIpam.{Ipams}
use orbit_lab.Manifest.Sector.{SectorManifest}

-- `str(n)`: `n` halvings by ten are enough.
unfoldable pub digits : ℕ → ℕ → Text → Text
digits zero n out = out
digits (suc fuel) n out =
    let rest = digits fuel (n / 10) ((b'0' + n % 10) ∷ out) in
    if ltb n 10 then (b'0' + n) ∷ out else rest

unfoldable pub decimal : ℕ → Text
unfolding digits
decimal n = digits (suc n) n []

-- `str(address)`
unfoldable pub dotted : ℕ → Text
unfolding decimal
dotted a =
    decimal (a / 2 ^ 24)
    ++ b'.' ∷ decimal (a / 2 ^ 16 % 256)
    ++ b'.' ∷ decimal (a / 2 ^ 8 % 256)
    ++ b'.' ∷ decimal (a % 256)

unfoldable pub with_prefix : ℕ → ℕ → Text
unfolding dotted decimal
with_prefix a prefixlen = dotted a ++ b'/' ∷ decimal prefixlen

-- `str(interface)`, `str(network)`
abbrev pub with_prefixlen : Interface → Text
with_prefixlen i = with_prefix i.ip i.prefixlen

abbrev pub network_text : Network → Text
network_text n = with_prefix n.address n.prefixlen

pub data Method : Type 0 where
  get create set delete : Method

pub data Value : Type 0 where
  text : Text → Value
  number : ℤ → Value

abbrev pub natural : ℕ → Value
natural n = number (pos n)

abbrev pub Params : Type 0
Params = Dict Text Value

-- What is asked of the cluster: a call of its API, the wait for the task that a call started, a connection to a
-- node, and a script in a container.
pub data Request : Type 0 where
  call : Method → Text → Params → Request
  wait_for_task connect : Request
  script : ℕ → Text → Request

-- The files of the manifests, the requests so far with the latest first, and the answers to come: an exception,
-- or none for a request that returns. Where the answers end, every request returns.
pub record Cloud : Type 0 where
  pub clusters : Dict String ClusterManifest
  pub ipams : Ipams
  pub sectors : Dict String SectorManifest
  pub requests : List Request
  pub answers : List (Option Exception)

unfoldable pub answer : List (Option Exception) → Cloud → Result Exception (Unit {0}) × Cloud
answer [] s = (ok tt, s)
answer (none ∷ more) s = (ok tt, record s { answers = more })
answer (some x ∷ more) s = (err x, record s { answers = more })

unfoldable pub ask : Request → Exec Exception Cloud (Unit {0})
unfolding answer
ask r s = answer s.answers (record s { requests = r ∷ s.requests })

-- `k.replace("_", "-")`
unfoldable pub dashed : Text → Text
dashed = map λ c. if eqb c b'_' then b'-' else c

unfoldable pub dashed_params : Params → Params → Params
unfolding dashed
dashed_params done [] = done
dashed_params done ((k, v) ∷ params) = dashed_params (Dict.set done (dashed k) v) params

-- `__request__`
unfoldable pub request : Method → Text → Params → Exec Exception Cloud (Unit {0})
unfolding ask dashed_params
request method path params = ask (call method path (dashed_params [] params))

-- A request that answers with a task, and the wait for it.
unfoldable pub task : Method → Text → Params → Exec Exception Cloud (Unit {0})
unfolding request ask
task method path params = request method path params >> ask wait_for_task

-- `get_next_vmid`; the number that the cluster gives out is an argument of those who ask.
unfoldable pub get_next_vmid : Exec Exception Cloud (Unit {0})
unfolding request
get_next_vmid = request get (codes "/cluster/nextid") []

abbrev pub lxc_path : Text → Text
lxc_path node = codes "/nodes/" ++ node ++ codes "/lxc"

abbrev pub vm_path : Text → ℕ → Text
vm_path node vmid = lxc_path node ++ b'/' ∷ decimal vmid

abbrev pub start_path : Text → ℕ → Text
start_path node vmid = vm_path node vmid ++ codes "/status/start"

-- `create_lxc(..., start=True)`
unfoldable pub create_lxc : Text → ℕ → Params → Exec Exception Cloud (Unit {0})
unfolding task
create_lxc node vmid params =
    task create (lxc_path node) params >> task create (start_path node vmid) []

-- `create_connection` and `lxc_execute_script`
unfoldable pub lxc_execute_script : ℕ → Text → Exec Exception Cloud (Unit {0})
unfolding ask
lxc_execute_script vmid content = ask (script vmid content)

abbrev load_first : List String → Dict String ClusterManifest → Result Exception ClusterManifest
load_first [] files = err stop_iteration
load_first (name ∷ names) files = load ManifestKind.cluster files name

-- `ClusterManifest.load(name=next(iter(ClusterManifest.get_existing())))`
unfoldable pub first_cluster : Dict String ClusterManifest → Result Exception ClusterManifest
unfolding get_existing load
first_cluster files = load_first (get_existing files) files

unfoldable pub load_cluster : Exec Exception Cloud ClusterManifest
unfolding first_cluster
load_cluster s = (first_cluster s.clusters, s)
