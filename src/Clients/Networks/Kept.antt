-- ===== src/Clients/Networks/Kept.antt =====
-- Which manifests the requests of orbitlab/clients/proxmox/networks/client.py leave as they are.
use orbit_lab.Prelude.{
  ◌≡◌, refl, ap, Option, none, some, List, [], ◌∷◌, ◌++◌, subst, arith, inl, inr,
}
use orbit_lab.Prelude.Exec.{Result, ok, Exec, ◌>>=◌, ◌>>◌, lift, Result-cases}
use orbit_lab.Exceptions.{Exception}
use orbit_lab.Net.{Network, Interface}
use orbit_lab.Manifest.Ref.{Text, codes}
use orbit_lab.Manifest.Sector
use orbit_lab.Manifest.Sector.{SectorManifest, default_gateway}
use orbit_lab.Manifest.Cluster.{ClusterManifest}
use orbit_lab.Manifest.Cluster.BackplaneIpam.{Ipams}
use orbit_lab.Clients.Base.{
  Cloud, Params, Method, Request, answer, ask, request, task, load_cluster,
}
use orbit_lab.Clients.Networks.{
  create_subnet, create_subnets, create_network, delete_subnets, delete_network, apply_changes,
  create_sector, on_ipams, subnet_path, subnets_path, vnets_path, zones_path, zone_params,
  vnet_params, subnet_params,
}

-- An action that makes requests and writes no manifest.
pub record Keeps (s t : Cloud) : Type 0 where
  pub clusters : t.clusters ≡ s.clusters
  pub ipams : t.ipams ≡ s.ipams
  pub sectors : t.sectors ≡ s.sectors

answer-Keeps : (a : List (Option Exception)) (s : Cloud) → Keeps s (answer a s).1
unfolding answer
answer-Keeps [] s = ground arith
answer-Keeps (none ∷ more) s = ground arith
answer-Keeps (some x ∷ more) s = ground arith

Keeps-trans : (s t u : Cloud) → Keeps s t → Keeps t u → Keeps s u
Keeps-trans s t u h k = ground arith

abbrev pub OnlyAsks : {A : Type 0} → Exec Exception Cloud A → Type 0
OnlyAsks m = (s : Cloud) → Keeps s (m s).1

pub bind-OnlyAsks :
    {A B : Type 0} (m : Exec Exception Cloud A) (f : A → Exec Exception Cloud B)
    → OnlyAsks m
    → ((a : A) → OnlyAsks (f a))
    → OnlyAsks (m >>= f)
bind-OnlyAsks m f h k s = elim (Result-cases (m s).0) [
  | inl (x, e) ↦ rw e (h s)
  | inr (a, e) ↦ rw e (Keeps-trans s (m s).1 (f a (m s).1).1 (h s) (k a (m s).1))
]

pub OnlyAsks-ok :
    {A : Type 0} (m : Exec Exception Cloud A) (p t : Cloud) (r : Result Exception A)
    → OnlyAsks m
    → m p ≡ (r, t)
    → Keeps p t
OnlyAsks-ok m p t r k h = subst (λ c. Keeps p c) (ap (λ z. z.1) h) (k p)

-- What a call on the IPAM manifests determines.
pub on_ipams-ok :
    {A : Type 0} (m : Exec Exception Ipams A) (t q : Cloud) (a : A)
    → on_ipams m t ≡ (ok a, q)
    → (m t.ipams ≡ (ok a, q.ipams)) × (q.clusters ≡ t.clusters) × (q.sectors ≡ t.sectors)
on_ipams-ok m t q a h = (ground arith, ground arith, ground arith)

pub ask-OnlyAsks : (r : Request) → OnlyAsks (ask r)
unfolding ask
ask-OnlyAsks r s =
    Keeps-trans s (record s { requests = r ∷ s.requests }) _ (ground arith)
      (answer-Keeps s.answers (record s { requests = r ∷ s.requests }))

pub request-OnlyAsks :
    (method : Method) (path : Text) (params : Params) → OnlyAsks (request method path params)
unfolding request
request-OnlyAsks method path params = ask-OnlyAsks _

pub task-OnlyAsks :
    (method : Method) (path : Text) (params : Params) → OnlyAsks (task method path params)
unfolding task
task-OnlyAsks method path params =
    bind-OnlyAsks _ _ (request-OnlyAsks method path params) λ _. ask-OnlyAsks _

lift-OnlyAsks : {A : Type 0} (r : Result Exception A) → OnlyAsks (lift r)
lift-OnlyAsks r s = ground arith

apply_changes-OnlyAsks : OnlyAsks apply_changes
unfolding apply_changes
apply_changes-OnlyAsks = request-OnlyAsks Method.set (codes "/cluster/sdn") []

delete_subnets-OnlyAsks :
    (s : SectorManifest) (subnets : List Sector.Subnet) → OnlyAsks (delete_subnets s subnets)
unfolding delete_subnets
delete_subnets-OnlyAsks s [] = λ c. ground arith
delete_subnets-OnlyAsks s (n ∷ subnets) =
    bind-OnlyAsks (request Method.delete (subnet_path s n) []) (λ _. delete_subnets s subnets)
      (request-OnlyAsks Method.delete (subnet_path s n) []) λ _. delete_subnets-OnlyAsks s subnets

create_subnet-OnlyAsks :
    (s : SectorManifest) (n : Network) (gateway : Interface) → OnlyAsks (create_subnet s n gateway)
unfolding create_subnet
create_subnet-OnlyAsks s n gateway =
    request-OnlyAsks Method.create (subnets_path (codes s.name)) (subnet_params s n gateway)

create_subnets-OnlyAsks :
    (s : SectorManifest) (subnets : List Sector.Subnet) → OnlyAsks (create_subnets s subnets)
unfolding create_subnets
create_subnets-OnlyAsks s [] = λ c. ground arith
create_subnets-OnlyAsks s (n ∷ subnets) =
    bind-OnlyAsks (lift (default_gateway n))
      (λ gateway. create_subnet s n.cidr_block gateway >> create_subnets s subnets)
      (lift-OnlyAsks (default_gateway n))
      λ gateway.
        bind-OnlyAsks (create_subnet s n.cidr_block gateway) (λ _. create_subnets s subnets)
          (create_subnet-OnlyAsks s n.cidr_block gateway) λ _. create_subnets-OnlyAsks s subnets

pub delete_network-OnlyAsks : (s : SectorManifest) → OnlyAsks (delete_network s)
unfolding delete_network
delete_network-OnlyAsks s =
    let vnet : Text = vnets_path ++ b'/' ∷ codes s.name in
    let zone : Text = zones_path ++ b'/' ∷ codes s.name in
    bind-OnlyAsks (delete_subnets s s.subnets)
      (λ _. request Method.delete vnet [] >> (request Method.delete zone [] >> apply_changes))
      (delete_subnets-OnlyAsks s s.subnets)
      λ _.
        bind-OnlyAsks (request Method.delete vnet [])
          (λ _. request Method.delete zone [] >> apply_changes)
          (request-OnlyAsks Method.delete vnet [])
          λ _.
            bind-OnlyAsks (request Method.delete zone []) (λ _. apply_changes)
              (request-OnlyAsks Method.delete zone []) λ _. apply_changes-OnlyAsks

create_network-OnlyAsks : (c : ClusterManifest) (s : SectorManifest) → OnlyAsks (create_network c s)
unfolding create_network
create_network-OnlyAsks c s =
    bind-OnlyAsks (request Method.create zones_path (zone_params c s))
      (λ _.
        request Method.create vnets_path (vnet_params s)
        >> (create_subnets s s.subnets >> apply_changes))
      (request-OnlyAsks Method.create zones_path (zone_params c s))
      λ _.
        bind-OnlyAsks (request Method.create vnets_path (vnet_params s))
          (λ _. create_subnets s s.subnets >> apply_changes)
          (request-OnlyAsks Method.create vnets_path (vnet_params s))
          λ _.
            bind-OnlyAsks (create_subnets s s.subnets) (λ _. apply_changes)
              (create_subnets-OnlyAsks s s.subnets) λ _. apply_changes-OnlyAsks

pub load_cluster-OnlyAsks : OnlyAsks load_cluster
unfolding load_cluster
load_cluster-OnlyAsks s = record { clusters = refl; ipams = refl; sectors = refl }

pub create_sector-OnlyAsks : (s : SectorManifest) → OnlyAsks (create_sector s)
unfolding create_sector
create_sector-OnlyAsks s =
    bind-OnlyAsks load_cluster (λ c. create_network c s) load_cluster-OnlyAsks
      λ c. create_network-OnlyAsks c s
