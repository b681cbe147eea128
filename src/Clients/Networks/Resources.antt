-- ===== src/Clients/Networks/Resources.antt =====
-- The network objects that `create_sector` and `delete_sector` of orbitlab/clients/proxmox/networks/client.py ask for.
use orbit_lab.Prelude.{
  ℕ, ◌≡◌, refl, sym, ap, ◌∙◌, Bool, true, false, ◌||◌, Option, none, some, List, [], ◌∷◌, ◌++◌, map,
  contains, eqb, beq_list, nat_eq, list_eq, ◌==◌, arith, if◌then◌else◌,
}
use orbit_lab.Prelude.Dict
use orbit_lab.Prelude.Exec.{Result, ok, lift, ◌>>◌, bind-ok, then-ok}
use orbit_lab.Exceptions.{Exception}
use orbit_lab.DataTypes.{SectorState}
use orbit_lab.Net.{Interface}
use orbit_lab.Manifest.Ref.{Text, codes}
use orbit_lab.Manifest.Cluster.{ClusterManifest}
use orbit_lab.Manifest.Sector
use orbit_lab.Manifest.Sector.{SectorManifest, default_gateway}
use orbit_lab.Clients.Base.{
  Cloud, Method, Params, Value, text, number, Request, call, wait_for_task, connect, script,
  request, dashed, dashed_params, load_cluster,
}
use orbit_lab.Clients.Networks.Created.{ask_sent}
use orbit_lab.Clients.Networks.{
  zones_path, vnets_path, subnets_path, zone_params, vnet_params, subnet_params, create_subnet,
  create_subnets, create_network, create_sector, delete_container, subnet_id, subnet_path,
  delete_subnets, delete_network, delete_sector, apply_changes,
}

-- The API's paths of what a call makes: an object of a collection stands below the collection, under its own name. A
-- subnet is named after its zone and its address; a sector's zone has the name of its network.
abbrev named : Text → Option Value → List Text
named path none = []
named path (some (number n)) = []
named path (some (text t)) = (path ++ b'/' ∷ t) ∷ []

abbrev subnet_named : Text → Option Value → Option Value → List Text
subnet_named path (some (text vnet)) (some (text subnet)) =
    (path ++ b'/' ∷ vnet ++ b'-' ∷ map (λ ch. if eqb ch b'/' then b'-' else ch) subnet) ∷ []
subnet_named path (some (text vnet)) (some (number n)) = []
subnet_named path (some (text vnet)) none = []
subnet_named path (some (number n)) subnet = []
subnet_named path none subnet = []

made_by : Method → Text → Params → List Text
made_by Method.create path params =
    if path == zones_path
    then named zones_path (Dict.get params (codes "zone"))
    else if path == vnets_path
    then named vnets_path (Dict.get params (codes "vnet"))
    else subnet_named path (Dict.get params (codes "vnet")) (Dict.get params (codes "subnet"))
made_by Method.get path params = []
made_by Method.set path params = []
made_by Method.delete path params = []

-- What the requests of a log made, and the paths that they deleted.
unfoldable pub made : List Request → List Text
unfolding made_by
made [] = []
made (call method path params ∷ rs) = made_by method path params ++ made rs
made (wait_for_task ∷ rs) = made rs
made (connect ∷ rs) = made rs
made (script vmid content ∷ rs) = made rs

removed_by : Method → Text → List Text
removed_by Method.delete path = path ∷ []
removed_by Method.create path = []
removed_by Method.get path = []
removed_by Method.set path = []

unfoldable pub removed : List Request → List Text
unfolding removed_by
removed [] = []
removed (call method path params ∷ rs) = removed_by method path ++ removed rs
removed (wait_for_task ∷ rs) = removed rs
removed (connect ∷ rs) = removed rs
removed (script vmid content ∷ rs) = removed rs

made_zone :
    (c : ClusterManifest) (s : SectorManifest)
    → made_by Method.create zones_path (dashed_params [] (zone_params c s))
      ≡ (zones_path ++ b'/' ∷ codes s.name) ∷ []
unfolding made_by dashed_params dashed Dict.set Dict.get beq_list
made_zone c s = refl

made_vnet :
    (s : SectorManifest)
    → made_by Method.create vnets_path (dashed_params [] (vnet_params s))
      ≡ (vnets_path ++ b'/' ∷ codes s.name) ∷ []
unfolding made_by dashed_params dashed Dict.set Dict.get beq_list
made_vnet s = refl

made_subnet :
    (s : SectorManifest) (n : Sector.Subnet) (gateway : Interface)
    → made_by Method.create
        (subnets_path (codes s.name))
        (dashed_params [] (subnet_params s n.cidr_block gateway))
      ≡ subnet_path s n ∷ []
unfolding made_by dashed_params dashed Dict.set Dict.get beq_list subnet_path subnet_id
made_subnet s n gateway = refl

request_sent :
    (method : Method) (path : Text) (params : Params) (s u : Cloud)
    (a : Result Exception (Unit {0}))
    → request method path params s ≡ (a, u)
    → u.requests ≡ call method path (dashed_params [] params) ∷ s.requests
unfolding request
request_sent method path params s u a h =
    ask_sent (call method path (dashed_params [] params)) s u a h

-- A text in a list that got one more in front.
contains-cons :
    (xs ys : List Text) (t u : Text) → xs ≡ u ∷ ys → contains xs t ≡ (t == u || contains ys t)
unfolding contains
contains-cons xs ys t u h = rw h refl

or_assoc : (a b c : Bool) → (a || (b || c)) ≡ ((a || b) || c)
or_assoc true b c = refl
or_assoc false b c = refl

or_comm : (a b c : Bool) → (a || (b || c)) ≡ (b || (a || c))
or_comm true true c = refl
or_comm true false c = refl
or_comm false b c = refl

paths : SectorManifest → List Sector.Subnet → List Text
paths s = map (subnet_path s)

module _ (s : SectorManifest) (t : Text) where
  create_subnets-made :
      (subnets : List Sector.Subnet) (p q : Cloud)
      → create_subnets s subnets p ≡ (ok tt, q)
      → contains (made q.requests) t
        ≡ (contains (paths s subnets) t || contains (made p.requests) t)
  unfolding create_subnets create_subnet made paths contains
  create_subnets-made [] p q h = ap (λ z. contains (made z.1.requests) t) (sym h)
  create_subnets-made (n ∷ subnets) p q h =
      let (gateway, p1, e1, h1) =
        bind-ok (lift (default_gateway n))
          (λ gateway. create_subnet s n.cidr_block gateway >> create_subnets s subnets) p q tt h in
      let (u, p2, e2, h2) =
        then-ok (create_subnet s n.cidr_block gateway) (create_subnets s subnets) p1 q tt h1 in
      let sent =
        request_sent Method.create (subnets_path (codes s.name))
          (subnet_params s n.cidr_block gateway) p1 p2 (ok u) e2 in
      let later = create_subnets-made subnets p2 q h2 in
      let one : contains (made p2.requests) t
          ≡ (t == subnet_path s n || contains (made p1.requests) t) =
        contains-cons (made p2.requests) (made p1.requests) t (subnet_path s n)
          (ap made sent ∙ ap (λ xs. xs ++ made p1.requests) (made_subnet s n gateway)) in
      let same : p1.requests ≡ p.requests = ap (λ z. z.1.requests) (sym e1) in
      later
      ∙ rw (one, same)
          (or_comm (contains (paths s subnets) t) (t == subnet_path s n)
              (contains (made p.requests) t)
            ∙ or_assoc (t == subnet_path s n) (contains (paths s subnets) t)
                (contains (made p.requests) t))

  delete_subnets-removed :
      (subnets : List Sector.Subnet) (p q : Cloud)
      → delete_subnets s subnets p ≡ (ok tt, q)
      → contains (removed q.requests) t
        ≡ (contains (paths s subnets) t || contains (removed p.requests) t)
  unfolding delete_subnets removed paths contains
  delete_subnets-removed [] p q h = ap (λ z. contains (removed z.1.requests) t) (sym h)
  delete_subnets-removed (n ∷ subnets) p q h =
      let (u, p2, e2, h2) =
        then-ok (request Method.delete (subnet_path s n) []) (delete_subnets s subnets) p q tt h in
      let later = delete_subnets-removed subnets p2 q h2 in
      let one : contains (removed p2.requests) t
          ≡ (t == subnet_path s n || contains (removed p.requests) t) =
        contains-cons (removed p2.requests) (removed p.requests) t (subnet_path s n)
          (ap removed (request_sent Method.delete (subnet_path s n) [] p p2 (ok u) e2)) in
      later
      ∙ rw one (
          or_comm (contains (paths s subnets) t) (t == subnet_path s n)
            (contains (removed p.requests) t)
          ∙ or_assoc (t == subnet_path s n) (contains (paths s subnets) t)
              (contains (removed p.requests) t))

  abbrev vnet : Text
  vnet = vnets_path ++ b'/' ∷ codes s.name

  abbrev zone : Text
  zone = zones_path ++ b'/' ∷ codes s.name

  create_network-made :
      (c : ClusterManifest) (p q : Cloud)
      → create_network c s p ≡ (ok tt, q)
      → contains (made q.requests) t ≡ (
          contains (paths s s.subnets) t
          || (t == vnet || (t == zone || contains (made p.requests) t)))
  unfolding create_network apply_changes made
  create_network-made c p q h =
      let subnets = create_subnets s s.subnets in
      let make_vnet = request Method.create vnets_path (vnet_params s) in
      let (u1, p1, e1, h1) =
        then-ok (request Method.create zones_path (zone_params c s))
          (make_vnet >> (subnets >> apply_changes)) p q tt h in
      let (u2, p2, e2, h2) = then-ok make_vnet (subnets >> apply_changes) p1 q tt h1 in
      let (u3, p3, e3, h3) = then-ok subnets apply_changes p2 q tt h2 in
      let s1 = request_sent Method.create zones_path (zone_params c s) p p1 (ok u1) e1 in
      let s2 = request_sent Method.create vnets_path (vnet_params s) p1 p2 (ok u2) e2 in
      let s4 = request_sent Method.set (codes "/cluster/sdn") [] p3 q (ok tt) h3 in
      let c1 =
        contains-cons (made p1.requests) (made p.requests) t zone
          (ap made s1 ∙ ap (λ xs. xs ++ made p.requests) (made_zone c s)) in
      let c2 =
        contains-cons (made p2.requests) (made p1.requests) t vnet
          (ap made s2 ∙ ap (λ xs. xs ++ made p1.requests) (made_vnet s)) in
      let c3 = create_subnets-made s.subnets p2 p3 e3 in
      ap (λ rs. contains (made rs) t) s4 ∙ c3 ∙ rw (c2, c1) refl

  delete_network-removed :
      (p q : Cloud)
      → delete_network s p ≡ (ok tt, q)
      → contains (removed q.requests) t ≡ (
          t == zone
          || (t == vnet || (contains (paths s s.subnets) t || contains (removed p.requests) t)))
  unfolding delete_network apply_changes removed
  delete_network-removed p q h =
      let drop_vnet = request Method.delete vnet [] in
      let drop_zone = request Method.delete zone [] in
      let (u1, p1, e1, h1) =
        then-ok (delete_subnets s s.subnets) (drop_vnet >> (drop_zone >> apply_changes)) p q tt h in
      let (u2, p2, e2, h2) = then-ok drop_vnet (drop_zone >> apply_changes) p1 q tt h1 in
      let (u3, p3, e3, h3) = then-ok drop_zone apply_changes p2 q tt h2 in
      let s2 = request_sent Method.delete vnet [] p1 p2 (ok u2) e2 in
      let s3 = request_sent Method.delete zone [] p2 p3 (ok u3) e3 in
      let s4 = request_sent Method.set (codes "/cluster/sdn") [] p3 q (ok tt) h3 in
      let c1 = delete_subnets-removed s.subnets p p1 e1 in
      let c2 = contains-cons (removed p2.requests) (removed p1.requests) t vnet (ap removed s2) in
      let c3 = contains-cons (removed p3.requests) (removed p2.requests) t zone (ap removed s3) in
      ap (λ rs. contains (removed rs) t) s4 ∙ c3 ∙ rw (c2, c1) refl

-- Whatever network object the creation of a sector made (its zone, its network and every subnet), a deletion of the
-- sector that returns has deleted, whichever containers and state the sector has by then.
pub delete_sector_removes_made :
    (node : Text) (s : SectorManifest) (gateway dns : Option ℕ) (state : SectorState)
    (p q p' r : Cloud) (t : Text)
    → create_sector s p ≡ (ok tt, q)
    → contains (made q.requests) t ≡ true
    → contains (made p.requests) t ≡ false
    → delete_sector node (record s { gateway_vmid = gateway; dns_vmid = dns; state = state }) p'
      ≡ (ok tt, r)
    → contains (removed r.requests) t ≡ true
unfolding create_sector delete_sector load_cluster paths subnet_path
delete_sector_removes_made node s gateway dns state p q p' r t h new old k =
    let s' = record s { gateway_vmid = gateway; dns_vmid = dns; state = state } in
    let (c, p1, e1, h1) = bind-ok load_cluster (λ c. create_network c s) p q tt h in
    let drop_gateway = delete_container node gateway in
    let drop_dns = delete_container node dns in
    let (_, r1, _, k1) =
      bind-ok load_cluster (λ _. drop_gateway >> (drop_dns >> delete_network s')) p' r tt k in
    let (_, r2, _, k2) = then-ok drop_gateway (drop_dns >> delete_network s') r1 r tt k1 in
    let (_, r3, _, k3) = then-ok drop_dns (delete_network s') r2 r tt k2 in
    let was : contains (made p1.requests) t ≡ false =
      ap (λ z. contains (made z.1.requests) t) (sym e1) ∙ old in
    let a = create_network-made s t c p1 q h1 in
    let b = delete_network-removed s' t r3 r k3 in ground (arith, a, b, was)
