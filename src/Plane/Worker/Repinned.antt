-- ===== src/Plane/Worker/Repinned.antt =====
-- keel-controlplane/src/worker.rs: what a prepared repin guarantees.
use kubsd.Base.{
  ℕ, ◌≡◌, ◌≢◌, refl, sym, Bool, true, false, not, ◌||◌, [], ◌∷◌, Option, none, some, ok, >>=-eq-ok,
  ok_or, ok_or-eq-ok, map_err, map_err-eq-ok, ok-injective, guard, is_ok, and_then, to_option,
  not-true, arith,
}
use mathlib.Core.Path.{subst}
use kubsd.Base.Dict
use kubsd.Base.Str.{Str, str_eq, ne_of_str_eq}
use kubsd.Extern.{Float, Ipnet}
use kubsd.Spec.Volumes.{has}
use kubsd.Plane.Addresses.{UsedAddresses, is_used, first_free_address}
use kubsd.Plane.Addresses.Free.{first_free_address-unused}
use kubsd.Plane.Bookkeeping.{Placements, Standbys}
use kubsd.Plane.Registry
use kubsd.Plane.Registry.{Registry, resolve, replicate_addr}
use kubsd.Plane.Services.{
  Services, ServiceRecord, Owner, unmanaged, owner_of, service, get_service, pick_node_for_service,
}
use kubsd.Plane.Worker.Types.{
  ForceRepinPrep, repin_not_placed, not_stateful, primary_still_alive, standby_unresolvable,
  no_fresh_standby, no_free_address,
}
use kubsd.Plane.Worker.Nodes.{alive_nodes}
use kubsd.Plane.Worker.Planned.{option_filter-eq-some}
use kubsd.Plane.Worker.Repin.{prepare_force_repin, pick_fresh, service_of}

guard-eq-ok : {E : Type 0} (b : Bool) (e : E) {u : Unit {0}} → guard b e ≡ ok u → b ≡ true
guard-eq-ok true e h = refl
guard-eq-ok false e h = cc

service_of-eq-some :
    (o : Option Owner) {name : Str} → and_then o service_of ≡ some name → o ≡ some (service name)
service_of-eq-some none h = cc
service_of-eq-some (some unmanaged) h = cc
service_of-eq-some (some (service s)) h = cc

module _ {Net F : Type 0} ⦃ip : Ipnet Net⦄ ⦃fl : Float F⦄ (registry : Registry Net F)
    (placements : Placements) (services : Services Net) (used_addresses : UsedAddresses)
    (standbys : Standbys) (now : ℕ) (replica : Str) where
  -- what the answer names is safe to act on
  pub record IsSafe (prep : ForceRepinPrep) : Type 0 where
    pub placed : Dict.get replica placements ≡ some prep.old_node_id
    pub standby : Dict.get replica standbys ≡ some prep.standby_node_id
    -- the old primary does not resolve, the standby does
    pub old_gone : is_ok (resolve registry prep.old_node_id now) ≡ false
    pub standby_reachable : resolve registry prep.standby_node_id now ≡ ok prep.standby_addr
    -- the template is that of the service that owns the replica
    pub owned :
        (name : Str) × (r : ServiceRecord) × (owner_of replica placements services
          ≡ some (service name))
        × (get_service services name ≡ some r)
        × (r.template ≡ prep.template)
    -- the fresh standby is a third node, with its replication address
    pub fresh_apart :
        (prep.fresh_standby_node_id ≢ prep.old_node_id)
        × (prep.fresh_standby_node_id ≢ prep.standby_node_id)
    pub fresh_addr :
        replicate_addr registry prep.fresh_standby_node_id ≡ some prep.fresh_standby_addr
    -- the address is free on the standby, which becomes the primary
    pub address_free : is_used used_addresses prep.standby_node_id prep.address ≡ false
    pub prefixed :
        (net : Net) × (Registry.pod_cidr registry prep.standby_node_id ≡ some net)
        × (ip.prefix_len net ≡ prep.prefix_len)

  pick_fresh-apart :
      (standby old id : Str)
      → pick_fresh registry now (standby ∷ old ∷ []) ≡ ok id
      → (id ≢ old) × (id ≢ standby)
  unfolding pick_fresh
  pick_fresh-apart standby old id h =
      let (p, t) =
        option_filter-eq-some (λ id. not (has (standby ∷ old ∷ []) id))
          (to_option (pick_node_for_service (alive_nodes registry now) (standby ∷ old ∷ [])))
          (ok_or-eq-ok no_fresh_standby _ h) in
      let f : (str_eq standby id || (str_eq old id || false)) ≡ false = not-true _ t in
      (
        λ e. ne_of_str_eq old id (ground (arith, f)) (sym e),
        λ e. ne_of_str_eq standby id (ground (arith, f)) (sym e),
      )

  -- A repin is prepared only for a replica with a placement and a standby, whose old primary does not
  -- resolve and whose standby does, with the template of the service that owns it, a fresh standby on
  -- a third node, and an address that is not in use on the standby's node.
  pub prepare_force_repin-IsSafe :
      (prep : ForceRepinPrep)
      → prepare_force_repin registry placements services used_addresses standbys now replica
        ≡ ok prep
      → IsSafe prep
  unfolding prepare_force_repin
  prepare_force_repin-IsSafe prep h =
      let (old, e1, h1) =
        >>=-eq-ok (ok_or (repin_not_placed replica) (Dict.get replica placements)) _ h in
      let (standby, e2, h2) =
        >>=-eq-ok (ok_or (not_stateful replica) (Dict.get replica standbys)) _ h1 in
      let (u, e3, h3) =
        >>=-eq-ok (guard (not (is_ok (resolve registry old now))) (primary_still_alive old)) _ h2 in
      let (standby_addr, e4, h4) =
        >>=-eq-ok (map_err standby_unresolvable (resolve registry standby now)) _ h3 in
      let (name, e5, h5) =
        >>=-eq-ok
          (ok_or (not_stateful replica)
            (and_then (owner_of replica placements services) service_of))
          _ h4 in
      let (r, e6, h6) = >>=-eq-ok (ok_or (not_stateful replica) (get_service services name)) _ h5 in
      let (fresh, e7, h7) = >>=-eq-ok (pick_fresh registry now (standby ∷ old ∷ [])) _ h6 in
      let (fresh_addr, e8, h8) =
        >>=-eq-ok (ok_or no_fresh_standby (replicate_addr registry fresh)) _ h7 in
      let (net, e9, h9) =
        >>=-eq-ok (ok_or no_free_address (Registry.pod_cidr registry standby)) _ h8 in
      let (address, e10, h10) =
        >>=-eq-ok (ok_or no_free_address (first_free_address net standby used_addresses)) _ h9 in
      subst IsSafe (ok-injective h10) (record {
        placed = ok_or-eq-ok (repin_not_placed replica) _ e1;
        standby = ok_or-eq-ok (not_stateful replica) _ e2;
        old_gone =
            not-true (is_ok (resolve registry old now))
              (guard-eq-ok _ (primary_still_alive old) e3);
        standby_reachable = map_err-eq-ok standby_unresolvable _ e4;
        owned = (
          name,
          r,
          service_of-eq-some (owner_of replica placements services)
              (ok_or-eq-ok (not_stateful replica) _ e5),
          ok_or-eq-ok (not_stateful replica) _ e6,
          refl,
        );
        fresh_apart = pick_fresh-apart standby old fresh e7;
        fresh_addr = ok_or-eq-ok no_fresh_standby _ e8;
        address_free =
            first_free_address-unused net standby used_addresses address
              (ok_or-eq-ok no_free_address _ e10);
        prefixed = (net, ok_or-eq-ok no_free_address _ e9, refl);
      })
