-- ===== src/Plane/Worker/Repin.antt =====
-- keel-controlplane/src/worker.rs: `Command::PrepareForceRepin`.
use kubsd.Base.{
  ℕ, not, List, [], ◌∷◌, Option, none, some, Result, ok, ◌>>=◌, ◌>>◌, map_err, ok_or, and_then,
  is_ok, to_option, guard,
}
use kubsd.Base.Dict
use kubsd.Base.Str.{Str}
use kubsd.Extern.{Float, Ipnet}
use kubsd.Spec.Volumes.{has}
use kubsd.Plane.Addresses.{UsedAddresses, first_free_address}
use kubsd.Plane.Bookkeeping.{Placements, Standbys}
use kubsd.Plane.Registry
use kubsd.Plane.Registry.{Registry, resolve, replicate_addr}
use kubsd.Plane.Services.{
  Services, Owner, unmanaged, service, owner_of, get_service, pick_node_for_service,
}
use kubsd.Plane.Worker.Types.{
  ForceRepinPrep, ForceRepinError, repin_not_placed, not_stateful, primary_still_alive,
  standby_unresolvable, no_fresh_standby, no_free_address,
}
use kubsd.Plane.Worker.Nodes.{alive_nodes}
use kubsd.Plane.Worker.Reconcile.{option_filter}

abbrev pub service_of : Owner → Option Str
service_of unmanaged = none
service_of (service name) = some name

module _ {Net F : Type 0} ⦃ip : Ipnet Net⦄ ⦃fl : Float F⦄ where
  -- the node for the fresh standby: neither the old primary's nor the standby's
  unfoldable pub pick_fresh : Registry Net F → ℕ → List Str → Result Str ForceRepinError
  pick_fresh registry now exclude = ok_or no_fresh_standby (
      option_filter (λ id. not (has exclude id))
        (to_option (pick_node_for_service (alive_nodes registry now) exclude)))

  unfoldable pub prepare_force_repin :
      Registry Net F
      → Placements
      → Services Net
      → UsedAddresses
      → Standbys
      → ℕ
      → Str
      → Result ForceRepinPrep ForceRepinError
  unfolding pick_fresh
  prepare_force_repin registry placements services used_addresses standbys now replica = do
    old_node_id ← ok_or (repin_not_placed replica) (Dict.get replica placements)
    standby_node_id ← ok_or (not_stateful replica) (Dict.get replica standbys)
    guard (not (is_ok (resolve registry old_node_id now))) (primary_still_alive old_node_id)
    standby_addr ← map_err standby_unresolvable (resolve registry standby_node_id now)
    service_name ←
        ok_or (not_stateful replica) (and_then (owner_of replica placements services) service_of)
    record_of ← ok_or (not_stateful replica) (get_service services service_name)
    fresh_id ← pick_fresh registry now (standby_node_id ∷ old_node_id ∷ [])
    fresh_addr ← ok_or no_fresh_standby (replicate_addr registry fresh_id)
    pod_cidr ← ok_or no_free_address (Registry.pod_cidr registry standby_node_id)
    address ← ok_or no_free_address (first_free_address pod_cidr standby_node_id used_addresses)
    ok (record {
      old_node_id = old_node_id;
      standby_node_id = standby_node_id;
      standby_addr = standby_addr;
      template = record_of.template;
      fresh_standby_node_id = fresh_id;
      fresh_standby_addr = fresh_addr;
      address = address;
      prefix_len = ip.prefix_len pod_cidr;
    })
