-- ===== src/Plane/Http/Executed.antt =====
-- keel-controlplane/src/http.rs: a reconciliation whose requests all succeed leaves the worker's
-- invariant.
use kubsd.Base.{
  ℕ, ◌≡◌, refl, ap, ◌∙◌, true, false, List, [], ◌∷◌, Option, none, some, and_then, arith,
}
use kubsd.Base.Dict
use kubsd.Base.Dict.{Distinct-insert, Distinct-remove}
use kubsd.Base.Str.{Str, bytes}
use kubsd.Extern.{Float, Ipnet}
use kubsd.Spec.Types.{JailSpec}
use kubsd.Plane.Addresses.{UsedAddresses, is_used, record_address, release}
use kubsd.Plane.Addresses.Consistent.{
  IsConsistent, record_address-IsConsistent, release-IsConsistent, by_jail-record_address,
  by_jail-release,
}
use kubsd.Plane.Worker.Types.{Schedule, TearDown, ReplicaAction, schedule, tear_down}
use kubsd.Plane.Worker.Reconcile.{reconcile_services}
use kubsd.Plane.Worker.Handle.{
  handle, done, record_placement, remove_placement, record_replica_address, release_replica_address,
  record_standby,
}
use kubsd.Plane.Worker.Planned.{IsPlanned, reconcile_services-IsPlanned}
use kubsd.Plane.Worker.Sound.{IsSound, with_used_addresses, with_placements, with_standbys}
use kubsd.Plane.Http.Quiet.{IsQuiet, next, send-then, send_lem, ask-then}
use kubsd.Plane.Http.{
  Turn, Run, instant_of, Forward, is_success, jail_path, scheduled_spec, send, send_standby,
  record_scheduled, record_torn_down, execute_action, execute_replica_actions,
  reconcile_and_execute,
}

-- what `u` says a jail holds, `w` says too
abbrev pub IsWithin : UsedAddresses → UsedAddresses → Type 0
IsWithin u w =
    (j n : Str) (a : ℕ) → Dict.get j u.by_jail ≡ some (n, a) → Dict.get j w.by_jail ≡ some (n, a)

IsWithin-record_address :
    (u w : UsedAddresses) (k m : Str) (b : ℕ)
    → IsWithin u w
    → IsWithin (record_address u k m b) (record_address w k m b)
IsWithin-record_address u w k m b h j n a e =
    ground (arith, by_jail-record_address u k m b j, by_jail-record_address w k m b j, h j n a)

IsWithin-release : (u w : UsedAddresses) (k : Str) → IsWithin u w → IsWithin (release u k) w
IsWithin-release u w k h j n a e = ground (arith, by_jail-release u k j, h j n a)

-- an address that is free in `w` is held by no jail in `u`
free_within :
    (u w : UsedAddresses) (n : Str) (a : ℕ)
    → IsWithin u w
    → IsConsistent w
    → is_used w n a ≡ false
    → (k : Str) → ¬ (Dict.get k u.by_jail ≡ some (n, a))
free_within u w n a h c f k e = cc (c.held k n a (h k n a e), f)

module _ {Net F : Type 0} ⦃ip : Ipnet Net⦄ ⦃fl : Float F⦄ (forward : Forward)
    (print_spec : JailSpec → Str) (turns : ℕ → Turn F) (quiet : IsQuiet turns Net)
    (accepted : (addr method path body : Str)
      → is_success (forward addr method path body) ≡ true) where
  -- the run after an action, with the addresses that the plan then counts
  abbrev Reached : Run Net F → UsedAddresses → Option (Run Net F) → Type 0
  Reached r w o =
      (t : Run Net F) × (o ≡ some t)
      × IsSound t.state
      × IsWithin t.state.used_addresses w
      × (t.state.services ≡ r.state.services)

  standby_recorded :
      (r : Run Net F) (w : UsedAddresses) (name : Str) (o : Option Str)
      → IsSound r.state
      → IsWithin r.state.used_addresses w
      → Reached r w (send_standby forward print_spec turns r name o)
  unfolding handle
  standby_recorded r w name none i h = (r, refl, i, h, refl)
  standby_recorded r w name (some id) i h =
      let standbys = Dict.insert name id r.state.standbys in
      let s = record r.state { standbys = standbys } in
      (
        next r s,
        send_lem turns quiet r (record_standby name id) s done refl,
        with_standbys r.state standbys i (Distinct-insert name id r.state.standbys i.standbys),
        h,
        refl,
      )

  schedule_recorded :
      (r : Run Net F) (w : UsedAddresses) (a : Schedule)
      → IsSound r.state
      → IsWithin r.state.used_addresses w
      → IsConsistent w
      → is_used w a.node_id a.address ≡ false
      → Reached r
          (record_address w a.replica_name a.node_id a.address)
          (record_scheduled forward print_spec turns r a)
  unfolding record_scheduled handle
  schedule_recorded r w a i h c f =
      let s = r.state in
      let placements = Dict.insert a.replica_name a.node_id s.placements in
      let s' = record s { placements = placements } in
      let used = record_address s.used_addresses a.replica_name a.node_id a.address in
      let s'' = record s' { used_addresses = used } in
      let i' =
        with_placements s placements i
          (Distinct-insert a.replica_name a.node_id s.placements i.placements) in
      let free = free_within s.used_addresses w a.node_id a.address h c f in
      let kept =
        record_address-IsConsistent s.used_addresses a.replica_name a.node_id a.address
          i.used_addresses (λ k e. absurd (free k e)) in
      let (t, e, j, l, v) =
        standby_recorded (next (next r s') s'')
          (record_address w a.replica_name a.node_id a.address) a.replica_name a.standby_node_id
          (with_used_addresses s' used i' kept)
          (IsWithin-record_address s.used_addresses w a.replica_name a.node_id a.address h) in
      (
        t,
        send-then turns quiet r (record_placement a.replica_name a.node_id) s' done
              (λ r'.
                and_then (send turns r' (record_replica_address a.replica_name a.node_id a.address))
                  (λ x. send_standby forward print_spec turns x a.replica_name a.standby_node_id))
              refl
            ∙ send-then turns quiet (next r s')
                (record_replica_address a.replica_name a.node_id a.address) s'' done
                (λ x. send_standby forward print_spec turns x a.replica_name a.standby_node_id) refl
            ∙ e,
        j,
        l,
        v,
      )

  tear_down_recorded :
      (r : Run Net F) (w : UsedAddresses) (t : TearDown)
      → IsSound r.state
      → IsWithin r.state.used_addresses w
      → Reached r w (record_torn_down forward print_spec turns r t)
  unfolding record_torn_down handle
  tear_down_recorded r w t i h =
      let s = r.state in
      let placements = Dict.remove t.replica_name s.placements in
      let s' = record s { placements = placements } in
      let used = release s.used_addresses t.replica_name in
      let s'' = record s' { used_addresses = used } in
      let i' =
        with_placements s placements i (Distinct-remove t.replica_name s.placements i.placements) in
      (
        next (next r s') s'',
        send-then turns quiet r (remove_placement t.replica_name) s' done
              (λ x. send turns x (release_replica_address t.replica_name)) refl
            ∙ send_lem turns quiet (next r s') (release_replica_address t.replica_name) s'' done
                refl,
        with_used_addresses s' used i'
            (release-IsConsistent s.used_addresses t.replica_name i.used_addresses),
        IsWithin-release s.used_addresses w t.replica_name h,
        refl,
      )

  actions_executed :
      (r : Run Net F) (w : UsedAddresses) (actions : List ReplicaAction)
      → IsSound r.state
      → IsWithin r.state.used_addresses w
      → IsConsistent w
      → IsPlanned w actions
      → (t : Run Net F) × (execute_replica_actions forward print_spec turns r actions ≡ some t)
        × IsSound t.state
        × (t.state.services ≡ r.state.services)
  unfolding execute_replica_actions execute_action
  actions_executed r w [] i h c p = (r, refl, i, refl)
  actions_executed r w (schedule a ∷ actions) i h c p =
      let (r', e, i', h', v) = schedule_recorded r w a i h c p.0 in
      let c' =
        record_address-IsConsistent w a.replica_name a.node_id a.address c
          (λ k g. absurd (free_within w w a.node_id a.address (λ j n b q. q) c p.0 k g)) in
      let (t, f, k, v') =
        actions_executed r' (record_address w a.replica_name a.node_id a.address) actions i' h' c'
          p.1 in
      let g : execute_action forward print_spec turns r (schedule a) ≡ some r' =
        rw
          (accepted a.node_addr (bytes "PUT") (jail_path a.replica_name)
            (print_spec (scheduled_spec a)))
          e in
      (
        t,
        ap (λ o. and_then o (λ x. execute_replica_actions forward print_spec turns x actions)) g
            ∙ f,
        k,
        v' ∙ v,
      )
  actions_executed r w (tear_down t ∷ actions) i h c p =
      let (r', e, i', h', v) = tear_down_recorded r w t i h in
      let (t', f, k, v') = actions_executed r' w actions i' h' c p in
      let g : execute_action forward print_spec turns r (tear_down t) ≡ some r' =
        rw (accepted t.node_addr (bytes "DELETE") (jail_path t.replica_name) []) e in
      (
        t',
        ap (λ o. and_then o (λ x. execute_replica_actions forward print_spec turns x actions)) g
            ∙ f,
        k,
        v' ∙ v,
      )

  -- If every request to a node succeeds and what other threads send in between changes nothing,
  -- executing the actions of a reconciliation in a state with the invariant meets no panic and leads
  -- to a state with the invariant, whatever instants the commands are handled at: all the addresses it
  -- records stay apart. The services are the same as before.
  pub reconcile_and_execute-IsSound :
      (r : Run Net F)
      → IsSound r.state
      → (t : Run Net F) × (reconcile_and_execute forward print_spec turns r ≡ some t)
        × IsSound t.state
        × (t.state.services ≡ r.state.services)
  unfolding reconcile_and_execute
  reconcile_and_execute-IsSound r i =
      let s = r.state in
      let now = instant_of turns r in
      let plan = reconcile_services s.services s.placements s.registry s.used_addresses now in
      let (t, e, j, v) =
        actions_executed (next r s) s.used_addresses plan i (λ j n a e. e) i.used_addresses
          (reconcile_services-IsPlanned s.registry now s.placements s.services
            s.used_addresses).0 in
      (
        t,
        ask-then turns quiet r
              (λ x now. reconcile_services x.services x.placements x.registry x.used_addresses now)
              (λ out. execute_replica_actions forward print_spec turns out.0 out.1)
            ∙ e,
        j,
        v,
      )
