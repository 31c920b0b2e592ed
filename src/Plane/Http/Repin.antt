-- ===== src/Plane/Http/Repin.antt =====
-- keel-controlplane/src/http.rs: `handle_force_repin`, with the status of its response. The bodies of
-- the responses are left out.
use kubsd.Base.{
  ℕ, suc, ap, sym, ◌∙◌, Bool-cases, ◌≡◌, refl, ◌⊎◌, inl, inr, true, ◌||◌, [], ◌++◌, ◌∷◌, Option,
  none, some, Result, ok, err, and_then, ◌==◌, if◌then◌else◌,
}
use mathlib.Core.Option
use mathlib.Core.Path.{subst}
use kubsd.Base.Decimal.{to_string}
use kubsd.Base.Dict
use kubsd.Base.Dict.{Distinct-insert, get-insert_self}
use kubsd.Base.Str.{Str, bytes}
use kubsd.Extern.{Float, Ipnet}
use kubsd.Spec.Types.{JailSpec, to_jail_spec}
use kubsd.Plane.Addresses.{record_address}
use kubsd.Plane.Addresses.Consistent.{record_address-IsConsistent}
use kubsd.Plane.Worker.Types.{
  ForceRepinPrep, ForceRepinError, repin_not_placed, not_stateful, primary_still_alive,
  standby_unresolvable, no_fresh_standby, no_free_address, show_addr,
}
use kubsd.Plane.Worker.Repin.{prepare_force_repin}
use kubsd.Plane.Worker.Repinned.{IsSafe, prepare_force_repin-IsSafe}
use kubsd.Plane.Worker.Handle.{
  State, handle, done, record_placement, record_replica_address, record_standby,
  record_pending_fence,
}
use kubsd.Plane.Worker.Sound.{
  IsSound, with_placements, with_used_addresses, with_standbys, with_pending_fences,
}
use kubsd.Plane.Http.{Turn, Run, instant_of, Forward, is_success, jail_path, send, ask}
use kubsd.Plane.Http.Quiet.{IsQuiet, next, send-then, send_lem, ask-then}

abbrev pub repin_status : ForceRepinError → ℕ
repin_status (repin_not_placed name) = 404
repin_status (not_stateful name) = 400
repin_status (primary_still_alive node_id) = 409
repin_status (standby_unresolvable e) = 503
repin_status no_fresh_standby = 503
repin_status no_free_address = 503

-- the specification that the standby is sent
unfoldable pub promoted_spec : Str → ForceRepinPrep → JailSpec
promoted_spec name prep =
    let cidr = show_addr prep.address ++ (b'/' ∷ to_string prep.prefix_len) in
    let spec = to_jail_spec prep.template name cidr in
    record spec { spec = record spec.spec { replicate_to = some prep.fresh_standby_addr } }

module _ {Net F : Type 0} ⦃ip : Ipnet Net⦄ ⦃fl : Float F⦄ (forward : Forward)
    (print_spec : JailSpec → Str) (turns : ℕ → Turn F) where
  -- the four commands that record a repin
  unfoldable pub record_repin : Run Net F → Str → ForceRepinPrep → Option (Run Net F)
  unfolding send
  record_repin r name prep =
      and_then (send turns r (record_placement name prep.standby_node_id)) (λ r'.
        and_then (send turns r' (record_replica_address name prep.standby_node_id prep.address))
          (λ r''.
            and_then (send turns r'' (record_standby name prep.fresh_standby_node_id))
              (λ t. send turns t (record_pending_fence name prep.old_node_id))))

  -- after the standby's answer to the specification
  abbrev pub promoted : Run Net F → Str → ForceRepinPrep → Option ℕ → Option (Run Net F × ℕ)
  promoted r name prep none = some (r, 500)
  promoted r name prep (some status) =
      if is_success (some status)
      then Option.map (λ t. (t, 200)) (record_repin r name prep)
      else some (r, status)

  -- after its answer on whether it has a full copy
  abbrev pub checked : Run Net F → Str → ForceRepinPrep → Option ℕ → Option (Run Net F × ℕ)
  checked r name prep none = some (r, 500)
  checked r name prep (some status) =
      if is_success (some status)
      then promoted r name prep (
          forward prep.standby_addr (bytes "PUT") (jail_path name)
            (print_spec (promoted_spec name prep)))
      else if status == 404 || status == 409
      then some (r, 409)
      else some (r, 500)

  abbrev pub repin_answer :
      Run Net F → Str → Result ForceRepinPrep ForceRepinError → Option (Run Net F × ℕ)
  repin_answer r name (err e) = some (r, repin_status e)
  repin_answer r name (ok prep) =
      checked r name prep
        (forward prep.standby_addr (bytes "GET") (bytes "/replica-targets/" ++ name) [])

  unfoldable pub handle_force_repin : Run Net F → Str → Option (Run Net F × ℕ)
  unfolding record_repin ask
  handle_force_repin r name =
      and_then
        (ask turns r (λ s now.
          prepare_force_repin s.registry s.placements s.services s.used_addresses s.standbys now
            name))
        (λ out. repin_answer out.0 name out.1)

  module _ (quiet : IsQuiet turns Net) (s : State Net F) (now : ℕ) (name : Str) where
    -- The former standby has a full copy and has taken the replica, which has a fresh standby, and
    -- the old node is owed a forced delete.
    pub record IsMoved (t : State Net F) : Type 0 where
      pub prep : ForceRepinPrep
      pub safe : IsSafe s.registry s.placements s.services s.used_addresses s.standbys now name prep
      pub ready :
          is_success
            (forward prep.standby_addr (bytes "GET") (bytes "/replica-targets/" ++ name) [])
          ≡ true
      pub taken :
          is_success (
            forward prep.standby_addr
              (bytes "PUT")
              (jail_path name)
              (print_spec (promoted_spec name prep)))
          ≡ true
      pub placed : Dict.get name t.placements ≡ some prep.standby_node_id
      pub standby : Dict.get name t.standbys ≡ some prep.fresh_standby_node_id
      pub fenced : Dict.get name t.pending_fences ≡ some prep.old_node_id

    -- nothing has changed, or the answer is 200 and the replica has moved
    abbrev pub IsAnswered : Option (Run Net F × ℕ) → Type 0
    IsAnswered o =
        (out : Run Net F × ℕ) × (o ≡ some out)
        × IsSound out.0.state
        × ((out.0.state ≡ s) ⊎ ((out.1 ≡ 200) × IsMoved out.0.state))

    recorded :
        (sent : ℕ) (prep : ForceRepinPrep)
        → IsSound s
        → IsSafe s.registry s.placements s.services s.used_addresses s.standbys now name prep
        → is_success
            (forward prep.standby_addr (bytes "GET") (bytes "/replica-targets/" ++ name) [])
          ≡ true
        → is_success (
            forward prep.standby_addr
              (bytes "PUT")
              (jail_path name)
              (print_spec (promoted_spec name prep)))
          ≡ true
        → (t : Run Net F) × (record_repin (record { state = s; sent = sent }) name prep ≡ some t)
          × IsSound t.state
          × IsMoved t.state
    unfolding record_repin handle
    recorded sent prep i safe ready taken =
        let placements = Dict.insert name prep.standby_node_id s.placements in
        let used = record_address s.used_addresses name prep.standby_node_id prep.address in
        let standbys = Dict.insert name prep.fresh_standby_node_id s.standbys in
        let fences = Dict.insert name prep.old_node_id s.pending_fences in
        let s' = record s { placements = placements } in
        let s'' = record s' { used_addresses = used } in
        let t = record s'' { standbys = standbys } in
        let free =
          record_address-IsConsistent s.used_addresses name prep.standby_node_id prep.address
            i.used_addresses
            (λ k e. absurd (
              cc (
                i.used_addresses.held k prep.standby_node_id prep.address e,
                safe.address_free,
              ))) in
        let i1 =
          with_placements s placements i
            (Distinct-insert name prep.standby_node_id s.placements i.placements) in
        let i2 = with_used_addresses s' used i1 free in
        let i3 =
          with_standbys s'' standbys i2
            (Distinct-insert name prep.fresh_standby_node_id s.standbys i.standbys) in
        let t' = record t { pending_fences = fences } in
        let r : Run Net F = record { state = s; sent = sent } in
        let r1 = next r s' in
        let r2 = next r1 s'' in
        let r3 = next r2 t in
        (
          next r3 t',
          send-then turns quiet r (record_placement name prep.standby_node_id) s' done
                (λ x.
                  and_then
                    (send turns x (record_replica_address name prep.standby_node_id prep.address))
                    (λ y.
                      and_then (send turns y (record_standby name prep.fresh_standby_node_id))
                        (λ z. send turns z (record_pending_fence name prep.old_node_id))))
                refl
              ∙ send-then turns quiet r1
                  (record_replica_address name prep.standby_node_id prep.address) s'' done
                  (λ y.
                    and_then (send turns y (record_standby name prep.fresh_standby_node_id))
                      (λ z. send turns z (record_pending_fence name prep.old_node_id)))
                  refl
              ∙ send-then turns quiet r2 (record_standby name prep.fresh_standby_node_id) t done
                  (λ z. send turns z (record_pending_fence name prep.old_node_id)) refl
              ∙ send_lem turns quiet r3 (record_pending_fence name prep.old_node_id) t' done refl,
          with_pending_fences t fences i3
              (Distinct-insert name prep.old_node_id s.pending_fences i.pending_fences),
          record {
            prep = prep;
            safe = safe;
            ready = ready;
            taken = taken;
            placed = get-insert_self name prep.standby_node_id s.placements;
            standby = get-insert_self name prep.fresh_standby_node_id s.standbys;
            fenced = get-insert_self name prep.old_node_id s.pending_fences;
          },
        )

    -- at the run that the first command leaves
    module _ (sent : ℕ) (i : IsSound s) where
      abbrev run : Run Net F
      run = record { state = s; sent = sent }

      unchanged : (status : ℕ) → IsAnswered (some (run, status))
      unchanged status = ((run, status), refl, i, inl refl)

      promoted-IsAnswered :
          (prep : ForceRepinPrep) (o : Option ℕ)
          → IsSafe s.registry s.placements s.services s.used_addresses s.standbys now name prep
          → is_success
              (forward prep.standby_addr (bytes "GET") (bytes "/replica-targets/" ++ name) [])
            ≡ true
          → forward prep.standby_addr
              (bytes "PUT")
              (jail_path name)
              (print_spec (promoted_spec name prep))
            ≡ o
          → IsAnswered (promoted run name prep o)
      promoted-IsAnswered prep none safe ready f = unchanged 500
      promoted-IsAnswered prep (some status) safe ready f' =
          elim (Bool-cases (is_success (some status))) [
            | inr e ↦ rw e (unchanged status)
            | inl e ↦
                let (t, f, j, m) = recorded sent prep i safe ready (ap is_success f' ∙ e) in
                rw (e, f) ((t, 200), refl, j, inr (refl, m))
          ]

      checked-IsAnswered :
          (prep : ForceRepinPrep) (o : Option ℕ)
          → IsSafe s.registry s.placements s.services s.used_addresses s.standbys now name prep
          → forward prep.standby_addr (bytes "GET") (bytes "/replica-targets/" ++ name) [] ≡ o
          → IsAnswered (checked run name prep o)
      checked-IsAnswered prep none safe g = unchanged 500
      checked-IsAnswered prep (some status) safe g = elim (Bool-cases (is_success (some status))) [
        | inl e ↦ rw e (
            promoted-IsAnswered prep
              (forward prep.standby_addr (bytes "PUT") (jail_path name)
                (print_spec (promoted_spec name prep)))
              safe (ap is_success g ∙ e) refl)
        | inr e ↦ rw e (elim (Bool-cases (status == 404 || status == 409)) [
          | inl f ↦ rw f (unchanged 409)
          | inr f ↦ rw f (unchanged 500)
        ])
      ]

      answered :
          (o : Result ForceRepinPrep ForceRepinError)
          → prepare_force_repin s.registry s.placements s.services s.used_addresses s.standbys now
              name
            ≡ o
          → IsAnswered (repin_answer run name o)
      answered (err e) h = unchanged (repin_status e)
      answered (ok prep) h =
          checked-IsAnswered prep
            (forward prep.standby_addr (bytes "GET") (bytes "/replica-targets/" ++ name) [])
            (prepare_force_repin-IsSafe s.registry s.placements s.services s.used_addresses
              s.standbys now name prep h)
            refl

  -- In a state with the invariant, and when what other threads send in between changes nothing, a
  -- forced repin meets no panic and keeps the invariant. Either nothing changes, or the answer is 200
  -- and the replica, whose repin was safe at the instant of the first command and whose standby
  -- confirmed a full copy and took the specification, is placed on its former standby, has the fresh standby, and its old node is owed a forced delete.
  pub handle_force_repin-IsAnswered :
      (quiet : IsQuiet turns Net) (r : Run Net F) (name : Str)
      → IsSound r.state
      → IsAnswered quiet r.state (instant_of turns r) name (handle_force_repin r name)
  unfolding handle_force_repin
  handle_force_repin-IsAnswered quiet r name i =
      let s = r.state in
      let now = instant_of turns r in
      let prep =
        prepare_force_repin s.registry s.placements s.services s.used_addresses s.standbys now
          name in
      subst (IsAnswered quiet s now name)
        (sym (
          ask-then turns quiet r
            (λ x t.
              prepare_force_repin x.registry x.placements x.services x.used_addresses x.standbys t
                name)
            (λ out. repin_answer out.0 name out.1)))
        (answered quiet s now name (suc r.sent) i prep refl)
