-- ===== src/Plane/Http/Scheduled.antt =====
-- keel-controlplane/src/http.rs: the requests on a jail whose node the worker finds, `PUT`, `GET` and
-- `DELETE` on jails/name, with the status of their responses. The bodies of the responses are left
-- out.
use kubsd.Base.{
  suc, sym, ap, ◌∙◌, and_then, ℕ, ◌≡◌, ◌≢◌, refl, ◌⊎◌, inl, inr, true, false, [], Option, none,
  some, Result, ok, err, Bool-cases, if◌then◌else◌,
}
use mathlib.Core.Option
use mathlib.Core.Path.{subst}
use kubsd.Base.Dict
use kubsd.Base.Dict.{Distinct-insert, Distinct-remove, get-insert_self, get-remove}
use kubsd.Base.Str.{Str, bytes}
use kubsd.Extern.{Float, Ipnet}
use kubsd.Plane.Services.{Owner, unmanaged, service, owner_of}
use kubsd.Plane.Worker.Types.{
  ScheduleOrResolveError, schedule_failed, resolve_failed, PlacementError,
}
use kubsd.Plane.Worker.Nodes.{resolve_or_schedule, resolve_placement}
use kubsd.Plane.Worker.Handle.{State, handle, done, record_placement, remove_placement}
use kubsd.Plane.Worker.Sound.{IsSound, with_placements}
use kubsd.Plane.Http.Quiet.{IsQuiet, next, send_lem, ask-then}
use kubsd.Plane.Http.{Turn, Run, ask, Forward, is_success, jail_path, send}

abbrev pub schedule_status : ScheduleOrResolveError → ℕ
schedule_status (schedule_failed e) = 503
schedule_status (resolve_failed e) = 404

-- the status of what the node answers, which may not be reached
abbrev pub node_status : Option ℕ → ℕ
node_status none = 500
node_status (some status) = status

abbrev pub owner_status : Option Owner → Option ℕ
owner_status none = none
owner_status (some unmanaged) = none
owner_status (some (service name)) = some 400

abbrev pub read_answer : Forward → Str → Result (Str × Str) PlacementError → ℕ
read_answer forward name (err e) = 404
read_answer forward name (ok (node_id, addr)) =
    node_status (forward addr (bytes "GET") (jail_path name) [])

map_then :
    {A B C : Type 0} (f : A → B) (o : Option A) (k : B → Option C)
    → and_then (Option.map f o) k ≡ and_then o (λ a. k (f a))
map_then f none k = refl
map_then f (some a) k = refl

module _ {Net F : Type 0} ⦃ip : Ipnet Net⦄ ⦃fl : Float F⦄ (forward : Forward)
    (turns : ℕ → Turn F) where
  -- what follows the node's answer to the specification
  abbrev pub applied_on : Run Net F → Str → Str → Option ℕ → Option (Run Net F × ℕ)
  applied_on r name node_id o =
      if is_success o
      then Option.map (λ t. (t, node_status o)) (send turns r (record_placement name node_id))
      else some (r, node_status o)

  abbrev pub apply_answer :
      Str → Str → Run Net F → Result (Str × Str) ScheduleOrResolveError → Option (Run Net F × ℕ)
  apply_answer name body r (err e) = some (r, schedule_status e)
  apply_answer name body r (ok (node_id, addr)) =
      applied_on r name node_id (forward addr (bytes "PUT") (jail_path name) body)

  unfoldable pub handle_scheduled_apply : Run Net F → Str → Str → Option (Run Net F × ℕ)
  unfolding send ask
  handle_scheduled_apply r name body =
      and_then (ask turns r (λ s now. resolve_or_schedule s.registry s.placements now name))
        (λ out. apply_answer name body out.0 out.1)

  unfoldable pub handle_scheduled_read : Run Net F → Str → Option (Run Net F × ℕ)
  unfolding ask
  handle_scheduled_read r name =
      Option.map (λ out. (out.0, read_answer forward name out.1))
        (ask turns r (λ s now. resolve_placement s.registry s.placements now name))

  abbrev pub deleted_on : Run Net F → Str → Option ℕ → Option (Run Net F × ℕ)
  deleted_on r name o =
      if is_success o
      then Option.map (λ t. (t, node_status o)) (send turns r (remove_placement name))
      else some (r, node_status o)

  abbrev pub delete_answer :
      Str → Run Net F → Result (Str × Str) PlacementError → Option (Run Net F × ℕ)
  delete_answer name r (err e) = some (r, 404)
  delete_answer name r (ok (node_id, addr)) =
      deleted_on r name (forward addr (bytes "DELETE") (jail_path name) [])

  unfoldable pub handle_scheduled_delete : Run Net F → Str → Option (Run Net F × ℕ)
  unfolding send ask
  handle_scheduled_delete r name =
      and_then (ask turns r (λ s now. resolve_placement s.registry s.placements now name))
        (λ out. delete_answer name out.0 out.1)

  -- the status of the refusal of a name that a service owns
  unfoldable pub reject_if_service_owned : Run Net F → Str → Option (Run Net F × Option ℕ)
  unfolding ask
  reject_if_service_owned r name =
      Option.map (λ out. (out.0, owner_status out.1))
        (ask turns r (λ s now. owner_of name s.placements s.services))

  abbrev pub unless_rejected : Str → Str → Run Net F → Option ℕ → Option (Run Net F × ℕ)
  unless_rejected name body r (some status) = some (r, status)
  unless_rejected name body r none = handle_scheduled_apply r name body

  -- the route `PUT` of jails/name
  unfoldable pub put_jail : Run Net F → Str → Str → Option (Run Net F × ℕ)
  unfolding handle_scheduled_apply reject_if_service_owned
  put_jail r name body =
      and_then (reject_if_service_owned r name) (λ out. unless_rejected name body out.0 out.1)

  module _ (quiet : IsQuiet turns Net) (s : State Net F) (now : ℕ) (name body : Str) where
    -- the node that the worker names has taken the jail, and the placement is recorded
    abbrev pub IsApplied : State Net F × ℕ → Type 0
    IsApplied (t, status) =
        (node_id : Str) × (addr : Str) × (resolve_or_schedule s.registry s.placements now name
          ≡ ok (node_id, addr))
        × (forward addr (bytes "PUT") (jail_path name) body ≡ some status)
        × (t ≡ record s { placements = Dict.insert name node_id s.placements })

    -- no service owns the name
    abbrev pub IsFree : Type 0
    IsFree = (other : Str) → owner_of name s.placements s.services ≢ some (service other)

    -- the answer is no success and nothing has changed, or it is one and the jail is placed
    abbrev pub IsPut : Option (Run Net F × ℕ) → Type 0
    IsPut o =
        (out : Run Net F × ℕ) × (o ≡ some out)
        × IsSound out.0.state
        × (((out.0.state ≡ s) × (is_success (some out.1) ≡ false))
            ⊎ ((is_success (some out.1) ≡ true) × IsFree × IsApplied (out.0.state, out.1)))

    module _ (i : IsSound s) where
      -- at any number of commands that the thread has sent
      abbrev at : ℕ → Run Net F
      at sent = record { state = s; sent = sent }

      refused :
          (sent status : ℕ) → is_success (some status) ≡ false → IsPut (some (at sent, status))
      refused sent status f = ((at sent, status), refl, i, inl (refl, f))

      applied_on-IsPut :
          (sent : ℕ) (node_id addr : Str) (o : Option ℕ)
          → IsFree
          → resolve_or_schedule s.registry s.placements now name ≡ ok (node_id, addr)
          → forward addr (bytes "PUT") (jail_path name) body ≡ o
          → IsPut (applied_on (at sent) name node_id o)
      unfolding handle
      applied_on-IsPut sent node_id addr none free r f = refused sent 500 refl
      applied_on-IsPut sent node_id addr (some status) free r f =
          let placements = Dict.insert name node_id s.placements in
          let s' = record s { placements = placements } in
          elim (Bool-cases (is_success (some status))) [
            | inr e ↦ rw e (refused sent status e)
            | inl e ↦
                rw (e, send_lem turns quiet (at sent) (record_placement name node_id) s' done refl)
                  (
                    (next (at sent) s', status),
                    refl,
                    with_placements s placements i
                        (Distinct-insert name node_id s.placements i.placements),
                    inr (e, free, (node_id, addr, r, f, refl)),
                  )
          ]

      apply_answer-IsPut :
          (sent : ℕ) (o : Result (Str × Str) ScheduleOrResolveError)
          → IsFree
          → resolve_or_schedule s.registry s.placements now name ≡ o
          → IsPut (apply_answer name body (at sent) o)
      apply_answer-IsPut sent (err (schedule_failed e)) free h = refused sent 503 refl
      apply_answer-IsPut sent (err (resolve_failed e)) free h = refused sent 404 refl
      apply_answer-IsPut sent (ok (node_id, addr)) free h =
          applied_on-IsPut sent node_id addr (forward addr (bytes "PUT") (jail_path name) body) free
            h refl

      scheduled_apply-IsPut :
          (sent : ℕ)
          → (turns sent).instant ≡ now
          → IsFree
          → IsPut (handle_scheduled_apply (at sent) name body)
      unfolding handle_scheduled_apply
      scheduled_apply-IsPut sent e free =
          subst IsPut
            (sym (
              ask-then turns quiet (at sent)
                (λ x t. resolve_or_schedule x.registry x.placements t name)
                (λ out. apply_answer name body out.0 out.1)))
            (apply_answer-IsPut (suc sent)
              (resolve_or_schedule s.registry s.placements (turns sent).instant name) free
              (ap (λ t. resolve_or_schedule s.registry s.placements t name) (sym e)))

      unless_rejected-IsPut :
          (sent : ℕ) (o : Option Owner)
          → (turns sent).instant ≡ now
          → owner_of name s.placements s.services ≡ o
          → IsPut (unless_rejected name body (at sent) (owner_status o))
      unless_rejected-IsPut sent none e h = scheduled_apply-IsPut sent e (λ other f. cc)
      unless_rejected-IsPut sent (some unmanaged) e h = scheduled_apply-IsPut sent e (λ other f. cc)
      unless_rejected-IsPut sent (some (service other)) e h = refused sent 400 refl

  -- In a state with the invariant, and when what other threads send in between changes nothing, a
  -- request to put a jail meets no panic and keeps the invariant. Either it is not answered with
  -- success and nothing has changed, or it is: then no service owns the name, the node that the worker
  -- named for the jail, at the instant of the second command, gave that answer, and the placement on
  -- this node is recorded, which is all that has changed.
  pub put_jail-IsPut :
      (quiet : IsQuiet turns Net) (r : Run Net F) (name body : Str)
      → IsSound r.state
      → IsPut quiet r.state (turns (suc r.sent)).instant name body (put_jail r name body)
  unfolding put_jail reject_if_service_owned
  put_jail-IsPut quiet r name body i =
      let s = r.state in
      let now = (turns (suc r.sent)).instant in
      let o = owner_of name s.placements s.services in
      subst (IsPut quiet s now name body)
        (sym (
          map_then (λ (out : Run Net F × Option Owner). (out.0, owner_status out.1))
            (ask turns r (λ x t. owner_of name x.placements x.services))
            (λ out. unless_rejected name body out.0 out.1)
          ∙ ask-then turns quiet r (λ x t. owner_of name x.placements x.services)
              (λ out. unless_rejected name body out.0 (owner_status out.1))))
        (unless_rejected-IsPut quiet s now name body i (suc r.sent) o refl refl)
