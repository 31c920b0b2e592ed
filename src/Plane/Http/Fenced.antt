-- ===== src/Plane/Http/Fenced.antt =====
-- keel-controlplane/src/http.rs: which fences are cleared when a node's heartbeat comes in.
use kubsd.Base.{
  ℕ, suc, ◌≡◌, refl, ap, ◌∙◌, Bool, true, false, List, [], ◌∷◌, Option, none, some, some_inj, ◌↔◌,
  arith, Occurs, Bool-cases, inl, inr, if◌then◌else◌, to_option, ◌&&◌, ◌||◌,
}
use mathlib.Core.Path.{subst}
use kubsd.Base.Dict
use kubsd.Base.Dict.{Distinct, get-remove}
use kubsd.Base.Str.{Str, bytes, str_eq, str_eq_iff}
use kubsd.Extern.{Float, Ipnet}
use kubsd.Spec.Types.{JailSpec}
use kubsd.Spec.Volumes.{has}
use kubsd.Plane.Bookkeeping.{PendingFences, for_node, for_node_iff}
use kubsd.Plane.Registry.{resolve}
use kubsd.Plane.Worker.Handle.{handle, done, remove_pending_fence}
use kubsd.Plane.Http.Quiet.{IsQuiet, next, send_lem, ask-then}
use kubsd.Plane.Http.{
  Turn, Run, instant_of, fence_names, Forward, is_gone, jail_path, execute_fences, fence_at,
  check_and_execute_fencing,
}

-- whether a replica's jail is gone from the node at the address
abbrev pub is_deleted : Forward → Str → Str → Bool
is_deleted forward addr replica_name =
    is_gone (forward addr (bytes "DELETE") (jail_path replica_name) [])

has-Occurs : (xs : List Str) (k : Str) → (has xs k ≡ true) ↔ Occurs k xs
has-Occurs [] k = (λ h. cc, λ o. absurd o)
has-Occurs (x ∷ xs) k = (
  λ h. ground (arith, str_eq_iff x k, (has-Occurs xs k).0),
  λ o. ground (arith, str_eq_iff x k, (has-Occurs xs k).1),
)

-- whether the replica is owed a forced delete on the node
abbrev pub is_owed : Str → Option Str → Bool
is_owed node_id none = false
is_owed node_id (some owed_node) = str_eq owed_node node_id

is_owed_iff : (node_id : Str) (o : Option Str) → (is_owed node_id o ≡ true) ↔ (o ≡ some node_id)
is_owed_iff node_id none = (λ h. cc, λ h. cc)
is_owed_iff node_id (some n) =
    (λ h. ap some ((str_eq_iff n node_id).0 h), λ h. (str_eq_iff n node_id).1 (some_inj h))

bool_ext : (a b : Bool) → (a ≡ true → b ≡ true) → (b ≡ true → a ≡ true) → a ≡ b
bool_ext a b f g = ground (arith, f, g)

has-for_node :
    (fences : PendingFences) (node_id k : Str)
    → Distinct fences
    → has (for_node fences node_id) k ≡ is_owed node_id (Dict.get k fences)
has-for_node fences node_id k d =
    bool_ext (has (for_node fences node_id) k) (is_owed node_id (Dict.get k fences))
      (λ h.
        (is_owed_iff node_id (Dict.get k fences)).1
          ((for_node_iff fences node_id k d).0 ((has-Occurs (for_node fences node_id) k).0 h)))
      (λ h.
        (has-Occurs (for_node fences node_id) k).1
          ((for_node_iff fences node_id k d).1 ((is_owed_iff node_id (Dict.get k fences)).0 h)))

-- the same, of a node that may not resolve
abbrev pub is_deleted_at : Forward → Option Str → Str → Bool
is_deleted_at forward none replica_name = false
is_deleted_at forward (some addr) replica_name = is_deleted forward addr replica_name

-- one name more
clear_one :
    {A : Type 0} (name k : Str) (rest : Bool) (gone : Str → Bool) (o : Option A)
    → gone name ≡ true
    → (if rest && gone k then none else (if str_eq name k then none else o))
      ≡ (if (str_eq name k || rest) && gone k then none else o)
clear_one name k rest gone o e = elim (Bool-cases (str_eq name k)) [
  | inl q ↦ rw (q, subst (λ t. gone t ≡ true) ((str_eq_iff name k).0 q) e) (ground arith)
  | inr q ↦ rw q
]

keep_one :
    {A : Type 0} (name k : Str) (rest : Bool) (gone : Str → Bool) (o : Option A)
    → gone name ≡ false
    → (if rest && gone k then none else o) ≡ (if (str_eq name k || rest) && gone k then none else o)
keep_one name k rest gone o e = elim (Bool-cases (str_eq name k)) [
  | inl q ↦ rw (q, subst (λ t. gone t ≡ false) ((str_eq_iff name k).0 q) e) (ground arith)
  | inr q ↦ rw q
]

module _ {Net F : Type 0} ⦃ip : Ipnet Net⦄ ⦃fl : Float F⦄ (forward : Forward)
    (print_spec : JailSpec → Str) (turns : ℕ → Turn F) (quiet : IsQuiet turns Net) where
  -- the fences of the names that a test selects are cleared, and the others stay
  abbrev IsCleared : Run Net F → (Str → Bool) → Option (Run Net F) → Type 0
  IsCleared r test o =
      (t : Run Net F) × (o ≡ some t)
      × ((k : Str)
          → Dict.get k t.state.pending_fences
            ≡ (if test k then none else Dict.get k r.state.pending_fences))

  -- The fences after a loop over the names: those of a name whose jail is gone are cleared.
  execute_fences-IsCleared :
      (addr : Str) (r : Run Net F) (names : List Str)
      → IsCleared r
          (λ k. has names k && is_deleted forward addr k)
          (execute_fences forward print_spec turns addr r names)
  unfolding execute_fences handle
  execute_fences-IsCleared addr r [] = (r, refl, λ k. refl)
  execute_fences-IsCleared addr r (name ∷ names) =
      elim (Bool-cases (is_deleted forward addr name)) [
        | inl e ↦
            let s' = record r.state { pending_fences = Dict.remove name r.state.pending_fences } in
            let (t, p, h) = execute_fences-IsCleared addr (next r s') names in
            (
              t,
              rw (e, send_lem turns quiet r (remove_pending_fence name) s' done refl) p,
              λ k.
                  h k
                  ∙ rw (get-remove name k r.state.pending_fences) (
                      clear_one name k (has names k) (is_deleted forward addr)
                        (Dict.get k r.state.pending_fences) e),
            )
        | inr e ↦
            let (t, p, h) = execute_fences-IsCleared addr r names in
            (
              t,
              rw e p,
              λ k.
                  h k
                  ∙ keep_one name k (has names k) (is_deleted forward addr)
                      (Dict.get k r.state.pending_fences) e,
            )
      ]

  fence_at-IsCleared :
      (r : Run Net F) (names : List Str) (o : Option Str)
      → IsCleared r
          (λ k. has names k && is_deleted_at forward o k)
          (fence_at forward print_spec turns r names o)
  fence_at-IsCleared r names none = (r, refl, λ k. ground arith)
  fence_at-IsCleared r names (some addr) = execute_fences-IsCleared addr r names

  fence_names-IsCleared :
      (node_id : Str) (r : Run Net F) (names : List Str)
      → IsCleared r
          (λ k.
            has names k
            && is_deleted_at forward
                (to_option (resolve r.state.registry node_id (instant_of turns r)))
                k)
          (fence_names forward print_spec turns node_id r names)
  fence_names-IsCleared node_id r [] = (r, refl, λ k. refl)
  fence_names-IsCleared node_id r (name ∷ names) =
      let o = to_option (resolve r.state.registry node_id (instant_of turns r)) in
      let (t, p, h) = fence_at-IsCleared (next r r.state) (name ∷ names) o in
      (
        t,
        ask-then turns quiet r (λ s now. to_option (resolve s.registry node_id now))
              (λ out. fence_at forward print_spec turns out.0 (name ∷ names) out.1)
            ∙ p,
        h,
      )

  -- With one fence for a replica at most, and when what other threads send in between changes
  -- nothing, checking a node's fences meets no panic and clears exactly the fences of the replicas
  -- that are owed a forced delete on the node and whose delete the node, at the address it resolves to
  -- when the second command is handled, answers with success or 404. All others stay as they are, and
  -- all of them if the node does not resolve.
  pub check_and_execute_fencing-clears :
      (r : Run Net F) (node_id : Str)
      → Distinct r.state.pending_fences
      → (t : Run Net F) × (check_and_execute_fencing forward print_spec turns r node_id ≡ some t)
        × ((k : Str)
            → Dict.get k t.state.pending_fences ≡ (
                if is_owed node_id (Dict.get k r.state.pending_fences)
                  && is_deleted_at forward
                      (to_option (resolve r.state.registry node_id (turns (suc r.sent)).instant))
                      k
                then none
                else Dict.get k r.state.pending_fences))
  unfolding check_and_execute_fencing
  check_and_execute_fencing-clears r node_id d =
      let s = r.state in
      let o = to_option (resolve s.registry node_id (turns (suc r.sent)).instant) in
      let (t, p, h) =
        fence_names-IsCleared node_id (next r s) (for_node s.pending_fences node_id) in
      (
        t,
        ask-then turns quiet r (λ x now. for_node x.pending_fences node_id)
              (λ out. fence_names forward print_spec turns node_id out.0 out.1)
            ∙ p,
        λ k.
            h k
            ∙ ap (λ b. if b && is_deleted_at forward o k then none else Dict.get k s.pending_fences)
                (has-for_node s.pending_fences node_id k d),
      )
