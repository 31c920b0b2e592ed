-- ===== src/Plane/Bookkeeping.antt =====
-- keel-controlplane/src/placements.rs, standbys.rs and pending_fences.rs: three maps from the name
-- of a jail or a replica to the name of a node.
use kubsd.Base.{
  true, ◌≡◌, ◌↔◌, List, [], ◌∷◌, some, if◌then◌else◌, Occurs, Bool-cases, inl, inr, ◌⊎◌, ap, sym,
}
use kubsd.Base.Dict
use kubsd.Base.Dict.{Dict, Distinct, Occurs-get, get_of_Occurs}
use kubsd.Base.Str.{Str, str_eq, str_eq_iff}

-- `Placements`, `Standbys` and `PendingFences` have one representation.
abbrev pub Placements : Type 0
Placements = Dict Str

abbrev pub Standbys : Type 0
Standbys = Dict Str

abbrev pub PendingFences : Type 0
PendingFences = Dict Str

-- `PendingFences::for_node`
unfoldable pub for_node : PendingFences → Str → List Str
for_node [] node_id = []
for_node ((name, owed_node) ∷ fences) node_id =
    let rest = for_node fences node_id in if str_eq owed_node node_id then name ∷ rest else rest

owed_here :
    (k n node_id name : Str) (fences : PendingFences)
    → str_eq n node_id ≡ true
    → (name ≡ k) ⊎ Occurs (name, node_id) fences
    → Occurs (name, node_id) ((k, n) ∷ fences)
owed_here k n node_id name fences e (inl p) = inl (cc (p, (str_eq_iff n node_id).0 e))
owed_here k n node_id name fences e (inr r) = inr r

owed_later :
    (k n node_id name : Str) (rest : List Str) (fences : PendingFences)
    → (Occurs (name, node_id) fences → Occurs name rest)
    → Occurs (name, node_id) ((k, n) ∷ fences)
    → Occurs name (if str_eq n node_id then k ∷ rest else rest)
owed_later k n node_id name rest fences f (inl p) =
    rw ((str_eq_iff n node_id).1 (sym (ap (λ (t : Str × Str). t.1) p)))
      (inl (ap (λ (t : Str × Str). t.0) p))
owed_later k n node_id name rest fences f (inr r) = elim (Bool-cases (str_eq n node_id)) [
  | inl e ↦ rw e (inr (f r))
  | inr e ↦ rw e (f r)
]

for_node-Occurs :
    (fences : PendingFences) (node_id name : Str)
    → Occurs name (for_node fences node_id)
    → Occurs (name, node_id) fences
unfolding for_node
for_node-Occurs [] node_id name o = absurd o
for_node-Occurs ((k, n) ∷ fences) node_id name o = elim (Bool-cases (str_eq n node_id)) [
  | inl e ↦
      let o' : (name ≡ k) ⊎ Occurs name (for_node fences node_id) = rw e at o in
      owed_here k n node_id name fences e
        (elim o' [ inl p ↦ inl p | inr r ↦ inr (for_node-Occurs fences node_id name r) ])
  | inr e ↦ inr (for_node-Occurs fences node_id name (rw e at o))
]

Occurs-for_node :
    (fences : PendingFences) (node_id name : Str)
    → Occurs (name, node_id) fences
    → Occurs name (for_node fences node_id)
unfolding for_node
Occurs-for_node [] node_id name o = absurd o
Occurs-for_node ((k, n) ∷ fences) node_id name o =
    owed_later k n node_id name (for_node fences node_id) fences
      (Occurs-for_node fences node_id name) o

-- `for_node` lists exactly the replicas that are recorded as owed a forced delete on the node.
pub for_node_iff :
    (fences : PendingFences) (node_id name : Str)
    → Distinct fences
    → Occurs name (for_node fences node_id) ↔ (Dict.get name fences ≡ some node_id)
for_node_iff fences node_id name d = (
  λ o. get_of_Occurs name node_id fences d (for_node-Occurs fences node_id name o),
  λ e. Occurs-for_node fences node_id name (Occurs-get name node_id fences e),
)
