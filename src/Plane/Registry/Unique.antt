-- ===== src/Plane/Registry/Unique.antt =====
-- The registry's invariant: every node has the block that its name derives, and no two nodes have
-- the same block.
use kubsd.Base.{
  ℕ, ◌≡◌, ◌≢◌, refl, ap, sym, false, List, Option, none, some, Result, ok, err, find, find-eq-some,
  find-eq-none, All-Occurs, Occurs, arith, some_inj,
}
use mathlib.Core.Option
use mathlib.Core.Path.{subst}
use kubsd.Base.Dict
use kubsd.Base.Dict.{Dict, Distinct, get-insert, Distinct-insert, Occurs-get, get_of_Occurs}
use kubsd.Base.Str.{Str, str_eq_iff, ne_of_str_eq}
use kubsd.Extern.{Ipnet}
use kubsd.Plane.Subnet.{derive_pod_cidr}
use kubsd.Plane.Registry.{
  NodeRecord, Registry, PodCidrCollision, JailHealth, register, register_at, register_entry,
  heartbeat_entry, heartbeat, heartbeat_record, conflicts, new_record, new_registry,
}

module _ {Net F : Type 0} ⦃ip : Ipnet Net⦄ where
  open ip use {net_eq, net_eq_iff, show}

  pub record IsUnique (r : Registry Net F) : Type 0 where
    pub distinct : Distinct r.nodes
    pub sole :
        (i j : Str) (m n : NodeRecord Net F)
        → Dict.get i r.nodes ≡ some m
        → Dict.get j r.nodes ≡ some n
        → m.pod_cidr ≡ n.pod_cidr
        → i ≡ j
    pub derived :
        (i : Str) (n : NodeRecord Net F)
        → Dict.get i r.nodes ≡ some n
        → derive_pod_cidr i r.cluster_cidr ≡ some n.pod_cidr

  pub new_registry-IsUnique : (net : Net) → IsUnique (new_registry net)
  unfolding Dict.get
  new_registry-IsUnique net = record {
    distinct = tt;
    sole = λ i j m n h k e. cc;
    derived = λ i n h. cc;
  }

  -- a node's record is replaced by one with the block that its name derives, which no other has
  insert-IsUnique :
      (r : Registry Net F) (id : Str) (node : NodeRecord Net F)
      → IsUnique r
      → derive_pod_cidr id r.cluster_cidr ≡ some node.pod_cidr
      → ((j : Str) (n : NodeRecord Net F)
          → Dict.get j r.nodes ≡ some n
          → n.pod_cidr ≡ node.pod_cidr
          → id ≡ j)
      → IsUnique (record r { nodes = Dict.insert id node r.nodes })
  insert-IsUnique r id node u d alone = record {
    distinct = Distinct-insert id node r.nodes u.distinct;
    sole = λ i j m n h k e. ground (
      arith,
      get-insert id i node r.nodes,
      get-insert id j node r.nodes,
      str_eq_iff id i,
      str_eq_iff id j,
      u.sole i j m n,
      alone i m,
      alone j n,
    );
    derived = λ i n h. ground (
      arith,
      get-insert id i node r.nodes,
      str_eq_iff id i,
      u.derived i n,
      ap (λ (t : Str). derive_pod_cidr t r.cluster_cidr) {x = id} {y = i},
    );
  }

  conflict_free :
      (id : Str) (net : Net) (r : Registry Net F)
      → find (conflicts id net) r.nodes ≡ none
      → (j : Str) (n : NodeRecord Net F) → Dict.get j r.nodes ≡ some n
      → n.pod_cidr ≡ net
      → id ≡ j
  conflict_free id net r f j n h e =
      let free =
        All-Occurs (λ a. conflicts id net a ≡ false) r.nodes (j, n)
          (find-eq-none (conflicts id net) r.nodes f) (Occurs-get j n r.nodes h) in
      ground (arith, free, (net_eq_iff n.pod_cidr net).1 e, str_eq_iff j id)

  module _ (zero_cpu : F) (r : Registry Net F) (id addr : Str) (replicate_addr : Option Str)
      (cpu : F) (memory now : ℕ) where
    -- What a registration that does not panic does: it refuses, names a node that has the block
    -- already and changes nothing, or it accepts and stores the node with its block.
    pub data Outcome : Registry Net F × Result Net PodCidrCollision → Type 0 where
      refused :
          (net : Net) (j : Str) (n : NodeRecord Net F)
          → derive_pod_cidr id r.cluster_cidr ≡ some net
          → Occurs (j, n) r.nodes
          → j ≢ id
          → n.pod_cidr ≡ net
          → Outcome (r, err (record { node_id = id; derived = show net; conflicting_node_id = j }))
      accepted :
          (net : Net)
          → derive_pod_cidr id r.cluster_cidr ≡ some net
          → ((j : Str) (n : NodeRecord Net F)
              → Dict.get j r.nodes ≡ some n
              → n.pod_cidr ≡ net
              → id ≡ j)
          → Outcome (
            record r {
              nodes =
                  Dict.insert id
                    (new_record addr replicate_addr cpu memory zero_cpu now net)
                    r.nodes;
            },
            ok net,
          )

    register_entry-Outcome :
        (net : Net) (o : Option (Str × NodeRecord Net F))
        → find (conflicts id net) r.nodes ≡ o
        → derive_pod_cidr id r.cluster_cidr ≡ some net
        → Outcome (register_entry zero_cpu r id addr replicate_addr cpu memory now net o)
    register_entry-Outcome net none e d = accepted net d (conflict_free id net r e)
    register_entry-Outcome net (some (j, n)) e d =
        let (t, o) = find-eq-some (conflicts id net) r.nodes (j, n) e in
        refused net j n d o (ne_of_str_eq j id (ground arith))
          ((net_eq_iff n.pod_cidr net).0 (ground arith))

    register_map :
        (o : Option Net) (out : Registry Net F × Result Net PodCidrCollision)
        → derive_pod_cidr id r.cluster_cidr ≡ o
        → Option.map (register_at zero_cpu r id addr replicate_addr cpu memory now) o ≡ some out
        → Outcome out
    register_map none out d h = cc
    register_map (some net) out d h =
        subst Outcome (some_inj h)
          (register_entry-Outcome net (find (conflicts id net) r.nodes) refl d)

    -- A registration that returns refuses the node and changes nothing, if a node of another name
    -- has the block that its name derives, and otherwise stores it with that block.
    pub register-Outcome :
        (out : Registry Net F × Result Net PodCidrCollision)
        → register zero_cpu r id addr replicate_addr cpu memory now ≡ some out
        → Outcome out
    unfolding register
    register-Outcome out h = register_map (derive_pod_cidr id r.cluster_cidr) out refl h

    Outcome-IsUnique :
        {out : Registry Net F × Result Net PodCidrCollision}
        → Outcome out
        → IsUnique r
        → IsUnique out.0
    Outcome-IsUnique (refused net j n d o ne e) u = u
    Outcome-IsUnique (accepted net d alone) u =
        insert-IsUnique r id (new_record addr replicate_addr cpu memory zero_cpu now net) u d alone

    -- Registering keeps the blocks of the nodes apart.
    pub register-IsUnique :
        (out : Registry Net F × Result Net PodCidrCollision)
        → register zero_cpu r id addr replicate_addr cpu memory now ≡ some out
        → IsUnique r
        → IsUnique out.0
    register-IsUnique out h u = Outcome-IsUnique (register-Outcome out h) u

  heartbeat_entry-IsUnique :
      (r : Registry Net F) (id : Str) (cpu : F) (memory : ℕ) (jails : List JailHealth) (now : ℕ)
      (o : Option (NodeRecord Net F))
      → Dict.get id r.nodes ≡ o
      → IsUnique r
      → IsUnique (heartbeat_entry r id cpu memory jails now o).0
  heartbeat_entry-IsUnique r id cpu memory jails now none e u = u
  heartbeat_entry-IsUnique r id cpu memory jails now (some n) e u =
      insert-IsUnique r id (heartbeat_record cpu memory jails now n) u (u.derived id n e)
        (λ j m h q. u.sole id j n m e h (sym q))

  -- A heartbeat keeps them apart too.
  pub heartbeat-IsUnique :
      (r : Registry Net F) (id : Str) (cpu : F) (memory : ℕ) (jails : List JailHealth) (now : ℕ)
      → IsUnique r
      → IsUnique (heartbeat r id cpu memory jails now).0
  unfolding heartbeat
  heartbeat-IsUnique r id cpu memory jails now u =
      heartbeat_entry-IsUnique r id cpu memory jails now (Dict.get id r.nodes) refl u
