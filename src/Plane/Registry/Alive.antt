-- ===== src/Plane/Registry/Alive.antt =====
-- When a node counts as alive, and that `list` and `resolve` agree on it.
use kubsd.Base.{
  ℕ, ◌-◌, ◌/◌, ◌<◌, ◌≡◌, refl, ap, true, List, [], ◌∷◌, map, Option, none, some, ok, err, All,
  All-each, Occurs, arith, ltb, if◌then◌else◌, inl, inr,
}
use kubsd.Base.Dict
use kubsd.Base.Dict.{Dict, Distinct, get-insert_self, Occurs-get, get_of_Occurs}
use kubsd.Base.Sort.{All-sort, Occurs-sort}
use kubsd.Base.Str.{Str}
use kubsd.Extern.{Ipnet}
use kubsd.Plane.Registry.{
  NodeRecord, Registry, NodeStatus, JailHealth, heartbeat, heartbeat_entry, resolve, resolve_record,
  list, status_of, dead_threshold, nanos, dead, is_alive,
}

module _ {Net F : Type 0} where
  -- For a known node, a heartbeat at `t` makes it resolve, to its address, at every instant that is
  -- less than 15 seconds later; from then on it is dead, and the error has the seconds since `t`.
  pub heartbeat-resolve :
      (r : Registry Net F) (id : Str) (cpu : F) (memory : ℕ) (jails : List JailHealth) (t now : ℕ)
      (n : NodeRecord Net F)
      → Dict.get id r.nodes ≡ some n
      → resolve (heartbeat r id cpu memory jails t).0 id now
        ≡ (if ltb (now - t) dead_threshold then ok n.addr else err (dead id ((now - t) / nanos)))
  unfolding heartbeat resolve
  heartbeat-resolve r id cpu memory jails t now n e =
      rw (e, heartbeat_entry) (rw get-insert_self (ground arith))

  resolve_record-eq-ok :
      (id : Str) (now : ℕ) (addr : Str) (o : Option (NodeRecord Net F))
      → resolve_record id now o ≡ ok addr
      → (n : NodeRecord Net F) × (o ≡ some n)
        × (n.addr ≡ addr)
        × (now - n.last_heartbeat < dead_threshold)
  resolve_record-eq-ok id now addr none h = cc
  resolve_record-eq-ok id now addr (some n) h = (n, refl, ground arith, ground arith)

  pub resolve-eq-ok :
      (r : Registry Net F) (id addr : Str) (now : ℕ)
      → resolve r id now ≡ ok addr
      → (n : NodeRecord Net F) × (Dict.get id r.nodes ≡ some n)
        × (n.addr ≡ addr)
        × (now - n.last_heartbeat < dead_threshold)
  unfolding resolve
  resolve-eq-ok r id addr now h = resolve_record-eq-ok id now addr (Dict.get id r.nodes) h

  pub resolve_fresh :
      (r : Registry Net F) (id : Str) (now : ℕ) (n : NodeRecord Net F)
      → Dict.get id r.nodes ≡ some n
      → now - n.last_heartbeat < dead_threshold
      → resolve r id now ≡ ok n.addr
  unfolding resolve
  resolve_fresh r id now n e h = rw e (ground arith)

module _ {Net F : Type 0} ⦃ip : Ipnet Net⦄ (r : Registry Net F) (now : ℕ) where
  -- a status that is listed alive resolves to the listed address
  abbrev pub Resolves : NodeStatus F → Type 0
  Resolves s = is_alive s.status ≡ true → resolve r s.id now ≡ ok s.addr

  status_of-Resolves :
      (id : Str) (n : NodeRecord Net F)
      → Dict.get id r.nodes ≡ some n
      → Resolves (status_of now (id, n))
  unfolding status_of
  status_of-Resolves id n e h = resolve_fresh r id now n e (ground arith)

  All-status_of :
      (entries : Dict (NodeRecord Net F))
      → All (λ e. Resolves (status_of now e)) entries
      → All Resolves (map (status_of now) entries)
  All-status_of [] h = tt
  All-status_of (e ∷ entries) h = (h.0, All-status_of entries h.1)

  -- If the nodes' names are distinct, every node that `list` gives as alive resolves, at that instant,
  -- to the address in the list.
  pub list-Resolves : Distinct r.nodes → All Resolves (list r now)
  unfolding list
  list-Resolves d =
      All-sort (λ s. s.id) Resolves (map (status_of now) r.nodes)
        (All-status_of r.nodes (
          All-each (λ e. Resolves (status_of now e)) r.nodes
            (λ e o. status_of-Resolves e.0 e.1 (get_of_Occurs e.0 e.1 r.nodes d o))))

  Occurs-status_of :
      (e : Str × NodeRecord Net F) (entries : Dict (NodeRecord Net F))
      → Occurs e entries
      → Occurs (status_of now e) (map (status_of now) entries)
  Occurs-status_of e [] o = absurd o
  Occurs-status_of e (x ∷ entries) o = elim o [
    | inl p ↦ inl (ap (status_of now) p)
    | inr q ↦ inr (Occurs-status_of e entries q)
  ]

  -- Every node that resolves is listed, as alive.
  pub resolve-listed :
      (id addr : Str)
      → resolve r id now ≡ ok addr
      → (s : NodeStatus F) × Occurs s (list r now) × (s.id ≡ id) × (is_alive s.status ≡ true)
  unfolding list status_of
  resolve-listed id addr h =
      let (n, e, a, fresh) = resolve-eq-ok r id addr now h in
      (
        status_of now (id, n),
        Occurs-sort (λ s. s.id) (status_of now (id, n)) (map (status_of now) r.nodes)
            (Occurs-status_of (id, n) r.nodes (Occurs-get id n r.nodes e)),
        refl,
        ground arith,
      )
