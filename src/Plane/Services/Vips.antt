-- ===== src/Plane/Services/Vips.antt =====
-- The virtual addresses: no two services have the same, and a new service gets one if any is free.
use kubsd.Base.{
  ℕ, zero, suc, ◌+◌, ◌-◌, ◌^◌, ◌≤◌, ◌<◌, ◌≡◌, ◌≢◌, refl, ap, sym, ◌∙◌, true, false, List, [], ◌∷◌,
  none, some, arith, if◌then◌else◌, Occurs, Result, ok, err, ltb, Bool-cases, Option-cases, inl,
  inr, ◌⊎◌, some_inj, contains, ◌==◌, ==_iff, ltb→lt, ltb→ge,
}
use mathlib.Core.Path.{subst, ap₂}
use kubsd.Base.Dict
use kubsd.Base.Dict.{Dict, Distinct, get-insert, Distinct-insert, Occurs-get}
use kubsd.Base.Str.{Str, str_eq_iff}
use kubsd.Extern.{Ipnet}
use kubsd.Spec.Types.{JailTemplate}
use kubsd.Spec.Equality.{template_eq, template_eq_iff}
use kubsd.Plane.Subnet.{derive_service_vip, vip_at}
use kubsd.Plane.Subnet.Probing.{vip_at-inside, vip_at-reaches}
use kubsd.Plane.Services.{
  ServiceRecord, Services, ApplyServiceError, template_changed, port_changed, vip_pool_exhausted,
  probe, taken_vips, apply, store_service, new_services,
}

taken_vips-Occurs :
    (n : Str) (r : ServiceRecord) (m : Dict ServiceRecord)
    → Occurs (n, r) m
    → contains (taken_vips m) r.vip ≡ true
taken_vips-Occurs n r [] o = absurd o
taken_vips-Occurs n r ((k, q) ∷ m) o = elim o [
  | inl e ↦ ground (arith, ap (λ (t : Str × ServiceRecord). t.1.vip) e)
  | inr p ↦ ground (arith, taken_vips-Occurs n r m p)
]

module _ {Net : Type 0} ⦃ip : Ipnet Net⦄ where
  open ip use {network, prefix_len}

  -- an address of the network
  abbrev pub InNetwork : Net → ℕ → Type 0
  InNetwork net addr = (network net ≤ addr) × (addr < network net + 2 ^ (32 - prefix_len net))

  module _ (name : Str) (net : Net) (taken : List ℕ) (positive : 0 < prefix_len net) where
    derive_positive :
        (attempt : ℕ) → derive_service_vip name net attempt ≡ some (vip_at name net attempt)
    unfolding derive_service_vip
    derive_positive attempt = ground arith

    probe-suc :
        (left attempt : ℕ)
        → probe name net taken (suc left) attempt ≡ (
            if contains taken (vip_at name net attempt)
            then probe name net taken left (attempt + 1)
            else some (some (vip_at name net attempt)))
    unfolding probe
    probe-suc left attempt = rw (derive_positive attempt, probe)

    -- The probe returns; what it finds is the first candidate that is not taken.
    probe-first :
        (left attempt : ℕ)
        → ((a : ℕ) × (probe name net taken left attempt ≡ some (some (vip_at name net a)))
            × (contains taken (vip_at name net a) ≡ false))
          ⊎ ((probe name net taken left attempt ≡ some none)
              × ((a : ℕ)
                  → attempt ≤ a
                  → a < attempt + left
                  → contains taken (vip_at name net a) ≡ true))
    unfolding probe
    probe-first zero attempt = inr (refl, λ a l h. absurd (omega arith))
    probe-first (suc left) attempt =
        let rest = probe-first left (attempt + 1) in
        elim (Bool-cases (contains taken (vip_at name net attempt))) [
          | inl busy ↦
              rw (probe-suc left attempt, busy)
                (elim rest [
                  | inl found ↦ inl found
                  | inr (e, all) ↦
                      inr (e, λ a l h. from_next a attempt busy l (λ g. all a g (omega arith)))
                ])
          | inr free ↦ rw (probe-suc left attempt, free) (inl (attempt, refl, free))
        ]
      where
        from_next :
            (a b : ℕ)
            → contains taken (vip_at name net b) ≡ true
            → b ≤ a
            → (b + 1 ≤ a → contains taken (vip_at name net a) ≡ true)
            → contains taken (vip_at name net a) ≡ true
        from_next a b e l f = elim (Bool-cases (ltb b a)) [
          | inl lt ↦ f (omega (arith, ltb→lt b a lt))
          | inr ge ↦
              let q : a ≡ b = omega (arith, ltb→ge b a ge) in
              ap (λ (t : ℕ). contains taken (vip_at name net t)) q ∙ e
        ]

    -- Probing as often as the network has addresses finds an address of it that is not taken, and
    -- finds none only if every address of the network is taken.
    pub probe_complete :
        ((vip : ℕ) × (probe name net taken (2 ^ (32 - prefix_len net)) 0 ≡ some (some vip))
          × InNetwork net vip
          × (contains taken vip ≡ false))
        ⊎ ((probe name net taken (2 ^ (32 - prefix_len net)) 0 ≡ some none)
            × ((addr : ℕ) → InNetwork net addr → contains taken addr ≡ true))
    probe_complete = elim (probe-first (2 ^ (32 - prefix_len net)) 0) [
      | inl (a, e, free) ↦ inl (vip_at name net a, e, vip_at-inside name net a, free)
      | inr (e, all) ↦ inr (
        e,
        λ addr i.
            let (t, small, at) = vip_at-reaches name net addr i.0 i.1 in
            ap (contains taken) (sym at) ∙ all t (omega arith) (omega arith),
      )
    ]

  -- The services' names are distinct, their addresses lie in the service network, and no two
  -- services have the same.
  pub record IsAllocated (s : Services Net) : Type 0 where
    pub distinct : Distinct s.by_name
    pub sole :
        (i j : Str) (m n : ServiceRecord)
        → Dict.get i s.by_name ≡ some m
        → Dict.get j s.by_name ≡ some n
        → m.vip ≡ n.vip
        → i ≡ j
    pub inside :
        (i : Str) (m : ServiceRecord)
        → Dict.get i s.by_name ≡ some m
        → InNetwork s.service_cidr m.vip

  pub new_services-IsAllocated : (net : Net) → IsAllocated (new_services net)
  unfolding Dict.get
  new_services-IsAllocated net = record {
    distinct = tt;
    sole = λ i j m n h k e. cc;
    inside = λ i m h. cc;
  }

  module _ (s : Services Net) (name : Str) (desired : ℕ) (template : JailTemplate) (port : ℕ) where
    store-IsAllocated :
        (r : ServiceRecord)
        → IsAllocated s
        → InNetwork s.service_cidr r.vip
        → ((j : Str) (n : ServiceRecord) → Dict.get j s.by_name ≡ some n → n.vip ≡ r.vip → name ≡ j)
        → IsAllocated (store_service s name r)
    store-IsAllocated r a i alone = record {
      distinct = Distinct-insert name r s.by_name a.distinct;
      sole = λ k l m n h q e. ground (
        arith,
        get-insert name k r s.by_name,
        get-insert name l r s.by_name,
        str_eq_iff name k,
        str_eq_iff name l,
        a.sole k l m n,
        alone k m,
        alone l n,
      );
      inside = λ k m h. ground (arith, get-insert name k r s.by_name, a.inside k m, i);
    }

    abbrev with_vip : ℕ → ServiceRecord
    with_vip vip = record {
      desired_replicas = desired;
      template = template;
      vip = vip;
      port = port;
    }

    -- Applying a service that exists changes the number of replicas and nothing else, if its
    -- template and its port are the same; otherwise it is refused and nothing changes.
    pub apply_existing :
        (e : ServiceRecord)
        → Dict.get name s.by_name ≡ some e
        → ((apply s name desired template port
              ≡ some (store_service s name (record e { desired_replicas = desired }), ok tt))
            × (e.template ≡ template)
            × (e.port ≡ port))
          ⊎ (((apply s name desired template port ≡ some (s, err (template_changed name)))
                × (e.template ≢ template))
              ⊎ ((apply s name desired template port ≡ some (s, err (port_changed name)))
                  × (e.port ≢ port)))
    unfolding apply
    apply_existing e h = elim (Bool-cases (template_eq e.template template)) [
      | inl t ↦
          let same : e.template ≡ template = (template_eq_iff e.template template).0 t in
          elim (Bool-cases (e.port == port)) [
            | inl p ↦
                let equal : e.port ≡ port = (==_iff e.port port).0 p in
                inl (
                  rw (h, t, p)
                      (ap₂
                        (λ (u : JailTemplate) (v : ℕ).
                          let r : ServiceRecord = record {
                            desired_replicas = desired;
                            template = u;
                            vip = e.vip;
                            port = v;
                          } in
                          some (store_service s name r, ok tt))
                        (sym same) (sym equal)),
                  same,
                  equal,
                )
            | inr p ↦ inr (inr (rw (h, t, p), λ q. cc ((==_iff e.port port).1 q, p)))
          ]
      | inr t ↦ inr (inl (rw (h, t), λ q. cc ((template_eq_iff e.template template).1 q, t)))
    ]

    -- Applying a new service stores it with an address of the service network that no service has,
    -- and fails only if every address of the network is taken; then nothing changes.
    pub apply_new :
        Dict.get name s.by_name ≡ none
        → 0 < prefix_len s.service_cidr
        → ((vip : ℕ) × (apply s name desired template port
              ≡ some (store_service s name (with_vip vip), ok tt))
            × InNetwork s.service_cidr vip
            × (contains (taken_vips s.by_name) vip ≡ false))
          ⊎ ((apply s name desired template port ≡ some (s, err (vip_pool_exhausted name)))
              × ((addr : ℕ)
                  → InNetwork s.service_cidr addr
                  → contains (taken_vips s.by_name) addr ≡ true))
    unfolding apply
    apply_new h positive =
        elim (probe_complete name s.service_cidr (taken_vips s.by_name) positive) [
          | inl (vip, e, i, free) ↦ inl (vip, rw (h, e), i, free)
          | inr (e, all) ↦ inr (rw (h, e), all)
        ]

    carry :
        (x out : Services Net × Result (Unit {0}) ApplyServiceError)
        → apply s name desired template port ≡ some x
        → apply s name desired template port ≡ some out
        → IsAllocated x.0
        → IsAllocated out.0
    carry x out p q a = subst (λ y. IsAllocated y.0) (some_inj (sym p ∙ q)) a

    taken_other :
        (vip : ℕ)
        → contains (taken_vips s.by_name) vip ≡ false
        → (j : Str) (n : ServiceRecord) → Dict.get j s.by_name ≡ some n
        → n.vip ≡ vip
        → name ≡ j
    taken_other vip free j n h e =
        let busy = taken_vips-Occurs j n s.by_name (Occurs-get j n s.by_name h) in
        absurd (cc (ap (contains (taken_vips s.by_name)) e, busy, free))

    -- Applying a service keeps the addresses in the service network and apart.
    pub apply-IsAllocated :
        (out : Services Net × Result (Unit {0}) ApplyServiceError)
        → 0 < prefix_len s.service_cidr
        → IsAllocated s
        → apply s name desired template port ≡ some out
        → IsAllocated out.0
    apply-IsAllocated out positive a h = elim (Option-cases (Dict.get name s.by_name)) [
      | inl new ↦ elim (apply_new new positive) [
        | inl (vip, e, i, free) ↦
            carry (store_service s name (with_vip vip), ok tt) out e h
              (store-IsAllocated (with_vip vip) a i (taken_other vip free))
        | inr (e, all) ↦ carry (s, err (vip_pool_exhausted name)) out e h a
      ]
      | inr (r, old) ↦ elim (apply_existing r old) [
        | inl (e, t, p) ↦
            carry (store_service s name (record r { desired_replicas = desired }), ok tt) out e h
              (store-IsAllocated (record r { desired_replicas = desired }) a (a.inside name r old)
                (λ j n g q. a.sole name j r n old g (sym q)))
        | inr (inl (e, t)) ↦ carry (s, err (template_changed name)) out e h a
        | inr (inr (e, t)) ↦ carry (s, err (port_changed name)) out e h a
      ]
    ]
