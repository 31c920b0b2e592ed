-- ===== src/Plane/Scheduler.antt =====
-- keel-controlplane/src/scheduler.rs: the node with the most headroom.
use kubsd.Base.{
  ℕ, ◌≡◌, refl, ap, sym, ◌∙◌, ok-injective, ◌↔◌, ◌⊎◌, inl, inr, Bool, true, false, ◌&&◌, ◌||◌, List,
  [], ◌∷◌, Option, none, some, ltb, ◌<◌, All-weaken, if◌then◌else◌, Result, ok, err, ok_or, All,
  Occurs, Bool-cases, arith, map,
}
use mathlib.Core.Option
use mathlib.Core.Path.{subst, ap₂}
use kubsd.Base.Str.{Str, str_lt, str_lt_irrefl, str_lt_trans}
use kubsd.Extern.{Float}

pub data ScheduleError : Type 0 where
  no_available_nodes : ScheduleError

pub record NodeResources (F : Type 0) : Type 0 where
  pub id : Str
  pub capacity_cpu : F
  pub capacity_memory : ℕ
  pub committed_cpu : F
  pub committed_memory : ℕ

module _ {F : Type 0} ⦃fl : Float F⦄ where
  open fl use {gt, feq, sub, div, fmin, of_u64, f_zero}

  unfoldable pub headroom_score : NodeResources F → F
  headroom_score n =
      let cpu_frac =
        if gt n.capacity_cpu f_zero
        then div (sub n.capacity_cpu n.committed_cpu) n.capacity_cpu
        else f_zero in
      let mem_frac =
        if ltb 0 n.capacity_memory
        then div (sub (of_u64 n.capacity_memory) (of_u64 n.committed_memory))
            (of_u64 n.capacity_memory)
        else f_zero in
      fmin cpu_frac mem_frac

  -- a higher score, or the same score and a smaller name
  unfoldable pub better : F × Str → F × Str → Bool
  better candidate current =
      gt candidate.0 current.0 || (feq candidate.0 current.0 && str_lt candidate.1 current.1)

  -- the function that `fold` applies
  abbrev pub choose : Option (F × Str) → F × Str → Option (F × Str)
  choose none candidate = some candidate
  choose (some current) candidate =
      if better candidate current then some candidate else some current

  unfoldable pub fold : Option (F × Str) → List (F × Str) → Option (F × Str)
  fold best [] = best
  fold best (candidate ∷ rest) = fold (choose best candidate) rest

  abbrev pub scored : NodeResources F → F × Str
  scored n = (headroom_score n, n.id)

  unfoldable pub pick_node : List (NodeResources F) → Result Str ScheduleError
  unfolding fold
  pick_node nodes = ok_or no_available_nodes (Option.map (λ p. p.1) (fold none (map scored nodes)))

  better_irrefl : (a : F × Str) → better a a ≡ false
  unfolding better
  better_irrefl a = ground (arith, fl.gt_irrefl a.0, str_lt_irrefl a.1)

  better_trans : (a b c : F × Str) → better a b ≡ true → better b c ≡ true → better a c ≡ true
  unfolding better
  better_trans a b c h k = ground (
    arith,
    fl.gt_trans a.0 b.0 c.0,
    fl.gt_feq a.0 b.0 c.0,
    fl.feq_gt a.0 b.0 c.0,
    fl.feq_trans a.0 b.0 c.0,
    str_lt_trans a.1 b.1 c.1,
  )

  -- what is not better than `b` is not better than what beats `b`
  not_better : (a b c : F × Str) → better a b ≡ false → better c b ≡ true → better a c ≡ false
  not_better a b c h k = elim (Bool-cases (better a c)) [
    | inl e ↦ cc (better_trans a c b e k)
    | inr e ↦ e
  ]

  -- The fold ends at a candidate that none of the others beats.
  fold-best :
      (cs : List (F × Str)) (best : F × Str)
      → (w : F × Str) × (fold (some best) cs ≡ some w)
        × ((w ≡ best) ⊎ Occurs w cs)
        × All (λ c. better c w ≡ false) (best ∷ cs)
        × ((a : F × Str) → better a best ≡ false → better a w ≡ false)
  unfolding fold
  fold-best [] best = (best, refl, inl refl, (better_irrefl best, tt), λ a h. h)
  fold-best (c ∷ cs) best = elim (Bool-cases (better c best)) [
    | inl e ↦
        let (w, p, q, h, m) = fold-best cs c in
        let keep : better best w ≡ false = m best (not_better best best c (better_irrefl best) e) in
        (
          w,
          rw e p,
          elim q [ inl x ↦ inr (inl x) | inr r ↦ inr (inr r) ],
          (keep, h),
          λ a n. m a (not_better a best c n e),
        )
    | inr e ↦
        let (w, p, q, h, m) = fold-best cs best in
        (w, rw e p, elim q [ inl x ↦ inl x | inr r ↦ inr (inr r) ], (h.0, (m c e, h.1)), m)
  ]

  All-scored :
      (w : F × Str) (nodes : List (NodeResources F))
      → All (λ c. better c w ≡ false) (map scored nodes)
      → All (λ n. better (scored n) w ≡ false) nodes
  All-scored w [] h = tt
  All-scored w (n ∷ nodes) h = (h.0, All-scored w nodes h.1)

  Occurs-scored :
      (w : F × Str) (nodes : List (NodeResources F))
      → Occurs w (map scored nodes)
      → (n : NodeResources F) × Occurs n nodes × (w ≡ scored n)
  Occurs-scored w [] o = absurd o
  Occurs-scored w (n ∷ nodes) o = elim o [
    | inl e ↦ (n, inl refl, e)
    | inr r ↦ let (m, p, q) = Occurs-scored w nodes r in (m, inr p, q)
  ]

  -- The shares of a node's processors and of its memory that are uncommitted, and the lesser one.
  abbrev pub IsCpuShare : NodeResources F → F → Type 0
  IsCpuShare n x =
      ((gt n.capacity_cpu f_zero ≡ true)
        × (x ≡ div (sub n.capacity_cpu n.committed_cpu) n.capacity_cpu))
      ⊎ ((gt n.capacity_cpu f_zero ≡ false) × (x ≡ f_zero))

  abbrev pub IsMemoryShare : NodeResources F → F → Type 0
  IsMemoryShare n x =
      ((0 < n.capacity_memory)
        × (x
            ≡ div (sub (of_u64 n.capacity_memory) (of_u64 n.committed_memory))
                (of_u64 n.capacity_memory)))
      ⊎ ((n.capacity_memory ≡ 0) × (x ≡ f_zero))

  abbrev pub IsHeadroom : NodeResources F → F → Type 0
  IsHeadroom n x = (c : F) × (m : F) × IsCpuShare n c × IsMemoryShare n m × (x ≡ fmin c m)

  headroom_score-IsHeadroom : (n : NodeResources F) → IsHeadroom n (headroom_score n)
  unfolding headroom_score
  headroom_score-IsHeadroom n = (
    _,
    _,
    elim (Bool-cases (gt n.capacity_cpu f_zero)) [
      | inl e ↦ inl (e, rw e refl)
      | inr e ↦ inr (e, rw e refl)
    ],
    elim (Bool-cases (ltb 0 n.capacity_memory)) [
      | inl e ↦ inl (ground arith, rw e refl)
      | inr e ↦ inr (ground arith, rw e refl)
    ],
    refl,
  )

  -- The shares are determined.
  cpu_unique : (n : NodeResources F) (x y : F) → IsCpuShare n x → IsCpuShare n y → x ≡ y
  cpu_unique n x y (inl (g, e)) (inl (h, f)) = e ∙ sym f
  cpu_unique n x y (inl (g, e)) (inr (h, f)) = cc
  cpu_unique n x y (inr (g, e)) (inl (h, f)) = cc
  cpu_unique n x y (inr (g, e)) (inr (h, f)) = e ∙ sym f

  memory_unique : (n : NodeResources F) (x y : F) → IsMemoryShare n x → IsMemoryShare n y → x ≡ y
  memory_unique n x y (inl (g, e)) (inl (h, f)) = e ∙ sym f
  memory_unique n x y (inl (g, e)) (inr (h, f)) = absurd (omega arith)
  memory_unique n x y (inr (g, e)) (inl (h, f)) = absurd (omega arith)
  memory_unique n x y (inr (g, e)) (inr (h, f)) = e ∙ sym f

  headroom_unique : (n : NodeResources F) (x : F) → IsHeadroom n x → headroom_score n ≡ x
  headroom_unique n x (c, m, hc, hm, e) =
      let (c', m', hc', hm', e') = headroom_score-IsHeadroom n in
      e' ∙ ap₂ fmin (cpu_unique n c' c hc' hc) (memory_unique n m' m hm' hm) ∙ sym e

  -- Whatever the headrooms of the two are, the rival's is not greater, and when it is equal its name
  -- is not smaller.
  abbrev pub IsNotBeaten : NodeResources F → NodeResources F → Type 0
  IsNotBeaten node rival =
      (x y : F)
      → IsHeadroom node x
      → IsHeadroom rival y
      → (gt y x ≡ false) × (feq y x ≡ true → str_lt rival.id node.id ≡ false)

  not_beaten :
      (node rival : NodeResources F)
      → better (scored rival) (scored node) ≡ false
      → IsNotBeaten node rival
  unfolding better
  not_beaten node rival h x y hx hy =
      let ex = headroom_unique node x hx in
      let ey = headroom_unique rival y hy in
      let h' : (gt y x || (feq y x && str_lt rival.id node.id)) ≡ false =
        subst (λ t. (gt y t || (feq y t && str_lt rival.id node.id)) ≡ false) ex
          (subst
            (λ t.
              (gt t (headroom_score node)
                || (feq t (headroom_score node) && str_lt rival.id node.id))
              ≡ false)
            ey h) in
      (ground arith, λ e. ground arith)

  -- The node is one of the list, and no node of the list beats it.
  pub record IsBest (id : Str) (nodes : List (NodeResources F)) : Type 0 where
    pub node : NodeResources F
    pub listed : Occurs node nodes
    pub named : node.id ≡ id
    pub unbeaten : All (IsNotBeaten node) nodes

  -- Of a list that is not empty `pick_node` picks a node of it that no other beats. Every node's
  -- headroom is the lesser of the uncommitted shares of its processors and of its memory, each zero
  -- where it has none; no node's is greater than the picked one's, and none with an equal one has a
  -- smaller name.
  pub pick_node-IsBest :
      (n : NodeResources F) (nodes : List (NodeResources F))
      → (id : Str) × (pick_node (n ∷ nodes) ≡ ok id) × IsBest id (n ∷ nodes)
  unfolding pick_node
  pick_node-IsBest n nodes =
      let (w, p, q, h, m) = fold-best (map scored nodes) (scored n) in
      let (best, o, e) = Occurs-scored w (n ∷ nodes) q in
      (
        w.1,
        rw p,
        record {
          node = best;
          listed = o;
          named = ap (λ (t : F × Str). t.1) (sym e);
          unbeaten =
              All-weaken (λ c. better (scored c) (scored best) ≡ false) (IsNotBeaten best)
                (n ∷ nodes) (not_beaten best)
                (subst (λ t. All (λ c. better (scored c) t ≡ false) (n ∷ nodes)) e
                  (All-scored w (n ∷ nodes) h));
        },
      )

  -- It fails exactly on the empty list.
  pub pick_node-err :
      (nodes : List (NodeResources F)) → (pick_node nodes ≡ err no_available_nodes) ↔ (nodes ≡ [])
  unfolding pick_node
  pick_node-err [] = (λ _. refl, λ _. refl)
  pick_node-err (n ∷ nodes) =
      let (w, p, q, h, m) = fold-best (map scored nodes) (scored n) in
      (λ e. cc (rw p at e), λ e. cc)

  -- what is picked is in the list
  pub pick_node-Occurs :
      (nodes : List (NodeResources F)) (id : Str)
      → pick_node nodes ≡ ok id
      → (n : NodeResources F) × Occurs n nodes × (n.id ≡ id)
  pick_node-Occurs [] id h = cc (sym h ∙ (pick_node-err []).1 refl)
  pick_node-Occurs (n ∷ nodes) id h =
      let (w, p, b) = pick_node-IsBest n nodes in
      (b.node, b.listed, b.named ∙ ok-injective (sym p ∙ h))
