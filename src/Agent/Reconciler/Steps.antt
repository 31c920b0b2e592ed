-- ===== src/Agent/Reconciler/Steps.antt =====
-- keel-agentd/src/reconciler.rs: how a property of the reconciler's state passes through its steps.
use kubsd.Base.{◌≡◌, refl, Result, ok, err}
use kubsd.Base.Effects.{Step, continue, relabel}
use kubsd.Agent.Reconciler.{Reconciler, with_node}

module _ {W E E' A B : Type 0} (P : Reconciler W → Type 0) (s : Reconciler W) where
  -- a step of the node that is followed by a change of the reconciler
  pub node_step-Keeps :
      (f : E' → E) (out : W × Result A E') (next : A → Step (Reconciler W) B E)
      → ((w : W) → P (record s { node = w }))
      → ((a : A) (w : W) → P (next a (record s { node = w })).0)
      → P (continue (relabel f (with_node s out)) next).0
  node_step-Keeps f (w, ok a) next p k = k a w
  node_step-Keeps f (w, err e) next p k = p w

  pub node_step2-Keeps :
      {E'' : Type 0} (f : E → E'') (g : E' → E) (out : W × Result A E')
      (next : A → Step (Reconciler W) B E'')
      → ((w : W) → P (record s { node = w }))
      → ((a : A) (w : W) → P (next a (record s { node = w })).0)
      → P (continue (relabel f (relabel g (with_node s out))) next).0
  node_step2-Keeps f g (w, ok a) next p k = k a w
  node_step2-Keeps f g (w, err e) next p k = p w

  -- a guard
  pub guard-Keeps :
      (f : E' → E) (r : Result A E') (next : A → Step (Reconciler W) B E)
      → P s
      → ((a : A) → r ≡ ok a → P (next a s).0)
      → P (continue (relabel f (s, r)) next).0
  guard-Keeps f (ok a) next p k = k a refl
  guard-Keeps f (err e) next p k = p

  pub guard_then-Keeps :
      {C : Type 0} (f : E → E') (r : Result A E) (b : C) (next : C → Step (Reconciler W) B E')
      → P s
      → P (next b s).0
      → P (continue (continue (relabel f (s, r)) (λ _ t. (t, ok b))) next).0
  guard_then-Keeps f (ok a) b next p k = k
  guard_then-Keeps f (err e) b next p k = p

module _ {W E A B : Type 0} (P : Reconciler W → Type 0) (s : Reconciler W) where
  pub node_then-Keeps :
      (out : W × Result A E) (next : A → Step (Reconciler W) B E)
      → ((w : W) → P (record s { node = w }))
      → ((a : A) (w : W) → P (next a (record s { node = w })).0)
      → P (continue (with_node s out) next).0
  node_then-Keeps (w, ok a) next p k = k a w
  node_then-Keeps (w, err e) next p k = p w
