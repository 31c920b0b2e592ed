-- ===== src/Plane/Http/Quiet.antt =====
-- keel-controlplane/src/http.rs: a thread between whose commands the others leave the worker's state
-- as it is.
use kubsd.Base.{ℕ, suc, ◌≡◌, refl, ap, Option, some, and_then}
use kubsd.Extern.{Float, Ipnet}
use kubsd.Plane.Worker.Handle.{State, Command, Reply, handle}
use kubsd.Plane.Http.{Turn, Run, interleave, instant_of, submit, send, ask}

-- the run after one command more
abbrev pub next : {Net F : Type 0} → Run Net F → State Net F → Run Net F
next r s = record { state = s; sent = suc r.sent }

module _ {F : Type 0} (turns : ℕ → Turn F) where
  -- What the other threads send changes nothing: they send nothing, or commands that only read.
  abbrev pub IsQuiet : (Net : Type 0) ⦃ip : Ipnet Net⦄ ⦃fl : Float F⦄ → Type 0
  IsQuiet Net = (k : ℕ) (s : State Net F) → interleave s (turns k).others ≡ some s

module _ {Net F : Type 0} ⦃ip : Ipnet Net⦄ ⦃fl : Float F⦄ (turns : ℕ → Turn F)
    (quiet : IsQuiet turns Net) where
  pub submit-then :
      {A B : Type 0} (r : Run Net F) (f : State Net F → ℕ → Option (State Net F × A))
      (s : State Net F) (a : A) (k : Run Net F × A → Option B)
      → f r.state (instant_of turns r) ≡ some (s, a)
      → and_then (submit turns r f) k ≡ k (next r s, a)
  unfolding submit
  submit-then r f s a k e = rw (quiet r.sent r.state, e) refl

  pub ask-then :
      {A B : Type 0} (r : Run Net F) (read : State Net F → ℕ → A) (k : Run Net F × A → Option B)
      → and_then (ask turns r read) k ≡ k (next r r.state, read r.state (instant_of turns r))
  unfolding ask submit
  ask-then r read k = rw (quiet r.sent r.state) refl

  pub send_lem :
      (r : Run Net F) (c : Command F) (s : State Net F) (reply : Reply Net F)
      → handle r.state (instant_of turns r) c ≡ some (s, reply)
      → send turns r c ≡ some (next r s)
  unfolding send submit
  send_lem r c s reply e = rw (quiet r.sent r.state, e) refl

  pub send-then :
      {B : Type 0} (r : Run Net F) (c : Command F) (s : State Net F) (reply : Reply Net F)
      (k : Run Net F → Option B)
      → handle r.state (instant_of turns r) c ≡ some (s, reply)
      → and_then (send turns r c) k ≡ k (next r s)
  send-then r c s reply k e = ap (λ o. and_then o k) (send_lem r c s reply e)
