-- ===== src/Agent/Backoff/Gate.antt =====
-- keel-agentd/src/backoff.rs: one more attempt that is made with the gate open.
use kubsd.Base.{ℕ, ◌≡◌, refl, true, List, [], ◌∷◌, ◌++◌}
use kubsd.Agent.Backoff.{BackoffState, new, can_retry, record_attempt}
use kubsd.Agent.Backoff.Cooldown.{attempts, IsGated}

-- every attempt was made with the gate open
abbrev pub IsPaced : BackoffState → Type 0
IsPaced b = (nows : List ℕ) × (b ≡ attempts new nows) × IsGated new nows

attempts-append :
    (s : BackoffState) (nows : List ℕ) (now : ℕ)
    → attempts s (nows ++ (now ∷ [])) ≡ record_attempt (attempts s nows) now
attempts-append s [] now = refl
attempts-append s (t ∷ nows) now = attempts-append (record_attempt s t) nows now

append-IsGated :
    (s : BackoffState) (nows : List ℕ) (now : ℕ)
    → IsGated s nows
    → can_retry (attempts s nows) now ≡ true
    → IsGated s (nows ++ (now ∷ []))
append-IsGated s [] now g o = (o, tt)
append-IsGated s (t ∷ nows) now g o = (g.0, append-IsGated (record_attempt s t) nows now g.1 o)

pub new-IsPaced : IsPaced new
new-IsPaced = ([], refl, tt)

pub record_attempt-IsPaced :
    (b : BackoffState) (now : ℕ)
    → IsPaced b
    → can_retry b now ≡ true
    → IsPaced (record_attempt b now)
record_attempt-IsPaced b now (nows, e, g) o =
    let o' : can_retry (attempts new nows) now ≡ true = rw e at o in
    (
      nows ++ (now ∷ []),
      rw (attempts-append new nows now, e) refl,
      append-IsGated new nows now g o',
    )
