-- ===== src/Samples/Runs/Agents.antt =====
-- Samples for keel-agentd.
use kubsd.Base.{leb, ◌≤◌, ℕ, ◌+◌, ◌*◌, ◌≡◌, refl, [], ◌∷◌, true}
use kubsd.Agent.Backoff.{new, can_retry, record_attempt, initial_delay, max_delay, nanos}
use kubsd.Agent.Backoff.Cooldown.{attempts, can_retry-record_attempt, can_retry_after_64_s, IsGated}

can_retry-record_attempt_example :
    (delay : ℕ) × (initial_delay ≤ delay)
    × (delay ≤ max_delay)
    × ((now : ℕ)
        → can_retry (record_attempt (attempts new (0 ∷ nanos ∷ [])) (5 * nanos)) now
          ≡ leb (5 * nanos + delay) now)
can_retry-record_attempt_example = can_retry-record_attempt (0 ∷ nanos ∷ []) (5 * nanos)

gated : IsGated new (0 ∷ nanos ∷ [])
unfolding record_attempt can_retry
gated = (refl, (refl, tt))

open_at : can_retry (attempts new (0 ∷ nanos ∷ [])) (5 * nanos) ≡ true
unfolding record_attempt can_retry
open_at = refl

can_retry_after_64_s_example :
    can_retry (record_attempt (attempts new (0 ∷ nanos ∷ [])) (5 * nanos)) (5 * nanos + 64 * nanos)
    ≡ true
can_retry_after_64_s_example = can_retry_after_64_s (0 ∷ nanos ∷ []) (5 * nanos) gated open_at
