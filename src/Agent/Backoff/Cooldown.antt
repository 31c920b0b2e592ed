-- ===== src/Agent/Backoff/Cooldown.antt =====
-- keel-agentd/src/backoff.rs: the delays between the starts of a jail.
use kubsd.Base.{
  ℕ, suc, ◌+◌, ◌-◌, ◌*◌, ◌^◌, ◌≤◌, ◌<◌, ◌≡◌, refl, true, List, [], ◌∷◌, Option, none, some, leb,
  min, arith, Bool-cases, inl, inr, ◌⊎◌, ◌==◌, ==_iff,
}
use mathlib.Core.Path.{subst}
use kubsd.Base.Powers.{pow_le}
use kubsd.Agent.Backoff.{
  BackoffState, new, can_retry, record_attempt, delay_at, initial_delay, max_delay,
  reset_uptime_threshold, nanos,
}

-- the states that the agent's jails are in: `new`, then an attempt at each of the instants
abbrev pub attempts : BackoffState → List ℕ → BackoffState
attempts s [] = s
attempts s (now ∷ rest) = attempts (record_attempt s now) rest

abbrev pub InBounds : BackoffState → Type 0
InBounds s = (initial_delay ≤ s.current_delay) × (s.current_delay ≤ max_delay)

delay_at-InBounds :
    (delay now : ℕ) (o : Option ℕ)
    → initial_delay ≤ delay
    → delay ≤ max_delay
    → (initial_delay ≤ delay_at delay o now) × (delay_at delay o now ≤ max_delay)
delay_at-InBounds delay now none h k = (h, k)
delay_at-InBounds delay now (some last) h k = ground arith

min-InBounds :
    (d : ℕ)
    → initial_delay ≤ d
    → (initial_delay ≤ min (d * 2) max_delay) × (min (d * 2) max_delay ≤ max_delay)
min-InBounds d h = omega arith

record_attempt-InBounds :
    (s : BackoffState) (now : ℕ) → InBounds s → InBounds (record_attempt s now)
unfolding record_attempt
record_attempt-InBounds s now h =
    min-InBounds (delay_at s.current_delay s.last_started_at now)
      (delay_at-InBounds s.current_delay now s.last_started_at h.0 h.1).0

attempts-InBounds : (s : BackoffState) (nows : List ℕ) → InBounds s → InBounds (attempts s nows)
attempts-InBounds s [] h = h
attempts-InBounds s (now ∷ rest) h =
    attempts-InBounds (record_attempt s now) rest (record_attempt-InBounds s now h)

-- After any sequence of attempts, one more attempt at `t` closes the gate for at least 1 and at most
-- 300 seconds: from `t` on a retry is refused before the delay has passed and allowed after it.
pub can_retry-record_attempt :
    (nows : List ℕ) (t : ℕ)
    → (delay : ℕ) × (initial_delay ≤ delay)
      × (delay ≤ max_delay)
      × ((now : ℕ) → can_retry (record_attempt (attempts new nows) t) now ≡ leb (t + delay) now)
unfolding record_attempt can_retry
can_retry-record_attempt nows t =
    let s = attempts new nows in
    let h = attempts-InBounds new nows (omega arith, omega arith) in
    let k = delay_at-InBounds s.current_delay t s.last_started_at h.0 h.1 in
    (delay_at s.current_delay s.last_started_at t, k.0, k.1, λ now. refl)

-- every attempt is made when the gate is open, as the reconciler makes them
abbrev pub IsGated : BackoffState → List ℕ → Type 0
IsGated s [] = Unit
IsGated s (now ∷ rest) = (can_retry s now ≡ true) × IsGated (record_attempt s now) rest

-- a state that no attempt, or an attempt with the delay `2 ^ k` seconds, has left
abbrev IsArmed : BackoffState → Type 0
IsArmed s =
    ((s.current_delay ≡ initial_delay) × (s.last_started_at ≡ none) × (s.next_retry_at ≡ none))
    ⊎ ((k last : ℕ) × (k ≤ 6)
        × (s.current_delay ≡ 2 ^ suc k * initial_delay)
        × (s.last_started_at ≡ some last)
        × (s.next_retry_at ≡ some (last + 2 ^ k * initial_delay)))

-- 64 seconds are not less than the threshold
power_small : (k : ℕ) → k ≤ 6 → 2 ^ k * initial_delay < reset_uptime_threshold → suc k ≤ 6
power_small k h l = elim (Bool-cases (k == 6)) [
  | inl q ↦ absurd (
      omega
        (arith, subst (λ t. 2 ^ t * initial_delay < reset_uptime_threshold) ((==_iff k 6).0 q) l))
  | inr q ↦ ground arith
]

-- the delay of the next attempt
next_delay :
    (s : BackoffState) (now : ℕ)
    → IsArmed s
    → can_retry s now ≡ true
    → (k : ℕ) × (k ≤ 6) × (delay_at s.current_delay s.last_started_at now ≡ 2 ^ k * initial_delay)
unfolding can_retry
next_delay s now (inl (c, l, n)) g = (0, omega arith, rw (l, c) refl)
next_delay s now (inr (k, last, h, c, l, n)) g =
    elim (Bool-cases (leb reset_uptime_threshold (now - last))) [
      | inl e ↦ (0, omega arith, rw (l, e) refl)
      | inr e ↦ (
        suc k,
        power_small k h (
            let open_gate : leb (last + 2 ^ k * initial_delay) now ≡ true = rw n at g in
            ground arith),
        rw (l, e) c,
      )
    ]

attempt-IsArmed :
    (s : BackoffState) (now : ℕ)
    → IsArmed s
    → can_retry s now ≡ true
    → IsArmed (record_attempt s now)
unfolding record_attempt
attempt-IsArmed s now i g =
    let (k, h, d) = next_delay s now i g in inr (k, now, h, rw d (capped k h), refl, rw d refl)
  where
    capped : (k : ℕ) → k ≤ 6 → min (2 ^ k * initial_delay * 2) max_delay ≡ 2 ^ suc k * initial_delay
    capped k h = omega (arith, pow_le k 6 h)

attempts-IsArmed :
    (s : BackoffState) (nows : List ℕ) → IsArmed s → IsGated s nows → IsArmed (attempts s nows)
attempts-IsArmed s [] i g = i
attempts-IsArmed s (now ∷ rest) i g =
    attempts-IsArmed (record_attempt s now) rest (attempt-IsArmed s now i g.0) g.1

-- When every attempt is made with the gate open, the gate is open again 64 seconds after an attempt
-- at the latest: the longer delays are never waited for, since a wait of a minute counts as uptime.
pub can_retry_after_64_s :
    (nows : List ℕ) (t : ℕ)
    → IsGated new nows
    → can_retry (attempts new nows) t ≡ true
    → can_retry (record_attempt (attempts new nows) t) (t + 64 * nanos) ≡ true
unfolding record_attempt can_retry
can_retry_after_64_s nows t g o =
    let (k, h, d) =
      next_delay (attempts new nows) t (attempts-IsArmed new nows (inl (refl, refl, refl)) g) o in
    rw d (ground (arith, pow_le k 6 h))

-- the gate opens at the latest 64 seconds after the last attempt
armed_opens :
    (s : BackoffState)
    → IsArmed s
    → (s.next_retry_at ≡ none)
      ⊎ ((last : ℕ) × (s.last_started_at ≡ some last) × (can_retry s (last + 64 * nanos) ≡ true))
unfolding can_retry
armed_opens s (inl (c, l, n)) = inl n
armed_opens s (inr (k, last, h, c, l, n)) = inr (last, l, rw n (ground (arith, pow_le k 6 h)))

pub attempts_open :
    (nows : List ℕ)
    → IsGated new nows
    → ((attempts new nows).next_retry_at ≡ none)
      ⊎ ((last : ℕ) × ((attempts new nows).last_started_at ≡ some last)
          × (can_retry (attempts new nows) (last + 64 * nanos) ≡ true))
attempts_open nows g =
    armed_opens (attempts new nows) (attempts-IsArmed new nows (inl (refl, refl, refl)) g)
