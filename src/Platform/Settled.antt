-- ===== src/Platform/Settled.antt =====
-- Every message is settled. packages/platform/src/events/consumer.ts
use seapedia.Prelude.{
  ◌≤◌, ◌==◌, eq_of_==, Bool, true, ℕ, zero, suc, ◌+◌, ◌*◌, ◌<◌, ◌≡◌, ◌⊎◌, refl, ◌∙◌, arith, inl,
  inr, false, Option, none, some, List, [], leb, Bool-cases,
}
use seapedia.Platform.Consumer.{
  total_deaths, attempts_twice, Verdict, acked, parked, retried, Handling, malformed, unhandled,
  succeeded, failed, handled_by, handling_of, on_message, CountsRounds, settle, rounds,
}

-- A delivery from the given one on was the last: the ones before it failed, and it did not, or it was the
-- last attempt.
abbrev Settles : (max_attempts : ℕ) → (ℕ → Handling) → ℕ → Option (ℕ × Verdict) → Type 0
Settles max_attempts handling delivery none = ⊥
Settles max_attempts handling delivery (some (n, acked)) =
    (n < max_attempts)
    × ((handling n ≡ succeeded) ⊎ (handling n ≡ unhandled))
    × ((k : ℕ) → delivery ≤ k → k < n → handling k ≡ failed)
Settles max_attempts handling delivery (some (n, retried)) = ⊥
Settles max_attempts handling delivery (some (n, parked)) =
    (n < max_attempts)
    × ((handling n ≡ malformed)
        ⊎ ((suc n ≡ max_attempts)
            × ((k : ℕ) → delivery ≤ k → k < max_attempts → handling k ≡ failed)))

module _ (max_attempts : ℕ) (handling : ℕ → Handling) (delivery : ℕ)
    (lost : handling delivery ≡ failed) where
  one_more :
      (k bound : ℕ)
      → ((k : ℕ) → suc delivery ≤ k → k < bound → handling k ≡ failed)
      → delivery ≤ k
      → k < bound
      → handling k ≡ failed
  one_more k bound before h l = elim (Bool-cases (delivery == k)) [
    | inl e ↦ rw (← eq_of_== delivery k e) lost
    | inr e ↦ before k (ground (arith, h, e)) l
  ]

  -- A failed delivery more before them.
  earlier :
      (v : Option (ℕ × Verdict))
      → Settles max_attempts handling (suc delivery) v
      → Settles max_attempts handling delivery v
  earlier none h = h
  earlier (some (n, acked)) (l, s, before) = (l, s, λ k. one_more k n before)
  earlier (some (n, retried)) h = h
  earlier (some (n, parked)) (l, inl e) = (l, inl e)
  earlier (some (n, parked)) (l, inr (e, before)) =
      (l, inr (e, λ k. one_more k max_attempts before))

module _ (redeliver : List (Option ℕ) → List (Option ℕ)) (max_attempts : ℕ)
    (counts : CountsRounds redeliver false max_attempts) where
  rounds-Settles :
      (fuel delivery : ℕ) (handling : ℕ → Handling) (deaths : List (Option ℕ))
      → delivery + fuel ≡ max_attempts
      → 0 < fuel
      → total_deaths deaths ≡ 2 * delivery
      → Settles max_attempts handling delivery
          (rounds redeliver false max_attempts fuel delivery handling deaths)
  unfolding rounds on_message attempts_twice
  rounds-Settles zero delivery handling deaths sum some_fuel even = absurd (omega arith)
  rounds-Settles (suc fuel) delivery handling deaths sum some_fuel even =
      go
        (λ more twice.
          rounds-Settles fuel (suc delivery) handling (redeliver deaths) (omega arith) more twice)
        (handling delivery) refl
    where
      later : Option (ℕ × Verdict)
      later = rounds redeliver false max_attempts fuel (suc delivery) handling (redeliver deaths)

      go :
          (0 < fuel
            → total_deaths (redeliver deaths) ≡ 2 * suc delivery
            → Settles max_attempts handling (suc delivery) later)
          → (h : Handling) → handling delivery ≡ h
          → Settles max_attempts handling delivery (
              settle redeliver false max_attempts
                (on_message false max_attempts h deaths)
                delivery
                later)
      go next malformed e = (omega arith, inl e)
      go next unhandled e = (omega arith, inr e, λ k h l. absurd (omega (arith, h, l)))
      go next succeeded e = (omega arith, inl e, λ k h l. absurd (omega (arith, h, l)))
      go next failed e = elim (Bool-cases (leb (2 * max_attempts) (2 + total_deaths deaths))) [
        | inl l ↦
            let last : suc delivery ≡ max_attempts = ground (arith, even, sum) in
            rw l (
              omega (arith, last),
              inr (
                last,
                λ k h b. let only : delivery ≡ k = omega (arith, last, h, b) in rw (← only) e,
              ),
            )
        | inr l ↦
            let more : 0 < fuel = ground (arith, even, sum) in
            rw l (
              earlier max_attempts handling delivery e later
                (next more (counts deaths ∙ omega arith)))
      ]

-- A message was acknowledged where the handler of its type ended, at the first delivery at which it did, or
-- where the service has no handler for the type; or it was parked, as it does not parse or its handler failed
-- at every attempt.
abbrev pub IsSettled :
    (max_attempts : ℕ) → (ℕ → Option (ℕ → Bool)) → Option ℕ → Option (ℕ × Verdict) → Type 0
IsSettled max_attempts handlers message none = ⊥
IsSettled max_attempts handlers message (some (n, retried)) = ⊥
IsSettled max_attempts handlers message (some (n, acked)) =
    (n < max_attempts)
    × (event : ℕ) × (message ≡ some event)
    × ((handlers event ≡ none)
        ⊎ ((ends : ℕ → Bool) × (handlers event ≡ some ends)
            × (ends n ≡ true)
            × ((k : ℕ) → k < n → ends k ≡ false)))
IsSettled max_attempts handlers message (some (n, parked)) =
    (n < max_attempts)
    × ((message ≡ none)
        ⊎ ((event : ℕ) × (message ≡ some event)
            × ((ends : ℕ → Bool) × (handlers event ≡ some ends)
                × (suc n ≡ max_attempts)
                × ((k : ℕ) → k < max_attempts → ends k ≡ false))))

ended_at : (ends : ℕ → Bool) (n : ℕ) → handled_by (some ends) n ≡ succeeded → ends n ≡ true
ended_at ends n h = elim (Bool-cases (ends n)) [ inl e ↦ e | inr e ↦ cc (rw e at h) ]

failed_at : (ends : ℕ → Bool) (n : ℕ) → handled_by (some ends) n ≡ failed → ends n ≡ false
failed_at ends n h = elim (Bool-cases (ends n)) [ inl e ↦ cc (rw e at h) | inr e ↦ e ]

not_malformed : (ends : ℕ → Bool) (n : ℕ) → ¬ (handled_by (some ends) n ≡ malformed)
not_malformed ends n h = elim (Bool-cases (ends n)) [
  | inl e ↦ cc (rw e at h)
  | inr e ↦ cc (rw e at h)
]

not_unhandled : (ends : ℕ → Bool) (n : ℕ) → ¬ (handled_by (some ends) n ≡ unhandled)
not_unhandled ends n h = elim (Bool-cases (ends n)) [
  | inl e ↦ cc (rw e at h)
  | inr e ↦ cc (rw e at h)
]

-- What the handlings of a message say of its handlers.
IsSettled-imp :
    (max_attempts : ℕ) (handlers : ℕ → Option (ℕ → Bool)) (message : Option ℕ)
    (v : Option (ℕ × Verdict))
    → Settles max_attempts (handling_of handlers message) 0 v
    → IsSettled max_attempts handlers message v
IsSettled-imp max_attempts handlers message none h = h
IsSettled-imp max_attempts handlers message (some (n, retried)) h = h
IsSettled-imp max_attempts handlers none (some (n, acked)) (_, inl e, _) = cc e
IsSettled-imp max_attempts handlers none (some (n, acked)) (_, inr e, _) = cc e
IsSettled-imp max_attempts handlers none (some (n, parked)) (l, _) = (l, inl refl)
IsSettled-imp max_attempts handlers (some event) (some (n, acked)) (l, h, before) =
    (l, event, refl, acked_by (handlers event) refl h before)
  where
    acked_by :
        (o : Option (ℕ → Bool))
        → handlers event ≡ o
        → (handled_by o n ≡ succeeded) ⊎ (handled_by o n ≡ unhandled)
        → ((k : ℕ) → 0 ≤ k → k < n → handled_by o k ≡ failed)
        → (handlers event ≡ none)
          ⊎ ((ends : ℕ → Bool) × (handlers event ≡ some ends)
              × (ends n ≡ true)
              × ((k : ℕ) → k < n → ends k ≡ false))
    acked_by none e _ _ = inl e
    acked_by (some ends) e (inl s) before =
        inr (ends, e, ended_at ends n s, λ k b. failed_at ends k (before k (omega arith) b))
    acked_by (some ends) e (inr u) before = absurd (not_unhandled ends n u)
IsSettled-imp max_attempts handlers (some event) (some (n, parked)) (l, h) =
    (l, inr (event, refl, parked_by (handlers event) refl h))
  where
    parked_by :
        (o : Option (ℕ → Bool))
        → handlers event ≡ o
        → (handled_by o n ≡ malformed)
          ⊎ ((suc n ≡ max_attempts)
              × ((k : ℕ) → 0 ≤ k → k < max_attempts → handled_by o k ≡ failed))
        → (ends : ℕ → Bool) × (handlers event ≡ some ends)
          × (suc n ≡ max_attempts)
          × ((k : ℕ) → k < max_attempts → ends k ≡ false)
    parked_by none e (inl m) = cc m
    parked_by none e (inr (l, before)) = cc (before n (omega arith) (omega (arith, l)))
    parked_by (some ends) e (inl m) = absurd (not_malformed ends n m)
    parked_by (some ends) e (inr (l, before)) =
        (ends, e, l, λ k b. failed_at ends k (before k (omega arith) b))

-- A message of a queue is settled within as many deliveries as there are attempts, at least one, where the
-- broker counts a rejection and an expiry for each round: it is acknowledged at the first delivery at which
-- the handler of its type ends, or as the service has no handler for its type; or it is parked, as it does
-- not parse or its handler failed at every attempt. It is not retried for ever.
pub message-IsSettled :
    (redeliver : List (Option ℕ) → List (Option ℕ)) (max_attempts : ℕ)
    → CountsRounds redeliver false max_attempts
    → (handlers : ℕ → Option (ℕ → Bool)) (message : Option ℕ) → 0 < max_attempts
    → IsSettled max_attempts handlers message
        (rounds redeliver false max_attempts max_attempts 0 (handling_of handlers message) [])
message-IsSettled redeliver max_attempts counts handlers message some_attempts =
    let v = rounds redeliver false max_attempts max_attempts 0 (handling_of handlers message) [] in
    IsSettled-imp max_attempts handlers message v (
      rounds-Settles redeliver max_attempts counts max_attempts 0 (handling_of handlers message) []
        (omega arith) some_attempts refl)
