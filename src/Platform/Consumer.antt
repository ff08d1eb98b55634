-- ===== src/Platform/Consumer.antt =====
-- The consumer of a queue: retries, and parking. packages/platform/src/events/consumer.ts
use seapedia.Prelude.{
  ℕ, zero, suc, ◌+◌, ◌*◌, ◌≡◌, Bool, true, false, Option, none, some, List, [], ◌∷◌, leb,
  if◌then◌else◌,
}

-- The counts of the `x-death` header.
abbrev pub or_zero : Option ℕ → ℕ
or_zero none = 0
or_zero (some n) = n

abbrev pub total_deaths : List (Option ℕ) → ℕ
total_deaths [] = 0
total_deaths (d ∷ ds) = or_zero d + total_deaths ds

-- Twice the number of the attempt: `1 + deaths / 2`.
unfoldable pub attempts_twice : List (Option ℕ) → ℕ
attempts_twice deaths = 2 + total_deaths deaths

-- What becomes of a message: `retried` is the negative acknowledgement, `parked` one to the parking queue
-- and an acknowledgement.
pub data Verdict : Type 0 where
  acked parked retried : Verdict

-- A message that does not parse is parked, but for a stream, which is not consumed away.
abbrev pub park_unless : Bool → Verdict
park_unless true = acked
park_unless false = parked

abbrev pub on_failure : (stream : Bool) → (max_attempts : ℕ) → List (Option ℕ) → Verdict
on_failure true max_attempts deaths = acked
on_failure false max_attempts deaths =
    if leb (2 * max_attempts) (attempts_twice deaths) then parked else retried

-- What a message brings: it does not parse, has a type without a handler, or its handler ends or fails.
pub data Handling : Type 0 where
  malformed unhandled succeeded failed : Handling

-- Whether the handler of a type, if the service has one, ends at a delivery.
abbrev pub handled_by : Option (ℕ → Bool) → ℕ → Handling
handled_by none delivery = unhandled
handled_by (some ends) delivery = if ends delivery then succeeded else failed

-- A message is the type of its event, or nothing that parses; `handlers` is the service's record.
abbrev pub handling_of : (handlers : ℕ → Option (ℕ → Bool)) → Option ℕ → ℕ → Handling
handling_of handlers none delivery = malformed
handling_of handlers (some event) delivery = handled_by (handlers event) delivery

unfoldable pub on_message :
    (stream : Bool) → (max_attempts : ℕ) → Handling → List (Option ℕ) → Verdict
on_message stream max_attempts malformed deaths = park_unless stream
on_message stream max_attempts unhandled deaths = acked
on_message stream max_attempts succeeded deaths = acked
on_message stream max_attempts failed deaths = on_failure stream max_attempts deaths

-- The broker delivers a retried message again, with the deaths that it has counted.
module _ (redeliver : List (Option ℕ) → List (Option ℕ)) (stream : Bool) (max_attempts : ℕ) where
  -- What RabbitMQ counts for a round through the retry queue: a rejection, and an expiry.
  abbrev pub CountsRounds : Type 0
  CountsRounds =
      (deaths : List (Option ℕ)) → total_deaths (redeliver deaths) ≡ total_deaths deaths + 2

  -- The rounds of a message: how often it was delivered, and what became of it.
  abbrev pub settle : Verdict → ℕ → Option (ℕ × Verdict) → Option (ℕ × Verdict)
  settle acked n later = some (n, acked)
  settle parked n later = some (n, parked)
  settle retried n later = later

  unfoldable pub rounds :
      (fuel delivery : ℕ) → (ℕ → Handling) → List (Option ℕ) → Option (ℕ × Verdict)
  rounds zero delivery handling deaths = none
  rounds (suc fuel) delivery handling deaths =
      let later = rounds fuel (suc delivery) handling (redeliver deaths) in
      settle (on_message stream max_attempts (handling delivery) deaths) delivery later
