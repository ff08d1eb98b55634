-- ===== src/Platform/Relay.antt =====
-- The outbox and the relay that publishes it. packages/platform/src/events/relay.ts,
-- packages/platform/src/events/postgres.ts
use seapedia.Prelude.{
  take, ℕ, zero, suc, ◌+◌, Bool, false, not, ◌||◌, Option, none, some, List, [], ◌∷◌, ◌++◌, map,
  is_some, ltb, update, delete, select, ◌==◌,
}

-- A row of the outbox, in the order of `created_at`; the payload is known by its id.
pub record OutboxRow : Type 0 where
  pub id : ℕ
  pub published_at : Option ℕ

-- The rows, and the ids that the broker has, in the order of their messages.
pub record Outbox : Type 0 where
  pub rows : List OutboxRow
  pub broker : List ℕ

abbrev pub is_pending : OutboxRow → Bool
is_pending r = not (is_some r.published_at)

abbrev pub row_id : OutboxRow → ℕ
row_id r = r.id

-- Oldest first, at most `limit`.
unfoldable pub pending : (limit : ℕ) → List OutboxRow → List ℕ
pending limit rows = map row_id (take limit (select is_pending rows))

abbrev pub has_id : List ℕ → ℕ → Bool
has_id [] id = false
has_id (x ∷ xs) id = x == id || has_id xs id

-- Seven days, in milliseconds.
abbrev pub week : ℕ
week = 604_800_000

abbrev pub is_old : (now : ℕ) → Option ℕ → Bool
is_old now none = false
is_old now (some at) = ltb (at + week) now

abbrev pub mark : (now : ℕ) → OutboxRow → OutboxRow
mark now r = record r { published_at = some now }

unfoldable pub mark_published : (now : ℕ) → List ℕ → List OutboxRow → List OutboxRow
mark_published now ids rows =
    delete (λ r. is_old now r.published_at) (update (λ r. has_id ids r.id) (mark now) rows)

unfoldable pub enqueue_rows : List ℕ → List OutboxRow → List OutboxRow
enqueue_rows [] rows = rows
enqueue_rows (id ∷ ids) rows =
    enqueue_rows ids (rows ++ (record { id = id; published_at = none } ∷ []))

-- `publishOnce`: the broker has the batch, confirms it, and the rows are marked.
unfoldable pub publish_once : (limit now : ℕ) → Outbox → Outbox
publish_once limit now o = record {
  rows = mark_published now (pending limit o.rows) o.rows;
  broker = o.broker ++ pending limit o.rows;
}

abbrev pub first_ids : ℕ → List ℕ → List ℕ
first_ids zero xs = []
first_ids (suc n) [] = []
first_ids (suc n) (x ∷ xs) = x ∷ first_ids n xs

-- The relay fails before it marks the rows: the broker has some of the batch, perhaps all.
unfoldable pub publish_broken : (limit reached : ℕ) → Outbox → Outbox
publish_broken limit reached o = record o {
  broker = o.broker ++ first_ids reached (pending limit o.rows);
}

pub data RelayStep : Type 0 where
  enqueues : List ℕ → RelayStep
  publishes : (now : ℕ) → RelayStep
  breaks : (reached : ℕ) → RelayStep

abbrev pub relay_step : (limit : ℕ) → RelayStep → Outbox → Outbox
relay_step limit (enqueues ids) o = record o { rows = enqueue_rows ids o.rows }
relay_step limit (publishes now) o = publish_once limit now o
relay_step limit (breaks reached) o = publish_broken limit reached o

abbrev pub relay_steps : (limit : ℕ) → List RelayStep → Outbox → Outbox
relay_steps limit [] o = o
relay_steps limit (s ∷ ss) o = relay_steps limit ss (relay_step limit s o)
