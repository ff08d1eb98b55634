-- ===== src/Platform/Lossless.antt =====
-- The relay loses no event and comes to an end with a backlog. packages/platform/src/events/relay.ts
use mathlib.Core.Option.{some-injective}
use seapedia.Prelude.{
  length, count-update_le, ℕ, suc, ◌≤◌, ◌<◌, ◌≡◌, refl, ap, ◌∙◌, arith, inl, inr, Bool, true, false,
  not, ◌&&◌, ◌||◌, Option, none, some, List, [], ◌∷◌, ◌++◌, map, is_some, find, find_test,
  find-append, find-append_hit, find-select_kept, find-update_miss, update, select, count,
  count-none, count-pos, count-update_lt, Bool-cases, Option-cases, ◌==◌, ==-refl, eq_of_==,
}
use seapedia.Platform.Relay.{
  OutboxRow, Outbox, is_pending, pending, has_id, is_old, mark, mark_published, enqueue_rows,
  publish_once, first_ids, publish_broken, RelayStep, enqueues, publishes, breaks, relay_step,
  relay_steps,
}

abbrev pub waits_as : ℕ → OutboxRow → Bool
waits_as id r = r.id == id && is_pending r

-- The event is at the broker, or its row waits to be published.
abbrev pub IsKept : ℕ → Outbox → Type 0
IsKept id o = (has_id o.broker id || is_some (find (waits_as id) o.rows)) ≡ true

has_id-append_left : (xs ys : List ℕ) (id : ℕ) → has_id xs id ≡ true → has_id (xs ++ ys) id ≡ true
has_id-append_left [] ys id h = cc
has_id-append_left (x ∷ xs) ys id h = ground (arith, has_id-append_left xs ys id)

has_id-append_right : (xs ys : List ℕ) (id : ℕ) → has_id ys id ≡ true → has_id (xs ++ ys) id ≡ true
has_id-append_right [] ys id h = h
has_id-append_right (x ∷ xs) ys id h = ground (arith, has_id-append_right xs ys id h)

waits-enqueue :
    (id : ℕ) (ids : List ℕ) (rows : List OutboxRow) {r : OutboxRow}
    → find (waits_as id) rows ≡ some r
    → find (waits_as id) (enqueue_rows ids rows) ≡ some r
unfolding enqueue_rows
waits-enqueue id [] rows e = e
waits-enqueue id (k ∷ ids) rows e =
    waits-enqueue id ids (rows ++ (record { id = k; published_at = none } ∷ []))
      (find-append_hit (waits_as id) rows (record { id = k; published_at = none } ∷ []) e)

-- A row that is not marked still waits.
waits-mark :
    (now id : ℕ) (ids : List ℕ) (rows : List OutboxRow) {r : OutboxRow}
    → has_id ids id ≡ false
    → find (waits_as id) rows ≡ some r
    → find (waits_as id) (mark_published now ids rows) ≡ some r
unfolding mark_published
waits-mark now id ids rows {r} out e =
    find-select_kept (waits_as id) (λ x. not (is_old now x.published_at))
      (update (λ x. has_id ids x.id) (mark now) rows)
      (find-update_miss (waits_as id) (λ x. has_id ids x.id) (mark now) rows (λ x h. other x h)
          (λ x h. ground arith)
        ∙ e)
      (young r.published_at (ground (arith, find_test (waits_as id) rows e)))
  where
    other : (x : OutboxRow) → has_id ids x.id ≡ true → waits_as id x ≡ false
    other x h = elim (Bool-cases (x.id == id)) [
      | inr n ↦ rw n
      | inl k ↦
          let same : x.id ≡ id = eq_of_== x.id id k in
          let there : has_id ids id ≡ true = rw same at h in cc
    ]

    young : (o : Option ℕ) → is_some o ≡ false → not (is_old now o) ≡ true
    young none _ = refl
    young (some _) f = cc

waits-IsKept :
    (id : ℕ) (o : Outbox) {r : OutboxRow} → find (waits_as id) o.rows ≡ some r → IsKept id o
waits-IsKept id o e = either (has_id o.broker id) (is_some (find (waits_as id) o.rows)) (rw e)
  where
    either : (a b : Bool) → b ≡ true → (a || b) ≡ true
    either a b f = ground arith

step-IsKept :
    (limit : ℕ) (s : RelayStep) (id : ℕ) (o : Outbox)
    → IsKept id o
    → IsKept id (relay_step limit s o)
unfolding publish_once publish_broken
step-IsKept limit s id o h = elim (Bool-cases (has_id o.broker id)) [
  | inl b ↦ at_broker s b
  | inr n ↦ elim (Option-cases (find (waits_as id) o.rows)) [
    | inl e ↦ cc (rw (n, e) at h)
    | inr (r, e) ↦ waiting s e
  ]
]
  where
    at_broker : (t : RelayStep) → has_id o.broker id ≡ true → IsKept id (relay_step limit t o)
    at_broker (enqueues ids) b = rw b
    at_broker (publishes now) b = rw (has_id-append_left o.broker (pending limit o.rows) id b)
    at_broker (breaks reached) b =
        rw (has_id-append_left o.broker (first_ids reached (pending limit o.rows)) id b)

    waiting :
        (t : RelayStep) {r : OutboxRow}
        → find (waits_as id) o.rows ≡ some r
        → IsKept id (relay_step limit t o)
    waiting (enqueues ids) e =
        waits-IsKept id (relay_step limit (enqueues ids) o) (waits-enqueue id ids o.rows e)
    waiting (breaks reached) e = waits-IsKept id (relay_step limit (breaks reached) o) e
    waiting (publishes now) e = elim (Bool-cases (has_id (pending limit o.rows) id)) [
      | inl b ↦ rw (has_id-append_right o.broker (pending limit o.rows) id b)
      | inr n ↦
          waits-IsKept id (relay_step limit (publishes now) o)
            (waits-mark now id (pending limit o.rows) o.rows n e)
    ]

-- What is enqueued is kept from then on.
pub enqueued-IsKept :
    (limit id : ℕ) (o : Outbox) → IsKept id (relay_step limit (enqueues (id ∷ [])) o)
unfolding enqueue_rows
enqueued-IsKept limit id o = elim (Option-cases (find (waits_as id) o.rows)) [
  | inl e ↦
      waits-IsKept id (relay_step limit (enqueues (id ∷ [])) o) {r = row}
        (find-append (waits_as id) o.rows row e ∙ rw (==-refl id))
  | inr (r, e) ↦
      waits-IsKept id (relay_step limit (enqueues (id ∷ [])) o)
        (find-append_hit (waits_as id) o.rows (row ∷ []) e)
]
  where
    row : OutboxRow
    row = record { id = id; published_at = none }

steps-IsKept :
    (limit id : ℕ) (steps : List RelayStep) (o : Outbox)
    → IsKept id o
    → IsKept id (relay_steps limit steps o)
steps-IsKept limit id [] o h = h
steps-IsKept limit id (s ∷ ss) o h =
    steps-IsKept limit id ss (relay_step limit s o) (step-IsKept limit s id o h)

-- An event that was enqueued is at the broker or waits in its row, after any steps of the relay: batches
-- that are published and marked, with the rows of the last week dropped, batches that break off anywhere
-- before they are marked, and further events.
pub nothing_lost :
    (limit id : ℕ) (steps : List RelayStep) (o : Outbox)
    → IsKept id (relay_steps limit (enqueues (id ∷ []) ∷ steps) o)
nothing_lost limit id steps o =
    steps-IsKept limit id steps (relay_step limit (enqueues (id ∷ [])) o)
      (enqueued-IsKept limit id o)

select_head :
    (p : OutboxRow → Bool) (xs : List OutboxRow) {x : OutboxRow}
    → find p xs ≡ some x
    → (ys : List OutboxRow) × (select p xs ≡ x ∷ ys)
select_head p [] e = cc
select_head p (y ∷ ys) {x} e = elim (Bool-cases (p y)) [
  | inl t ↦
      let same : y ≡ x = some-injective _ _ (rw t at e) in
      (select p ys, rw t (ap (λ z. z ∷ select p ys) same))
  | inr t ↦ let (zs, f) = select_head p ys (rw t at e) in (zs, rw t f)
]

count-select : (p q : OutboxRow → Bool) (xs : List OutboxRow) → count p (select q xs) ≤ count p xs
count-select p q [] = omega arith
count-select p q (x ∷ xs) = ground (arith, count-select p q xs)

abbrev pub backlog : Outbox → ℕ
backlog o = count is_pending o.rows

publish_lessens :
    (n now : ℕ) (o : Outbox) → 0 < backlog o → backlog (publish_once (suc n) now o) < backlog o
unfolding publish_once mark_published pending
publish_lessens n now o more = elim (Option-cases (find is_pending o.rows)) [
  | inl e ↦ absurd (omega (arith, count-none is_pending o.rows e))
  | inr (r, e) ↦
      let (rest, first) = select_head is_pending o.rows e in
      let ids = pending (suc n) o.rows in
      let there : has_id ids r.id ≡ true = rw (first, ==-refl r.id) in
      let less : suc (count is_pending (update (λ x. has_id ids x.id) (mark now) o.rows))
          ≤ count is_pending o.rows =
        count-update_lt is_pending (λ x. has_id ids x.id) is_pending (mark now) o.rows (λ _ _. refl)
          e there (find_test is_pending o.rows e) in
      omega (
        arith,
        count-select is_pending (λ x. not (is_old now x.published_at))
            (update (λ x. has_id ids x.id) (mark now) o.rows),
      )
]

backlog_zero : (n now : ℕ) (o : Outbox) → backlog o ≡ 0 → backlog (publish_once n now o) ≡ 0
unfolding publish_once mark_published
backlog_zero n now o e =
    let ids = pending n o.rows in
    let a : count is_pending (update (λ x. has_id ids x.id) (mark now) o.rows)
        ≤ count is_pending o.rows =
      count-update_le is_pending (λ x. has_id ids x.id) (mark now) o.rows (λ _ _ f. cc) in
    omega (
      arith,
      count-select is_pending (λ x. not (is_old now x.published_at))
          (update (λ x. has_id ids x.id) (mark now) o.rows),
    )

-- Confirmed batches, each at its time.
abbrev pub confirmed : List ℕ → List RelayStep
confirmed = map publishes

backlog_ends :
    (n : ℕ) (times : List ℕ) (o : Outbox)
    → backlog o ≤ length times
    → backlog (relay_steps (suc n) (confirmed times) o) ≡ 0
backlog_ends n [] o h = omega arith
backlog_ends n (now ∷ times) o h =
    backlog_ends n times (publish_once (suc n) now o) (elim (Bool-cases (backlog o == 0)) [
      | inl e ↦ omega (arith, backlog_zero (suc n) now o (eq_of_== (backlog o) 0 e))
      | inr e ↦
          let more : 0 < backlog o = ground arith in omega (arith, publish_lessens n now o more)
    ])

-- Where no row waits, a kept event is at the broker.
kept_published : (id : ℕ) (o : Outbox) → backlog o ≡ 0 → IsKept id o → has_id o.broker id ≡ true
kept_published id o e h = elim (Option-cases (find (waits_as id) o.rows)) [
  | inl f ↦ ground (arith, h, f)
  | inr (r, f) ↦
      let waits : is_pending r ≡ true = ground (arith, find_test (waits_as id) o.rows f) in
      absurd (omega (arith, e, count-pos is_pending (waits_as id) o.rows f waits))
]

-- A backlog is published by as many confirmed batches as it has events, whatever the size of a batch, if it
-- is not 0 and no event is enqueued meanwhile: then no row waits, and every event whose row waited is at
-- the broker.
pub backlog_published :
    (n : ℕ) (times : List ℕ) (o : Outbox)
    → backlog o ≤ length times
    → let o' = relay_steps (suc n) (confirmed times) o in
      (backlog o' ≡ 0)
      × ((id : ℕ) (r : OutboxRow) → find (waits_as id) o.rows ≡ some r → has_id o'.broker id ≡ true)
backlog_published n times o h =
    let ends = backlog_ends n times o h in
    (
      ends,
      λ id r e.
          kept_published id (relay_steps (suc n) (confirmed times) o) ends
            (steps-IsKept (suc n) id (confirmed times) o (waits-IsKept id o e)),
    )
