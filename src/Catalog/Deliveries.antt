-- ===== src/Catalog/Deliveries.antt =====
-- A completed order counts once, however often it is delivered.
-- services/catalog/src/modules/events/consumers.ts
use seapedia.Prelude.{
  ◌≤◌, ◌<◌, ◌+◌, ap, arith, false, not, leb, All, All-append, All-select, ℕ, ◌≡◌, refl, sym, ◌∙◌,
  inl, inr, Bool, true, Option, none, some, List, [], ◌∷◌, ◌++◌, is_some, find, find-append,
  find-append_hit, delete, Bool-cases, Option-cases, ◌==◌, ==-refl, eq_of_==,
}
use seapedia.Platform.Monad.{Env}
use seapedia.Catalog.Schema.{CatalogDb, ProductDoc, InboxDoc}
use seapedia.Catalog.Reviews.{
  CompletedItem, processed, inbox_lifetime, is_expired, expire_inbox, is_event, is_purchase,
  add_purchase, tell_product, complete_item, complete_items, order_completed,
}

-- A delivery of `commerce.order.completed`, at its time.
pub record Delivery : Type 0 where
  pub env : Env
  pub event : ℕ
  pub buyer : ℕ
  pub items : List CompletedItem

abbrev pub deliver : Delivery → CatalogDb → CatalogDb
deliver x d = order_completed x.env x.event x.buyer x.items d

-- A delivery, or a round of the database over the expired documents of the inbox.
pub data Step : Type 0 where
  delivers : Delivery → Step
  expires : (now : ℕ) → Step

abbrev pub step : Step → CatalogDb → CatalogDb
step (delivers x) d = deliver x d
step (expires now) d = expire_inbox now d

abbrev pub steps : List Step → CatalogDb → CatalogDb
steps [] d = d
steps (s ∷ ss) d = steps ss (step s d)

abbrev pub is_delivery_of : ℕ → Step → Bool
is_delivery_of id (delivers x) = x.event == id
is_delivery_of id (expires _) = false

-- The first delivery of each event.
abbrev pub with_first : Step → List Step → List Step
with_first (delivers x) rest = delivers x ∷ delete (is_delivery_of x.event) rest
with_first (expires now) rest = expires now ∷ rest

abbrev pub first_deliveries : List Step → List Step
first_deliveries [] = []
first_deliveries (s ∷ ss) = with_first s (first_deliveries ss)

-- What was processed lives past the time `end`.
abbrev pub LivesPast : ℕ → InboxDoc → Type 0
LivesPast end e = end < e.processed_at + inbox_lifetime

-- A round is not after `end`, and what a delivery processes lives past it.
abbrev pub IsWithin : ℕ → Step → Type 0
IsWithin end (delivers x) = end < x.env.now + inbox_lifetime
IsWithin end (expires now) = now ≤ end

tell_product-inbox : (o : Option ProductDoc) (d : CatalogDb) → (tell_product o d).inbox ≡ d.inbox
tell_product-inbox none d = refl
tell_product-inbox (some p) d = refl

complete_items-inbox :
    (env : Env) (buyer : ℕ) (items : List CompletedItem) (d : CatalogDb)
    → (complete_items env buyer items d).inbox ≡ d.inbox
unfolding complete_items complete_item
complete_items-inbox env buyer [] d = refl
complete_items-inbox env buyer (i ∷ is) d =
    complete_items-inbox env buyer is (complete_item env buyer i.product_id i.quantity d)
    ∙ one i.product_id
  where
    purchase : (product : ℕ) → (add_purchase env buyer product d).inbox ≡ d.inbox
    purchase product = elim (Bool-cases (is_some (find (is_purchase buyer product) d.purchases))) [
      | inl e ↦ rw (e, add_purchase)
      | inr e ↦ rw (e, add_purchase)
    ]

    one : (o : Option ℕ) → (complete_item env buyer o i.quantity d).inbox ≡ d.inbox
    one none = refl
    one (some product) = tell_product-inbox _ _ ∙ purchase product

-- The event of the delivery was processed.
abbrev Seen : ℕ → CatalogDb → Type 0
Seen id d = is_some (find (is_event id) d.inbox) ≡ true

seen-append :
    (id : ℕ) (e : InboxDoc) (inbox : List InboxDoc)
    → is_some (find (is_event id) inbox) ≡ true
    → is_some (find (is_event id) (inbox ++ (e ∷ []))) ≡ true
seen-append id e inbox h = elim (Option-cases (find (is_event id) inbox)) [
  | inl f ↦ cc (rw f at h)
  | inr (x, f) ↦ rw (find-append_hit (is_event id) inbox (e ∷ []) f)
]

deliver-Seen : (x : Delivery) (id : ℕ) (d : CatalogDb) → Seen id d → Seen id (deliver x d)
unfolding order_completed
deliver-Seen x id d h = elim (Bool-cases (is_some (find (is_event x.event) d.inbox))) [
  | inl e ↦ rw e h
  | inr e ↦
      rw
        (
          e,
          complete_items-inbox x.env x.buyer x.items
              (record d { inbox = d.inbox ++ (processed x.env x.event ∷ []) }),
        )
        (seen-append id (processed x.env x.event) d.inbox h)
]

delivered_Seen : (x : Delivery) (d : CatalogDb) → Seen x.event (deliver x d)
unfolding order_completed
delivered_Seen x d = elim (Option-cases (find (is_event x.event) d.inbox)) [
  | inr (y, e) ↦ rw e (rw e)
  | inl e ↦
      rw
        (
          e,
          complete_items-inbox x.env x.buyer x.items
              (record d { inbox = d.inbox ++ (processed x.env x.event ∷ []) }),
        )
        (rw (find-append (is_event x.event) d.inbox (processed x.env x.event) e, ==-refl x.event))
]

again : (x : Delivery) (d : CatalogDb) → Seen x.event d → deliver x d ≡ d
unfolding order_completed
again x d h = rw h

-- A round up to `end` leaves what lives past it.
none_expired :
    (end now : ℕ) (inbox : List InboxDoc)
    → now ≤ end
    → All (LivesPast end) inbox
    → delete (is_expired now) inbox ≡ inbox
none_expired end now [] h _ = refl
none_expired end now (e ∷ es) h (lives, rest) =
    let young : leb (e.processed_at + inbox_lifetime) now ≡ false = ground (arith, h, lives) in
    rw young (ap (λ r. e ∷ r) (none_expired end now es h rest))

no_round :
    (end now : ℕ) (d : CatalogDb) → now ≤ end → All (LivesPast end) d.inbox → expire_inbox now d ≡ d
unfolding expire_inbox
no_round end now d h lives =
    ap (λ (i : List InboxDoc). record d { inbox = i }) (none_expired end now d.inbox h lives)

step-LivesPast :
    (end : ℕ) (s : Step) (d : CatalogDb)
    → IsWithin end s
    → All (LivesPast end) d.inbox
    → All (LivesPast end) (step s d).inbox
unfolding order_completed
step-LivesPast end (expires now) d h lives = rw (no_round end now d h lives) lives
step-LivesPast end (delivers x) d h lives =
    elim (Bool-cases (is_some (find (is_event x.event) d.inbox))) [
      | inl e ↦ rw e lives
      | inr e ↦
          rw
            (
              e,
              complete_items-inbox x.env x.buyer x.items
                  (record d { inbox = d.inbox ++ (processed x.env x.event ∷ []) }),
            )
            (All-append (LivesPast end) d.inbox (processed x.env x.event ∷ []) lives (h, tt))
    ]

-- Deliveries of an event that was processed and has not expired do nothing.
skip-Seen :
    (end id : ℕ) (ss : List Step) (d : CatalogDb)
    → All (IsWithin end) ss
    → All (LivesPast end) d.inbox
    → Seen id d
    → steps ss d ≡ steps (delete (is_delivery_of id) ss) d
skip-Seen end id [] d _ lives h = refl
skip-Seen end id (expires now ∷ ss) d (w, ws) lives h =
    rw (no_round end now d w lives) (skip-Seen end id ss d ws lives h)
skip-Seen end id (delivers x ∷ ss) d (w, ws) lives h = elim (Bool-cases (x.event == id)) [
  | inr n ↦ rw n (
      skip-Seen end id ss (deliver x d) ws (step-LivesPast end (delivers x) d w lives)
        (deliver-Seen x id d h))
  | inl k ↦
      let same : id ≡ x.event = sym (eq_of_== x.event id k) in
      rw (k, again x d (rw same at h)) (skip-Seen end id ss d ws lives h)
]

first_deliveries-IsWithin :
    (end : ℕ) (ss : List Step) → All (IsWithin end) ss → All (IsWithin end) (first_deliveries ss)
first_deliveries-IsWithin end [] _ = tt
first_deliveries-IsWithin end (expires now ∷ ss) (w, ws) = (w, first_deliveries-IsWithin end ss ws)
first_deliveries-IsWithin end (delivers x ∷ ss) (w, ws) = (
  w,
  All-select (IsWithin end) (λ s. not (is_delivery_of x.event s)) (first_deliveries ss)
      (first_deliveries-IsWithin end ss ws),
)

-- Deliveries of completed orders, repeated and in any order, with rounds of the database over the expired
-- documents of the inbox between them, leave the catalog as the first delivery of each event does: the
-- same sold counts, purchases, versions and events. This holds where every document of the inbox, those of
-- the deliveries included, lives past the last round: no redelivery comes after the 30 days of its event.
pub delivered_once :
    (end : ℕ) (ss : List Step) (d : CatalogDb)
    → All (IsWithin end) ss
    → All (LivesPast end) d.inbox
    → steps ss d ≡ steps (first_deliveries ss) d
delivered_once end [] d _ lives = refl
delivered_once end (expires now ∷ ss) d (w, ws) lives =
    delivered_once end ss (expire_inbox now d) ws (step-LivesPast end (expires now) d w lives)
delivered_once end (delivers x ∷ ss) d (w, ws) lives =
    let lives' = step-LivesPast end (delivers x) d w lives in
    delivered_once end ss (deliver x d) ws lives'
    ∙ skip-Seen end x.event (first_deliveries ss) (deliver x d)
        (first_deliveries-IsWithin end ss ws) lives' (delivered_Seen x d)
