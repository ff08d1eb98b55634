-- ===== src/Tests/Catalog.antt =====
-- A store with a product, and the events between the services.
use seapedia.Prelude.{
  Bool, true, find, ℕ, zero, suc, ◌+◌, ◌*◌, ◌≤◌, ◌≡◌, refl, arith, pos, false, Option, none, some,
  List, [], ◌∷◌,
}
use seapedia.Platform.Monad.{Env, ok}
use seapedia.Platform.Relay.{Outbox, OutboxRow, has_id, enqueues, publishes, breaks, relay_steps}
use seapedia.Platform.Lossless.{
  IsKept, nothing_lost, backlog, confirmed, waits_as, backlog_published,
}
use seapedia.Platform.Consumer.{handling_of, rounds}
use seapedia.Platform.Settled.{IsSettled, message-IsSettled}
use seapedia.Catalog.Slugs.{Text, candidate, slugify}
use seapedia.Catalog.Free.{taken_in}
use seapedia.Catalog.Schema.{StoreDoc, ProductDoc, CatalogDb}
use seapedia.Catalog.Stores.{StoreInput, is_not, store_slug, new_store, create, name_taken}
use seapedia.Catalog.Products.{ProductInput}
use seapedia.Catalog.Calls.{offers, withdraws, call_all}
use seapedia.Catalog.Created.{create_store_succeeds}
use seapedia.Catalog.StoreTotals.{HasTotals}
use seapedia.Catalog.Totals.{totals_kept}
use seapedia.Catalog.Reviews.{add_to_average}
use seapedia.Catalog.Deliveries.{
  Delivery, Step, delivers, expires, steps, first_deliveries, delivered_once,
}
use seapedia.Catalog.Ratings.{add_to_average_between}

abbrev at : ℕ → Env
at n = record { now = n; uuid = λ k. 100 * n + k; random = n }

-- "Toko A", with the slug "toko-a".
abbrev toko : StoreDoc
toko = record {
  id = 1;
  seller_id = 2;
  name = 84 ∷ 111 ∷ 107 ∷ 111 ∷ 32 ∷ 65 ∷ [];
  slug = 116 ∷ 111 ∷ 107 ∷ 111 ∷ 45 ∷ 97 ∷ [];
  description = none;
  logo_key = none;
  rating = 0;
  review_count = 0;
  total_products = 1;
  version = 2;
  created_at = 0;
  updated_at = 0;
}

abbrev teh : ProductDoc
teh = record {
  id = 3;
  store_id = 1;
  name = 84 ∷ 101 ∷ 104 ∷ [];
  slug = 116 ∷ 101 ∷ 104 ∷ [];
  description = none;
  price = pos 10_000;
  image_key = none;
  rating = 0;
  review_count = 0;
  sold_count = 0;
  stock = 5;
  stock_version = 1;
  version = 1;
  created_at = 0;
  updated_at = 0;
}

abbrev market : CatalogDb
market = record {
  stores = toko ∷ [];
  products = teh ∷ [];
  product_reviews = [];
  app_reviews = [];
  users = [];
  purchases = [];
  outbox = [];
  inbox = [];
  deleted_objects = [];
}

-- "Toko-a!": another name, whose slug is taken.
abbrev rival : StoreInput
rival = record {
  name = 84 ∷ 111 ∷ 107 ∷ 111 ∷ 45 ∷ 97 ∷ 33 ∷ [];
  description = none;
  logo_key = none;
}

create_store_succeeds_example :
    (slug : Text) × (((create (at 5) 9 rival market).0 ≡ ok (new_store (at 5) 9 rival slug))
      × ((taken_in store_slug (is_not none) market.stores slug ≡ false)
          × ((n : ℕ) × (slug ≡ candidate (slugify rival.name) n))))
unfolding name_taken
create_store_succeeds_example = create_store_succeeds (at 5) 9 rival market refl refl refl

market-HasTotals : HasTotals market
market-HasTotals = record {
  counted = (refl, tt);
  homed = (omega arith, tt);
  once = λ id. ground arith;
}

abbrev kopi : ProductInput
kopi = record { name = 107 ∷ []; description = none; price = pos 5; image_key = none }

totals_kept_example :
    HasTotals
      (call_all ((at 5, offers 2 kopi) ∷ (at 6, withdraws 2 3) ∷ (at 7, withdraws 2 3) ∷ []) market)
totals_kept_example =
    totals_kept ((at 5, offers 2 kopi) ∷ (at 6, withdraws 2 3) ∷ (at 7, withdraws 2 3) ∷ []) market
      market-HasTotals

abbrev order : ℕ → Delivery
order n = record {
  env = at n;
  event = 77;
  buyer = 4;
  items = record { product_id = some 3; quantity = 2 } ∷ [];
}

-- Two deliveries, and a round of the database before and after the second.
abbrev redelivered : List Step
redelivered = delivers (order 5) ∷ expires 6 ∷ delivers (order 6) ∷ expires 7 ∷ []

delivered_once_example : steps redelivered market ≡ steps (first_deliveries redelivered) market
delivered_once_example =
    delivered_once 7 redelivered market
      (omega arith, (omega arith, (omega arith, (omega arith, tt)))) tt

add_to_average_between_example :
    (450 ≤ 100 * 3 → (450 ≤ add_to_average 450 2 3) × (add_to_average 450 2 3 ≤ 100 * 3))
    × (100 * 3 ≤ 450 → (100 * 3 ≤ add_to_average 450 2 3) × (add_to_average 450 2 3 ≤ 450))
add_to_average_between_example = add_to_average_between 450 2 3

abbrev quiet : Outbox
quiet = record { rows = []; broker = [] }

nothing_lost_example :
    IsKept 8
      (relay_steps 100 (enqueues (8 ∷ []) ∷ breaks 1 ∷ enqueues (9 ∷ []) ∷ publishes 10 ∷ []) quiet)
nothing_lost_example = nothing_lost 100 8 (breaks 1 ∷ enqueues (9 ∷ []) ∷ publishes 10 ∷ []) quiet

abbrev busy : Outbox
busy = record {
  rows =
      record { id = 8; published_at = none }
      ∷ record { id = 9; published_at = some 3 }
      ∷ record { id = 10; published_at = none }
      ∷ [];
  broker = 9 ∷ [];
}

backlog_published_example :
    let o' = relay_steps 1 (confirmed (20 ∷ 30 ∷ [])) busy in
    (backlog o' ≡ 0)
    × ((id : ℕ) (r : OutboxRow)
        → find (waits_as id) busy.rows ≡ some r
        → has_id o'.broker id ≡ true)
backlog_published_example = backlog_published 0 (20 ∷ 30 ∷ []) busy (omega arith)

-- The handler of the events of type 1 fails twice; there is no other.
abbrev ends_third : ℕ → Bool
ends_third zero = false
ends_third (suc zero) = false
ends_third (suc (suc _)) = true

abbrev handlers : ℕ → Option (ℕ → Bool)
handlers (suc zero) = some ends_third
handlers _ = none

abbrev redeliver : List (Option ℕ) → List (Option ℕ)
redeliver deaths = some 1 ∷ some 1 ∷ deaths

message-IsSettled_example :
    IsSettled 5 handlers (some 1) (rounds redeliver false 5 5 0 (handling_of handlers (some 1)) [])
message-IsSettled_example =
    message-IsSettled redeliver 5 (λ deaths. omega arith) handlers (some 1) (omega arith)
