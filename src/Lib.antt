-- ===== src/Lib.antt =====
-- A verification of Seapedia's services: commerce (services/commerce) with its wallets, addresses,
-- discounts, carts, checkout, stock, orders, delivery and the overdue run; identity (services/identity)
-- with its accounts, roles, sessions and service clients; catalog (services/catalog) with its stores,
-- products and reviews; and what they share (packages/platform): errors, access tokens, the outbox and
-- its relay, and the consumer of events.
--
-- The parts, and the files that model them:
-- - Platform: the errors of packages/platform/src/errors.ts and `db.transaction`, which rolls back on a
--   throw, for each service (Platform/Monad). `Action S R A` is the code between two awaits: a function of
--   the database `S` to a result, or an error with a message of `R`, and the database. Platform/Rules has
--   the rules to reason on it. Platform/Denylist and Platform/Auth are auth/denylist.ts and
--   auth/middleware.ts; Platform/Relay is events/relay.ts with the table of events/postgres.ts;
--   Platform/Consumer is events/consumer.ts.
-- - Identity: AuthService (services/identity/src/modules/auth/auth.service.ts) in Sessions, Accounts and
--   Profile, UsersService (modules/users/users.service.ts) in Profile, OAuthService and `POST /token`
--   (modules/oauth) in Clients. Identity/Moves is the specification of what calls do to sessions and
--   tokens, Identity/Folk that of users, roles and their events.
-- - Catalog: StoreService and ProductsService (services/catalog/src/modules/stores and products) in Slugs,
--   Stores and Products; ProductReviewsService and the consumer (modules/product-reviews, modules/events)
--   in Reviews.
-- The paths that follow are below services/commerce/src.
-- - Db: the tables of db/schema as records.
-- - Wallet and Addresses: BuyersService (modules/buyers/buyers.service.ts).
-- - Discounts: DiscountsService (modules/discounts/discounts.service.ts).
-- - Cart: BuyersCartService (modules/buyers/buyers-cart.service.ts).
-- - Checkout: OrdersCheckoutService (modules/orders/orders-checkout.service.ts). `create_order` is
--   `createOrder`: `quote` is its steps 1 to 3, `reserve_stock` step 5, `pay` steps 6 and 7,
--   `record_order` the rest. `preview` (Checkout/Preview) is modelled over the cart's summary.
-- - Replicas: ReplicaSync (modules/catalog-sync/catalog-sync.service.ts) and its consumer, which keep
--   the copies of the catalog's stores and products and of identity's users.
-- - Inventory: InventoryService (modules/inventory/inventory.service.ts).
-- - Orders: OrdersSellerService and OrdersBuyerService (modules/orders/orders-seller.service.ts and
--   orders-buyer.service.ts) in Detail, Reports and Seller, DriverService
--   (modules/driver/driver.service.ts) in Driver and Jobs, AdminService (modules/admin/admin.service.ts)
--   in Overdue, with the simulated clock, and Dashboard. Orders/Lifecycle has the diagram of the statuses.
-- The services meet in the tables: checkout reads the cart, the addresses, the discounts and the
-- replicas and writes wallets, stock and orders; the seller makes the jobs that drivers take; the
-- overdue run returns what checkout took. Between services there are the events: those of identity's
-- outbox fill the users of commerce's replica (Identity/Replicated) and the denylists of all services
-- (Identity/Denied).
--
-- What the model fixes: a uuid is its rank, so it can be compared and sorted, and `Env.uuid` gives
-- those that a call draws; a timestamp is a count of milliseconds, one for each call; amounts,
-- quantities and hours are not negative, as the routes' schemas have it; a discount code is a list of
-- ASCII code points; a select without an order reads the table in order. The range of an integer
-- column is checked where a sum is written: the credit of a wallet, the stock that goes back, the
-- subtotal of an order. Every loop is recursion on a list, but for two: the search for a free slug has as fuel
-- one try more than there are stores or products (Catalog/Free), and the deliveries of a message as many
-- as its attempts (Platform/Settled). Each transaction is one
-- step, but for `processOrder`, whose read locks nothing: `process_order` takes what other transactions
-- commit between its read and its writes as a function, and Orders/Race makes two steps of them. The locks
-- that the code takes are the order of these steps. Where a query's order leaves ties open and the query
-- takes a page of it, the order is a parameter (Orders/Jobs). The expiry of the catalog's inbox is a step of
-- its own, at any time (Catalog/Deliveries); that of the outbox, of published rows only, is part of the
-- relay's.
--
-- What libraries do is a parameter: the hashes of tokens and passwords, the check of a token's signature
-- and expiry, the counts of a broker, the handlers of a consumer. Texts that a program takes apart (names, slugs, codes) are ASCII code
-- points; a rating is in hundredths, and its arithmetic is exact.
--
-- Not modelled: of commerce the locations (a proxy of an external service); of catalog the public lists and pages
-- of reviews; the HTTP routes and their schemas, the search service, storage and discovery (I/O over
-- libraries), and the web application.
pub mod Platform
pub mod Prelude
pub mod Db
pub mod Identity
pub mod Catalog
pub mod Wallet
pub mod Discounts
pub mod Cart
pub mod Addresses
pub mod Checkout
pub mod Replicas
pub mod Inventory
pub mod Orders
pub mod Tests
