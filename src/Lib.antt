-- ===== src/Lib.antt =====
-- KartIt, an online shop: what its API and its worker do to stock, carts, orders, payments, refunds and
-- the ledger, and what holds of it.
--
-- The parts and their files. Paths are from the repository's root.
-- Prelude and its children hold the shared names, signed integers over the native numbers, and tables:
-- rows under their primary keys in the order of creation. Result has the errors of
-- apps/api/src/lib/errors.ts. Store has the database of packages/db/prisma/schema.prisma and its
-- transactions: a function from the database to an error, which rolls every write back, or to a result
-- and the new database. Shared.Enums, Shared.Transitions and Shared.Pricing are packages/shared/src.
-- Inventory is packages/db/src/inventory.ts (restoreInventory, shipInventory) and
-- apps/api/src/modules/orders/orders.inventory.service.ts (reserveInventory). Promotions is `validate` of
-- apps/api/src/modules/promotions/promotions.service.ts and
-- apps/api/src/modules/orders/orders.promotion-lock.ts. Cart is
-- apps/api/src/modules/cart/cart.service.ts. Orders and its children are
-- apps/api/src/modules/orders: Create and Cancel are ordersService.create and cancel of
-- orders.service.ts, Status is orders.status.service.ts, Webhook is orders.payment.service.ts, and Sweep
-- is apps/api/src/jobs/sweepAbandonedOrders.ts. Refunds is orders.refund-request.service.ts. Payments is
-- apps/api/src/modules/payments/payments.service.ts (processWebhook, createPaymentIntent), and Retry is
-- apps/worker/src/workers/webhooks-retry.worker.ts. Ledger is
-- apps/worker/src/workers/order-events.worker.ts and the summary of
-- apps/api/src/modules/ledger/ledger.service.ts. Dispatch is the poll of
-- apps/worker/src/outbox-dispatcher.ts. Run puts the calls of the carts and orders together.
-- Idempotency and its children are apps/api/src/middlewares: the module itself and Hash are
-- idempotency-helpers.ts, Hot is idempotency-redis.ts, Durable is idempotency-postgres.ts, Middleware is
-- idempotency.ts and idempotency-response-hook.ts, and Promote is
-- apps/api/src/jobs/promoteIdempotencyKeys.ts; Spec is what the middleware promises of one key, with no
-- store. Listings has the pages and reads of orders, refund requests and promotions, Categories is
-- apps/api/src/modules/categories/categories.service.ts, Auth is
-- apps/api/src/modules/auth/auth.service.ts with apps/api/src/middlewares/requireAuth.ts, RateLimit is
-- apps/api/src/middlewares/rateLimiter.ts, and Products is `remove` of
-- apps/api/src/modules/products/products.service.ts. Shared.Money is packages/shared/src/money.ts, over the
-- texts of numbers in Shared.Decimal.
--
-- How the parts meet. A checkout reserves stock, and every way out of an open order releases or ships
-- it: Orders.Accounting states what each call keeps of the stock accounts, Orders.Progress how a status may
-- change, and Run.Accounts joins the calls. Where two transactions may overlap, the rest of a handler after its read is a definition of its
-- own (`…_write`), which takes the row that was read, so that a theorem can put another commit in
-- between. The advisory locks make reservations of a product follow one another.
--
-- What is assumed. The client of the database makes new ids (a hypothesis where a theorem needs it).
-- No payment has the empty text for its provider id.
-- Stripe's answers, the comparison of texts by `localeCompare`, the environment's currency and the
-- answers of the cache are arguments, and so is what the database client answers for a cursor that is not
-- among the rows of a listing. Promotion codes are compared without regard to the case of ASCII letters, as
-- their column of the type citext does it. Ids and times are numbers; a time is in milliseconds. Amounts are
-- integers without a bound, as BigInts are; the 32-bit range of stock columns and quantities is not
-- modelled. Redis is an interface (Idempotency.Redis) with the laws that its documentation gives, and
-- Idempotency.Redis.Listed is an instance of it. SHA-256, JSON, the signatures of tokens and the hashes
-- of passwords are parameters. In the idempotency middleware the commands of one request run together,
-- though time passes between them; a write that nobody waits for may fail.
--
-- Loops. Most loops of the source are over a finite list, so they are structural recursion. Two
-- functions call themselves again: tryRedisClaim has its rounds as fuel, of which one is enough while
-- the key does not end between two commands (Idempotency.Refines), and postgresPath has a list of
-- rounds, of which two are enough where no other request comes in between (Idempotency.Rounds). The
-- digits of a number n are made with n + 1 rounds as fuel, and a walk over pages has one round more than
-- there are rows.
--
-- Not modelled: reconciliation, the other calls of products, images and addresses, the other listings and the cached reads
-- of categories, HTTP with its headers and cookies, CSRF, mail, and the web client; copies of third-party
-- libraries, tests, load tests and seeds. The floating-point rounding of the rate limiter's script is
-- left out, its tokens being exact fractions. The notes of prices hold the amounts that their texts show.
pub mod Prelude
pub mod Result
pub mod Shared
pub mod Store
pub mod Inventory
pub mod Promotions
pub mod Cart
pub mod Orders
pub mod Retry
pub mod Dispatch
pub mod Run
pub mod Samples
pub mod Ledger
pub mod Refunds
pub mod Payments
pub mod Idempotency
pub mod Listings
pub mod Categories
pub mod Auth
pub mod RateLimit
pub mod Products
