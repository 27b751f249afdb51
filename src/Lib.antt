-- ===== src/Lib.antt =====
-- kasirk_backend: a model of the point-of-sale backend in src/, and its theorems.
--
-- The program is a NestJS server over PostgreSQL (through Prisma). Its core sells: a cashier opens a
-- shift (shifts.service.ts), puts orders aside (held-orders.service.ts), and checks out
-- (transactions.service.ts), which reads the catalog, prices and taxes the lines
-- (common/utils/tax.util.ts), takes stock, and stores the sale with its payment. A held order is
-- converted by running the same sale inside its own database transaction. Stock is also adjusted by
-- hand (stock.service.ts). Users sign in by password or by PIN on a device, whose session is renewed
-- with refresh tokens (auth.service.ts). Owners and admins keep the catalog (categories,
-- modifier groups and options, products and their assignments), the customers and the receipt
-- settings; an offline client sends its sales later (sync.service.ts). All services share the tables
-- and nothing else.
--
-- Files, and what they are about:
-- - Base, with Base/Tests, Lists, Int, Text, Trim, Sort, Updates, Pick: Boolean tests, list functions in the
--   manner of `find`, `filter` and `updateMany`, integers, texts and ids, JavaScript's `sort`.
-- - Common/Errors, Tax, Roles: exceptions and what is told apart of Prisma's errors;
--   src/common/utils/tax.util.ts with Tax/Rounding; src/common/guards/roles.guard.ts.
-- - Database/Rows: the rows of prisma/schema.prisma and the record `Db` of all tables.
--   Database/Client: `Tx A`, what runs inside `prisma.$transaction`: a function of the database that
--   returns a value and a database, or raises. Database/Retry: the transaction with its rollback and
--   the loops of three attempts; Retry/Attempts proves what a loop can end with.
--   Database/Actors: active users. Database/Keeps: properties of the database that transactions and
--   loops of them keep.
-- - Transactions: src/transactions/transactions.service.ts. Dto (the requests of
--   src/transactions/dto and `normalizeCheckoutDto`), Tender (`assertPaymentShape`, `resolveTender`,
--   `assertCheckoutInput`), Catalog (the catalog part of
--   `checkout`; Catalog/Rules and Catalog/Bought: what its lines are, beside the rows read), Pricing (its totals), Persist
--   (its writes), Response (`toResponse`), Replay (`assertSameRequest`), Checks (its other reads),
--   Core (`checkout` and `executeTransactionCore`), Create (`create`, `createLegacySync`,
--   `createInternal`). The files below them prove: Persist/Effect and StockEffect the writes in closed
--   form, Core/Sale, WellFormed, Keys, Written, SameRequest, Idempotent, Outcome and Payment what a sale does,
--   Create/Outcome and Create/Errors what a request can end with.
-- - HeldOrders: src/held-orders. Dto, Access (who may), Resolve (`resolveItems`, `totals`,
--   `persistItems`), Read, Write (`create`, `update`, `cancel` in their transactions), Service (those
--   with the checks before them), Convert (`checkout`, `convertHeldOrder`), Convert/Links, Evolution, Steps
--   and Lifecycle (how the table of orders may change).
-- - Shifts: src/shifts/shifts.service.ts. Access, Read, Session (`open`), Summary
--   (`deriveSummary`), Close (`close`), Summary/Figures, Rules and Closing (what the
--   summary shows, and what opening and closing guarantee).
-- - Stock: src/stock/stock.service.ts. Stock/Conservation: what an adjustment changes.
-- - Auth: src/auth/auth.service.ts. Config (the settings and the constructor), Tokens (what it takes
--   from bcrypt, SHA-256 and the JWT library), Login (`login`, `resolveStore`, `getCurrentUser`), Pin
--   (`pinLogin`, `recordFailedPin`), Refresh (`refresh`, `logout`). Spent, Logins and Reuse follow a used
--   refresh token through later operations, Failures and Lockout count wrong PINs.
-- - Catalog: Tables (the unique indexes and foreign keys, src/common/utils/prisma-error.util.ts),
--   Categories (src/categories), Groups (src/modifier-groups), Products, Assignments and Listing
--   (src/products/products.service.ts). Requests joins the operations that write to one data type,
--   Steps is the relation of what one request may do, Requests/Groups, Products and Assignments show that
--   each operation makes such steps; Isolation, Rules, Foreign and Replace draw the consequences.
-- - Customers: src/customers/customers.service.ts. Data (`createData`, `updateData`), Store (the
--   operations), History (`transactionHistory`), Writes
--   (`create` and the phones), Patch (what an update changes) and Normal (the stored texts sent
--   again).
-- - Sync: src/sync/sync.service.ts, which runs the checkouts of an offline client one after the other,
--   after a transaction of its own that checks their access; Sync/Answers: what it answers.
-- - Outlets: src/outlets/receipt-settings.service.ts. Data (`writeData`), Settings (`get`, `put`),
--   Saved (a `put` and the `get` after it).
-- - Tests: a sample shop, runs of the definitions on it, and the theorems at those runs.
--
-- Choices. Prices, quantities and amounts are natural numbers: the requests' validators and the
-- CHECK constraints of the tables keep them at zero or above. BigInt has no bound; `money` tests
-- 2^53 - 1 where the code does. An id is the number that its digits write, with its letter case
-- beside it where a request can bring upper case. A generated id is `next_id`, which then grows; the
-- time is `clock`. Rows are read in table order: no modelled result depends on a query's order but
-- the display order of lines. The database is outside the program. What other clients write between
-- attempts, and which attempts the database fails, are arguments (`World`); inside one attempt a
-- transaction sees its own writes only, as under a serializable schedule. Row locks (`FOR UPDATE`)
-- have no effect inside one attempt. No recursion needs fuel but the retry loop, whose bound of
-- three attempts is the code's own.
--
-- A request of the catalog or of the customers runs with no other writer between its statements;
-- unique indexes and foreign keys raise P2002 and P2003 as PostgreSQL does. Its collation, the search
-- without case, `toLowerCase`, bcrypt, SHA-256, the JWT library and the configuration service are
-- arguments. A device session whose user is missing, which its foreign key excludes, is not usable.
--
-- Not modelled: the rest of outlets, users, reports, receipts, and the
-- reads of transactions and held orders, which read or write single rows without a rule of their own;
-- the Passport strategy, controllers, modules, the seed and the bootstrap, which are glue.
pub mod Base
pub mod Common
pub mod Database
pub mod Transactions
pub mod HeldOrders
pub mod Shifts
pub mod Stock
pub mod Sync
pub mod Outlets
pub mod Catalog
pub mod Customers
pub mod Auth
pub mod Tests
