-- ===== src/Lib.antt =====
-- ALKEVA: the money core of a platform that sells gold and platinum to customers, who keep a
-- balance of Ethiopian birr and of milligrams of metal.
--
-- The parts and their files:
--   Assets, Codes    packages/shared/src/constants.ts, and the codes with which the API refuses
--   Schema           packages/db/src/schema.ts: enums, rows, and the database as a record of tables
--   Request          a handler: database in, result and database out; `transaction` rolls back
--   Fees, Quotes     apps/api/src/fees and apps/api/src/quotes: computeFees, create
--   Ledger           apps/api/src/ledger/ledger.service.ts: postTransaction, lockAndReadBalances and
--                    the gates, with the trigger of packages/db/migrations/0001 that
--                    matches assets; Ledger/Post and Ledger/Accepts say what a posting does,
--                    and Ledger/Refines that it is an abstract ledger of balances
--   Orders           apps/api/src/orders/orders.service.ts: execute and resolveReview, split into
--                    the reads (Queries), the checks (Gates), the writes (Settle) and the two flows
--                    (Execute, Review)
--   Books            what must hold of the books at all times, as the record Sound
--   Treasury         apps/api/src/treasury: recordVault, recordCapital, reserveFor
--   Payouts          apps/api/src/payouts/payouts.service.ts: the hold, settle and refund
--                    transactions; Payouts/Transfer the approval, the transfer and its webhook;
--                    Payouts/Intents the request with its emailed code; Payouts/Sweep the timer
--   Delivery         apps/api/src/delivery/delivery.service.ts: approve, schedule, deliver, reject
--                    and, in Delivery/Asked, create
--   Chapa            apps/api/src/chapa/chapa.service.ts: the judgement of the provider's answers,
--                    amounts as text, webhook signatures
--   Payments         apps/api/src/payments/payments.service.ts: deposits, with their reversals in
--                    Payments/Reverse and the calls from outside in Payments/Requests
--   Worker           apps/worker/src/main.ts: the exchange rate guard and the price ticks
--   Outbox           notices: apps/api/src/notifications/notifications.service.ts (emit, in Rows),
--                    apps/worker/src/dispatcher.ts (Dispatch), apps/worker/src/alerts.ts and
--                    apps/api/src/alerts/alerts.service.ts (Alerts)
--   Auth             apps/api/src/auth: the emailed codes (Codes; Once for calls that overlap), the
--                    sessions and the guard of access tokens (Sessions)
--   Portfolio        apps/api/src/portfolio/portfolio.service.ts: the cost basis (Basis), the tier
--                    (Tier), and the page that shows them (Projection)
--   System           the services together: a step is one request, a state is the database
--   Tests            the theorems on concrete rows
--
-- How the code is carried over. Each service method is a function of the same name in snake case.
-- An error is a value of the type Code. A request runs alone between its locks: the model takes
-- the transactions one after the other, as the account locks make them. Where the code has no lock
-- from a check to a write (alerts, delivery requests, emailed codes), the comment of the file says
-- so. Time, new ids and settings are arguments. Ids are numbers, instants are milliseconds since
-- 1970, amounts of a request are natural numbers (the schemas take digits only), and balances are
-- integers without a bound, as bigint has none. A balance is a sum over the entries. A read of an
-- account that was not locked gives 0, as a missing key of the map does. A notice is a row of a
-- table.
--
-- The answers of the payment provider and of the price feeds are arguments: the theorems hold
-- whatever is answered. An amount in an answer is a double, whose product and rounding are written
-- out in integers. Printing a number takes its value as fuel, which is more than its digits. The
-- cryptographic hash and the normalisation of names are parameters.
--
-- Not modelled: the web application, passwords and the identity providers, KYC, the assistant and
-- the Telegram bot, the calls over HTTP, and the errors of the database driver. Of the deliveries,
-- the address and the snapshot of the eligibility are left out; of the worker, the writer lock and
-- the loops; of the notices, their texts and the pacing of Telegram messages. The caches of Redis
-- that only save calls are left out, but those that hold the exchange rate are the state of the
-- rate guard, and the marks of revoked sessions are part of the state of the sessions. In the
-- services of the money paths a notice is a row without its channels; Outbox has the channels.
pub mod Common
pub mod Assets
pub mod Codes
pub mod Schema
pub mod Request
pub mod Fees
pub mod Quotes
pub mod Ledger
pub mod Orders
pub mod Books
pub mod Treasury
pub mod Payouts
pub mod Delivery
pub mod Chapa
pub mod Payments
pub mod Worker
pub mod Portfolio
pub mod Outbox
pub mod Auth
pub mod System
pub mod Tests
