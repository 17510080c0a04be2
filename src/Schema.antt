-- ===== src/Schema.antt =====
-- packages/db/src/schema.ts: the enums, the rows, and the database as one record of tables.
-- An id is a uuid, here a number that the caller of an insert supplies. An instant is a number of
-- milliseconds. A bigint column that the API only ever fills with amounts of zero or more is a
-- natural number; ledger amounts are integers. Serialised JSON columns are left out.
mod Enums
mod Rows
pub use Enums.*
pub use Rows.*
