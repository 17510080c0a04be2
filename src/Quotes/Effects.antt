-- ===== src/Quotes/Effects.antt =====
-- Making a quote (apps/api/src/quotes/quotes.service.ts) touches no money.
use alkeva.Common.{ℕ, ◌≡◌, arith}
use alkeva.Schema.{Db}
use alkeva.Books.{IsSound}
use alkeva.Quotes.{QuoteEnv, CreateQuote, create}

module _ (env : QuoteEnv) (now id user : ℕ) (dto : CreateQuote) (db : Db) where
  create-entries : (create env now id user dto db).1.entries ≡ db.entries
  unfolding create
  create-entries = ground arith

  create-vault : (create env now id user dto db).1.vault_holdings ≡ db.vault_holdings
  unfolding create
  create-vault = ground arith

  create-payouts : (create env now id user dto db).1.payouts ≡ db.payouts
  unfolding create
  create-payouts = ground arith

  create-deliveries : (create env now id user dto db).1.deliveries ≡ db.deliveries
  unfolding create
  create-deliveries = ground arith

  pub create-Sound : IsSound db → IsSound (create env now id user dto db).1
  create-Sound s = rw (create-entries, create-vault, create-payouts, create-deliveries) s
