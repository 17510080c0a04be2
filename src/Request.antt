-- ===== src/Request.antt =====
-- A request handler over the database. What was written before an error stays written, unless it
-- was written inside `transaction`, which then puts the database back (a rollback).
pub mod Keeps
use alkeva.Common.{Bool, true, false, Option, none, some, if◌then◌else◌}
use alkeva.Codes.{Code}
use alkeva.Schema.{Db}

pub data Result (A : Type 0) : Type 0 where
  ok : A → Result A
  err : Code → Result A

abbrev pub Action : Type 0 → Type 0
Action A = Db → Result A × Db

module _ {A : Type 0} where
  abbrev pub pure : A → Action A
  pure a db = (ok a, db)

  abbrev pub raise : Code → Action A
  raise e db = (err e, db)

  -- A read.
  abbrev pub gets : (Db → A) → Action A
  gets f db = (ok (f db), db)

  -- `if (!row) throw`
  abbrev pub or_raise : Option A → Code → Action A
  or_raise none e = raise e
  or_raise (some a) e = pure a

  -- `db.transaction(async (tx) => …)`
  abbrev pub transaction : Action A → Action A
  transaction m db = let (r, db') = m db in elim r [ ok a ↦ (ok a, db') | err e ↦ (err e, db) ]

infixl 5 ◌>>=◌ ◌>>◌
abbrev pub ◌>>=◌ : {A B : Type 0} → Action A → (A → Action B) → Action B
◌>>=◌ m f db = let (r, db') = m db in elim r [ ok a ↦ f a db' | err e ↦ (err e, db') ]

abbrev pub ◌>>◌ : {A B : Type 0} → Action A → Action B → Action B
m >> k = m >>= λ _. k

abbrev pub raise_if : Bool → Code → Action (Unit {0})
raise_if c e db = (if c then err e else ok tt, db)

-- A write.
abbrev pub modify : (Db → Db) → Action (Unit {0})
modify f db = (ok tt, f db)
