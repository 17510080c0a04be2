-- ===== src/Request/Keeps.antt =====
-- What every handler keeps: rules that follow the way a handler is put together.
use alkeva.Common.{◌≡◌, refl, Bool, true, false, Option, none, some}
use alkeva.Codes.{Code}
use alkeva.Schema.{Db}
use alkeva.Request.{Result, ok, err, Action, or_raise, raise_if, transaction, ◌>>=◌, ◌>>◌}

-- However the handler ends, the database has the property if it had it before.
abbrev pub Keeps : {A : Type 0} → (Db → Type 0) → Action A → Type 0
Keeps P m = (db : Db) → P db → P (m db).1

module _ {A : Type 0} (P : Db → Type 0) where
  pub Keeps-transaction : (m : Action A) → Keeps P m → Keeps P (transaction m)
  Keeps-transaction m k db h = go (m db) (k db h)
    where
      go : (r : Result A × Db) → P r.1 → P (transaction (λ _. r) db).1
      go (ok a, db') p = p
      go (err e, db') p = h

  pub Keeps-bind :
      {B : Type 0} (m : Action B) (f : B → Action A)
      → Keeps P m
      → ((b : B) → Keeps P (f b))
      → Keeps P (m >>= f)
  Keeps-bind {B} m f km kf db h = go (m db) (km db h)
    where
      go : (r : Result B × Db) → P r.1 → P (◌>>=◌ (λ _. r) f db).1
      go (ok b, db') p = kf b db' p
      go (err e, db') p = p

  pub Keeps-or_raise : (o : Option A) (e : Code) → Keeps P (or_raise o e)
  Keeps-or_raise none e db h = h
  Keeps-or_raise (some a) e db h = h

  -- The same at one database, where more is known of the first part.
  pub Keeps-bind_at :
      {B : Type 0} (m : Action B) (f : B → Action A) (db : Db)
      → P (m db).1
      → ((b : B) → Keeps P (f b))
      → P ((m >>= f) db).1
  Keeps-bind_at {B} m f db h kf = go (m db) h
    where
      go : (r : Result B × Db) → P r.1 → P (◌>>=◌ (λ _. r) f db).1
      go (ok b, db') p = kf b db' p
      go (err e, db') p = p

  pub Keeps-raise_if :
      (c : Bool) (e : Code) (f : Action A) → Keeps P f → Keeps P (raise_if c e >> f)
  Keeps-raise_if true e f k db h = h
  Keeps-raise_if false e f k db h = k db h

-- A handler whose first part has a property that the rest needs.
pub bind-Keeps :
    {A B : Type 0} (R P : Db → Type 0) (m : Action B) (f : B → Action A)
    → ((db : Db) → R db → P db)
    → Keeps R m
    → ((b : B) (db : Db) → R db → P (f b db).1)
    → (db : Db) → R db
    → P ((m >>= f) db).1
bind-Keeps {A} {B} R P m f weaken km kf db h = go (m db) (km db h)
  where
    go : (r : Result B × Db) → R r.1 → P (◌>>=◌ (λ _. r) f db).1
    go (ok b, db') p = kf b db' p
    go (err e, db') p = weaken db' p

-- What holds of the value and the database if a handler ends well.
abbrev pub AllOk : {A : Type 0} → (A → Db → Type 0) → Result A × Db → Type 0
AllOk Q (ok a, db) = Q a db
AllOk Q (err e, db) = Unit

-- A transaction that keeps a property when it commits keeps it always.
pub transaction-AllOk :
    {A : Type 0} (P : Db → Type 0) (m : Action A) (db : Db)
    → P db
    → AllOk (λ _. P) (m db)
    → P (transaction m db).1
transaction-AllOk {A} P m db h k = go (m db) k
  where
    go : (r : Result A × Db) → AllOk (λ _. P) r → P (transaction (λ _. r) db).1
    go (ok a, db') p = p
    go (err e, db') p = h

pub bind-AllOk :
    {A B : Type 0} (Q : A → Db → Type 0) (m : Action B) (f : B → Action A) (db : Db)
    → AllOk (λ b db'. AllOk Q (f b db')) (m db)
    → AllOk Q ((m >>= f) db)
bind-AllOk {A} {B} Q m f db h = go (m db) h
  where
    go : (r : Result B × Db) → AllOk (λ b db'. AllOk Q (f b db')) r → AllOk Q (◌>>=◌ (λ _. r) f db)
    go (ok b, db') p = p
    go (err e, db') p = tt

pub raise_if-AllOk :
    (Q : Unit {0} → Db → Type 0) (c : Bool) (e : Code) (db : Db)
    → (c ≡ false → Q tt db)
    → AllOk Q (raise_if c e db)
raise_if-AllOk Q true e db h = tt
raise_if-AllOk Q false e db h = h refl

pub or_raise-AllOk :
    {A : Type 0} (Q : A → Db → Type 0) (o : Option A) (e : Code) (db : Db)
    → ((a : A) → o ≡ some a → Q a db)
    → AllOk Q (or_raise o e db)
or_raise-AllOk Q none e db h = tt
or_raise-AllOk Q (some a) e db h = h a refl

-- A handler whose first part ends well goes on with its second part.
pub bind-eq_ok :
    {A B : Type 0} (m : Action B) (f : B → Action A) (db : Db) {b : B} {db' : Db}
    → m db ≡ (ok b, db')
    → (m >>= f) db ≡ f b db'
bind-eq_ok m f db h = λ i. ◌>>=◌ (λ _. h i) f db
