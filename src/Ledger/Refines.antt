-- ===== src/Ledger/Refines.antt =====
-- The promise of apps/api/src/ledger/ledger.service.ts to the rest of the API: a ledger is what each
-- account has, and a posting moves that. The rows of transactions and entries are how it is kept.
use alkeva.Common.{
  ℕ, ◌≡◌, ◌∙◌, ap, refl, inl, inr, Bool, true, false, ◌&&◌, List, [], ◌∷◌, if◌then◌else◌, filter,
  all, any, arith, Bool-cases, Option-cases,
}
use alkeva.Common.Int.{ℤ, pos, ◌+ℤ◌, eqb_ℤ, eqb_ℤ→eq}
use alkeva.Assets.{
  Asset, asset_eq, etb, metal, xau, xpt, cash, fees, tax, reforestation, external, payout_hold,
  vault, delivery_hold,
}
use alkeva.Schema.{Db, AccountId, user_account, system_account}
use alkeva.Request.{Result, ok, err}
use alkeva.Ledger.{
  EntrySpec, PostTxnSpec, balance, is_nonzero, is_empty, fits, asset_of, has_account, per_asset,
  unbalanced, posted, post_transaction,
}
use alkeva.Ledger.Balance.{delta, spec_total}
use alkeva.Ledger.Post.{balance-posted, post_transaction-cases}
use alkeva.Ledger.Accepts.{post_transaction_accepts}

-- The abstract ledger: what each account has.
abbrev pub Holdings : Type 0
Holdings = AccountId → ℤ

abbrev pub holdings : Db → Holdings
holdings db a = balance a db.entries

abbrev is_balanced : List EntrySpec → Bool
is_balanced es =
    eqb_ℤ (spec_total etb es) (pos 0)
    && (eqb_ℤ (spec_total (metal xau) es) (pos 0) && eqb_ℤ (spec_total (metal xpt) es) (pos 0))

-- What an account holds: a customer's what it was opened for, the vaults and the delivery escrows their
-- metal, the others ETB.
abbrev pub held_in : AccountId → Asset
held_in (user_account user_id a) = a
held_in (system_account (vault m)) = metal m
held_in (system_account (delivery_hold m)) = metal m
held_in (system_account cash) = etb
held_in (system_account fees) = etb
held_in (system_account tax) = etb
held_in (system_account reforestation) = etb
held_in (system_account external) = etb
held_in (system_account payout_hold) = etb

abbrev pub suits : List AccountId → EntrySpec → Bool
suits accounts e = has_account e.account_id accounts && asset_eq (held_in e.account_id) e.asset

-- Each entry that is not zero is in the asset of an account that is there.
abbrev pub all_fit : List AccountId → List EntrySpec → Bool
all_fit accounts es = all (suits accounts) (filter is_nonzero es)

held_in-asset_of : (a : AccountId) → asset_of a ≡ held_in a
held_in-asset_of (user_account user_id a) = refl
held_in-asset_of (system_account (vault m)) = refl
held_in-asset_of (system_account (delivery_hold m)) = refl
held_in-asset_of (system_account cash) = refl
held_in-asset_of (system_account fees) = refl
held_in-asset_of (system_account tax) = refl
held_in-asset_of (system_account reforestation) = refl
held_in-asset_of (system_account external) = refl
held_in-asset_of (system_account payout_hold) = refl

all_fit-fits :
    (accounts : List AccountId) (es : List EntrySpec)
    → all (fits accounts) (filter is_nonzero es) ≡ all_fit accounts es
all_fit-fits accounts es i =
    all
      (λ (e : EntrySpec).
        has_account e.account_id accounts && asset_eq (held_in-asset_of e.account_id i) e.asset)
      (filter is_nonzero es)

-- A movement is due if it creates nothing, destroys nothing, moves something, and fits the accounts.
abbrev pub is_due : List AccountId → List EntrySpec → Bool
is_due accounts es = is_balanced es && (any is_nonzero es && all_fit accounts es)

abbrev pub moved : List EntrySpec → Holdings → Holdings
moved es h a = delta a es +ℤ h a

-- The abstract run: whether each movement is made, and what the accounts have in the end.
unfoldable pub move_all : List AccountId → List (List EntrySpec) → Holdings → List Bool × Holdings
move_all accounts [] h = ([], h)
move_all accounts (es ∷ rest) h =
    let (answers, h') = move_all accounts rest (if is_due accounts es then moved es h else h) in
    (is_due accounts es ∷ answers, h')

abbrev is_ok : {A : Type 0} → Result A → Bool
is_ok (ok a) = true
is_ok (err e) = false

-- A sequence of postings: whether each went through, and the database in the end.
unfoldable pub post_all : List (ℕ × PostTxnSpec) → Db → List Bool × Db
post_all [] db = ([], db)
post_all ((txn, spec) ∷ rest) db =
    let (r, db') = post_transaction txn spec db in
    let (answers, last) = post_all rest db' in (is_ok r ∷ answers, last)

abbrev pub movements : List (ℕ × PostTxnSpec) → List (List EntrySpec)
movements [] = []
movements ((txn, spec) ∷ rest) = spec.entries ∷ movements rest

zero-is_balanced :
    (es : List EntrySpec) → ((a : Asset) → spec_total a es ≡ pos 0) → is_balanced es ≡ true
zero-is_balanced es z = rw (z etb, z (metal xau), z (metal xpt)) refl

is_balanced-zero :
    (es : List EntrySpec) → is_balanced es ≡ true → (a : Asset) → spec_total a es ≡ pos 0
is_balanced-zero es h etb = eqb_ℤ→eq _ _ (ground arith)
is_balanced-zero es h (metal xau) = eqb_ℤ→eq _ _ (ground arith)
is_balanced-zero es h (metal xpt) = eqb_ℤ→eq _ _ (ground arith)

filter-is_empty :
    (es : List EntrySpec) → any is_nonzero es ≡ false → is_empty (filter is_nonzero es) ≡ true
filter-is_empty [] h = refl
filter-is_empty (e ∷ es) h = elim (Bool-cases (is_nonzero e)) [
  | inl keep ↦ cc (rw keep at h)
  | inr drop ↦ rw drop (filter-is_empty es (rw drop at h))
]

-- What does not move anything is refused.
idle-is_ok :
    (txn : ℕ) (spec : PostTxnSpec) (db : Db)
    → any is_nonzero spec.entries ≡ false
    → is_ok (post_transaction txn spec db).0 ≡ false
unfolding post_transaction
idle-is_ok txn spec db h =
    elim (Option-cases (unbalanced (per_asset [] (filter is_nonzero spec.entries)))) [
      | inr (a, bad) ↦ rw bad refl
      | inl fine ↦ rw (fine, filter-is_empty spec.entries h) refl
    ]

-- Nor is what does not fit the accounts.
misfit-is_ok :
    (txn : ℕ) (spec : PostTxnSpec) (db : Db)
    → all_fit db.accounts spec.entries ≡ false
    → is_ok (post_transaction txn spec db).0 ≡ false
unfolding post_transaction
misfit-is_ok txn spec db h =
    elim (Option-cases (unbalanced (per_asset [] (filter is_nonzero spec.entries)))) [
      | inr (a, bad) ↦ rw bad refl
      | inl fine ↦ elim (Bool-cases (is_empty (filter is_nonzero spec.entries))) [
        | inl nothing ↦ rw (fine, nothing) refl
        | inr something ↦ rw (fine, something, all_fit-fits db.accounts spec.entries ∙ h) refl
      ]
    ]

-- One posting does what the abstract movement does, and opens no account.
abbrev Simulates : List EntrySpec → Db → Result ℕ × Db → Type 0
Simulates es db (r, db') =
    (is_ok r ≡ is_due db.accounts es)
    × (holdings db' ≡ (if is_due db.accounts es then moved es (holdings db) else holdings db))
    × (db'.accounts ≡ db.accounts)

both : (b c : Bool) → b && c ≡ true → (b ≡ true) × (c ≡ true)
both true c h = (refl, h)
both false c h = cc

post_transaction-Simulates :
    (txn : ℕ) (spec : PostTxnSpec) (db : Db)
    → Simulates spec.entries db (post_transaction txn spec db)
unfolding posted
post_transaction-Simulates txn spec db = elim (post_transaction-cases txn spec db) [
  | inr (done, zero) ↦ elim (Bool-cases (any is_nonzero spec.entries)) [
    | inl some_entry ↦ elim (Bool-cases (all_fit db.accounts spec.entries)) [
      | inl fitting ↦
          rw (done, zero-is_balanced spec.entries zero, some_entry, fitting)
            (refl, λ i a. balance-posted a txn spec db i, refl)
      | inr misfit ↦ cc (rw done at (misfit-is_ok txn spec db misfit))
    ]
    | inr idle ↦ cc (rw done at (idle-is_ok txn spec db idle))
  ]
  | inl (e, refused) ↦ elim (Bool-cases (is_due db.accounts spec.entries)) [
    | inl due ↦
        let (level, rest) = both (is_balanced spec.entries) _ due in
        let (some_entry, fitting) = both (any is_nonzero spec.entries) _ rest in
        cc (
          refused,
          post_transaction_accepts txn spec db (is_balanced-zero spec.entries level) some_entry
              (all_fit-fits db.accounts spec.entries ∙ fitting),
        )
    | inr idle ↦ rw (refused, idle) (refl, refl, refl)
  ]
]

-- Any sequence of postings is answered as the abstract ledger answers it, which makes a movement
-- exactly when it sums to zero in each asset, moves something, and each entry that is not zero is in
-- the asset of an account that is there; and it leaves every account with what the abstract ledger
-- says that it has.
pub post_all_refines :
    (requests : List (ℕ × PostTxnSpec)) (db : Db)
    → ((post_all requests db).0 ≡ (move_all db.accounts (movements requests) (holdings db)).0)
      × (holdings (post_all requests db).1
          ≡ (move_all db.accounts (movements requests) (holdings db)).1)
unfolding post_all move_all
post_all_refines [] db = (refl, refl)
post_all_refines ((txn, spec) ∷ rest) db =
    let (answer, after, same) = post_transaction-Simulates txn spec db in
    let (answers, last) = post_all_refines rest (post_transaction txn spec db).1 in
    (
      rw (answer, ← after) (ap (λ bs. is_due db.accounts spec.entries ∷ bs) (rw same at answers)),
      (rw same at last) ∙ ap (λ h. (move_all db.accounts (movements rest) h).1) after,
    )
