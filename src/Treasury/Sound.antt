-- ===== src/Treasury/Sound.antt =====
-- The treasury's entries keep the books sound.
use alkeva.Common.{ℕ, ◌≡◌, refl, Bool, true, false, [], ◌∷◌, if◌then◌else◌}
use alkeva.Common.Int.{ℤ, pos, ◌+ℤ◌, ◌-ℤ◌, ◌≤ℤ◌, int_laws, zero-+ℤ, ltb_ℤ}
use alkeva.Assets.{
  SystemAccountName, MetalAsset, metal_eq, xau, xpt, cash, external, vault, payout_hold,
  delivery_hold,
}
use alkeva.Codes.{vault_below_owed, float_below_halt}
use alkeva.Schema.{
  Db, AccountId, user_account, system_account, account_eq, VaultKind, intake, outtake,
}
use alkeva.Request.{raise_if, Action, transaction, ◌>>◌}
use alkeva.Request.Keeps.{Keeps, bind-Keeps, transaction-AllOk, AllOk, bind-AllOk, raise_if-AllOk}
use alkeva.Ledger.{
  balance, balances_of, lock_and_read_balances, system_account_id, posted, PostTxnSpec,
}
use alkeva.Ledger.Accounts.{system_account_id-Keeps}
use alkeva.Ledger.Balance.{delta}
use alkeva.Ledger.Post.{Moved, post_transaction-AllOk}
use alkeva.Ledger.Reads.{balances_of_locked, lock_and_read_balances-AllOk, account_eq_refl}
use alkeva.Orders.Queries.{physical_mg, add_kind}
use alkeva.Orders.Sound.{metal_eq→eq}
use alkeva.Common.Int.{ltb_ℤ→ge}
use alkeva.Books.{Sound, IsSound}
use alkeva.Books.Postings.{posting-Sound}
use alkeva.Treasury.{
  VaultEntry, CapitalEntry, Direction, inward, outward, owed, below_owed, vault_row, write_vault,
  store_vault, record_vault_tx, below_halt, capital_entries, post_capital, store_capital,
  audit_capital, write_capital, record_capital_tx, record_vault, record_capital,
}

outtake_covered :
    (p bm : ℤ) (g : ℕ) → ltb_ℤ (p -ℤ pos g) (owed bm) ≡ false → pos 0 ≤ℤ p -ℤ pos g +ℤ bm
unfolding owed
outtake_covered p bm g f = let h = ltb_ℤ→ge (p -ℤ pos g) (owed bm) f in omega int_laws

-- The stock of a metal after an entry that the check let through covers what is owed.
covered_by :
    (counts : Bool) (kind : VaultKind) (p q b bm : ℤ) (g : ℕ)
    → (counts ≡ true → (b ≡ bm) × (q ≡ p))
    → below_owed kind q g b ≡ false
    → pos 0 ≤ℤ p +ℤ bm
    → pos 0 ≤ℤ (if counts then add_kind kind p g else p) +ℤ bm
covered_by true intake p q b bm g same fine h = omega int_laws
covered_by true outtake p q b bm g same fine h =
    let (eb, eq) = same refl in outtake_covered p bm g (rw (eb, eq) at fine)
covered_by false kind p q b bm g same fine h = h

stored-Sound :
    (actor : ℕ) (dto : VaultEntry) (db : Db)
    → IsSound db
    → below_owed dto.kind
        (physical_mg dto.asset db.vault_holdings)
        dto.grams_mg
        (balance (system_account (vault dto.asset)) db.entries)
      ≡ false
    → Sound db.entries (vault_row actor dto ∷ db.vault_holdings) db.payouts db.deliveries
unfolding physical_mg
stored-Sound actor dto db s fine = record {
  solvent = s.solvent;
  reserved = λ m.
      covered_by (metal_eq dto.asset m) dto.kind _ _ _ _ dto.grams_mg
        (λ e. let eq = metal_eq→eq dto.asset m e in rw eq (refl, refl)) fine (s.reserved m);
  zero_sum = s.zero_sum;
  payout_escrow = s.payout_escrow;
  delivery_escrow = s.delivery_escrow;
}

pub system_account_id-Sound : (n : SystemAccountName) → Keeps IsSound (system_account_id n)
system_account_id-Sound = system_account_id-Keeps IsSound (λ _ _ r. r)

-- A vault entry that is written keeps the books sound.
pub record_vault_tx-AllOk :
    (actor : ℕ) (dto : VaultEntry) (db : Db)
    → IsSound db
    → AllOk (λ _. IsSound) (record_vault_tx actor dto db)
unfolding record_vault_tx write_vault
record_vault_tx-AllOk actor dto db s =
    let account = system_account (vault dto.asset) in
    let ids = account ∷ [] in
    let b = balances_of ids db.entries account in
    let refused = below_owed dto.kind (physical_mg dto.asset db.vault_holdings) dto.grams_mg b in
    let here = balances_of_locked ids db.entries account (rw (account_eq_refl account) refl) in
    bind-AllOk (λ _. IsSound) (lock_and_read_balances ids) (write_vault actor dto) db
      (lock_and_read_balances-AllOk _ ids db (
        bind-AllOk (λ _. IsSound) (raise_if refused vault_below_owed) (λ _. store_vault actor dto)
          db
          (raise_if-AllOk _ refused vault_below_owed db
            (λ fine. stored-Sound actor dto db s (rw here at fine)))))

elsewhere_zero :
    (d : Direction) (n : ℕ) (x : AccountId)
    → account_eq (system_account external) x ≡ false
    → account_eq (system_account cash) x ≡ false
    → delta x (capital_entries d n) ≡ pos 0
elsewhere_zero inward n x h k = rw (h, k) refl
elsewhere_zero outward n x h k = rw (h, k) refl

-- A capital entry moves nothing on a customer's, a vault or an escrow account.
capital-Sound :
    (d : Direction) (n txn : ℕ) (spec : PostTxnSpec) (before after : Db)
    → spec.entries ≡ capital_entries d n
    → Moved txn spec before after
    → IsSound before
    → Sound after.entries before.vault_holdings before.payouts before.deliveries
capital-Sound d n txn spec before after e m s =
    posting-Sound s m before.vault_holdings before.payouts before.deliveries
      (λ u a. rw (e, elsewhere (user_account u a) refl refl, zero-+ℤ _) (s.solvent u a))
      (λ k.
        rw (e, elsewhere (system_account (vault k)) (vaults k) (vaults' k), zero-+ℤ _)
          (s.reserved k))
      (rw (e, elsewhere (system_account payout_hold) refl refl) (zero-+ℤ _))
      (λ k. rw (e, elsewhere (system_account (delivery_hold k)) (holds k) (holds' k)) (zero-+ℤ _))
  where
    elsewhere :
        (x : AccountId)
        → account_eq (system_account external) x ≡ false
        → account_eq (system_account cash) x ≡ false
        → delta x (capital_entries d n) ≡ pos 0
    elsewhere = elsewhere_zero d n

    vaults :
        (k : MetalAsset) → account_eq (system_account external) (system_account (vault k)) ≡ false
    vaults xau = refl
    vaults xpt = refl

    vaults' : (k : MetalAsset) → account_eq (system_account cash) (system_account (vault k)) ≡ false
    vaults' xau = refl
    vaults' xpt = refl

    holds :
        (k : MetalAsset)
        → account_eq (system_account external) (system_account (delivery_hold k)) ≡ false
    holds xau = refl
    holds xpt = refl

    holds' :
        (k : MetalAsset)
        → account_eq (system_account cash) (system_account (delivery_hold k)) ≡ false
    holds' xau = refl
    holds' xpt = refl

-- A capital entry that is posted keeps the books sound.
pub record_capital_tx-AllOk :
    (txn actor : ℕ) (dto : CapitalEntry) (db : Db)
    → IsSound db
    → AllOk (λ _. IsSound) (record_capital_tx txn actor dto db)
unfolding record_capital_tx write_capital store_capital post_capital posted
record_capital_tx-AllOk txn actor dto db s =
    let ids = system_account cash ∷ system_account external ∷ [] in
    let b = balances_of ids db.entries (system_account cash) in
    let refused = below_halt dto.direction dto.amount_cents b db.treasury_config in
    bind-AllOk (λ _. IsSound) (lock_and_read_balances ids) (write_capital txn actor dto) db
      (lock_and_read_balances-AllOk _ ids db (
        bind-AllOk (λ _. IsSound) (raise_if refused float_below_halt)
          (λ _. store_capital txn actor dto) db
          (raise_if-AllOk _ refused float_below_halt db (λ _.
            bind-AllOk (λ _. IsSound) (post_capital txn actor dto) (audit_capital actor dto) db
              (post_transaction-AllOk _ txn _ db
                (λ moved. capital-Sound dto.direction dto.amount_cents txn _ db _ refl moved s))))))

-- If the books are sound, they are sound after a vault entry, whether it is written or refused.
pub record_vault-Sound :
    (actor : ℕ) (dto : VaultEntry) (db : Db) → IsSound db → IsSound (record_vault actor dto db).1
unfolding record_vault
record_vault-Sound actor dto db s =
    bind-Keeps IsSound IsSound (system_account_id (vault dto.asset))
      (λ _. transaction (record_vault_tx actor dto)) (λ _ r. r)
      (system_account_id-Sound (vault dto.asset))
      (λ _ db' s'.
        transaction-AllOk IsSound (record_vault_tx actor dto) db' s'
          (record_vault_tx-AllOk actor dto db' s'))
      db s

-- If the books are sound, they are sound after a capital entry, whether it is posted or refused.
pub record_capital-Sound :
    (txn actor : ℕ) (dto : CapitalEntry) (db : Db)
    → IsSound db
    → IsSound (record_capital txn actor dto db).1
unfolding record_capital
record_capital-Sound txn actor dto db s =
    bind-Keeps IsSound IsSound (system_account_id cash)
      (λ _. system_account_id external >> transaction tx) (λ _ r. r) (system_account_id-Sound cash)
      (λ _.
        bind-Keeps IsSound IsSound (system_account_id external) (λ _. transaction tx) (λ _ r. r)
          (system_account_id-Sound external)
          (λ _ db' s'.
            transaction-AllOk IsSound tx db' s' (record_capital_tx-AllOk txn actor dto db' s')))
      db s
  where
    tx : Action (Unit {0})
    tx = record_capital_tx txn actor dto
