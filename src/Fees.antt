-- ===== src/Fees.antt =====
-- apps/api/src/fees/fees.service.ts: the fee engine.
use alkeva.Common.{ℕ, ◌+◌, ◌*◌, ◌/◌}
use alkeva.Codes.{fee_config_missing}
use alkeva.Schema.{FeeConfig}
use alkeva.Request.{Action, gets, or_raise, ◌>>=◌}

pub record FeeBreakdown : Type 0 where
  pub fee_cents : ℕ
  pub tax_cents : ℕ
  pub reforest_cents : ℕ

-- `getConfig`
unfoldable pub get_config : Action FeeConfig
get_config = do row ← gets (λ db. db.fee_config); or_raise row fee_config_missing

-- `computeFees`: rates are thousandths of a percent, so 2.0% is 2000; each division is floored.
unfoldable pub compute_fees : ℕ → FeeConfig → FeeBreakdown
compute_fees subtotal_cents cfg =
    let commission = subtotal_cents * cfg.commission_pct_milli / 100000 in
    record {
      fee_cents = commission + cfg.service_fee_cents;
      tax_cents = subtotal_cents * cfg.tax_pct_milli / 100000;
      reforest_cents = subtotal_cents * cfg.reforest_pct_milli / 100000;
    }
