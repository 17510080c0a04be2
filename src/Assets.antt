-- ===== src/Assets.antt =====
-- packages/shared/src/constants.ts: assets, system accounts, units and the Addis Ababa day.
pub mod Day
use alkeva.Common.{ℕ, ◌+◌, ◌-◌, ◌*◌, ◌/◌, Bool, true, false, ◌&&◌, ◌==◌}
use alkeva.Common.Int.{ℤ, sub_ℕ}

-- `METAL_ASSETS`
pub data MetalAsset : Type 0 where
  xau xpt : MetalAsset

-- `ASSETS`: ETB and the metals.
pub data Asset : Type 0 where
  etb : Asset
  metal : MetalAsset → Asset

-- `SYSTEM_ACCOUNTS`; the `:XAU` or `:XPT` suffix is an argument.
pub data SystemAccountName : Type 0 where
  cash fees tax reforestation external payout_hold : SystemAccountName
  vault delivery_hold : MetalAsset → SystemAccountName

pub data OrderSide : Type 0 where
  buy sell : OrderSide

abbrev pub metal_eq : MetalAsset → MetalAsset → Bool
metal_eq xau xau = true
metal_eq xpt xpt = true
metal_eq _ _ = false

abbrev pub asset_eq : Asset → Asset → Bool
asset_eq etb etb = true
asset_eq (metal m) (metal n) = metal_eq m n
asset_eq _ _ = false

abbrev name_code : SystemAccountName → ℕ
name_code cash = 0
name_code fees = 1
name_code tax = 2
name_code reforestation = 3
name_code external = 4
name_code payout_hold = 5
name_code (vault xau) = 6
name_code (vault xpt) = 7
name_code (delivery_hold xau) = 8
name_code (delivery_hold xpt) = 9

abbrev pub name_eq : SystemAccountName → SystemAccountName → Bool
name_eq a b = name_code a == name_code b

abbrev pub side_eq : OrderSide → OrderSide → Bool
side_eq buy buy = true
side_eq sell sell = true
side_eq _ _ = false

-- `systemAccountAsset`
abbrev pub system_account_asset : SystemAccountName → Asset
system_account_asset (vault m) = metal m
system_account_asset (delivery_hold m) = metal m
system_account_asset _ = etb

-- `UNITS`
abbrev pub mg_per_gram : ℕ
mg_per_gram = 1000

abbrev pub micro : ℕ
micro = 1000000

abbrev pub troy_oz_mg : ℕ
troy_oz_mg = 31103

abbrev pub quote_ttl_seconds : ℕ
quote_ttl_seconds = 30

abbrev pub eat_offset_ms : ℕ
eat_offset_ms = 3 * 60 * 60 * 1000

abbrev pub day_ms : ℕ
day_ms = 24 * 60 * 60 * 1000

-- `eatDayStartUtc`: an instant is a number of milliseconds since 1970; the start of the first
-- Addis Ababa day of 1970 is negative.
unfoldable pub eat_day_start_utc : ℕ → ℤ
eat_day_start_utc now = sub_ℕ ((now + eat_offset_ms) / day_ms * day_ms) eat_offset_ms
