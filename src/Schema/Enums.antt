-- ===== src/Schema/Enums.antt =====
-- The enums of packages/db/src/schema.ts, with the tests that the queries make on them.
use alkeva.Common.{Bool, true, false}

pub data Role : Type 0 where
  user administrator compliance finance : Role

pub data UserStatus : Type 0 where
  active frozen : UserStatus

pub data TxnKind : Type 0 where
  deposit bought sold withdrawal treasury delivery : TxnKind

pub data OrderStatus : Type 0 where
  created review settled rejected : OrderStatus

pub data QuoteStatus : Type 0 where
  open_quote consumed expired : QuoteStatus

pub data PaymentStatus : Type 0 where
  initiated webhook_received verified credited failed reversed : PaymentStatus

pub data PayoutStatus : Type 0 where
  requested approved processing settled rejected : PayoutStatus

pub data VaultKind : Type 0 where
  intake outtake : VaultKind

pub data DeliveryStatus : Type 0 where
  requested reviewing approved scheduled rejected delivered : DeliveryStatus

pub data ComplianceAction : Type 0 where
  flag freeze review : ComplianceAction

abbrev pub is_role_user : Role → Bool
is_role_user user = true
is_role_user _ = false

abbrev pub is_frozen_status : UserStatus → Bool
is_frozen_status frozen = true
is_frozen_status active = false

abbrev pub is_order_review : OrderStatus → Bool
is_order_review OrderStatus.review = true
is_order_review _ = false

abbrev pub is_order_settled : OrderStatus → Bool
is_order_settled OrderStatus.settled = true
is_order_settled _ = false

abbrev pub is_consumed : QuoteStatus → Bool
is_consumed consumed = true
is_consumed _ = false

abbrev pub is_expired : QuoteStatus → Bool
is_expired expired = true
is_expired _ = false
