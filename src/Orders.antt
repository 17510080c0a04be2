-- ===== src/Orders.antt =====
-- apps/api/src/orders/orders.service.ts: buying and selling metal at a quote.
pub mod Queries
pub mod Gates
pub mod Settle
pub mod Execute
pub mod Review
pub mod Sound
pub mod Keeps
pub mod Approval
pub mod Handlers
pub mod Decisions
pub mod Refusals
pub mod Posts
