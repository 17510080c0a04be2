-- ===== src/Portfolio.antt =====
-- apps/api/src/portfolio/portfolio.service.ts: the value of a customer's holdings, what they cost, the
-- tier they reach, and the badges.
pub mod Basis
pub mod Tier
pub mod Projection
pub mod Bounds
pub mod Bands
