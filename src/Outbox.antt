-- ===== src/Outbox.antt =====
-- The notices of the platform: their rows and how a service records one (Rows), the worker's price
-- alerts (Alerts) and its dispatcher (Dispatch).
pub mod Rows
pub mod Dispatch
pub mod Ends
pub mod Alerts
pub mod Fired
pub mod Noticed
