-- ===== src/Auth.antt =====
-- apps/api/src/auth: the emailed one-time codes (Codes) and the sessions of the devices (Sessions).
pub mod Codes
pub mod Attempts
pub mod Accepted
pub mod Once
pub mod Guarded
pub mod Sessions
pub mod Revoked
pub mod Reuse
