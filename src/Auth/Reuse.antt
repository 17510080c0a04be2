-- ===== src/Auth/Reuse.antt =====
-- A refresh token that comes again after it was exchanged ends its session
-- (apps/api/src/auth/sessions.service.ts).
use text.Mathlib.Text.{◌==◌ as str_eq}
