-- ===== src/Runtime.antt =====
-- runtime/v1: how a RuntimeClass handler selects the sandbox backend.
pub mod Handler
