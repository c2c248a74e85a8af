-- ===== src/Core.antt =====
-- The services of module/core that the server runs on.
pub mod Queue
pub mod Pool
