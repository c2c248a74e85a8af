-- ===== src/Server.antt =====
-- The WebSocket server (module/access): its sessions and the registry that they share.
pub mod Registry
pub mod Session
pub mod Listener
