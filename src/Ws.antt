-- ===== src/Ws.antt =====
-- The WebSocket protocol: src/ws.
pub mod Wire
pub mod Header
pub mod Mask
pub mod Shared
pub mod Frame
pub mod Platform
pub mod Socket
pub mod Options
pub mod Close
pub mod Reader
pub mod Writer
pub mod Frames
pub mod Handshake
pub mod Request
pub mod Server
pub mod Split
mod Concrete
mod Examples
