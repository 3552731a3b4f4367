-- ===== src/Http.antt =====
-- The HTTP client: src/http.
pub mod Library
pub mod Text
pub mod Options
pub mod Lines
pub mod Response
pub mod Headers
pub mod Body
pub mod Transfer
pub mod Request
pub mod Stream
pub mod Concrete
mod Examples
