-- ===== src/Tokio.antt =====
-- The TCP transport of src/tokio.
pub mod Frame
pub mod Reader
pub mod Writer
pub mod Client
pub mod Entries
pub mod Connection
pub mod Server
pub mod EndToEnd
pub mod Start
pub mod Memory
pub mod Tests
pub mod ConnectionTests
pub mod ServerTests
pub mod StartTests
pub mod ClientTests
