-- ===== src/Renet.antt =====
-- The UDP transport of src/renet.
pub mod Channels
pub mod Run
pub mod Client
pub mod Server
pub mod EndToEnd
pub mod Start
pub mod Memory
pub mod ClientTests
pub mod ServerTests
pub mod EndToEndTests
pub mod StartTests
