-- ===== src/Dsml.antt =====
-- crates/arcc-core/src/model/dsml.rs: tool calls that a model writes into its text as markup.
pub mod Tags
pub mod Parse
pub mod Stream
pub mod Bounds
pub mod Extraction
pub mod Fuel
pub mod Streaming
pub mod Holding
pub mod Restart
pub mod Missed
mod Tests
