-- ===== src/Model.antt =====
-- crates/arcc-core/src/model: the types that every run mode shares, and the interface of a model.
pub mod Json
pub mod Types
pub mod Provider
pub mod Registry
