-- ===== src/Api.antt =====
-- component_api/src/lib.rs: what the runtime and the components share.
pub mod Context
pub mod Message
pub mod Equality
pub mod Rings
pub mod Signals
pub mod Sink
