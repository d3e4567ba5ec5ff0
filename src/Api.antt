-- ===== src/Api.antt =====
-- crates/lazybones-api: the errors of the REST surface.
pub mod Error
mod Tests
