-- ===== src/Catalog.antt =====
-- The global catalog of backend/app/catalog/catalog.py.
pub mod Rows
pub mod Shelf
pub mod Position
pub mod Costs
pub mod Settling
pub mod Calls
pub mod Untouched
pub mod Monotone
pub mod Keyed
pub mod Ceilings
pub mod Replay
mod Tests
