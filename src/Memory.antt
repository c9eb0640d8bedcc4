-- ===== src/Memory.antt =====
-- backend/app/memory/dal.py: the spoiler-safe store of one book.
pub mod Rows
pub mod Select
pub mod Views
pub mod Session
pub mod Writers
pub mod Completion
mod Tests
