-- ===== src/Store.antt =====
-- internal/store: the one writer that takes events out of the channels and puts them into the
-- database, in batches.
pub mod Items
pub mod Database
pub mod Batch
pub mod Cleanup
pub mod Writer
pub mod Kinds
