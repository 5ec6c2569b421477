-- ===== src/Storage.antt =====
-- pkg/goDB/storage: the blocks of a column and the metadata of a directory of the database.
pub mod Blocks
pub mod Metadata
pub mod Files
pub mod Directory
