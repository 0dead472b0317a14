-- ===== src/Cursor.antt =====
-- pkg/cursor: reading from several partitions.
pub mod Fiterator
pub mod Mixing
pub mod Positions
