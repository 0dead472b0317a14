-- ===== src/Tindex.antt =====
-- pkg/tindex: the index of the partitions by their tags.
pub mod Inmem
