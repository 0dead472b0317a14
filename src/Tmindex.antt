-- ===== src/Tmindex.antt =====
-- pkg/tmindex: the time index of the chunks.
pub mod Block
pub mod Tree
pub mod Access
pub mod Cindex
