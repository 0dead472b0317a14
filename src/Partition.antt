-- ===== src/Partition.antt =====
-- pkg/partition: the partitions, each a journal of chunks.
pub mod Selector
pub mod Truncate
pub mod Ordered
pub mod Service
pub mod Rebuilder
pub mod Listing
pub mod Iwrapper
