-- ===== src/Container.antt =====
-- pkg/container: the collections of logrange.
pub mod RingBuffer
pub mod Timeseries
