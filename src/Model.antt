-- ===== src/Model.antt =====
-- pkg/model: log events and the iterators over them.
pub mod Iterator
pub mod Field
pub mod Mixer
