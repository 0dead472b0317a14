-- ===== src/Lql.antt =====
-- pkg/lql: the conditions of the query language, compiled to functions.
pub mod Conds
pub mod Strings
pub mod Where
pub mod Tagseval
mod Tests
