-- ===== src/Utils.antt =====
-- pkg/utils: helpers that the packages share.
pub mod Kvstring
