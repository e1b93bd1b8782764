-- ===== src/Elementary.antt =====
-- The elementary helpers of elkodon_bb/elementary/src.
pub mod Math
