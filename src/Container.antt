-- ===== src/Container.antt =====
-- The containers of elkodon_bb/container/src.
pub mod ByteString
pub mod Queue
pub mod Vec
pub mod SemanticString
