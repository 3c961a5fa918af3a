-- ===== src/BlockScene.antt =====
-- block-scene/src: blocks, their ports and the connections between them.
pub mod Ports
pub mod Properties
