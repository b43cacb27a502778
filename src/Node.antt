-- ===== src/Node.antt =====
-- node/src: the chain specifications and which runtime a node runs for which chain. Texts are the lists
-- of their characters' code points.
pub mod Texts
pub mod ChainSpec
pub mod Command
pub mod Loading
