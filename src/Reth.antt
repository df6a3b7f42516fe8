-- ===== src/Reth.antt =====
-- internal/reth: the codecs of the reth client.
pub mod VarUint
pub mod Compact
pub mod Bitflags
pub mod BranchNode
pub mod StoredNibbles
mod Examples
