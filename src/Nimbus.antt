-- ===== src/Nimbus.antt =====
-- internal/nimbus: the Aristo trie format of the nimbus client.
pub mod HexPrefix
pub mod Sbe
pub mod Vid
pub mod Vertex
pub mod SavedState
pub mod Kvt
mod Rows
mod Examples
