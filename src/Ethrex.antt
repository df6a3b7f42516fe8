-- ===== src/Ethrex.antt =====
-- internal/ethrex: the trie format of the ethrex client.
pub mod Nibbles
pub mod StorageKey
mod StorageRows
pub mod NodeRlp
pub mod Builder
pub mod Examples
