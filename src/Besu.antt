-- ===== src/Besu.antt =====
-- internal/besu/trie: the Bonsai trie of the besu client.
pub mod Compact
pub mod Trie
pub mod Streaming
pub mod Commit
mod Examples
