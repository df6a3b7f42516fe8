-- ===== src/Neth.antt =====
-- internal/neth: the trie builder of the Nethermind writer and the row keys of its flat layout.
pub mod TrieBuilder
pub mod FlatKeys
mod Examples
