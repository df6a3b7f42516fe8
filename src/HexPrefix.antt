-- ===== src/HexPrefix.antt =====
-- What the three hex-prefix codecs of the repository promise: internal/ethrex/nibbles.go,
-- internal/besu/trie/compact.go and internal/nimbus/hexprefix.go. The definitions stand in the
-- modules of their packages; here are the theorems.
pub mod Loops
pub mod Flags
pub mod RoundTrip
pub mod Agreement
mod Examples
