-- ===== src/Lib.antt =====
-- State Actor writes client-native Ethereum databases for geth, reth, besu, nethermind, ethrex,
-- erigon and nimbus. This library models the parts of it that decide which bytes are written:
-- the codecs of trie paths and row keys, the identifiers of trie vertices, and the builders that
-- turn accounts into Merkle Patricia tries.
--
-- Parts and files. A byte slice of the source is a list of numbers, a uint64 a number below 2 ^ 64
-- whose wrap-around is written out, a Go error or a panic is `none` of an Option, or, in
-- Neth.TrieBuilder, Streamsort, Streamingtrie, Besu.Streaming and Besu.Commit, a value of its own,
-- and a method that changes its receiver returns the new record.
--   Prelude, Bytes: shared names, lists, tests, bit operations as arithmetic, bytes and nibbles.
--   Ethrex.Nibbles: internal/ethrex/nibbles.go (AppendNibbles, CompactEncode, commonPrefixLen).
--   Ethrex.NodeRlp: internal/ethrex/node_rlp.go (EncodeLeaf, EncodeExtension, EncodeBranch); its
--     Reader is a reader of RLP items in their shortest form that the theorems speak of, not code
--     of the source.
--   Ethrex.Builder: internal/ethrex/builder.go (AddLeaf, insert, foldTo, Root) and the AddLeaf of
--     stream_builder.go. It is written over an encoder of nodes: with `rlp_encoder` it is the code,
--     with `tree_encoder` it makes tries in memory, and Encoding and Encoded relate the two.
--   Ethrex.StorageKey: internal/ethrex/storage_key.go, and SuppressEmptyTrieSentinel.
--   Besu.Compact: internal/besu/trie/compact.go (CompactEncode, CompactDecode).
--   Nimbus.HexPrefix: internal/nimbus/hexprefix.go (AppendHexPrefix, DecodeHexPrefix).
--   HexPrefix: the theorems about these three codecs together.
--   Nimbus.Sbe: internal/nimbus/sbe.go (SBELen, AppendSBE, DecodeSBE).
--   Nimbus.Vid: internal/nimbus/vid.go and constants.go (StaticVid, StaticStartVid, AppendKey,
--     ParseKey, VidAllocator).
--   Nimbus.Vertex: internal/nimbus/vertex.go (AppendBranch, AppendAccLeafPayload, AppendLeafRecord,
--     AppendStoLeafPayloadFromRLP, Encode; Decode has DecodeVertex).
--   Nimbus.SavedState, Nimbus.Kvt: internal/nimbus/savedstate.go and kvt.go.
--   Neth.FlatKeys: internal/neth/flat (StateNodeKey, StorageNodeKey and the other row keys).
--   Genesis: genesis/forks.go (BuildChainConfigForFork, ListForks, ForkAtLeast, MaxForkForClient) and
--     internal/clientpolicy/policy.go (ValidateForClient), which asks the former for the ceiling;
--     Policy.Allowed lists what may be asked of each client, apart from that code.
--   Digits: an instance of the uint256 package, for the tests.
--   Besu.Trie: internal/besu/trie/node.go and builder.go (keyPath, insertNode, Builder.AddAccount).
--   Besu.Commit: the same files and location.go (EncodedBytes, commitTraversal, maybeEmit, both
--     Commit, AddSlot), with errors of the sink and panics as values.
--   Besu.Streaming: internal/besu/trie/streaming_storage_builder.go (addLeaf, update, sealBranchAt,
--     finalize), which streaming_account_builder.go also wraps. Its stack is listed from its top.
--     Nodes has the masks and the node encodings.
--   Neth.TrieBuilder: internal/neth/trie/builder.go (AddStorageSlot, FinalizeStorageRoot, AddAccount,
--     FinalizeStateRoot). Calls is any sequence of calls, Protocol the one its comment prescribes, and
--     Noted a sink that notes its failures.
--   Reth: internal/reth/codec.go (the varuint, the compact integers, the bit-flag header) and
--     trie_format.go (EncodeCompact and DecodeCompact of BranchNodeCompact; StoredNibbles has the
--     keys and EncodePackedCompact).
--   Streamsort: internal/streamsort/streamsort.go (Put, Finalize, Get, Iterate, NewCursor, NewGetter,
--     Close; Options has NewWithOptions, Pull the methods of Cursor and Getter). Pebble is the record
--     Pebble, and Contract says which of its documented behaviour the theorems on reads rely on.
--     Calls is any sequence of calls of one goroutine; Readers is any interleaving of readers with
--     Close, as steps on the shared fields.
--   Streamingtrie: internal/streamingtrie/streamingtrie.go (StorageRoot, Drain, IterateRoot,
--     SortedRoot), which drains slots into the spill store and feeds them, sorted, to a HashBuilder.
--     BesuRoots puts Besu's streaming builder in that place.
--   The builders consume what the codecs produce: insertion works on the paths of keyPath, and
--   Ethrex.Builder.Plug says which Besu trie a spine of open branches stands for, and
--   the row keys of nimbus are made of the vertex IDs and the SBE integers.
--
-- Loops. A loop over a slice is a recursion on the list, a counted loop one on the rounds left, and
-- SBELen recurs on the accessibility of the value. `min_be_bytes` has the eight rounds that its
-- buffer has room for, which the length of a Go slice never exceeds.
--
-- The loop of update in Besu.Streaming takes fuel: as many rounds as its path has nibbles suffice.
-- Iterate and a loop over a cursor take fuel: as much as there are writes is enough.
--
-- Bounds. Hashes have 32 bytes, paths 64 nibbles and the terminator 16. A vertex record has at most
-- 118 bytes. The static vertex IDs cover levels 0 to 8 of a trie.
--
-- Keccak is a parameter of the ethrex encoders, of Besu.Streaming, Besu.Commit and Streamingtrie: no
-- theorem asks anything of it, but that it makes 32 bytes where the whole pipeline is run. So are geth's
-- StackTrie and the node sink of the Nethermind builder, of which the refinement asks that the trie
-- takes the leaves and that the sink does not fail, geth's RLP package and the sink of Besu's
-- builders, and the byte form of a 256-bit integer. Where Besu's roots are compared with ethrex's,
-- the package is asked to encode a byte slice, a list of byte slices and a list of raw values as RLP
-- lays down (Besu.Commit.Encodings.IsRlp).
--
-- Close of the store waits for readers without end when its own goroutine holds a cursor: that is
-- `none` of close_store. The mutex of Put has no counterpart, since Put has one writer. Streamingtrie
-- leaves out the guards against a nil HashBuilder.
--
-- Not modelled: input and output, command line, HTTP and RPC, and the cgo bindings to the clients'
-- databases; the copy of erigon's library under internal/erigon/hph; nimbus's streaming builder,
-- which folds branches as ethrex's does, and its verifier over RocksDB; reth's hash builder and
-- tables; the experimental binary trie and the account loop of generator, which are concurrent and
-- drive the writers; the models of internal/autofill, which sample with floating point numbers; the
-- constants of internal/sizecal; and the reading of specifications and templates.
pub mod Prelude
pub mod Bytes
pub mod Besu
pub mod Digits
pub mod Ethrex
pub mod Genesis
pub mod HexPrefix
pub mod Neth
pub mod Nimbus
pub mod Reth
pub mod Streamingtrie
pub mod Streamsort
