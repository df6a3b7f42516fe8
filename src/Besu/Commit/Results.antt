-- ===== src/Besu/Commit/Results.antt =====
-- What Commit of the resident builder promises: its rows, its root and its agreement with ethrex.
use mathlib.Core.List.{Memᴰ}
use mathlib.Core.Path.{subst}
use mathlib.Core.Option.{some_inj}
use state_actor.Besu.Trie
use state_actor.Besu.Trie.{Node, null, new, add_accounts}
use state_actor.Besu.Trie.Keys.{IsHash}
use state_actor.Besu.Trie.Accounts.{Account, HaveHashes, add_accounts-new}
use state_actor.Besu.Streaming.{Coding, NodeSink, Emitter, account_trie_emitter, emit}
use state_actor.Besu.Commit.{Written, written, and_written, put_result, commit_trie, commit}
use state_actor.Besu.Commit.Encodings.{IsRlp}
use state_actor.Besu.Commit.Rows.{NodeRow, put_all}
use state_actor.Besu.Commit.Whole.{committed_rows, commit_trie-put_all}
use state_actor.Besu.Commit.Apart.{Apart, committed_rows-Apart}
use state_actor.Besu.Commit.Stored.{IsNodeRow, committed_rows_iff, root_used}
use state_actor.Ethrex.Builder.{Builder, Row, added, new_builder, rlp_encoder}
use state_actor.Ethrex.Builder.Finish.{root}
use state_actor.Ethrex.Builder.Accounts.{add_leaves, Ascend}
use state_actor.Ethrex.Builder.Bytes.{encode, root-add_leaves}
use state_actor.Prelude.{
  ℕ, suc, ◌≡◌, ◌↔◌, refl, sym, ap, ◌∙◌, arith, Bool, true, false, some, List, [], ◌∷◌, length, ◌==◌,
}

not_zero : (count n : ℕ) → count ≡ suc n → (count == 0) ≡ false
not_zero count n e = ground arith

Ascend-HaveHashes : (hash : List ℕ) (rest : List Account) → Ascend hash rest → HaveHashes rest
Ascend-HaveHashes hash [] a = tt
Ascend-HaveHashes hash ((next, value) ∷ rest) a = (a.0, Ascend-HaveHashes next rest a.2)

put_result-written : {S : Type 0} (r : Bool × S) → r.0 ≡ true → put_result r ≡ written tt r.1
put_result-written (true, s) h = refl
put_result-written (false, s) h = cc

module _ (coding : Coding) {S : Type 0} (node_sink : NodeSink S) where
  -- A sink that never fails.
  abbrev pub IsReliable : Type 0
  IsReliable =
      (em : Emitter) (s : S) (location hash bytes : List ℕ)
      → (emit coding node_sink em s location hash bytes).0 ≡ true

module _ (coding : Coding) (rlp : IsRlp coding) {S : Type 0} (node_sink : NodeSink S) where
  open coding use {keccak}

  -- What `Commit` returns with a root, behind its rows.
  abbrev result : Node → S → Written S (List ℕ × List ℕ)
  result t s = written (keccak (encode keccak t), encode keccak t) s

  -- A builder that holds accounts.
  record Filled (accounts : List Account) : Type 0 where
    builder : Trie.Builder
    returned : add_accounts new accounts ≡ some builder
    apart : Apart (committed_rows coding builder.root)
    commits :
        (em : Emitter) (s : S)
        → commit_trie coding node_sink em builder.root builder.count s
          ≡ and_written
              (put_all coding node_sink em (committed_rows coding builder.root) s)
              (λ _ s'. result builder.root s')

  filled :
      (hash value : List ℕ) (rest : List Account)
      → HaveHashes ((hash, value) ∷ rest)
      → Filled ((hash, value) ∷ rest)
  filled hash value rest h =
      let (b, e, counted, wf, reads) = add_accounts-new ((hash, value) ∷ rest) h in
      record {
        builder = b;
        returned = e;
        apart = committed_rows-Apart coding 64 b.root wf;
        commits = λ em s.
            commit_trie-put_all coding node_sink em rlp 64 b.count b.root s wf
              (root_used hash value rest b.root (reads hash h.0))
              (not_zero b.count (length rest) counted);
      }

  put_all_returns :
      (em : Emitter) (rows : List NodeRow) (s : S)
      → IsReliable coding node_sink
      → (s' : S) × (put_all coding node_sink em rows s ≡ written tt s')
  unfolding put_all
  put_all_returns em [] s h = (s, refl)
  put_all_returns em ((location, hash, bytes) ∷ rows) s h =
      let r = emit coding node_sink em s location hash bytes in
      let (s', e) = put_all_returns em rows (r.1) h in
      (
        s',
        ap (λ q. and_written q (λ _ t. put_all coding node_sink em rows t))
              (put_result-written r (h em s location hash bytes))
            ∙ e,
      )

  -- For any sink, and any accounts, at least one, whose hashes have 32 bytes, in any order: the
  -- builder takes them all, and Commit hands rows to the sink until one fails, without a panic. The
  -- rows are those of the nodes in the trie whose encoding has 32 bytes or more and whose hash is
  -- not the empty trie's, each at the path that leads to the node, and the root's where it is
  -- shorter. No two of them have the same location, so that none comes twice. When the sink takes
  -- them all, the hash and the encoding of the root are returned.
  pub commit-committed_rows :
      (hash value : List ℕ) (rest : List Account) (s : S)
      → HaveHashes ((hash, value) ∷ rest)
      → (b : Trie.Builder) × (rows : List NodeRow) × (add_accounts new ((hash, value) ∷ rest)
          ≡ some b)
        × (commit coding node_sink b s
            ≡ and_written
                (put_all coding node_sink account_trie_emitter rows s)
                (λ _ s'. written (keccak (encode keccak b.root), encode keccak b.root) s'))
        × ((row : NodeRow) → Memᴰ row rows ↔ IsNodeRow coding b.root row)
        × Apart rows
  unfolding commit
  commit-committed_rows hash value rest s h =
      let f = filled hash value rest h in
      (
        f.builder,
        committed_rows coding f.builder.root,
        f.returned,
        f.commits account_trie_emitter s,
        committed_rows_iff coding f.builder.root,
        f.apart,
      )

  -- The trie's root, with either emitter, next to ethrex's builder.
  pub record SameRoot (hash value : List ℕ) (rest : List Account) (em : Emitter) (s : S)
      : Type 0 where
    pub eb : Builder (List ℕ)
    pub rows : List (Row (List ℕ))
    pub bb : Trie.Builder
    pub after : S
    pub added_all :
        add_leaves (rlp_encoder keccak) (new_builder (rlp_encoder keccak)) ((hash, value) ∷ rest)
        ≡ added eb
    pub root_hash : root keccak eb ≡ some (keccak (encode keccak bb.root), rows)
    pub filled_all : add_accounts new ((hash, value) ∷ rest) ≡ some bb
    pub committed : commit_trie coding node_sink em bb.root bb.count s ≡ result bb.root after

  pub same_root :
      (hash value : List ℕ) (rest : List Account) (em : Emitter) (s : S)
      → IsHash hash
      → Ascend hash rest
      → IsReliable coding node_sink
      → SameRoot hash value rest em s
  same_root hash value rest em s h a reliable =
      let f = filled hash value rest (h, Ascend-HaveHashes hash rest a) in
      let (eb, bb, rows, e, g, r) = root-add_leaves keccak hash value rest h a in
      let (s', p) = put_all_returns em (committed_rows coding f.builder.root) s reliable in
      record {
        eb = eb;
        rows = rows;
        bb = f.builder;
        after = s';
        added_all = e;
        root_hash =
            subst
              (λ (b : Trie.Builder). root keccak eb ≡ some (keccak (encode keccak b.root), rows))
              (some_inj.0 (sym g ∙ f.returned)) r;
        filled_all = f.returned;
        committed = f.commits em s ∙ ap (λ q. and_written q (λ _ t. result f.builder.root t)) p;
      }

  -- For a sink that never fails, a package that encodes RLP as documented, any function as keccak,
  -- and accounts, at least one, whose 32-byte hashes ascend strictly: Besu's resident builder and
  -- ethrex's streaming builder both take every account, Commit and Root both return, and with the
  -- same root hash.
  pub commit-root :
      (hash value : List ℕ) (rest : List Account) (s : S)
      → IsHash hash
      → Ascend hash rest
      → IsReliable coding node_sink
      → (eb : Builder (List ℕ)) × (rows : List (Row (List ℕ))) × (bb : Trie.Builder) × (s' : S)
        × (root_hash : List ℕ) × (root_rlp : List ℕ) × (add_leaves
              (rlp_encoder keccak)
              (new_builder (rlp_encoder keccak))
              ((hash, value) ∷ rest)
            ≡ added eb)
        × (root keccak eb ≡ some (root_hash, rows))
        × (add_accounts new ((hash, value) ∷ rest) ≡ some bb)
        × (commit coding node_sink bb s ≡ written (root_hash, root_rlp) s')
  unfolding commit
  commit-root hash value rest s h a reliable =
      let r = same_root hash value rest account_trie_emitter s h a reliable in
      let bytes = encode keccak r.bb.root in
      (
        r.eb,
        r.rows,
        r.bb,
        r.after,
        keccak bytes,
        bytes,
        r.added_all,
        r.root_hash,
        r.filled_all,
        r.committed,
      )
