-- ===== src/Besu/Commit/Rows.antt =====
-- The traversal of Commit against the list of the rows that a trie consists of.
use state_actor.Bytes.{same_bytes}
use state_actor.Besu.Trie.{Node, null, leaf, extension, branch}
use state_actor.Besu.Streaming.{
  Coding, NodeSink, Emitter, is_referenced_by_hash, empty_trie_node_hash,
}
use state_actor.Besu.Commit.{
  Written, written, write_failed, write_panicked, and_written, is_null, put_node, commit_children,
}
use state_actor.Ethrex.Builder.Bytes.{encode}
use state_actor.Prelude.{
  ℕ, zero, suc, ◌+◌, ◌≡◌, refl, sym, ap, ◌∙◌, arith, not, List, [], ◌∷◌, ◌++◌, if◌then◌else◌,
}

-- A location, a hash and an encoding.
abbrev pub NodeRow : Type 0
NodeRow = List ℕ × List ℕ × List ℕ

pub and_written_ext :
    {S A B : Type 0} (r : Written S A) (f g : A → S → Written S B)
    → ((a : A) (s : S) → f a s ≡ g a s)
    → and_written r f ≡ and_written r g
and_written_ext (written a s) f g h = h a s
and_written_ext (write_failed s) f g h = refl
and_written_ext write_panicked f g h = refl

pub and_written-written :
    {S : Type 0} (r : Written S (Unit {0})) → and_written r (λ _ s. written tt s) ≡ r
and_written-written (written tt s) = refl
and_written-written (write_failed s) = refl
and_written-written write_panicked = refl

pub and_written_assoc :
    {S A B C : Type 0} (r : Written S A) (f : A → S → Written S B) (g : B → S → Written S C)
    → and_written (and_written r f) g ≡ and_written r (λ a s. and_written (f a s) g)
and_written_assoc (written a s) f g = refl
and_written_assoc (write_failed s) f g = refl
and_written_assoc write_panicked f g = refl

-- The rows of a branch's children, in order.
unfoldable pub child_rows : ℕ → (ℕ → List NodeRow) → ℕ → List NodeRow
child_rows zero rows i = []
child_rows (suc left) rows i = rows i ++ child_rows left rows (i + 1)

module _ (coding : Coding) where
  open coding use {keccak}

  -- The row of a node that a parent refers to by its hash.
  abbrev pub own_row : List ℕ → List ℕ → List NodeRow
  own_row location rlp =
      if not (is_referenced_by_hash rlp)
      then []
      else if same_bytes (keccak rlp) empty_trie_node_hash
      then []
      else (location, keccak rlp, rlp) ∷ []

  -- The children's rows before the parent's.
  unfoldable pub rows_of : Node → List ℕ → List NodeRow
  unfolding child_rows same_bytes
  rows_of null location = []
  rows_of (leaf p v) location = own_row location (encode keccak (leaf p v))
  rows_of (extension p c) location =
      rows_of c (location ++ p) ++ own_row location (encode keccak (extension p c))
  rows_of (branch children bv) location =
      child_rows 16 (λ i. rows_of (children i) (location ++ (i ∷ []))) 0
      ++ own_row location (encode keccak (branch children bv))

  module _ {S : Type 0} (node_sink : NodeSink S) (em : Emitter) where
    -- Rows one by one, up to the first error.
    unfoldable pub put_all : List NodeRow → S → Written S (Unit {0})
    put_all [] s = written tt s
    put_all ((location, hash, rlp) ∷ rows) s =
        and_written (put_node coding node_sink em s location hash rlp) (λ _ s'. put_all rows s')

    pub put_all-append :
        (xs ys : List NodeRow) (s : S)
        → put_all (xs ++ ys) s ≡ and_written (put_all xs s) (λ _ s'. put_all ys s')
    unfolding put_all
    put_all-append [] ys s = refl
    put_all-append ((location, hash, rlp) ∷ xs) ys s =
        let r = put_node coding node_sink em s location hash rlp in
        and_written_ext r _ _ (λ _ s'. put_all-append xs ys s') ∙ sym (and_written_assoc r _ _)

    pub own_row-put :
        (location rlp : List ℕ) (s : S)
        → (if not (is_referenced_by_hash rlp)
            then written tt s
            else if same_bytes (keccak rlp) empty_trie_node_hash
            then written tt s
            else put_node coding node_sink em s location (keccak rlp) rlp)
          ≡ put_all (own_row location rlp) s
    unfolding put_all
    own_row-put location rlp s =
        ground
          (arith, and_written-written (put_node coding node_sink em s location (keccak rlp) rlp))

    pub children_put :
        (left : ℕ) (children : ℕ → Node) (visit : ℕ → S → Written S (Unit {0}))
        (rows : ℕ → List NodeRow) (i : ℕ) (s : S)
        → ((j : ℕ) (t : S)
            → (if is_null (children j) then written tt t else visit j t) ≡ put_all (rows j) t)
        → commit_children coding node_sink left children visit i s
          ≡ put_all (child_rows left rows i) s
    unfolding commit_children child_rows put_all
    children_put zero children visit rows i s h = refl
    children_put (suc left) children visit rows i s h =
        ap
          (λ r.
            and_written r (λ _ s'. commit_children coding node_sink left children visit (i + 1) s'))
          (h i s)
        ∙ and_written_ext (put_all (rows i) s) _ _
            (λ _ s'. children_put left children visit rows (i + 1) s' h)
        ∙ sym (put_all-append (rows i) (child_rows left rows (i + 1)) s)
