-- ===== src/Neth/TrieBuilder/Errors.antt =====
-- What errors leave behind, over any sequence of calls.
use mathlib.Core.Bool.{true≢false}
use state_actor.Prelude.{
  ◌≡◌, ◌≢◌, refl, sym, ap, ◌∙◌, true, false, Option, none, some, List, [], ◌∷◌,
}
use state_actor.Neth.TrieBuilder.{
  StackTrie, NodeStorage, Error, nil_trie, Result, fail, Builder, unless_set, new_builder,
  add_storage_slot, finalize_storage_root, add_account, finalize_state_root,
}
use state_actor.Neth.TrieBuilder.Calls.{
  ended, Call, slot, storage_root, account, state_root, call, run,
}
use state_actor.Neth.TrieBuilder.Noted.{
  noting, is_set, call-IsTold, run-IsNoted, new_builder-IsNoted,
}
use state_actor.Neth.TrieBuilder.Health.{call-Sound, run-IsHealthy, new_builder-IsHealthy}

-- For any stack trie and sink: whatever calls a new builder has served, in any order and with any
-- errors, the next call does not run into a missing storage trie.
pub no_nil_trie :
    {T S : Type 0} (trie : StackTrie T) (sink : NodeStorage S) (s : S) (calls : List Call)
    (c : Call)
    → (call trie sink (run trie sink (new_builder trie sink s) calls) c).0 ≢ some nil_trie
no_nil_trie trie sink s calls c =
    (call-Sound trie sink (run trie sink (new_builder trie sink s) calls) c (
      run-IsHealthy trie sink calls (new_builder trie sink s)
        (new_builder-IsHealthy trie sink s))).0

failed :
    {A T S : Type 0} (b : Builder T S) (r : Result A × Builder T S) (e : Error) (o : Option Error)
    → o ≡ some e
    → ended (unless_set r (λ x. (fail x, b)) o) ≡ (some e, b)
failed b r e none h = cc
failed b r e (some x) h = ap (λ y. (y, b)) h

call-failed :
    {T S : Type 0} (trie : StackTrie T) (sink : NodeStorage S) (b : Builder T S) (e : Error)
    (c : Call)
    → b.err ≡ some e
    → call trie sink b c ≡ (some e, b)
unfolding call add_storage_slot finalize_storage_root add_account finalize_state_root
call-failed trie sink b e (slot addr_hash slot_key_hash value_rlp) h = failed b _ e b.err h
call-failed trie sink b e (storage_root addr_hash) h = failed b _ e b.err h
call-failed trie sink b e (account addr_hash account_rlp) h = failed b _ e b.err h
call-failed trie sink b e state_root h = failed b _ e b.err h

run-failed :
    {T S : Type 0} (trie : StackTrie T) (sink : NodeStorage S) (b : Builder T S) (e : Error)
    (calls : List Call)
    → b.err ≡ some e
    → run trie sink b calls ≡ b
unfolding run
run-failed trie sink b e [] h = refl
run-failed trie sink b e (c ∷ calls) h =
    ap (λ r. run trie sink r.1 calls) (call-failed trie sink b e c h)
    ∙ run-failed trie sink b e calls h

the_error : (o : Option Error) → is_set o ≡ true → (e : Error) × (o ≡ some e)
the_error none h = cc
the_error (some e) h = (e, refl)

not_none : (o : Option Error) → is_set o ≡ true → o ≢ none
not_none o h e = true≢false (sym h ∙ ap is_set e)

-- With the sink's failures noted by a flag beside it, and for any stack trie: whatever calls a new
-- builder has served, if the sink has failed at any time up to the end of the next call, that call
-- returns an error, and the builder keeps one error that every later call returns and by which it
-- changes nothing, so that the sink is not called again.
pub first_error_stays :
    {T S : Type 0} (trie : StackTrie T) (sink : NodeStorage S) (s : S) (calls : List Call)
    (c : Call) (later : List Call) (d : Call)
    → (call trie
        (noting sink)
        (run trie (noting sink) (new_builder trie (noting sink) (s, false)) calls)
        c).1.storage.1
      ≡ true
    → let b = run trie (noting sink) (new_builder trie (noting sink) (s, false)) calls in
      let b' = (call trie (noting sink) b c).1 in
      ((call trie (noting sink) b c).0 ≢ none)
      × (e : Error) × (b'.err ≡ some e)
      × (run trie (noting sink) b' later ≡ b')
      × (call trie (noting sink) b' d ≡ (some e, b'))
first_error_stays trie sink s calls c later d h =
    let new = new_builder trie (noting sink) (s, false) in
    let b = run trie (noting sink) new calls in
    let (noted, told) =
      call-IsTold trie sink b c
        (run-IsNoted trie sink calls new (new_builder-IsNoted trie sink s)) in
    let b' = (call trie (noting sink) b c).1 in
    let set : is_set b'.err ≡ true = sym noted ∙ h in
    let (e, kept) = the_error b'.err set in
    (
      not_none (call trie (noting sink) b c).0 (told set),
      e,
      kept,
      run-failed trie (noting sink) b' e later kept,
      call-failed trie (noting sink) b' e d kept,
    )
