-- ===== src/Genesis/Forks/Order.antt =====
-- The order of the forks.
use Prim.Native.String.{String}
use text.Mathlib.Text.{◌==◌ as str_eq}
use text.Mathlib.TextEquality.{eq_iff}
use state_actor.Prelude.{
  ℕ, ◌+◌, ◌≡◌, refl, sym, ap, ◌∙◌, Bool, true, false, not, ◌&&◌, ◌||◌, Option, none, some, List, [],
  ◌∷◌, and_then, Bool-cases, inl, inr, if◌then◌else◌,
}
use state_actor.Genesis.Forks.{
  last_index, ForkSpec, apply_forks, new_config, forks, first_index, fork_at_least, resolve,
  build_chain_config_for_fork, selectable, list_forks,
}

-- Whether a list of names holds a name.
unfoldable pub contains : String → List String → Bool
contains name [] = false
contains name (x ∷ xs) = let rest = contains name xs in if str_eq x name then true else rest

abbrev pub is_some : {A : Type 0} → Option A → Bool
is_some none = false
is_some (some a) = true

-- The tests of the source put the names the other way round.
pub str_eq_sym : (a b : String) → str_eq a b ≡ str_eq b a
str_eq_sym a b = elim (Bool-cases (str_eq a b)) [
  | inl e ↦ e ∙ sym ((eq_iff b a).1 (sym ((eq_iff a b).0 e)))
  | inr e ↦ elim (Bool-cases (str_eq b a)) [
    | inl f ↦ (eq_iff a b).1 (sym ((eq_iff b a).0 f)) ∙ sym f
    | inr f ↦ e ∙ sym f
  ]
]

and_false : (b : Bool) → (b && false) ≡ false
and_false true = refl
and_false false = refl

built :
    {A : Type 0} (o : Option ℕ) (p : Bool) (g : ℕ → A)
    → is_some (and_then o (λ i. if not p then none else some (g i))) ≡ (is_some o && p)
built none p g = refl
built (some i) true g = refl
built (some i) false g = refl

module _ {B : Type 0} (schedule : B) (canonicalize : String → String) where
  first :
      (name : String) (f : ForkSpec B) (names : List String) (p : Bool) (found : Bool)
      → str_eq f.name name ≡ true
      → contains name names ≡ (found && p)
      → contains name (if not p then names else f.name ∷ names) ≡ p
  unfolding contains
  first name f names true found e h = rw e refl
  first name f names false found e h = h ∙ and_false found

  later :
      (name : String) (f : ForkSpec B) (names : List String) (p : Bool)
      → str_eq f.name name ≡ false
      → contains name (if not p then names else f.name ∷ names) ≡ contains name names
  unfolding contains
  later name f names true e = rw e refl
  later name f names false e = refl

  -- A name that is selected is one that is found, and at least Prague.
  contains-selectable :
      (name : String) (fs : List (ForkSpec B)) (i : ℕ)
      → contains name (selectable schedule canonicalize fs)
        ≡ (is_some (first_index name fs i) && fork_at_least schedule canonicalize name "prague")
  unfolding selectable first_index contains
  contains-selectable name [] i = refl
  contains-selectable name (f ∷ fs) i = elim (Bool-cases (str_eq f.name name)) [
    | inl e ↦
        (let same : f.name ≡ name = (eq_iff f.name name).0 e in
          let names = selectable schedule canonicalize fs in
          first name f names (fork_at_least schedule canonicalize f.name "prague")
            (is_some (first_index name fs (i + 1))) e
            (contains-selectable name fs (i + 1)
              ∙ ap
                  (λ n.
                    is_some (first_index name fs (i + 1))
                    && fork_at_least schedule canonicalize n "prague")
                  (sym same))
          ∙ ap (λ n. fork_at_least schedule canonicalize n "prague") same
          ∙ rw e refl)
    | inr e ↦
        later name f (selectable schedule canonicalize fs)
          (fork_at_least schedule canonicalize f.name "prague") e
        ∙ contains-selectable name fs (i + 1)
        ∙ rw e refl
  ]

  build-resolve :
      (name : String) (chain_id : ℕ)
      → is_some (build_chain_config_for_fork schedule canonicalize name (some chain_id))
        ≡ contains (resolve canonicalize name) (list_forks schedule canonicalize)
  unfolding build_chain_config_for_fork list_forks
  build-resolve name chain_id =
      let canonical = resolve canonicalize name in
      built (first_index canonical (forks schedule) 0)
        (fork_at_least schedule canonicalize canonical "prague")
        (λ idx. apply_forks (idx + 1) (forks schedule) (new_config chain_id))
      ∙ sym (contains-selectable canonical (forks schedule) 0)

  prague_listed :
      canonicalize "prague" ≡ "prague" → contains "prague" (list_forks schedule canonicalize) ≡ true
  unfolding list_forks first_index forks fork_at_least last_index
  prague_listed p = contains-selectable "prague" (forks schedule) 0 ∙ rw p refl

  with_default :
      (a b c : Bool) (canonical : String) (names : List String)
      → str_eq "" canonical ≡ a
      → str_eq "latest" canonical ≡ b
      → str_eq "default" canonical ≡ c
      → contains "prague" names ≡ true
      → contains (if a || (b || c) then "prague" else canonical) names
        ≡ contains canonical ("" ∷ "latest" ∷ "default" ∷ names)
  unfolding contains
  with_default true b c canonical names e f g h = rw e h
  with_default false true c canonical names e f g h = rw (e, f) h
  with_default false false true canonical names e f g h = rw (e, f, g) h
  with_default false false false canonical names e f g h = rw (e, f, g) refl

  -- Where lower-casing and trimming keep the name "prague": for any name and chain ID, a
  -- configuration is built exactly when the lower-cased and trimmed name is empty, "latest",
  -- "default" or among the names of ListForks, and otherwise an error is returned.
  pub build_chain_config_for_fork-list_forks :
      (name : String) (chain_id : ℕ)
      → canonicalize "prague" ≡ "prague"
      → is_some (build_chain_config_for_fork schedule canonicalize name (some chain_id))
        ≡ contains
            (canonicalize name)
            ("" ∷ "latest" ∷ "default" ∷ list_forks schedule canonicalize)
  unfolding resolve
  build_chain_config_for_fork-list_forks name chain_id p =
      let c = canonicalize name in
      build-resolve name chain_id
      ∙ with_default (str_eq c "") (str_eq c "latest") (str_eq c "default") c
          (list_forks schedule canonicalize) (str_eq_sym "" c) (str_eq_sym "latest" c)
          (str_eq_sym "default" c) (prague_listed p)
