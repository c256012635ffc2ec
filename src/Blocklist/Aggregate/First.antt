-- ===== src/Blocklist/Aggregate/First.antt =====
-- The source to which the aggregation of src/blocklist/aggregate.rs attributes a name.
use sagittarius.Prelude.{
  ℕ, ◌≡◌, refl, sym, ap, ◌∙◌, subst, inl, inr, Bool, true, false, ◌||◌, Option, none, some, List,
  [], ◌∷◌, ◌++◌, map, append_assoc, append-nil, equal, equal→path, if◌then◌else◌, Bool-cases,
  Option-cases, length,
}
use sagittarius.Codec.Reader.{Bytes}
use sagittarius.Codec.Name.{Name}
use sagittarius.Resolver.Suffix.{lookup_key}
use sagittarius.Resolver.State.{ResolverState, contains, primary_source}
use sagittarius.Blocklist.Aggregate.{
  SourceContribution, Aggregator, or_insert, insert_all, add_source, add_sources, from_sources,
  install,
}

-- The first source that has the name.
abbrev pub first_source : List (ℕ × List Bytes) → Name → Option ℕ
first_source [] name = none
first_source ((source_id, names) ∷ sources) name =
    if contains names name then some source_id else first_source sources name

abbrev pub or_else : Option ℕ → Option ℕ → Option ℕ
or_else none o = o
or_else (some a) o = some a

or_else-none : (o : Option ℕ) → or_else o none ≡ o
or_else-none none = refl
or_else-none (some a) = refl

or_else_assoc : (a b c : Option ℕ) → or_else (or_else a b) c ≡ or_else a (or_else b c)
or_else_assoc none b c = refl
or_else_assoc (some a) b c = refl

lookup_key-or_insert :
    (n : Bytes) (source_id : ℕ) (merged : List (Bytes × ℕ)) (key : Bytes)
    → lookup_key (or_insert n source_id merged) key
      ≡ or_else (lookup_key merged key) (if equal n key then some source_id else none)
unfolding or_insert lookup_key
lookup_key-or_insert n source_id merged key = elim (Option-cases (lookup_key merged n)) [
  | inl absent ↦ elim (Bool-cases (equal n key)) [
    | inl same ↦
        let e : n ≡ key = equal→path n key same in
        let gone : lookup_key merged key ≡ none =
          subst (λ k. lookup_key merged k ≡ none) e absent in
        rw (absent, or_insert, lookup_key, same, gone) refl
    | inr other ↦
        rw (absent, or_insert, lookup_key, other) (sym (or_else-none (lookup_key merged key)))
  ]
  | inr (first, present) ↦ elim (Bool-cases (equal n key)) [
    | inl same ↦
        let here : lookup_key merged key ≡ some first =
          subst (λ k. lookup_key merged k ≡ some first) (equal→path n key same) present in
        rw (present, or_insert, here) refl
    | inr other ↦ rw (present, or_insert, other) (sym (or_else-none (lookup_key merged key)))
  ]
]

lookup_key-insert_all :
    (source_id : ℕ) (names : List Bytes) (merged : List (Bytes × ℕ)) (name : Name)
    → lookup_key (insert_all source_id names merged) name.inner
      ≡ or_else
          (lookup_key merged name.inner)
          (if contains names name then some source_id else none)
unfolding insert_all contains
lookup_key-insert_all source_id [] merged name = sym (or_else-none (lookup_key merged name.inner))
lookup_key-insert_all source_id (n ∷ names) merged name =
    lookup_key-insert_all source_id names (or_insert n source_id merged) name
    ∙ ap (λ o. or_else o (if contains names name then some source_id else none))
        (lookup_key-or_insert n source_id merged name.inner)
    ∙ or_else_assoc (lookup_key merged name.inner)
        (if equal n name.inner then some source_id else none) _
    ∙ ap (or_else (lookup_key merged name.inner))
        (one_or_more (equal n name.inner) (contains names name))
  where
    one_or_more :
        (b c : Bool)
        → or_else (if b then some source_id else none) (if c then some source_id else none)
          ≡ (if b || c then some source_id else none)
    one_or_more true c = refl
    one_or_more false c = refl

lookup_key-add_sources :
    (sources : List (ℕ × List Bytes)) (agg : Aggregator) (name : Name)
    → lookup_key (add_sources sources agg).merged name.inner
      ≡ or_else (lookup_key agg.merged name.inner) (first_source sources name)
unfolding add_sources add_source
lookup_key-add_sources [] agg name = sym (or_else-none (lookup_key agg.merged name.inner))
lookup_key-add_sources ((source_id, names) ∷ sources) agg name =
    lookup_key-add_sources sources (add_source source_id names agg) name
    ∙ ap (λ o. or_else o (first_source sources name))
        (lookup_key-insert_all source_id names agg.merged name)
    ∙ or_else_assoc (lookup_key agg.merged name.inner) _ (first_source sources name)
    ∙ ap (or_else (lookup_key agg.merged name.inner)) (this_or_later (contains names name))
  where
    this_or_later :
        (b : Bool)
        → or_else (if b then some source_id else none) (first_source sources name)
          ≡ (if b then some source_id else first_source sources name)
    this_or_later true = refl
    this_or_later false = refl

abbrev pub contribution : ℕ × List Bytes → SourceContribution
contribution (source_id, names) = record { source = source_id; count = length names }

contributions-add_sources :
    (sources : List (ℕ × List Bytes)) (agg : Aggregator)
    → (add_sources sources agg).contributions ≡ agg.contributions ++ map contribution sources
unfolding add_sources add_source
contributions-add_sources [] agg = sym (append-nil agg.contributions)
contributions-add_sources ((source_id, names) ∷ sources) agg =
    contributions-add_sources sources (add_source source_id names agg)
    ∙ append_assoc agg.contributions _ (map contribution sources)

-- After an install, whatever was blocked before, a name has the first source that lists it as its
-- primary source, and none if no source does; each source is reported once, in order, with the
-- number of its names.
pub install-first_source :
    {C : Type 0} (sources : List (ℕ × List Bytes)) (st : ResolverState C) (name : Name)
    → (primary_source (install (from_sources sources) st).1.blocklist name
        ≡ first_source sources name)
      × ((install (from_sources sources) st).0 ≡ map contribution sources)
unfolding install primary_source lookup_key
install-first_source sources st name =
    (lookup_key-add_sources sources _ name, contributions-add_sources sources _)
