-- ===== src/Blocklist/Aggregate.antt =====
-- The aggregation of src/blocklist/aggregate.rs.
pub mod First
use sagittarius.Prelude.{ℕ, none, some, List, [], ◌∷◌, ◌++◌, length}
use sagittarius.Codec.Reader.{Bytes}
use sagittarius.Codec.Name.{Name}
use sagittarius.Resolver.Suffix.{lookup_key}
use sagittarius.Resolver.State.{ResolverState}

pub record SourceContribution : Type 0 where
  pub source : ℕ
  pub count : ℕ

pub record Aggregator : Type 0 where
  pub merged : List (Bytes × ℕ)
  pub contributions : List SourceContribution

-- `Aggregator::new`
abbrev pub empty : Aggregator
empty = record { merged = []; contributions = [] }

-- `merged.entry(name).or_insert(source_id)`
unfoldable pub or_insert : Bytes → ℕ → List (Bytes × ℕ) → List (Bytes × ℕ)
or_insert name source_id merged = elim (lookup_key merged name) [
  | some first ↦ merged
  | none ↦ (name, source_id) ∷ merged
]

unfoldable pub insert_all : ℕ → List Bytes → List (Bytes × ℕ) → List (Bytes × ℕ)
unfolding or_insert
insert_all source_id [] merged = merged
insert_all source_id (name ∷ names) merged =
    insert_all source_id names (or_insert name source_id merged)

-- `Aggregator::add`
unfoldable pub add_source : ℕ → List Bytes → Aggregator → Aggregator
unfolding insert_all
add_source source_id names agg = record {
  merged = insert_all source_id names agg.merged;
  contributions = agg.contributions ++ (record { source = source_id; count = length names } ∷ []);
}

unfoldable pub add_sources : List (ℕ × List Bytes) → Aggregator → Aggregator
unfolding add_source
add_sources [] agg = agg
add_sources ((source_id, names) ∷ sources) agg =
    add_sources sources (add_source source_id names agg)

-- `Aggregator::from_iter`
abbrev pub from_sources : List (ℕ × List Bytes) → Aggregator
from_sources sources = add_sources sources empty

-- `Aggregator::install`
unfoldable pub install :
    {C : Type 0} → Aggregator → ResolverState C → List SourceContribution × ResolverState C
install agg st = (agg.contributions, record st { blocklist = agg.merged })
