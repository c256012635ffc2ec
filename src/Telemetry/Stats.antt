-- ===== src/Telemetry/Stats.antt =====
-- The runtime statistics of src/telemetry/stats.rs. A vector of shards is a function of the index; the
-- hash of a key is the parameter `hash`.
pub mod Counts
pub mod Tracks
pub mod Totals
use sagittarius.Prelude.{
  ℕ, ◌+◌, ◌/◌, ◌%◌, ◌^◌, max, Bool, true, false, Option, none, some, List, [], ◌∷◌, map, ltb, ◌==◌,
  equal, if◌then◌else◌, length,
}
use sagittarius.Codec.Reader.{Bytes}
use sagittarius.Codec.Header.{Rcode}
use sagittarius.Codec.Message.{Qtype}
use sagittarius.Codec.Name.{Name}
use sagittarius.Codec.Name.Reverse.{IpAddr}
use sagittarius.Resolver.Local.{same_addr}
use sagittarius.Resolver.State.{SocketAddr}
use sagittarius.Resolver.Pipeline.{Outcome, is_blocked}

abbrev pub stats_shards : ℕ
stats_shards = 16

abbrev pub max_tracked_domains : ℕ
max_tracked_domains = 4096

abbrev pub max_tracked_clients : ℕ
max_tracked_clients = 2048

-- `ShardedCounts`; a count is a u64.
pub record ShardedCounts (K : Type 0) : Type 0 where
  pub shards : ℕ → List (K × ℕ)
  pub max_per_shard : ℕ

-- `ShardedCounts::new`
unfoldable pub new_counts : {K : Type 0} → ℕ → ShardedCounts K
new_counts max_entries = record {
  shards = λ i. [];
  max_per_shard = max (max_entries / stats_shards) 1;
}

-- One more, in a u64.
abbrev pub next_count : ℕ → ℕ
next_count n = (n + 1) % 2 ^ 64

module _ {K : Type 0} (same : K → K → Bool) where
  -- `map.get_mut(&key)` and the increment.
  unfoldable pub increment : K → List (K × ℕ) → Option (List (K × ℕ))
  increment key [] = none
  increment key ((k, n) ∷ map) =
      let rest = increment key map in
      if same k key
      then some ((k, next_count n) ∷ map)
      else elim rest [ none ↦ none | some map' ↦ some ((k, n) ∷ map') ]

  -- The map of a shard behind `record`.
  unfoldable pub count_key : ℕ → K → List (K × ℕ) → List (K × ℕ)
  unfolding increment
  count_key max_per_shard key map = elim (increment key map) [
    | some map' ↦ map'
    | none ↦ if ltb (length map) max_per_shard then (key, 1) ∷ map else map
  ]

  -- `map.get(&key)`
  unfoldable pub count_of : K → List (K × ℕ) → Option ℕ
  count_of key [] = none
  count_of key ((k, n) ∷ map) = let rest = count_of key map in if same k key then some n else rest

  module _ (hash : K → ℕ) where
    -- `ShardedCounts::shard_for`
    abbrev pub shard_for : K → ℕ
    shard_for key = hash key % stats_shards

    -- `ShardedCounts::record`
    unfoldable pub record_key : K → ShardedCounts K → ShardedCounts K
    unfolding count_key
    record_key key c = record c {
      shards = λ i.
          if i == shard_for key then count_key c.max_per_shard key (c.shards i) else c.shards i;
    }

-- `QueryEvent` of src/telemetry/event.rs, in milliseconds.
pub record QueryEvent : Type 0 where
  pub ts : ℕ
  pub client : SocketAddr
  pub qname : Name
  pub qtype : Qtype
  pub outcome : Outcome
  pub rcode : Option Rcode
  pub upstream : Option SocketAddr
  pub latency : ℕ

pub record Stats : Type 0 where
  pub total : ℕ
  pub blocked : ℕ
  pub cached : ℕ
  pub forwarded : ℕ
  pub domains : ShardedCounts Bytes
  pub clients : ShardedCounts IpAddr

-- `Stats::new`
unfoldable pub new_stats : Stats
unfolding new_counts
new_stats = record {
  total = 0;
  blocked = 0;
  cached = 0;
  forwarded = 0;
  domains = new_counts max_tracked_domains;
  clients = new_counts max_tracked_clients;
}

abbrev pub is_cached : Outcome → Bool
is_cached Outcome.cached = true
is_cached _ = false

abbrev pub is_forwarded : Outcome → Bool
is_forwarded Outcome.forwarded = true
is_forwarded _ = false

abbrev pub count_if : Bool → ℕ → ℕ
count_if b n = if b then next_count n else n

module _ (hash_domain : Bytes → ℕ) (hash_client : IpAddr → ℕ) where
  -- `Stats::record`
  unfoldable pub record_event : QueryEvent → Stats → Stats
  unfolding record_key
  record_event event s = record {
    total = next_count s.total;
    blocked = count_if (is_blocked event.outcome) s.blocked;
    cached = count_if (is_cached event.outcome) s.cached;
    forwarded = count_if (is_forwarded event.outcome) s.forwarded;
    domains = record_key equal hash_domain event.qname.inner s.domains;
    clients = record_key same_addr hash_client event.client.ip s.clients;
  }
