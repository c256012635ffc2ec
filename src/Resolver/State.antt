-- ===== src/Resolver/State.antt =====
-- The shared state of src/resolver/state.rs, with the sets of src/resolver/matchset.rs. An atomic
-- pointer is the value it points to; `Clock::now_secs()` is the argument `now`, after 1970. A set of
-- names is the list of their texts.
pub mod Pause
use sagittarius.Prelude.{
  ℕ, zero, suc, ◌+◌, Bool, true, false, not, ◌&&◌, ◌||◌, Option, none, some, List, [], ◌∷◌, map,
  ltb, ◌==◌, equal, if◌then◌else◌,
}
use sagittarius.Codec.Reader.{Bytes}
use sagittarius.Codec.Name.{Name}
use sagittarius.Codec.Name.Reverse.{IpAddr}
use sagittarius.Codec.Synth.{BlockMode, nx_domain, address, null_ip}
use sagittarius.Resolver.Cache.{DnsCache}
use sagittarius.Resolver.Suffix.{LocalRecords, lookup_key}

-- `HashSet<Name>`, and `MatchSet::contains`
unfoldable pub contains : List Bytes → Name → Bool
contains [] name = false
contains (n ∷ ns) name = let rest = contains ns name in equal n name.inner || rest

-- `AttributedSet::contains` and `AttributedSet::primary_source`, on its map.
unfoldable pub primary_source : List (Bytes × ℕ) → Name → Option ℕ
primary_source map name = lookup_key map name.inner

unfoldable pub contains_key : List (Bytes × ℕ) → Name → Bool
unfolding primary_source
contains_key map name = elim (primary_source map name) [ none ↦ false | some source ↦ true ]

-- `BlockingMode` and `SelectionStrategy` of src/storage/settings.rs.
pub data BlockingMode : Type 0 where
  nxdomain null_address custom : BlockingMode

pub data SelectionStrategy : Type 0 where
  random latency_weighted parallel : SelectionStrategy

-- `Settings` of src/storage/settings.rs; an address is the list of its octets.
pub record Settings : Type 0 where
  pub cache_min_ttl : ℕ
  pub cache_max_ttl : ℕ
  pub cache_negative_ttl_cap : ℕ
  pub cache_capacity : ℕ
  pub blocking_mode : BlockingMode
  pub custom_block_ipv4 : Option Bytes
  pub custom_block_ipv6 : Option Bytes
  pub blocklist_refresh_interval : ℕ
  pub ui_theme : Bytes
  pub query_log_enabled : Bool
  pub query_log_retention_days : ℕ
  pub upstream_selection_strategy : SelectionStrategy
  pub upstream_parallel_fanout : ℕ

pub record RuntimeSettings : Type 0 where
  pub cache_min_ttl : ℕ
  pub cache_max_ttl : ℕ
  pub cache_capacity : ℕ
  pub negative_ttl_cap : ℕ
  pub block_mode : BlockMode
  pub blocklist_refresh_interval : ℕ
  pub query_log_enabled : Bool
  pub query_log_retention_days : ℕ
  pub upstream_selection_strategy : SelectionStrategy
  pub upstream_parallel_fanout : ℕ

-- `Option::unwrap_or`
abbrev pub unwrap_or {ℓ} : {A : Type ℓ} → Option A → A → A
unwrap_or none x = x
unwrap_or (some y) x = y

abbrev pub unspecified_v4 : Bytes
unspecified_v4 = 0 ∷ 0 ∷ 0 ∷ 0 ∷ []

abbrev pub unspecified_v6 : Bytes
unspecified_v6 = 0 ∷ 0 ∷ 0 ∷ 0 ∷ 0 ∷ 0 ∷ 0 ∷ 0 ∷ 0 ∷ 0 ∷ 0 ∷ 0 ∷ 0 ∷ 0 ∷ 0 ∷ 0 ∷ []

unfoldable pub block_mode_of : Settings → BlockingMode → BlockMode
block_mode_of s nxdomain = nx_domain
block_mode_of s null_address = null_ip
block_mode_of s custom =
    address (unwrap_or s.custom_block_ipv4 unspecified_v4)
      (unwrap_or s.custom_block_ipv6 unspecified_v6)

-- `RuntimeSettings::from`
unfoldable pub runtime_settings : Settings → RuntimeSettings
runtime_settings s = record {
  cache_min_ttl = s.cache_min_ttl;
  cache_max_ttl = s.cache_max_ttl;
  cache_capacity = s.cache_capacity;
  negative_ttl_cap = s.cache_negative_ttl_cap;
  block_mode = block_mode_of s s.blocking_mode;
  blocklist_refresh_interval = s.blocklist_refresh_interval;
  query_log_enabled = s.query_log_enabled;
  query_log_retention_days = s.query_log_retention_days;
  upstream_selection_strategy = s.upstream_selection_strategy;
  upstream_parallel_fanout = s.upstream_parallel_fanout;
}

-- `std::net::SocketAddr`
pub record SocketAddr : Type 0 where
  pub ip : IpAddr
  pub port : ℕ

-- `ResolverState`; `C` is the state of moka's cache.
pub record ResolverState (C : Type 0) : Type 0 where
  pub blacklist : List Bytes
  pub allowlist : List Bytes
  pub blocklist : List (Bytes × ℕ)
  pub local : LocalRecords
  pub cache : DnsCache C
  pub settings : RuntimeSettings
  pub forward_zones : List (Bytes × SocketAddr)
  pub paused_until : ℕ

-- An i64.
pub data ℤ : Type 0 where
  pos : ℕ → ℤ
  negsuc : ℕ → ℤ

module _ {C : Type 0} where
  -- `ResolverState::pause_for_secs`; the sum stays below 2 ^ 63 for every duration that is offered.
  unfoldable pub pause_for_secs : ℕ → ℤ → ResolverState C → ResolverState C
  pause_for_secs now (pos zero) st = record st { paused_until = 0 }
  pause_for_secs now (pos (suc n)) st = record st { paused_until = now + suc n }
  pause_for_secs now (negsuc n) st = record st { paused_until = 0 }

  -- `ResolverState::resume`
  unfoldable pub resume : ResolverState C → ResolverState C
  resume st = record st { paused_until = 0 }

  -- `ResolverState::paused_until`
  unfoldable pub pause_deadline : ℕ → ResolverState C → Option ℕ
  pause_deadline now st =
      if not (st.paused_until == 0) && ltb now st.paused_until then some st.paused_until else none

  -- `ResolverState::blocking_paused`
  unfoldable pub blocking_paused : ℕ → ResolverState C → Bool
  unfolding pause_deadline
  blocking_paused now st = elim (pause_deadline now st) [ none ↦ false | some deadline ↦ true ]

  abbrev pub store_settings : RuntimeSettings → ResolverState C → ResolverState C
  store_settings s st = record st { settings = s }

  abbrev pub store_forward_zones : List (Bytes × SocketAddr) → ResolverState C → ResolverState C
  store_forward_zones zones st = record st { forward_zones = zones }
