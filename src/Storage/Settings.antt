-- ===== src/Storage/Settings.antt =====
-- The repository of src/storage/settings.rs over the row of its table. The parsing and the printing of
-- addresses by std are parameters.
pub mod RoundTrip
use sagittarius.Prelude.{
  ℕ, zero, suc, ◌^◌, Bool, true, false, Option, none, some, [], ◌∷◌, ltb, leb, equal, if◌then◌else◌,
}
use sagittarius.Codec.Error.{Result, ok, err, out_of_fuel, ◌>>=◌}
use sagittarius.Codec.Reader.{Bytes}
use sagittarius.Blocklist.Parse.{Text}
use sagittarius.Resolver.State.{
  ℤ, pos, negsuc, BlockingMode, nxdomain, null_address, custom, SelectionStrategy, random,
  latency_weighted, parallel, Settings,
}
use sagittarius.Storage.Sqlite.{
  SqlxError, check_violation, StorageError, decode_text, decode_number, SettingsRow, Tables, Db,
  execute, execute_on,
}
use sagittarius.Storage.Blocklists.{u64_try_from, as_i64}

abbrev pub nxdomain_text : Text
nxdomain_text = b'n' ∷ b'x' ∷ b'd' ∷ b'o' ∷ b'm' ∷ b'a' ∷ b'i' ∷ b'n' ∷ []

abbrev pub null_ip_text : Text
null_ip_text = b'n' ∷ b'u' ∷ b'l' ∷ b'l' ∷ b'-' ∷ b'i' ∷ b'p' ∷ []

abbrev pub custom_text : Text
custom_text = b'c' ∷ b'u' ∷ b's' ∷ b't' ∷ b'o' ∷ b'm' ∷ []

abbrev pub random_text : Text
random_text = b'r' ∷ b'a' ∷ b'n' ∷ b'd' ∷ b'o' ∷ b'm' ∷ []

abbrev pub latency_weighted_text : Text
latency_weighted_text =
    b'l' ∷ b'a' ∷ b't' ∷ b'e' ∷ b'n' ∷ b'c' ∷ b'y' ∷ b'-' ∷ b'w' ∷ b'e' ∷ b'i' ∷ b'g' ∷ b'h' ∷ b't'
    ∷ b'e' ∷ b'd' ∷ []

abbrev pub parallel_text : Text
parallel_text = b'p' ∷ b'a' ∷ b'r' ∷ b'a' ∷ b'l' ∷ b'l' ∷ b'e' ∷ b'l' ∷ []

-- `BlockingMode::as_str` and `BlockingMode::from_str`
unfoldable pub mode_as_str : BlockingMode → Text
mode_as_str nxdomain = nxdomain_text
mode_as_str null_address = null_ip_text
mode_as_str custom = custom_text

unfoldable pub mode_from_str : Text → Result StorageError BlockingMode
mode_from_str s =
    if equal s nxdomain_text
    then ok nxdomain
    else if equal s null_ip_text
    then ok null_address
    else if equal s custom_text
    then ok custom
    else err (decode_text s)

-- `SelectionStrategy::as_str` and `SelectionStrategy::from_str`
unfoldable pub strategy_as_str : SelectionStrategy → Text
strategy_as_str random = random_text
strategy_as_str latency_weighted = latency_weighted_text
strategy_as_str parallel = parallel_text

unfoldable pub strategy_from_str : Text → Result StorageError SelectionStrategy
strategy_from_str s =
    if equal s random_text
    then ok random
    else if equal s latency_weighted_text
    then ok latency_weighted
    else if equal s parallel_text
    then ok parallel
    else err (decode_text s)

-- `narrow_u32`
unfoldable pub narrow_u32 : ℤ → Result StorageError ℕ
narrow_u32 (pos n) = if ltb n (2 ^ 32) then ok n else err (decode_number (pos n))
narrow_u32 (negsuc n) = err (decode_number (negsuc n))

-- `value != 0`
abbrev pub is_nonzero : ℤ → Bool
is_nonzero (pos zero) = false
is_nonzero (pos (suc n)) = true
is_nonzero (negsuc n) = true

-- `as i64`, of a bool.
abbrev pub bool_as_i64 : Bool → ℤ
bool_as_i64 true = pos 1
bool_as_i64 false = pos 0

-- `Option::map` with a fallible function, and `transpose`.
abbrev pub parse_option : (Text → Option Bytes) → Option Text → Result StorageError (Option Bytes)
parse_option from_str none = ok none
parse_option from_str (some s) = elim (from_str s) [
  | some addr ↦ ok (some addr)
  | none ↦ err (decode_text s)
]

abbrev pub map_option : (Bytes → Text) → Option Bytes → Option Text
map_option to_string none = none
map_option to_string (some addr) = some (to_string addr)

-- The parsers of `Ipv4Addr` and `Ipv6Addr`, and their texts.
pub record Addresses : Type 0 where
  pub v4_from_str : Text → Option Bytes
  pub v6_from_str : Text → Option Bytes
  pub v4_to_string : Bytes → Text
  pub v6_to_string : Bytes → Text

module _ (std : Addresses) where
  -- `Settings::try_from`
  unfoldable pub settings_from_row : SettingsRow → Result StorageError Settings
  settings_from_row row = do
    blocking_mode ← mode_from_str row.blocking_mode
    custom_block_ipv4 ← parse_option std.v4_from_str row.custom_block_ipv4
    custom_block_ipv6 ← parse_option std.v6_from_str row.custom_block_ipv6
    cache_min_ttl ← narrow_u32 row.cache_min_ttl
    cache_max_ttl ← narrow_u32 row.cache_max_ttl
    cache_negative_ttl_cap ← narrow_u32 row.cache_negative_ttl_cap
    cache_capacity ← u64_try_from row.cache_capacity
    blocklist_refresh_interval ← narrow_u32 row.blocklist_refresh_interval
    query_log_retention_days ← narrow_u32 row.query_log_retention_days
    upstream_selection_strategy ← strategy_from_str row.upstream_selection_strategy
    upstream_parallel_fanout ← narrow_u32 row.upstream_parallel_fanout
    ok (record {
      cache_min_ttl = cache_min_ttl;
      cache_max_ttl = cache_max_ttl;
      cache_negative_ttl_cap = cache_negative_ttl_cap;
      cache_capacity = cache_capacity;
      blocking_mode = blocking_mode;
      custom_block_ipv4 = custom_block_ipv4;
      custom_block_ipv6 = custom_block_ipv6;
      blocklist_refresh_interval = blocklist_refresh_interval;
      ui_theme = row.ui_theme;
      query_log_enabled = is_nonzero row.query_log_enabled;
      query_log_retention_days = query_log_retention_days;
      upstream_selection_strategy = upstream_selection_strategy;
      upstream_parallel_fanout = upstream_parallel_fanout;
    })

  -- The values that `update` binds; a u32 is an i64 as it is.
  unfoldable pub row_of_settings : Settings → SettingsRow
  row_of_settings s = record {
    cache_min_ttl = pos s.cache_min_ttl;
    cache_max_ttl = pos s.cache_max_ttl;
    cache_negative_ttl_cap = pos s.cache_negative_ttl_cap;
    cache_capacity = as_i64 s.cache_capacity;
    blocking_mode = mode_as_str s.blocking_mode;
    custom_block_ipv4 = map_option std.v4_to_string s.custom_block_ipv4;
    custom_block_ipv6 = map_option std.v6_to_string s.custom_block_ipv6;
    blocklist_refresh_interval = pos s.blocklist_refresh_interval;
    ui_theme = s.ui_theme;
    query_log_enabled = bool_as_i64 s.query_log_enabled;
    query_log_retention_days = pos s.query_log_retention_days;
    upstream_selection_strategy = strategy_as_str s.upstream_selection_strategy;
    upstream_parallel_fanout = pos s.upstream_parallel_fanout;
  }

  -- `SqliteSettingsRepo::get`
  unfoldable pub get : Db → Result StorageError Settings × Db
  unfolding execute_on
  get db = let (row, db') = execute (λ t. ok (t.settings, t)) db in (row >>= settings_from_row, db')

  -- `SqliteSettingsRepo::update`, with the check on the fan-out that the schema has; the other checks
  -- hold for every settings.
  unfoldable pub update : Settings → Db → Result StorageError (Unit {0}) × Db
  unfolding execute_on
  update s = execute λ t.
      if leb 1 s.upstream_parallel_fanout
      then ok (tt, record t { settings = row_of_settings s })
      else err check_violation
