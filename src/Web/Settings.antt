-- ===== src/Web/Settings.antt =====
-- The settings form of src/web/settings.rs.
pub mod Invalid
pub mod Valid
pub mod Total
pub mod Applied
use sagittarius.Prelude.{ℕ, ◌+◌, Bool, true, false, Option, none, some, List, [], ◌∷◌, ltb, ◌==◌}
use sagittarius.Codec.Error.{Result, ok, err, out_of_fuel, ◌>>=◌, map_err}
use sagittarius.Codec.Reader.{Bytes}
use sagittarius.Blocklist.Parse.{Text, trim_start, trim_end}
use sagittarius.Resolver.State.{
  BlockingMode, nxdomain, null_address, custom, SelectionStrategy, Settings, RuntimeSettings,
  runtime_settings, ResolverState, store_settings,
}
use sagittarius.Resolver.Cache.{Moka, DnsCache, set_ttl_bounds}
use sagittarius.Storage.Sqlite.{StorageError}
use sagittarius.Storage.Settings.{Addresses, mode_from_str, strategy_from_str, get, update}
use sagittarius.Web.Render.{
  BadRequest, ttl_order, no_capacity, invalid_mode, no_retention, invalid_strategy, no_fanout,
  invalid_v4, invalid_v6, WebError, internal, bad_request,
}
use sagittarius.Web.Upstreams.{Outside, AppState, rebuild_upstream_pool}

pub record SettingsForm : Type 0 where
  pub cache_min_ttl : ℕ
  pub cache_max_ttl : ℕ
  pub cache_negative_ttl_cap : ℕ
  pub cache_capacity : ℕ
  pub blocking_mode : Text
  pub custom_block_ipv4 : Text
  pub custom_block_ipv6 : Text
  pub blocklist_refresh_interval : ℕ
  pub query_log_enabled : Option Text
  pub query_log_retention_days : ℕ
  pub upstream_selection_strategy : Text
  pub upstream_parallel_fanout : ℕ

-- `str::trim`
unfoldable pub trim : Text → Text
unfolding trim_start trim_end
trim s = trim_end (trim_start s)

-- The guards that return early.
abbrev pub reject_if : Bool → BadRequest → Result WebError (Unit {0})
reject_if true e = err (bad_request e)
reject_if false e = ok tt

-- `parse_opt_ip`, on the trimmed text.
abbrev pub parse_trimmed :
    (Text → Option Bytes) → (Text → BadRequest) → Text → Result WebError (Option Bytes)
parse_trimmed from_str invalid [] = ok none
parse_trimmed from_str invalid (c ∷ cs) = elim (from_str (c ∷ cs)) [
  | some addr ↦ ok (some addr)
  | none ↦ err (bad_request (invalid (c ∷ cs)))
]

unfoldable pub parse_opt_ip :
    (Text → Option Bytes) → (Text → BadRequest) → Text → Result WebError (Option Bytes)
unfolding trim
parse_opt_ip from_str invalid s = parse_trimmed from_str invalid (trim s)

abbrev pub is_some : {A : Type 0} → Option A → Bool
is_some none = false
is_some (some a) = true

module _ (std : Addresses) where
  -- The custom addresses of a form, by its mode.
  unfoldable pub custom_addresses :
      BlockingMode → SettingsForm → Result WebError (Option Bytes × Option Bytes)
  unfolding parse_opt_ip
  custom_addresses custom form = do
    ipv4 ← parse_opt_ip std.v4_from_str invalid_v4 form.custom_block_ipv4
    ipv6 ← parse_opt_ip std.v6_from_str invalid_v6 form.custom_block_ipv6
    ok (ipv4, ipv6)
  custom_addresses nxdomain form =
      ok (
        std.v4_from_str (trim form.custom_block_ipv4),
        std.v6_from_str (trim form.custom_block_ipv6),
      )
  custom_addresses null_address form =
      ok (
        std.v4_from_str (trim form.custom_block_ipv4),
        std.v6_from_str (trim form.custom_block_ipv6),
      )

  -- `SettingsForm::into_settings`
  unfoldable pub into_settings : SettingsForm → Text → Result WebError Settings
  unfolding custom_addresses
  into_settings form ui_theme = do
    _ ← reject_if (ltb form.cache_max_ttl form.cache_min_ttl) ttl_order
    _ ← reject_if (form.cache_capacity == 0) no_capacity
    blocking_mode ← map_err (λ _. bad_request invalid_mode) (mode_from_str form.blocking_mode)
    addresses ← custom_addresses blocking_mode form
    _ ← reject_if (form.query_log_retention_days == 0) no_retention
    upstream_selection_strategy ←
        map_err (λ _. bad_request invalid_strategy)
          (strategy_from_str form.upstream_selection_strategy)
    _ ← reject_if (ltb form.upstream_parallel_fanout 1) no_fanout
    ok (record {
      cache_min_ttl = form.cache_min_ttl;
      cache_max_ttl = form.cache_max_ttl;
      cache_negative_ttl_cap = form.cache_negative_ttl_cap;
      cache_capacity = form.cache_capacity;
      blocking_mode = blocking_mode;
      custom_block_ipv4 = addresses.0;
      custom_block_ipv6 = addresses.1;
      blocklist_refresh_interval = form.blocklist_refresh_interval;
      ui_theme = ui_theme;
      query_log_enabled = is_some form.query_log_enabled;
      query_log_retention_days = form.query_log_retention_days;
      upstream_selection_strategy = upstream_selection_strategy;
      upstream_parallel_fanout = form.upstream_parallel_fanout;
    })

module _ {S F C N : Type 0} (moka : Moka S) (out : Outside F C N) where
  -- The live part of `apply_settings`.
  abbrev pub store_live : Settings → ResolverState S → ResolverState S
  store_live settings st =
      let st' = store_settings (runtime_settings settings) st in
      record st' {
        cache = set_ttl_bounds moka settings.cache_min_ttl settings.cache_max_ttl st'.cache;
      }

  -- `AppState::apply_settings`
  unfoldable pub apply_settings :
      SettingsForm → AppState S F C N → Result WebError (Unit {0}) × AppState S F C N
  unfolding into_settings rebuild_upstream_pool
  apply_settings form app =
      let (stored, db') = get out.std app.db in
      elim stored [
        | ok old ↦ elim (into_settings out.std form old.ui_theme) [
          | ok settings ↦
              let (written, db'') = update out.std settings db' in
              elim written [
                | ok _ ↦
                    rebuild_upstream_pool out
                      (record app { db = db''; resolver = store_live settings app.resolver })
                | err e ↦ (err (internal e), record app { db = db'' })
                | out_of_fuel ↦ (out_of_fuel, record app { db = db'' })
              ]
          | err e ↦ (err e, record app { db = db' })
          | out_of_fuel ↦ (out_of_fuel, record app { db = db' })
        ]
        | err e ↦ (err (internal e), record app { db = db' })
        | out_of_fuel ↦ (out_of_fuel, record app { db = db' })
      ]
