-- ===== src/Web/Settings/Applied.antt =====
-- What saving the settings, src/web/settings.rs, does to the program.
use sagittarius.Prelude.{ℕ, ◌≤◌, ◌≡◌, ◌⊎◌}
use sagittarius.Codec.Error.{Result, ok, err}
use sagittarius.Resolver.Cache.{Moka, clamp_ttl}
use sagittarius.Resolver.State.{
  ResolverState, Settings, BlockingMode, nxdomain, null_address, custom, unwrap_or, unspecified_v4,
  unspecified_v6,
}
use sagittarius.Codec.Synth.{BlockMode, nx_domain, null_ip, address}
use sagittarius.Storage.Sqlite.{StorageError, Tables, Db}
use sagittarius.Storage.Settings.{Addresses, row_of_settings, get, update}
use sagittarius.Web.Render.{WebError, internal}
use sagittarius.Web.Upstreams.{Outside, AppState}
use sagittarius.Web.Upstreams.Rebuilt.{IsPoolOf}
use sagittarius.Web.Settings.{SettingsForm}
use sagittarius.Web.Settings.Invalid.{IsInvalid}
use sagittarius.Web.Settings.Valid.{IsAccepted}

-- A query that ends with a value or an error and changes no table.
record IsQuery {A : Type 0} (db : Db) (r : Result StorageError A × Db) : Type 0 where
  tables : r.1.tables ≡ db.tables
  ends : ((a : A) × (r.0 ≡ ok a)) ⊎ ((e : StorageError) × (r.0 ≡ err e))

abbrev pub saved_in : Addresses → Settings → Tables → Tables
saved_in std s t = record t { settings = row_of_settings std s }

-- How the resolver blocks under the settings: without an address of its own the custom mode answers with
-- the unspecified one.
pub data IsBlockMode (s : Settings) : BlockingMode → BlockMode → Type 0 where
  of_nxdomain : IsBlockMode s nxdomain nx_domain
  of_null_address : IsBlockMode s null_address null_ip
  of_custom : IsBlockMode s custom (
      address
        (unwrap_or s.custom_block_ipv4 unspecified_v4)
        (unwrap_or s.custom_block_ipv6 unspecified_v6))

-- The resolver under the settings: nothing else of its state changes but the bounds of its cache.
pub record IsLive {S : Type 0} (s : Settings) (old new : ResolverState S) : Type 0 where
  pub state :
      (block_mode : BlockMode) × (bounds : ℕ) × IsBlockMode s s.blocking_mode block_mode
      × (new ≡ record old {
        cache = record old.cache { ttl_bounds = bounds };
        settings = record {
          cache_min_ttl = s.cache_min_ttl;
          cache_max_ttl = s.cache_max_ttl;
          cache_capacity = s.cache_capacity;
          negative_ttl_cap = s.cache_negative_ttl_cap;
          block_mode = block_mode;
          blocklist_refresh_interval = s.blocklist_refresh_interval;
          query_log_enabled = s.query_log_enabled;
          query_log_retention_days = s.query_log_retention_days;
          upstream_selection_strategy = s.upstream_selection_strategy;
          upstream_parallel_fanout = s.upstream_parallel_fanout;
        };
      })

module _ {S F C N : Type 0} (moka : Moka S) (out : Outside F C N) where
  -- Why a form is not saved: the settings cannot be read, the form is invalid, or the new settings cannot
  -- be written.
  pub data Fails (form : SettingsForm) (app : AppState S F C N) (e : WebError) : Type 0 where
    unread : (x : StorageError) → (get out.std app.db).0 ≡ err x → e ≡ internal x → Fails form app e
    invalid :
        (old : Settings)
        → (get out.std app.db).0 ≡ ok old
        → IsInvalid out.std form e
        → Fails form app e
    unwritten :
        (old settings : Settings) (x : StorageError)
        → (get out.std app.db).0 ≡ ok old
        → IsAccepted out.std form old.ui_theme settings
        → (update out.std settings (get out.std app.db).1).0 ≡ err x
        → e ≡ internal x
        → Fails form app e

  -- The end of saving a form.
  pub data Applied (form : SettingsForm) (app : AppState S F C N)
      (r : Result WebError (Unit {0}) × AppState S F C N) : Type 0 where
    rejected :
        (e : WebError)
        → Fails form app e
        → r.0 ≡ err e
        → r.1.resolver ≡ app.resolver
        → r.1.upstream_pool ≡ app.upstream_pool
        → r.1.db.tables ≡ app.db.tables
        → Applied form app r
    saved :
        (old settings : Settings)
        → (get out.std app.db).0 ≡ ok old
        → IsAccepted out.std form old.ui_theme settings
        → r.1.db.tables ≡ saved_in out.std settings app.db.tables
        → IsLive settings app.resolver r.1.resolver
        → ((secs : ℕ)
            → (form.cache_min_ttl ≤ clamp_ttl moka secs r.1.resolver.cache)
              × (clamp_ttl moka secs r.1.resolver.cache ≤ form.cache_max_ttl))
        → (((r.0 ≡ ok tt)
              × IsPoolOf out app.db.tables.upstreams app.net settings.upstream_selection_strategy
                  settings.upstream_parallel_fanout r.1.upstream_pool.inner)
            ⊎ ((e : StorageError) × (r.0 ≡ err (internal e))
                × (r.1.upstream_pool ≡ app.upstream_pool)))
        → Applied form app r
