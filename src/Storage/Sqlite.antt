-- ===== src/Storage/Sqlite.antt =====
-- The database of src/storage/mod.rs: the tables of the migrations that the repositories read, and how
-- a statement of sqlx ends. What the driver reports is a list with an entry for each statement.
pub mod Ends
use sagittarius.Prelude.{ℕ, Bool, Option, none, some, List, [], ◌∷◌}
use sagittarius.Codec.Error.{Result, ok, err, out_of_fuel}
use sagittarius.Codec.Reader.{Bytes}
use sagittarius.Blocklist.Parse.{Text}
use sagittarius.Resolver.State.{ℤ}

-- `sqlx::Error`: what the driver reports, and the constraints of the schema.
pub data SqlxError : Type 0 where
  driver : ℕ → SqlxError
  unique_violation foreign_key_violation check_violation : SqlxError

-- `storage::Error`; a decode error carries the value that its message names.
pub data StorageError : Type 0 where
  sqlx : SqlxError → StorageError
  decode_text : Text → StorageError
  decode_number : ℤ → StorageError

-- `BlocklistRow`, a row of the table `blocklists`.
pub record BlocklistRow : Type 0 where
  pub id : ℕ
  pub url : Text
  pub format : Text
  pub enabled : Bool
  pub entry_count : ℤ
  pub last_updated : Option ℕ
  pub etag : Option Text
  pub last_modified : Option Text

pub record CachedContent : Type 0 where
  pub content : Bytes
  pub fetched_at : ℕ

-- `SettingsRow`, the row of the table `settings`.
pub record SettingsRow : Type 0 where
  pub cache_min_ttl : ℤ
  pub cache_max_ttl : ℤ
  pub cache_negative_ttl_cap : ℤ
  pub cache_capacity : ℤ
  pub blocking_mode : Text
  pub custom_block_ipv4 : Option Text
  pub custom_block_ipv6 : Option Text
  pub blocklist_refresh_interval : ℤ
  pub ui_theme : Text
  pub query_log_enabled : ℤ
  pub query_log_retention_days : ℤ
  pub upstream_selection_strategy : Text
  pub upstream_parallel_fanout : ℤ

-- `UpstreamRow`, a row of the table `upstreams`.
pub record UpstreamRow : Type 0 where
  pub id : ℕ
  pub address : Text
  pub transport : Text
  pub tls_server_name : Option Text
  pub enabled : Bool
  pub sort_order : ℤ

-- `SessionRecord` of src/storage/sessions.rs; the times are seconds.
pub record SessionRecord : Type 0 where
  pub id : Bytes
  pub token_hash : Bytes
  pub user_id : ℕ
  pub created_at : ℕ
  pub expires_at : ℕ

-- The tables `blocklists`, in the order of the ids, and `blocklist_cache`, the row of `settings`, `upstreams`
-- and `sessions`; `next_id` is the next id of AUTOINCREMENT in `blocklists`.
pub record Tables : Type 0 where
  pub next_id : ℕ
  pub blocklists : List BlocklistRow
  pub blocklist_cache : List (ℕ × CachedContent)
  pub settings : SettingsRow
  pub upstreams : List UpstreamRow
  pub sessions : List SessionRecord

pub record Db : Type 0 where
  pub tables : Tables
  pub faults : List (Option SqlxError)

-- What a statement that the driver carries out leaves.
abbrev pub carry_out {ℓ} :
    {A : Type ℓ}
    → Result SqlxError (A × Tables)
    → List (Option SqlxError)
    → Tables
    → Result StorageError A × Db
carry_out (ok (a, tables')) faults tables = (ok a, record { tables = tables'; faults = faults })
carry_out (err e) faults tables = (err (sqlx e), record { tables = tables; faults = faults })
carry_out out_of_fuel faults tables = (out_of_fuel, record { tables = tables; faults = faults })

unfoldable pub execute_on {ℓ} :
    {A : Type ℓ}
    → (Tables → Result SqlxError (A × Tables))
    → List (Option SqlxError)
    → Tables
    → Result StorageError A × Db
execute_on statement [] tables = carry_out (statement tables) [] tables
execute_on statement (none ∷ faults) tables = carry_out (statement tables) faults tables
execute_on statement (some e ∷ faults) tables =
    (err (sqlx e), record { tables = tables; faults = faults })

-- `.execute(&self.pool)` and the fetches.
abbrev pub execute {ℓ} :
    {A : Type ℓ} → (Tables → Result SqlxError (A × Tables)) → Db → Result StorageError A × Db
execute statement db = execute_on statement db.faults db.tables
