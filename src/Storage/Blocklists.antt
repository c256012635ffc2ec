-- ===== src/Storage/Blocklists.antt =====
-- The repository of src/storage/blocklists.rs over its two tables.
pub mod Ends
pub mod Listed
pub mod Rows
use sagittarius.Prelude.{
  ℕ, ◌+◌, ◌-◌, ◌^◌, Bool, false, ◌||◌, Option, none, some, List, [], ◌∷◌, ◌++◌, ltb, ◌==◌, equal,
  if◌then◌else◌,
}
use sagittarius.Codec.Error.{Result, ok, err, out_of_fuel, ◌>>=◌}
use sagittarius.Codec.Reader.{Bytes}
use sagittarius.Blocklist.Parse.{Text, BlocklistFormat, hosts, domain_list}
use sagittarius.Resolver.State.{ℤ, pos, negsuc}
use sagittarius.Storage.Sqlite.{
  SqlxError, unique_violation, foreign_key_violation, StorageError, decode_text, decode_number,
  BlocklistRow, CachedContent, Tables, Db, execute, execute_on,
}

abbrev pub hosts_text : Text
hosts_text = b'h' ∷ b'o' ∷ b's' ∷ b't' ∷ b's' ∷ []

abbrev pub domain_list_text : Text
domain_list_text = b'd' ∷ b'o' ∷ b'm' ∷ b'a' ∷ b'i' ∷ b'n' ∷ b'-' ∷ b'l' ∷ b'i' ∷ b's' ∷ b't' ∷ []

-- `BlocklistFormat::as_str`
unfoldable pub format_as_str : BlocklistFormat → Text
format_as_str hosts = hosts_text
format_as_str domain_list = domain_list_text

-- `BlocklistFormat::from_str`
unfoldable pub format_from_str : Text → Result StorageError BlocklistFormat
format_from_str s =
    if equal s hosts_text
    then ok hosts
    else if equal s domain_list_text
    then ok domain_list
    else err (decode_text s)

pub record Blocklist : Type 0 where
  pub id : ℕ
  pub url : Text
  pub format : BlocklistFormat
  pub enabled : Bool
  pub entry_count : ℕ
  pub last_updated : Option ℕ
  pub etag : Option Text
  pub last_modified : Option Text

pub record NewBlocklist : Type 0 where
  pub url : Text
  pub format : BlocklistFormat
  pub enabled : Bool

pub record RefreshMetadata : Type 0 where
  pub entry_count : ℕ
  pub last_updated : ℕ
  pub etag : Option Text
  pub last_modified : Option Text

-- `u64::try_from`
unfoldable pub u64_try_from : ℤ → Result StorageError ℕ
u64_try_from (pos n) = ok n
u64_try_from (negsuc n) = err (decode_number (negsuc n))

-- `as i64`, of a u64.
unfoldable pub as_i64 : ℕ → ℤ
as_i64 n = if ltb n (2 ^ 63) then pos n else negsuc (2 ^ 64 - 1 - n)

-- `Blocklist::try_from`
unfoldable pub blocklist_from_row : BlocklistRow → Result StorageError Blocklist
blocklist_from_row row = do
  format ← format_from_str row.format
  entry_count ← u64_try_from row.entry_count
  ok (record {
    id = row.id;
    url = row.url;
    format = format;
    enabled = row.enabled;
    entry_count = entry_count;
    last_updated = row.last_updated;
    etag = row.etag;
    last_modified = row.last_modified;
  })

unfoldable pub rows_to_blocklists : List BlocklistRow → Result StorageError (List Blocklist)
rows_to_blocklists [] = ok []
rows_to_blocklists (row ∷ rows) = do
  blocklist ← blocklist_from_row row
  blocklists ← rows_to_blocklists rows
  ok (blocklist ∷ blocklists)

-- The rows with an id, and those without.
unfoldable pub has_id : ℕ → List BlocklistRow → Bool
has_id id [] = false
has_id id (row ∷ rows) = row.id == id || has_id id rows

unfoldable pub has_url : Text → List BlocklistRow → Bool
has_url url [] = false
has_url url (row ∷ rows) = equal row.url url || has_url url rows

unfoldable pub without_id : ℕ → List BlocklistRow → List BlocklistRow
without_id id [] = []
without_id id (row ∷ rows) =
    let rest = without_id id rows in if row.id == id then rest else row ∷ rest

unfoldable pub enabled_rows : List BlocklistRow → List BlocklistRow
enabled_rows [] = []
enabled_rows (row ∷ rows) = let rest = enabled_rows rows in if row.enabled then row ∷ rest else rest

unfoldable pub update_row :
    ℕ → (BlocklistRow → BlocklistRow) → List BlocklistRow → List BlocklistRow
update_row id f [] = []
update_row id f (row ∷ rows) = (if row.id == id then f row else row) ∷ update_row id f rows

unfoldable pub cache_row : ℕ → List (ℕ × CachedContent) → Option CachedContent
cache_row id [] = none
cache_row id ((k, c) ∷ rows) = let rest = cache_row id rows in if k == id then some c else rest

unfoldable pub without_cache : ℕ → List (ℕ × CachedContent) → List (ℕ × CachedContent)
without_cache id [] = []
without_cache id ((k, c) ∷ rows) =
    let rest = without_cache id rows in if k == id then rest else (k, c) ∷ rest

-- `ON CONFLICT(blocklist_id) DO UPDATE`
unfoldable pub upsert_cache :
    ℕ → CachedContent → List (ℕ × CachedContent) → List (ℕ × CachedContent)
upsert_cache id c [] = (id, c) ∷ []
upsert_cache id c ((k, old) ∷ rows) =
    let rest = upsert_cache id c rows in if k == id then (k, c) ∷ rows else (k, old) ∷ rest

-- The rows that a query returned, decoded.
abbrev pub decode_rows :
    Result StorageError (List BlocklistRow) × Db → Result StorageError (List Blocklist) × Db
decode_rows (rows, db) = (rows >>= rows_to_blocklists, db)

-- `SqliteBlocklistRepo::insert`
unfoldable pub insert : NewBlocklist → Db → Result StorageError Blocklist × Db
unfolding has_url execute_on
insert new = execute λ t.
    if has_url new.url t.blocklists
    then err unique_violation
    else ok (
      record {
        id = t.next_id;
        url = new.url;
        format = new.format;
        enabled = new.enabled;
        entry_count = 0;
        last_updated = none;
        etag = none;
        last_modified = none;
      },
      record t {
        next_id = t.next_id + 1;
        blocklists =
            t.blocklists
            ++ (record {
              id = t.next_id;
              url = new.url;
              format = format_as_str new.format;
              enabled = new.enabled;
              entry_count = pos 0;
              last_updated = none;
              etag = none;
              last_modified = none;
            }
                ∷ []);
      },
    )

-- `SqliteBlocklistRepo::list`
unfoldable pub list : Db → Result StorageError (List Blocklist) × Db
unfolding execute_on
list db = decode_rows (execute (λ t. ok (t.blocklists, t)) db)

-- `SqliteBlocklistRepo::list_enabled`
unfoldable pub list_enabled : Db → Result StorageError (List Blocklist) × Db
unfolding execute_on
list_enabled db = decode_rows (execute (λ t. ok (enabled_rows t.blocklists, t)) db)

-- `SqliteBlocklistRepo::remove`, with the rows that the foreign key removes.
unfoldable pub remove : ℕ → Db → Result StorageError (Unit {0}) × Db
unfolding execute_on
remove id = execute λ t. ok (
  tt,
  record t {
    blocklists = without_id id t.blocklists;
    blocklist_cache = without_cache id t.blocklist_cache;
  },
)

-- `SqliteBlocklistRepo::set_enabled`
unfoldable pub set_enabled : ℕ → Bool → Db → Result StorageError (Unit {0}) × Db
unfolding execute_on
set_enabled id enabled = execute λ t. ok (
  tt,
  record t { blocklists = update_row id (λ row. record row { enabled = enabled }) t.blocklists },
)

abbrev pub put_metadata : RefreshMetadata → BlocklistRow → BlocklistRow
put_metadata meta row = record row {
  entry_count = as_i64 meta.entry_count;
  last_updated = some meta.last_updated;
  etag = meta.etag;
  last_modified = meta.last_modified;
}

-- `SqliteBlocklistRepo::update_refresh_metadata`
unfoldable pub update_refresh_metadata :
    ℕ → RefreshMetadata → Db → Result StorageError (Unit {0}) × Db
unfolding execute_on
update_refresh_metadata id meta =
    execute λ t. ok (tt, record t { blocklists = update_row id (put_metadata meta) t.blocklists })

-- `SqliteBlocklistRepo::save_cache`; `now` is `unixepoch()`.
unfoldable pub save_cache : ℕ → ℕ → Bytes → Db → Result StorageError (Unit {0}) × Db
unfolding execute_on has_id
save_cache now id content = execute λ t.
    if has_id id t.blocklists
    then ok (
      tt,
      record t {
        blocklist_cache =
            upsert_cache id (record { content = content; fetched_at = now }) t.blocklist_cache;
      },
    )
    else err foreign_key_violation

-- `SqliteBlocklistRepo::load_cache`
unfoldable pub load_cache : ℕ → Db → Result StorageError (Option CachedContent) × Db
unfolding execute_on
load_cache id = execute λ t. ok (cache_row id t.blocklist_cache, t)
