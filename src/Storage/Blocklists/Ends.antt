-- ===== src/Storage/Blocklists/Ends.antt =====
-- How the statements of src/storage/blocklists.rs end.
use sagittarius.Prelude.{
  ℕ, ◌≡◌, refl, inl, inr, some, List, [], ◌∷◌, arith, ◌==◌, if◌then◌else◌, Bool-cases,
}
use sagittarius.Codec.Error.{ok, err}
use sagittarius.Codec.Reader.{Bytes}
use sagittarius.Storage.Sqlite.{StorageError, CachedContent, Tables, Db, foreign_key_violation}
use sagittarius.Storage.Sqlite.Ends.{
  Reads, Writes, Faulty, execute_on-Reads, execute_on-Writes, execute_on-Faulty, err-Faulty,
}
use sagittarius.Storage.Blocklists.{
  RefreshMetadata, cache_row, load_cache, has_id, upsert_cache, update_row, put_metadata,
  save_cache, update_refresh_metadata, list_enabled, enabled_rows,
}

pub load_cache-Reads :
    (id : ℕ) (db : Db) → Reads (cache_row id db.tables.blocklist_cache) db.tables (load_cache id db)
unfolding load_cache
load_cache-Reads id db = execute_on-Reads (λ t. cache_row id t.blocklist_cache) db.faults db.tables

-- The tables with a body in the cache.
abbrev pub cached_in : ℕ → ℕ → Bytes → Tables → Tables
cached_in now id content t = record t {
  blocklist_cache =
      upsert_cache id (record { content = content; fetched_at = now }) t.blocklist_cache;
}

pub save_cache-Writes :
    (now id : ℕ) (content : Bytes) (db : Db)
    → Writes db.tables (cached_in now id content db.tables) (save_cache now id content db)
unfolding save_cache
save_cache-Writes now id content db =
    execute_on-Writes _ (cached_in now id content db.tables) db.faults db.tables
      (elim (Bool-cases (has_id id db.tables.blocklists)) [
        | inl e ↦ inl (rw e refl)
        | inr e ↦ inr (foreign_key_violation, rw e refl)
      ])

abbrev pub refreshed_in : ℕ → RefreshMetadata → Tables → Tables
refreshed_in id meta t = record t { blocklists = update_row id (put_metadata meta) t.blocklists }

pub update_refresh_metadata-Writes :
    (id : ℕ) (meta : RefreshMetadata) (db : Db)
    → Writes db.tables (refreshed_in id meta db.tables) (update_refresh_metadata id meta db)
unfolding update_refresh_metadata
update_refresh_metadata-Writes id meta db =
    execute_on-Writes (λ t. ok (tt, refreshed_in id meta t)) (refreshed_in id meta db.tables)
      db.faults db.tables (inl refl)

-- A stored body is read back, and no other body changes.
pub cache_row-upsert_cache :
    (id key : ℕ) (c : CachedContent) (rows : List (ℕ × CachedContent))
    → cache_row key (upsert_cache id c rows) ≡ (if id == key then some c else cache_row key rows)
unfolding cache_row upsert_cache
cache_row-upsert_cache id key c [] = refl
cache_row-upsert_cache id key c ((k, old) ∷ rows) =
    ground (arith, cache_row-upsert_cache id key c rows)

-- Faults behind the statements of a refresh.
pub load_cache-Faulty : (id : ℕ) (db : Db) → Faulty (load_cache id db).1.faults → Faulty db.faults
unfolding load_cache
load_cache-Faulty id db h =
    execute_on-Faulty (λ t. ok (cache_row id t.blocklist_cache, t)) db.faults db.tables h

pub load_cache_err-Faulty :
    (id : ℕ) (db : Db) {e : StorageError} → (load_cache id db).0 ≡ err e → Faulty db.faults
unfolding load_cache
load_cache_err-Faulty id db h =
    err-Faulty (λ t. cache_row id t.blocklist_cache) db.faults db.tables h

pub list_enabled-Faulty : (db : Db) → Faulty (list_enabled db).1.faults → Faulty db.faults
unfolding list_enabled
list_enabled-Faulty db h =
    execute_on-Faulty (λ t. ok (enabled_rows t.blocklists, t)) db.faults db.tables h

save_cache-Faulty :
    (now id : ℕ) (content : Bytes) (db : Db)
    → Faulty (save_cache now id content db).1.faults
    → Faulty db.faults
unfolding save_cache
save_cache-Faulty now id content db h =
    execute_on-Faulty
      (λ t.
        if has_id id t.blocklists
        then ok (tt, cached_in now id content t)
        else err foreign_key_violation)
      db.faults db.tables h

pub saved-Faulty :
    (now id : ℕ) (content : Bytes) (meta : RefreshMetadata) (db : Db)
    → Faulty (update_refresh_metadata id meta (save_cache now id content db).1).1.faults
    → Faulty db.faults
unfolding update_refresh_metadata
saved-Faulty now id content meta db h =
    let db' = (save_cache now id content db).1 in
    save_cache-Faulty now id content db
      (execute_on-Faulty (λ t. ok (tt, refreshed_in id meta t)) db'.faults db'.tables h)
