-- ===== src/Blocklist/Scheduler/Stored.antt =====
-- What a source leaves in the offline cache of src/blocklist/scheduler.rs, on a database without faults.
use sagittarius.Prelude.{
  ℕ, ◌≡◌, refl, ap, ◌∙◌, inl, inr, Bool, true, false, some, arith, ◌==◌, Bool-cases, Option-cases,
  length,
}
use sagittarius.Codec.Error.{Result, ok, err, out_of_fuel}
use sagittarius.Codec.Reader.{Bytes}
use sagittarius.Blocklist.Parse.{Text}
use sagittarius.Blocklist.Aggregate.{Aggregator, add_source}
use sagittarius.Blocklist.Fetch.{Validators, Fetcher, Response, modified, not_modified, fetch}
use sagittarius.Storage.Sqlite.{CachedContent, Db, Tables}
use sagittarius.Storage.Blocklists.{
  Blocklist, cache_row, has_id, load_cache, save_cache, update_refresh_metadata,
}
use sagittarius.Storage.Blocklists.Ends.{cached_in, refreshed_in, cache_row-upsert_cache}
use sagittarius.Storage.Blocklists.Rows.{
  without_faults, load_cache-without_faults, save_cache-without_faults,
  update_refresh_metadata-without_faults, SameRows, SameRows-refl, update_row-SameRows,
}
use sagittarius.Blocklist.Scheduler.{
  SourceRefresh, contributed, Work, decode, decode_and_add, add_cached_source, handle_modified,
  handle_not_modified, handle_fetch_error, handle_fetched, refresh_source, metadata_of,
}

==_refl : (n : ℕ) → (n == n) ≡ true
==_refl n = ground arith

module _ (lossy : Bytes → Text) where
  -- The cache holds the body of the names that the source contributed.
  abbrev pub Holds : Blocklist → Tables → Aggregator → Aggregator → Type 0
  Holds source t agg agg' =
      (c : CachedContent) × (cache_row source.id t.blocklist_cache ≡ some c)
      × (agg' ≡ add_source source.id (decode lossy source.format c.content) agg)

module _ (lossy : Bytes → Text) {N : Type 0} where
  pub record IsStored (source : Blocklist) (t : Tables) (agg : Aggregator)
      (r : SourceRefresh × Work N) : Type 0 where
    pub tables : Tables
    pub db : r.1.db ≡ without_faults tables
    pub rows : SameRows t.blocklists tables.blocklists
    pub others :
        (key : ℕ)
        → (source.id == key) ≡ false
        → cache_row key tables.blocklist_cache ≡ cache_row key t.blocklist_cache
    pub holds : r.0 ≡ contributed → Holds lossy source tables agg r.1.aggregator

  cached-IsStored :
      (source : Blocklist) (t : Tables) (w : Work N)
      → w.db ≡ without_faults t
      → IsStored source t w.aggregator (add_cached_source lossy source w)
  unfolding add_cached_source decode_and_add
  cached-IsStored source t w clean =
      let loaded = ap (load_cache source.id) clean ∙ load_cache-without_faults source.id t in
      let row : (load_cache source.id w.db).0 ≡ ok (cache_row source.id t.blocklist_cache) =
        ap (λ p. p.0) loaded in
      let db : (load_cache source.id w.db).1 ≡ without_faults t = ap (λ p. p.1) loaded in
      elim (Option-cases (cache_row source.id t.blocklist_cache)) [
        | inl gone ↦
            rw (row, add_cached_source, gone)
              (record {
                tables = t;
                db = db;
                rows = SameRows-refl t.blocklists;
                others = λ key _. refl;
                holds = λ h. absurd (cc h);
              })
        | inr (c, there) ↦
            rw (row, add_cached_source, there)
              (record {
                tables = t;
                db = db;
                rows = SameRows-refl t.blocklists;
                others = λ key _. refl;
                holds = λ _. (c, there, refl);
              })
      ]

  module _ (now : N → ℕ) where
    not_modified-IsStored :
        (source : Blocklist) (t : Tables) (w : Work N)
        → w.db ≡ without_faults t
        → IsStored source t w.aggregator (handle_not_modified lossy now source w)
    unfolding handle_not_modified
    not_modified-IsStored source t w clean =
        let i = cached-IsStored source t w clean in
        record { tables = i.tables; db = i.db; rows = i.rows; others = i.others; holds = i.holds }

    modified-IsStored :
        (source : Blocklist) (body : Bytes) (validators : Validators) (t : Tables) (w : Work N)
        → w.db ≡ without_faults t
        → has_id source.id t.blocklists ≡ true
        → IsStored source t w.aggregator (handle_modified lossy now source body validators w)
    unfolding handle_modified
    modified-IsStored source body validators t w clean known =
        elim (Bool-cases (length (decode lossy source.format body) == 0)) [
          | inl none_there ↦ rw none_there (cached-IsStored source t _ clean)
          | inr some_there ↦
              let meta =
                metadata_of (length (decode lossy source.format body)) (now w.net) validators in
              let t' = cached_in (now w.net) source.id body t in
              let row =
                cache_row-upsert_cache source.id source.id
                  (record { content = body; fetched_at = now w.net }) t.blocklist_cache in
              rw some_there (record {
                tables = refreshed_in source.id meta t';
                db =
                    ap
                      (λ (db : Db).
                        (update_refresh_metadata source.id meta
                          (save_cache (now w.net) source.id body db).1).1)
                      clean
                    ∙ (ap (λ (db : Db). (update_refresh_metadata source.id meta db).1)
                          (save_cache-without_faults (now w.net) source.id body t known)
                        ∙ update_refresh_metadata-without_faults source.id meta t');
                rows = update_row-SameRows source.id meta t.blocklists;
                others =
                    λ key d. cache_row-upsert_cache source.id key _ t.blocklist_cache ∙ rw d refl;
                holds = λ _. (
                  record { content = body; fetched_at = now w.net },
                  row ∙ rw (==_refl source.id) refl,
                  refl,
                );
              })
        ]

    pub refresh_source-IsStored :
        (send : Text → Validators → N → Result (ℕ × Bool) Response × N) (fetcher : Fetcher)
        (source : Blocklist) (t : Tables) (w : Work N)
        → w.db ≡ without_faults t
        → has_id source.id t.blocklists ≡ true
        → IsStored source t w.aggregator (refresh_source lossy now send fetcher source w)
    unfolding refresh_source handle_fetch_error
    refresh_source-IsStored send fetcher source t w clean known =
        let fetched =
          fetch send fetcher source.url
            (record { etag = source.etag; last_modified = source.last_modified }) w.net in
        elim fetched.0
          as (λ x.
            IsStored source t w.aggregator
              (handle_fetched lossy now source x (record w { net = fetched.1 }))) [
                | ok (modified body validators) ↦
                    modified-IsStored source body validators t _ clean known
                | ok not_modified ↦ not_modified-IsStored source t _ clean
                | err x ↦ cached-IsStored source t _ clean
                | out_of_fuel ↦ cached-IsStored source t _ clean
              ]
