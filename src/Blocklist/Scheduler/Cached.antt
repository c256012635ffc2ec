-- ===== src/Blocklist/Scheduler/Cached.antt =====
-- What the cached body of a source does to a refresh cycle of src/blocklist/scheduler.rs.
use sagittarius.Prelude.{ℕ, ◌+◌, ◌≡◌, refl, ◌⊎◌, inl, inr, none, some, List, Option-cases}
use sagittarius.Codec.Reader.{Bytes}
use sagittarius.Blocklist.Parse.{Text}
use sagittarius.Blocklist.Aggregate.{add_source}
use sagittarius.Storage.Sqlite.{CachedContent, Db}
use sagittarius.Storage.Sqlite.Ends.{Reads, answers, Faulty}
use sagittarius.Storage.Blocklists.{Blocklist, cache_row}
use sagittarius.Storage.Blocklists.Ends.{load_cache-Reads, load_cache-Faulty, load_cache_err-Faulty}
use sagittarius.Blocklist.Scheduler.{
  SourceRefresh, contributed, incomplete, RefreshSummary, Work, decode, decode_and_add,
  add_cached_source,
}

abbrev pub attempts : RefreshSummary → ℕ
attempts s = s.fetched + s.not_modified + s.failed

abbrev pub cache_of : {N : Type 0} → Work N → List (ℕ × CachedContent)
cache_of w = w.db.tables.blocklist_cache

-- No body of a source is cached, or the database reports a fault.
abbrev pub Absent : Blocklist → Db → Type 0
Absent source db = (cache_row source.id db.tables.blocklist_cache ≡ none) ⊎ Faulty db.faults

module _ (lossy : Bytes → Text) {N : Type 0} where
  -- What the cached body of a source does.
  pub data FromCache (source : Blocklist) (w w' : Work N) : SourceRefresh → Type 0 where
    hit :
        (c : CachedContent)
        → cache_row source.id (cache_of w) ≡ some c
        → w'.aggregator ≡ add_source source.id (decode lossy source.format c.content) w.aggregator
        → FromCache source w w' contributed
    miss : Absent source w.db → w'.aggregator ≡ w.aggregator → FromCache source w w' incomplete

  pub record IsCacheStep (source : Blocklist) (w : Work N) (r : SourceRefresh × Work N)
      : Type 0 where
    pub from : FromCache source w r.1 r.0
    pub tables : r.1.db.tables ≡ w.db.tables
    pub summary : r.1.summary ≡ w.summary
    pub net : r.1.net ≡ w.net
    pub faults : Faulty r.1.db.faults → Faulty w.db.faults

  pub add_cached_source-IsCacheStep :
      (source : Blocklist) (w : Work N) → IsCacheStep source w (add_cached_source lossy source w)
  unfolding add_cached_source decode_and_add
  add_cached_source-IsCacheStep source w = elim (load_cache-Reads source.id w.db) [
    | answers e same ↦ elim (Option-cases (cache_row source.id (cache_of w))) [
      | inl gone ↦
          rw (e, add_cached_source, gone)
            (record {
              from = miss (inl gone) refl;
              tables = same;
              summary = refl;
              net = refl;
              faults = load_cache-Faulty source.id w.db;
            })
      | inr (c, there) ↦
          rw (e, add_cached_source, there)
            (record {
              from = hit c there refl;
              tables = same;
              summary = refl;
              net = refl;
              faults = load_cache-Faulty source.id w.db;
            })
    ]
    | Reads.fails x e same ↦
        rw (e, add_cached_source)
          (record {
            from = miss (inr (load_cache_err-Faulty source.id w.db e)) refl;
            tables = same;
            summary = refl;
            net = refl;
            faults = load_cache-Faulty source.id w.db;
          })
  ]
