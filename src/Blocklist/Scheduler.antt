-- ===== src/Blocklist/Scheduler.antt =====
-- The refresh cycle of src/blocklist/scheduler.rs. `send` is the request of reqwest, `now` the clock, and
-- `lossy` is `String::from_utf8_lossy`.

pub mod Cached
pub mod Source
pub mod Snapshot
pub mod Cycle
pub mod Stored
pub mod Restart
pub mod Reload
pub mod Keys
pub mod Run
use sagittarius.Prelude.{
  ℕ, ◌+◌, Bool, true, false, ◌&&◌, none, some, List, [], ◌∷◌, ◌==◌, if◌then◌else◌, length,
}
use sagittarius.Codec.Error.{Result, ok, err, out_of_fuel}
use sagittarius.Codec.Reader.{Bytes}
use sagittarius.Resolver.State.{ResolverState}
use sagittarius.Blocklist.Parse.{Text, BlocklistFormat, parse}
use sagittarius.Blocklist.Aggregate.{Aggregator, empty, add_source, install}
use sagittarius.Blocklist.Fetch.{
  Validators, Fetcher, FetchOutcome, FetchError, Response, modified, not_modified, fetch,
}
use sagittarius.Storage.Sqlite.{StorageError, CachedContent, Db}
use sagittarius.Storage.Blocklists.{
  Blocklist, RefreshMetadata, list_enabled, update_refresh_metadata, save_cache, load_cache,
}

pub data SourceRefresh : Type 0 where
  contributed incomplete : SourceRefresh

pub record RefreshSummary : Type 0 where
  pub fetched : ℕ
  pub not_modified : ℕ
  pub failed : ℕ
  pub total_domains : ℕ

-- `RefreshSummary::default`
abbrev pub no_summary : RefreshSummary
no_summary = record { fetched = 0; not_modified = 0; failed = 0; total_domains = 0 }

-- What the handlers of a source change; `N` is the state of the network.
pub record Work (N : Type 0) : Type 0 where
  pub aggregator : Aggregator
  pub summary : RefreshSummary
  pub db : Db
  pub net : N

abbrev pub count_fetched : RefreshSummary → RefreshSummary
count_fetched s = record s { fetched = s.fetched + 1 }

abbrev pub count_not_modified : RefreshSummary → RefreshSummary
count_not_modified s = record s { not_modified = s.not_modified + 1 }

abbrev pub count_failed : RefreshSummary → RefreshSummary
count_failed s = record s { failed = s.failed + 1 }

-- `BlocklistScheduler`, with the resolver's state and the network.
pub record Scheduler (C N : Type 0) : Type 0 where
  pub db : Db
  pub state : ResolverState C
  pub fetcher : Fetcher
  pub net : N

abbrev pub is_contributed : SourceRefresh → Bool
is_contributed contributed = true
is_contributed incomplete = false

-- The end of `refresh_once`.
unfoldable pub install_snapshot :
    {C N : Type 0} → ResolverState C → Bool × Work N → RefreshSummary × ResolverState C
install_snapshot st (complete_snapshot, w) =
    let st' = if complete_snapshot then (install w.aggregator st).1 else st in
    (record w.summary { total_domains = length st'.blocklist }, st')

-- The metadata of a body, in `handle_modified`.
abbrev pub metadata_of : ℕ → ℕ → Validators → RefreshMetadata
metadata_of entry_count seconds validators = record {
  entry_count = entry_count;
  last_updated = seconds;
  etag = validators.etag;
  last_modified = validators.last_modified;
}

abbrev pub count_incomplete : SourceRefresh → RefreshSummary → RefreshSummary
count_incomplete contributed s = s
count_incomplete incomplete s = count_failed s

module _ (lossy : Bytes → Text) where
  abbrev pub decode : BlocklistFormat → Bytes → List Bytes
  decode format content = parse format (lossy content)

  -- `BlocklistScheduler::decode_and_add`
  unfoldable pub decode_and_add : Blocklist → Bytes → Aggregator → Aggregator
  decode_and_add source content agg = add_source source.id (decode source.format content) agg

  -- `BlocklistScheduler::add_cached_source`
  unfoldable pub add_cached_source : {N : Type 0} → Blocklist → Work N → SourceRefresh × Work N
  unfolding decode_and_add
  add_cached_source source w =
      let (cached, db') = load_cache source.id w.db in
      elim cached [
        | ok (some c) ↦ (
          contributed,
          record w { aggregator = decode_and_add source c.content w.aggregator; db = db' },
        )
        | ok none ↦ (incomplete, record w { db = db' })
        | err e ↦ (incomplete, record w { db = db' })
        | out_of_fuel ↦ (incomplete, record w { db = db' })
      ]

  module _ {N : Type 0} (now : N → ℕ) where
    -- `BlocklistScheduler::handle_modified`; a failure to save the cache or the metadata is logged.
    unfoldable pub handle_modified :
        Blocklist → Bytes → Validators → Work N → SourceRefresh × Work N
    unfolding add_cached_source
    handle_modified source body validators w =
        let names : List Bytes = decode source.format body in
        if length names == 0
        then add_cached_source source (record w { summary = count_failed w.summary })
        else (let db' = (save_cache (now w.net) source.id body w.db).1 in
            let meta = metadata_of (length names) (now w.net) validators in
            let db'' = (update_refresh_metadata source.id meta db').1 in
            (
              contributed,
              record w {
                aggregator = add_source source.id names w.aggregator;
                db = db'';
                summary = count_fetched w.summary;
              },
            ))

    -- `BlocklistScheduler::handle_not_modified`
    unfoldable pub handle_not_modified : Blocklist → Work N → SourceRefresh × Work N
    unfolding add_cached_source
    handle_not_modified source w =
        let (result, w') = add_cached_source source w in
        (result, record w' { summary = count_incomplete result (count_not_modified w'.summary) })

    -- `BlocklistScheduler::handle_fetch_error`
    unfoldable pub handle_fetch_error : Blocklist → Work N → SourceRefresh × Work N
    unfolding add_cached_source
    handle_fetch_error source w =
        add_cached_source source (record w { summary = count_failed w.summary })

    abbrev pub handle_fetched :
        Blocklist → Result FetchError FetchOutcome → Work N → SourceRefresh × Work N
    handle_fetched source (ok (modified body validators)) w =
        handle_modified source body validators w
    handle_fetched source (ok not_modified) w = handle_not_modified source w
    handle_fetched source (err e) w = handle_fetch_error source w
    handle_fetched source out_of_fuel w = handle_fetch_error source w

    module _ (send : Text → Validators → N → Result (ℕ × Bool) Response × N)
        (fetcher : Fetcher) where
      -- `BlocklistScheduler::refresh_source`
      unfoldable pub refresh_source : Blocklist → Work N → SourceRefresh × Work N
      unfolding handle_modified handle_not_modified handle_fetch_error
      refresh_source source w =
          let validators : Validators = record {
            etag = source.etag;
            last_modified = source.last_modified;
          } in
          let (fetched, net') = fetch send fetcher source.url validators w.net in
          handle_fetched source fetched (record w { net = net' })

      -- The loop of `refresh_once`, with `complete_snapshot`.
      unfoldable pub refresh_sources : List Blocklist → Bool → Work N → Bool × Work N
      unfolding refresh_source
      refresh_sources [] complete_snapshot w = (complete_snapshot, w)
      refresh_sources (source ∷ sources) complete_snapshot w =
          let (result, w') = refresh_source source w in
          refresh_sources sources (complete_snapshot && is_contributed result) w'

    module _ (send : Text → Validators → N → Result (ℕ × Bool) Response × N) where
      -- `BlocklistScheduler::refresh_once`
      unfoldable pub refresh_once :
          {C : Type 0} → Scheduler C N → Result StorageError RefreshSummary × Scheduler C N
      unfolding refresh_sources install_snapshot
      refresh_once s =
          let (listed, db') = list_enabled s.db in
          elim listed [
            | ok sources ↦
                let start : Work N = record {
                  aggregator = empty;
                  summary = no_summary;
                  db = db';
                  net = s.net;
                } in
                let run = refresh_sources send s.fetcher sources true start in
                let (summary, st') = install_snapshot s.state run in
                (ok summary, record s { db = run.1.db; net = run.1.net; state = st' })
            | err e ↦ (err e, record s { db = db' })
            | out_of_fuel ↦ (out_of_fuel, record s { db = db' })
          ]

  -- The loop of `load_from_cache`.
  unfoldable pub load_sources : List Blocklist → Aggregator → Db → Aggregator × Db
  unfolding decode_and_add
  load_sources [] agg db = (agg, db)
  load_sources (source ∷ sources) agg db =
      let (cached, db') = load_cache source.id db in
      elim cached [
        | ok (some c) ↦ load_sources sources (decode_and_add source c.content agg) db'
        | ok none ↦ load_sources sources agg db'
        | err e ↦ load_sources sources agg db'
        | out_of_fuel ↦ load_sources sources agg db'
      ]

  -- `BlocklistScheduler::load_from_cache`
  unfoldable pub load_from_cache : {C N : Type 0} → Scheduler C N → Scheduler C N
  unfolding load_sources
  load_from_cache s =
      let (listed, db') = list_enabled s.db in
      elim listed [
        | ok sources ↦
            let (agg, db'') = load_sources sources empty db' in
            record s { db = db''; state = (install agg s.state).1 }
        | err e ↦ record s { db = db' }
        | out_of_fuel ↦ record s { db = db' }
      ]
