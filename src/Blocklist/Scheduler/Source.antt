-- ===== src/Blocklist/Scheduler/Source.antt =====
-- What one source does to a refresh cycle of src/blocklist/scheduler.rs.
use sagittarius.Prelude.{
  ℕ, ◌+◌, ◌≤◌, ◌≡◌, refl, sym, ap, ◌∙◌, subst, inl, inr, Bool, false, some, List, arith, ◌==◌,
  ==_iff, Bool-cases, length,
}
use sagittarius.Codec.Error.{Result, ok, err, out_of_fuel}
use sagittarius.Codec.Reader.{Bytes}
use sagittarius.Blocklist.Parse.{Text}
use sagittarius.Blocklist.Aggregate.{add_source}
use sagittarius.Blocklist.Fetch.{
  Validators, Fetcher, FetchOutcome, FetchError, Response, modified, not_modified, fetch,
}
use sagittarius.Storage.Sqlite.{CachedContent, Db, Tables}
use sagittarius.Storage.Sqlite.Ends.{Writes, writes, Faulty}
use sagittarius.Storage.Blocklists.{
  Blocklist, RefreshMetadata, cache_row, save_cache, update_refresh_metadata,
}
use sagittarius.Storage.Blocklists.Ends.{
  saved-Faulty, save_cache-Writes, update_refresh_metadata-Writes, cache_row-upsert_cache,
}
use sagittarius.Blocklist.Scheduler.Cached.{
  attempts, cache_of, Absent, FromCache, hit, miss, add_cached_source-IsCacheStep,
}
use sagittarius.Blocklist.Scheduler.{
  SourceRefresh, contributed, incomplete, RefreshSummary, Work, decode, add_cached_source,
  handle_modified, handle_not_modified, handle_fetched, refresh_source, count_failed,
  count_not_modified, count_incomplete,
}

module _ (lossy : Bytes → Text) {N : Type 0} where
  module _ (send : Text → Validators → N → Result (ℕ × Bool) Response × N) (fetcher : Fetcher) where
    abbrev pub validators_of : Blocklist → Validators
    validators_of source = record { etag = source.etag; last_modified = source.last_modified }

    -- The network behind the download of a source, and a download without a name.
    abbrev pub next_net : Blocklist → N → N
    next_net source net = (fetch send fetcher source.url (validators_of source) net).1

    abbrev pub GivesNothing : Blocklist → N → Type 0
    GivesNothing source net =
        (body : Bytes) (validators : Validators)
        → (fetch send fetcher source.url (validators_of source) net).0
          ≡ ok (modified body validators)
        → length (decode lossy source.format body) ≡ 0

    -- Where the names of a source come from: the body that is downloaded, if it holds a name, and the
    -- body that was in the cache, if not.
    pub data ComesFrom (source : Blocklist) (cache : List (ℕ × CachedContent)) (net : N)
        (names : List Bytes) : Type 0 where
      downloaded :
          (body : Bytes) (validators : Validators)
          → (fetch send fetcher source.url (validators_of source) net).0
            ≡ ok (modified body validators)
          → names ≡ decode lossy source.format body
          → 1 ≤ length names
          → ComesFrom source cache net names
      cached :
          (c : CachedContent)
          → GivesNothing source net
          → cache_row source.id cache ≡ some c
          → names ≡ decode lossy source.format c.content
          → ComesFrom source cache net names

    pub data Outcome (source : Blocklist) (w w' : Work N) : SourceRefresh → Type 0 where
      contributes :
          (names : List Bytes)
          → ComesFrom source (cache_of w) w.net names
          → w'.aggregator ≡ add_source source.id names w.aggregator
          → attempts w'.summary ≡ attempts w.summary + 1
          → Outcome source w w' contributed
      misses :
          GivesNothing source w.net
          → Absent source w.db
          → attempts w.summary + 1 ≤ attempts w'.summary
          → w.summary.failed + 1 ≤ w'.summary.failed
          → Outcome source w w' incomplete

    pub record IsSourceStep (source : Blocklist) (w : Work N) (r : SourceRefresh × Work N)
        : Type 0 where
      pub outcome : Outcome source w r.1 r.0
      pub others :
          (key : ℕ)
          → (source.id == key) ≡ false
          → cache_row key (cache_of r.1) ≡ cache_row key (cache_of w)
      pub no_less : w.summary.failed ≤ r.1.summary.failed
      pub moves : r.1.net ≡ next_net source w.net
      pub faults : Faulty r.1.db.faults → Faulty w.db.faults

    cached-Outcome :
        (source : Blocklist) (w w0 w' : Work N) (x : SourceRefresh) (s : RefreshSummary)
        → GivesNothing source w.net
        → FromCache lossy source w0 w' x
        → w0.db ≡ w.db
        → w0.aggregator ≡ w.aggregator
        → (x ≡ contributed → attempts s ≡ attempts w.summary + 1)
        → (x ≡ incomplete
            → (attempts w.summary + 1 ≤ attempts s) × (w.summary.failed + 1 ≤ s.failed))
        → Outcome source w (record w' { summary = s }) x
    cached-Outcome source w w0 w' contributed s nothing (hit c there e) same agg a b =
        contributes (decode lossy source.format c.content)
          (cached c nothing
            (ap (λ (d : Db). cache_row source.id d.tables.blocklist_cache) (sym same) ∙ there) refl)
          (e ∙ ap (add_source source.id (decode lossy source.format c.content)) agg) (a refl)
    cached-Outcome source w w0 w' incomplete s nothing (miss gone e) same agg a b =
        misses nothing (subst (Absent source) same gone) (b refl).0 (b refl).1

    -- A source whose cached body stands in for a failed download.
    failed-IsSourceStep :
        (source : Blocklist) (w : Work N)
        → GivesNothing source w.net
        → IsSourceStep source w (
            add_cached_source lossy source
              (record w { summary = count_failed w.summary; net = next_net source w.net }))
    failed-IsSourceStep source w nothing =
        let w0 : Work N = record w {
          summary = count_failed w.summary;
          net = next_net source w.net;
        } in
        let step = add_cached_source-IsCacheStep lossy source w0 in
        let r = add_cached_source lossy source w0 in
        record {
          outcome =
              subst (λ s. Outcome source w (record r.1 { summary = s }) r.0) (sym step.summary)
                (cached-Outcome source w w0 r.1 r.0 (count_failed w.summary) nothing step.from refl
                  refl (λ _. omega arith) (λ _. (omega arith, omega arith)));
          others = λ key _. ap (λ (t : Tables). cache_row key t.blocklist_cache) step.tables;
          no_less = omega (arith, ap (λ (s : RefreshSummary). s.failed) step.summary);
          moves = step.net;
          faults = step.faults;
        }

    count_incomplete-attempts :
        (x : SourceRefresh) (s : RefreshSummary)
        → (x ≡ contributed → attempts (count_incomplete x (count_not_modified s)) ≡ attempts s + 1)
          × (x ≡ incomplete
              → (attempts s + 1 ≤ attempts (count_incomplete x (count_not_modified s)))
                × (s.failed + 1 ≤ (count_incomplete x (count_not_modified s)).failed))
          × (s.failed ≤ (count_incomplete x (count_not_modified s)).failed)
    count_incomplete-attempts contributed s = (λ _. omega arith, λ h. cc, omega arith)
    count_incomplete-attempts incomplete s = (λ h. cc, λ _. (omega arith, omega arith), omega arith)

    not_modified-IsSourceStep :
        (now : N → ℕ) (source : Blocklist) (w : Work N)
        → GivesNothing source w.net
        → IsSourceStep source w
            (handle_not_modified lossy now source (record w { net = next_net source w.net }))
    unfolding handle_not_modified
    not_modified-IsSourceStep now source w nothing =
        let w0 : Work N = record w { net = next_net source w.net } in
        let step = add_cached_source-IsCacheStep lossy source w0 in
        let r = add_cached_source lossy source w0 in
        let counts = count_incomplete-attempts r.0 w.summary in
        let counted : RefreshSummary = count_incomplete r.0 (count_not_modified w.summary) in
        let summary : count_incomplete r.0 (count_not_modified r.1.summary) ≡ counted =
          ap (λ (s : RefreshSummary). count_incomplete r.0 (count_not_modified s)) step.summary in
        record {
          outcome =
              subst (λ s. Outcome source w (record r.1 { summary = s }) r.0) (sym summary)
                (cached-Outcome source w w0 r.1 r.0 counted nothing step.from refl refl counts.0
                  counts.1);
          others = λ key _. ap (λ (t : Tables). cache_row key t.blocklist_cache) step.tables;
          no_less = omega (arith, ap (λ (s : RefreshSummary). s.failed) summary, counts.2);
          moves = step.net;
          faults = step.faults;
        }

    -- The cache behind the two statements of a body that was downloaded.
    saved_cache :
        (now : N → ℕ) (source : Blocklist) (body : Bytes) (meta : RefreshMetadata) (db : Db)
        (seconds key : ℕ)
        → (source.id == key) ≡ false
        → cache_row key
            (update_refresh_metadata source.id meta
              (save_cache seconds source.id body db).1).1.tables.blocklist_cache
          ≡ cache_row key db.tables.blocklist_cache
    saved_cache now source body meta db seconds key d =
        let kept =
          elim (update_refresh_metadata-Writes source.id meta
              (save_cache seconds source.id body db).1)
            as (λ _.
              (update_refresh_metadata source.id meta
                (save_cache seconds source.id body db).1).1.tables.blocklist_cache
              ≡ (save_cache seconds source.id body db).1.tables.blocklist_cache) [
                | writes e same ↦ ap (λ (t : Tables). t.blocklist_cache) same
                | Writes.fails x e same ↦ ap (λ (t : Tables). t.blocklist_cache) same
              ] in
        ap (cache_row key) kept ∙ elim (save_cache-Writes seconds source.id body db) [
          | writes e same ↦
              ap (λ (t : Tables). cache_row key t.blocklist_cache) same
              ∙ (cache_row-upsert_cache source.id key _ db.tables.blocklist_cache ∙ rw d refl)
          | Writes.fails x e same ↦ ap (λ (t : Tables). cache_row key t.blocklist_cache) same
        ]

    modified-IsSourceStep :
        (now : N → ℕ) (source : Blocklist) (body : Bytes) (validators : Validators) (w : Work N)
        → (fetch send fetcher source.url (validators_of source) w.net).0
          ≡ ok (modified body validators)
        → IsSourceStep source w (
            handle_modified lossy now source body validators
              (record w { net = next_net source w.net }))
    unfolding handle_modified
    modified-IsSourceStep now source body validators w sent =
        elim (Bool-cases (length (decode lossy source.format body) == 0)) [
          | inl none_there ↦ rw none_there (
              failed-IsSourceStep source w (λ b v k.
                let same : body ≡ b = cc (sym sent ∙ k) in
                ap (λ (x : Bytes). length (decode lossy source.format x)) (sym same)
                ∙ (==_iff (length (decode lossy source.format body)) 0).0 none_there))
          | inr some_there ↦ rw some_there (record {
            outcome =
                contributes (decode lossy source.format body)
                  (downloaded body validators sent refl (ground (arith, some_there))) refl
                  (omega arith);
            others =
                λ key d. saved_cache now source body _ w.db (now (next_net source w.net)) key d;
            no_less = omega arith;
            moves = refl;
            faults = saved-Faulty (now (next_net source w.net)) source.id body _ w.db;
          })
        ]

    pub refresh_source-IsSourceStep :
        (now : N → ℕ) (source : Blocklist) (w : Work N)
        → IsSourceStep source w (refresh_source lossy now send fetcher source w)
    unfolding refresh_source
    refresh_source-IsSourceStep now source w =
        let fetched = fetch send fetcher source.url (validators_of source) w.net in
        let go : (x : Result FetchError FetchOutcome)
            → fetched.0 ≡ x
            → IsSourceStep source w
                (handle_fetched lossy now source x (record w { net = fetched.1 })) =
          λ x e.
            elim x
                as (λ x.
                  fetched.0 ≡ x
                  → IsSourceStep source w
                      (handle_fetched lossy now source x (record w { net = fetched.1 }))) [
                        | ok (modified body validators) ↦
                            λ e. modified-IsSourceStep now source body validators w e
                        | ok not_modified ↦
                            λ e. not_modified-IsSourceStep now source w (λ b v k. cc (sym e ∙ k))
                        | err x ↦ λ e. failed-IsSourceStep source w (λ b v k. cc (sym e ∙ k))
                        | out_of_fuel ↦ λ e. failed-IsSourceStep source w (λ b v k. cc (sym e ∙ k))
                      ]
              e in
        go fetched.0 refl
