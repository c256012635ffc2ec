-- ===== src/Blocklist/Scheduler/Keys.antt =====
-- The rows of the table of sources over a refresh cycle, src/blocklist/scheduler.rs: ids, formats and the
-- enabled flags stay.
use sagittarius.Prelude.{
  ℕ, ◌≡◌, sym, ap₂, ◌∙◌, subst, inl, inr, Bool, true, false, ◌&&◌, List, [], ◌∷◌, ◌==◌, Bool-cases,
  length, All,
}
use sagittarius.Codec.Error.{Result, ok, err, out_of_fuel}
use sagittarius.Codec.Reader.{Bytes}
use sagittarius.Blocklist.Parse.{Text}
use sagittarius.Blocklist.Aggregate.{empty}
use sagittarius.Blocklist.Fetch.{
  Validators, Fetcher, FetchOutcome, FetchError, Response, modified, not_modified, fetch,
}
use sagittarius.Storage.Sqlite.{BlocklistRow, Tables, Db}
use sagittarius.Storage.Sqlite.Ends.{Writes, writes}
use sagittarius.Storage.Blocklists.{
  Blocklist, RefreshMetadata, save_cache, update_refresh_metadata, list_enabled,
}
use sagittarius.Storage.Blocklists.Ends.{save_cache-Writes, update_refresh_metadata-Writes}
use sagittarius.Storage.Blocklists.Listed.{AreKeyed, list_enabled-IsListed, list_enabled-cases}
use sagittarius.Storage.Blocklists.Rows.{
  SameRows, SameRows-refl, SameRows-trans, update_row-SameRows,
}
use sagittarius.Blocklist.Scheduler.{
  no_summary, Work, Scheduler, decode, is_contributed, count_failed, handle_modified,
  handle_not_modified, handle_fetch_error, handle_fetched, refresh_source, refresh_sources,
  refresh_once,
}
use sagittarius.Blocklist.Scheduler.Cached.{add_cached_source-IsCacheStep}

ids-All :
    {id id' : ℕ} (xs ys : List BlocklistRow)
    → id ≡ id'
    → SameRows xs ys
    → All (λ (r : BlocklistRow). (id == r.id) ≡ false) xs
    → All (λ (r : BlocklistRow). (id' == r.id) ≡ false) ys
ids-All [] [] e h k = tt
ids-All [] (y ∷ ys) e h k = absurd h
ids-All (x ∷ xs) [] e h k = absurd h
ids-All (x ∷ xs) (y ∷ ys) e h k =
    (sym (ap₂ (λ (m n : ℕ). m == n) e h.0.0) ∙ k.0, ids-All xs ys e h.1 k.1)

pub AreKeyed-SameRows : (xs ys : List BlocklistRow) → SameRows xs ys → AreKeyed xs → AreKeyed ys
AreKeyed-SameRows [] [] h k = tt
AreKeyed-SameRows [] (y ∷ ys) h k = absurd h
AreKeyed-SameRows (x ∷ xs) [] h k = absurd h
AreKeyed-SameRows (x ∷ xs) (y ∷ ys) h k =
    (ids-All xs ys h.0.0 h.1 k.0, AreKeyed-SameRows xs ys h.1 k.1)

-- The tables t' have the sources of t.
abbrev Keeps : Tables → Tables → Type 0
Keeps t t' = SameRows t.blocklists t'.blocklists

same-Keeps : {t t' : Tables} → t' ≡ t → Keeps t t'
same-Keeps {t} e = subst (Keeps t) (sym e) (SameRows-refl t.blocklists)

written-Keeps :
    (seconds id : ℕ) (body : Bytes) (meta : RefreshMetadata) (db : Db)
    → Keeps db.tables (update_refresh_metadata id meta (save_cache seconds id body db).1).1.tables
written-Keeps seconds id body meta db =
    let db' = (save_cache seconds id body db).1 in
    let first : Keeps db.tables db'.tables = elim (save_cache-Writes seconds id body db) [
      | writes e same ↦ subst (Keeps db.tables) (sym same) (SameRows-refl db.tables.blocklists)
      | Writes.fails x e same ↦ same-Keeps same
    ] in
    let second : Keeps db'.tables (update_refresh_metadata id meta db').1.tables =
      elim (update_refresh_metadata-Writes id meta db') [
        | writes e same ↦
            subst (Keeps db'.tables) (sym same) (update_row-SameRows id meta db'.tables.blocklists)
        | Writes.fails x e same ↦ same-Keeps same
      ] in
    SameRows-trans _ _ _ first second

module _ (lossy : Bytes → Text) {N : Type 0} (now : N → ℕ) where
  modified-Keeps :
      (source : Blocklist) (body : Bytes) (validators : Validators) (w : Work N)
      → Keeps w.db.tables (handle_modified lossy now source body validators w).1.db.tables
  unfolding handle_modified
  modified-Keeps source body validators w =
      elim (Bool-cases (length (decode lossy source.format body) == 0)) [
        | inl e ↦ rw e (
            same-Keeps
              (add_cached_source-IsCacheStep lossy source
                (record w { summary = count_failed w.summary })).tables)
        | inr e ↦ rw e (written-Keeps (now w.net) source.id body _ w.db)
      ]

  fetched-Keeps :
      (source : Blocklist) (fetched : Result FetchError FetchOutcome) (w : Work N)
      → Keeps w.db.tables (handle_fetched lossy now source fetched w).1.db.tables
  unfolding handle_not_modified handle_fetch_error
  fetched-Keeps source (ok (modified body validators)) w = modified-Keeps source body validators w
  fetched-Keeps source (ok not_modified) w =
      same-Keeps (add_cached_source-IsCacheStep lossy source w).tables
  fetched-Keeps source (err e) w =
      same-Keeps
        (add_cached_source-IsCacheStep lossy source
          (record w { summary = count_failed w.summary })).tables
  fetched-Keeps source out_of_fuel w =
      same-Keeps
        (add_cached_source-IsCacheStep lossy source
          (record w { summary = count_failed w.summary })).tables

  module _ (send : Text → Validators → N → Result (ℕ × Bool) Response × N) where
    sources-Keeps :
        (fetcher : Fetcher) (sources : List Blocklist) (complete : Bool) (w : Work N)
        → Keeps w.db.tables (refresh_sources lossy now send fetcher sources complete w).1.db.tables
    unfolding refresh_sources refresh_source
    sources-Keeps fetcher [] complete w = SameRows-refl w.db.tables.blocklists
    sources-Keeps fetcher (source ∷ sources) complete w =
        let r = refresh_source lossy now send fetcher source w in
        let fetched =
          fetch send fetcher source.url
            (record { etag = source.etag; last_modified = source.last_modified }) w.net in
        SameRows-trans _ _ _ (fetched-Keeps source fetched.0 (record w { net = fetched.1 }))
          (sources-Keeps fetcher sources (complete && is_contributed r.0) r.1)

    pub refresh_once-SameRows :
        {C : Type 0} (s : Scheduler C N)
        → SameRows s.db.tables.blocklists (refresh_once lossy now send s).1.db.tables.blocklists
    unfolding refresh_once
    refresh_once-SameRows s =
        let listed : Keeps s.db.tables (list_enabled s.db).1.tables =
          same-Keeps (list_enabled-IsListed s.db).tables in
        elim (list_enabled-cases s.db) [
          | inl (sources, e) ↦
              let start : Work N = record {
                aggregator = empty;
                summary = no_summary;
                db = (list_enabled s.db).1;
                net = s.net;
              } in
              rw (e, refresh_once)
                (SameRows-trans _ _ _ listed (sources-Keeps s.fetcher sources true start))
          | inr (x, e) ↦ rw (e, refresh_once) listed
        ]
