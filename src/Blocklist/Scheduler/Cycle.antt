-- ===== src/Blocklist/Scheduler/Cycle.antt =====
-- A refresh cycle of src/blocklist/scheduler.rs: a complete snapshot replaces the live set, and anything
-- less leaves it alone.
use sagittarius.Prelude.{ℕ, ◌≤◌, ◌≡◌, refl, subst, inl, inr, Bool, true, List, arith, length}
use sagittarius.Codec.Error.{Result, ok, err}
use sagittarius.Codec.Reader.{Bytes}
use sagittarius.Blocklist.Parse.{Text}
use sagittarius.Blocklist.Aggregate.{empty, from_sources, install}
use sagittarius.Blocklist.Fetch.{Response, Validators}
use sagittarius.Storage.Sqlite.{StorageError, Tables}
use sagittarius.Storage.Blocklists.{Blocklist, list_enabled}
use sagittarius.Storage.Blocklists.Ends.{list_enabled-Faulty}
use sagittarius.Storage.Blocklists.Listed.{
  AreKeyed, list_enabled-IsListed, list_enabled-AreDistinct, list_enabled-cases,
}
use sagittarius.Blocklist.Scheduler.{
  RefreshSummary, no_summary, Work, Scheduler, install_snapshot, refresh_sources, refresh_once,
}
use sagittarius.Blocklist.Scheduler.Snapshot.{
  AllCome, SomeLacks, SomeLacks-faults, whole, partial, refresh_sources-IsRun,
}
use sagittarius.Blocklist.Scheduler.Cached.{attempts}

module _ (lossy : Bytes → Text) {N : Type 0}
    (send : Text → Validators → N → Result (ℕ × Bool) Response × N) where
  -- What a refresh cycle does.
  pub data Refreshed {C : Type 0} (s : Scheduler C N)
      (r : Result StorageError RefreshSummary × Scheduler C N) : Type 0 where
    unlisted :
        (e : StorageError)
        → (list_enabled s.db).0 ≡ err e
        → r.0 ≡ err e
        → r.1.state ≡ s.state
        → Refreshed s r
    installed :
        (sources : List Blocklist) (cs : List (ℕ × List Bytes)) (summary : RefreshSummary)
        → (list_enabled s.db).0 ≡ ok sources
        → AllCome lossy send s.fetcher s.db.tables.blocklist_cache s.net sources cs
        → r.0 ≡ ok summary
        → r.1.state ≡ record s.state { blocklist = (from_sources cs).merged }
        → attempts summary ≡ length sources
        → summary.total_domains ≡ length (from_sources cs).merged
        → Refreshed s r
    kept :
        (sources : List Blocklist) (summary : RefreshSummary)
        → (list_enabled s.db).0 ≡ ok sources
        → SomeLacks lossy send s.fetcher s.db.tables.blocklist_cache s.db.faults s.net sources
        → r.0 ≡ ok summary
        → r.1.state ≡ s.state
        → length sources ≤ attempts summary
        → 1 ≤ summary.failed
        → summary.total_domains ≡ length s.state.blocklist
        → Refreshed s r

  module _ (now : N → ℕ) where
    -- A refresh cycle, whatever the network and the database do. If the sources cannot be listed, it
    -- fails with that error, and the resolver's state is as before. Otherwise it succeeds, and there are
    -- two cases. Either every enabled source contributed, in their order, and the live blocklist is the
    -- aggregation of exactly these contributions: the names of the body that the network returned to the
    -- request for the source, if it has a name, and of the body that was cached before the cycle, if the
    -- request gave no such body; each source is counted once, and the total is the size of the new set.
    -- Or for some source the request gave no body with a name, and no body of it was cached before the
    -- cycle or the database had a fault to report: then the resolver's state is as before, at least one
    -- failure is counted, and the total is the size of the old set. Nothing else of the resolver's state
    -- changes. The ids of the sources are distinct.
    pub refresh_once-Refreshed :
        {C : Type 0} (s : Scheduler C N)
        → AreKeyed s.db.tables.blocklists
        → Refreshed s (refresh_once lossy now send s)
    unfolding refresh_once install_snapshot install
    refresh_once-Refreshed s keyed = elim (list_enabled-cases s.db) [
      | inr (e, h) ↦ unlisted e h (rw (h, refresh_once) refl) (rw (h, refresh_once) refl)
      | inl (sources, h) ↦
          let start : Work N = record {
            aggregator = empty;
            summary = no_summary;
            db = (list_enabled s.db).1;
            net = s.net;
          } in
          let r = refresh_sources lossy now send s.fetcher sources true start in
          let same = (list_enabled-IsListed s.db).tables in
          let run =
            refresh_sources-IsRun lossy send s.fetcher now sources true start
              (list_enabled-AreDistinct s.db keyed h) in
          elim run.ran [
            | whole cs all complete merged count ↦
                installed sources cs
                  (record r.1.summary { total_domains = length (from_sources cs).merged }) h
                  (subst
                    (λ (t : Tables).
                      AllCome lossy send s.fetcher t.blocklist_cache s.net sources cs)
                    same all)
                  (rw (h, refresh_once, complete, merged) refl)
                  (rw (h, refresh_once, complete, merged) refl) (omega (arith, count)) refl
            | partial lacks complete more fails ↦
                kept sources (record r.1.summary { total_domains = length s.state.blocklist }) h
                  (subst
                    (λ (t : Tables).
                      SomeLacks lossy send s.fetcher t.blocklist_cache s.db.faults s.net sources)
                    same
                    (SomeLacks-faults lossy send s.fetcher
                      (list_enabled s.db).1.tables.blocklist_cache (list_enabled-Faulty s.db)
                      lacks))
                  (rw (h, refresh_once, complete) refl) (rw (h, refresh_once, complete) refl)
                  (omega (arith, more)) (omega (arith, fails)) refl
          ]
    ]
