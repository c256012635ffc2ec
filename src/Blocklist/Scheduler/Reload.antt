-- ===== src/Blocklist/Scheduler/Reload.antt =====
-- After a refresh cycle of src/blocklist/scheduler.rs the offline cache holds what is live.
use sagittarius.Prelude.{
  ℕ, ◌≤◌, ◌≡◌, refl, sym, ap, ◌∙◌, ◌⊎◌, inl, inr, Bool, true, false, ◌||◌, List, [], ◌∷◌, arith,
  ◌==◌, Bool-cases, All,
}
use sagittarius.Codec.Error.{Result, ok}
use sagittarius.Codec.Reader.{Bytes}
use sagittarius.Resolver.State.{ResolverState}
use sagittarius.Blocklist.Parse.{Text}
use sagittarius.Blocklist.Aggregate.{Aggregator, empty, install}
use sagittarius.Blocklist.Fetch.{Validators, Response}
use sagittarius.Storage.Sqlite.{BlocklistRow, Db, Tables}
use sagittarius.Storage.Blocklists.{
  Blocklist, has_id, list_enabled, enabled_rows, rows_to_blocklists,
}
use sagittarius.Storage.Blocklists.Listed.{
  AreKeyed, list_enabled-AreDistinct, rows_to_blocklists-cons, enabled_rows-All,
  blocklist_from_row-id, list_enabled-cases, list_enabled-IsListed,
}
use sagittarius.Storage.Blocklists.Rows.{
  without_faults, list_enabled-without_faults, SameSources, enabled_rows-SameRows,
  rows_to_blocklists-SameSources,
}
use sagittarius.Blocklist.Scheduler.{
  RefreshSummary, no_summary, Work, Scheduler, refresh_sources, refresh_once, install_snapshot,
  load_sources, load_from_cache,
}
use sagittarius.Blocklist.Scheduler.Snapshot.{whole, partial, refresh_sources-IsRun}
use sagittarius.Blocklist.Scheduler.Restart.{
  AreKnown, Leads, load_sources-Leads, refresh_sources-IsStoredRun,
}

abbrev Knows : List BlocklistRow → BlocklistRow → Type 0
Knows all row = has_id row.id all ≡ true

or-true : (b : Bool) → (b || true) ≡ true
or-true true = refl
or-true false = refl

has_id-cons :
    (row : BlocklistRow) (all rows : List BlocklistRow)
    → All (Knows all) rows
    → All (Knows (row ∷ all)) rows
unfolding has_id
has_id-cons row all [] h = tt
has_id-cons row all (x ∷ rows) h = (
  ap (λ (b : Bool). row.id == x.id || b) h.0 ∙ or-true (row.id == x.id),
  has_id-cons row all rows h.1,
)

has_id_self : (rows : List BlocklistRow) → All (Knows rows) rows
unfolding has_id
has_id_self [] = tt
has_id_self (row ∷ rows) =
    let same : (row.id == row.id) ≡ true = ground arith in
    (ap (λ (b : Bool). b || has_id row.id rows) same, has_id-cons row rows rows (has_id_self rows))

rows_to_blocklists-AreKnown :
    (t : Tables) (rows : List BlocklistRow) {sources : List Blocklist}
    → rows_to_blocklists rows ≡ ok sources
    → All (Knows t.blocklists) rows
    → AreKnown sources t
rows_to_blocklists-AreKnown t [] {sources} h k =
    let e : sources ≡ [] = (unfold rows_to_blocklists in cc h) in rw e tt
rows_to_blocklists-AreKnown t (row ∷ rows) {sources} h k =
    let (s, rest, f, g, e) = rows_to_blocklists-cons row rows h in
    rw e (
      ap (λ (n : ℕ). has_id n t.blocklists) (blocklist_from_row-id row f) ∙ k.0,
      rows_to_blocklists-AreKnown t rows g k.1,
    )

module _ (lossy : Bytes → Text) {N : Type 0} (now : N → ℕ)
    (send : Text → Validators → N → Result (ℕ × Bool) Response × N) {C : Type 0} where
  load_from_cache-Leads :
      (s : Scheduler C N) (t : Tables) {sources sources' : List Blocklist} {agg : Aggregator}
      → s.db ≡ without_faults t
      → (list_enabled s.db).0 ≡ ok sources'
      → SameSources sources sources'
      → Leads lossy t sources empty agg
      → (load_from_cache lossy s).state ≡ record s.state { blocklist = agg.merged }
  unfolding load_from_cache install
  load_from_cache-Leads s t {sources'} {agg} clean listed same leads =
      let db : (list_enabled s.db).1 ≡ without_faults t =
        ap (λ (d : Db). (list_enabled d).1) clean ∙ ap (λ p. p.1) (list_enabled-without_faults t) in
      rw (listed, load_from_cache)
        (ap
            (λ (d : Db). record s.state {
              blocklist = (load_sources lossy sources' empty d).0.merged;
            })
            db
          ∙ ap (λ (a : Aggregator). record s.state { blocklist = a.merged })
              (load_sources-Leads lossy t sources' leads same))

  -- On a database without faults, a refresh cycle that succeeds and after which the sources can still be
  -- listed either installs nothing and counts a failure, or leaves an offline cache from which
  -- `load_from_cache`, from any state of the resolver and without the network, installs the very
  -- blocklist that the cycle made live, and changes nothing else of the state. The ids of the sources are
  -- distinct.
  pub refresh_once-load_from_cache :
      (s : Scheduler C N) (st : ResolverState C) {summary : RefreshSummary}
      {sources' : List Blocklist}
      → AreKeyed s.db.tables.blocklists
      → s.db.faults ≡ []
      → (refresh_once lossy now send s).0 ≡ ok summary
      → (list_enabled (refresh_once lossy now send s).1.db).0 ≡ ok sources'
      → (((refresh_once lossy now send s).1.state ≡ s.state) × (1 ≤ summary.failed))
        ⊎ ((load_from_cache lossy (record (refresh_once lossy now send s).1 { state = st })).state
            ≡ record st { blocklist = (refresh_once lossy now send s).1.state.blocklist })
  unfolding refresh_once install_snapshot install
  refresh_once-load_from_cache s st {summary} {sources'} keyed no_faults done listed =
      elim (list_enabled-cases s.db) [
        | inr (e, h) ↦ absurd (cc (rw (h, refresh_once) at done))
        | inl (sources, h) ↦
            let t = s.db.tables in
            let clean : s.db ≡ without_faults t =
              ap (λ f. record { tables = t; faults = f }) no_faults in
            let start : Work N = record {
              aggregator = empty;
              summary = no_summary;
              db = (list_enabled s.db).1;
              net = s.net;
            } in
            let r = refresh_sources lossy now send s.fetcher sources true start in
            let distinct = list_enabled-AreDistinct s.db keyed h in
            let decoded = (list_enabled-IsListed s.db).decoded sources h in
            let known =
              rows_to_blocklists-AreKnown t (enabled_rows t.blocklists) decoded
                (enabled_rows-All (Knows t.blocklists) t.blocklists (has_id_self t.blocklists)) in
            let db : (list_enabled s.db).1 ≡ without_faults t =
              ap (λ (d : Db). (list_enabled d).1) clean
              ∙ ap (λ p. p.1) (list_enabled-without_faults t) in
            let stored =
              refresh_sources-IsStoredRun lossy now send s.fetcher sources true t start db distinct
                known in
            let after : (refresh_once lossy now send s).1.db ≡ without_faults stored.tables =
              rw (h, refresh_once) stored.db in
            let decoded' =
              (list_enabled-IsListed (without_faults stored.tables)).decoded sources'
                (ap (λ (d : Db). (list_enabled d).0) (sym after) ∙ listed) in
            let same =
              rows_to_blocklists-SameSources _ _ (enabled_rows-SameRows _ _ stored.rows) decoded
                decoded' in
            elim (Bool-cases r.0) [
              | inl complete ↦
                  let live : (refresh_once lossy now send s).1.state.blocklist
                      ≡ r.1.aggregator.merged =
                    rw (h, refresh_once, complete) refl in
                  inr (
                    load_from_cache-Leads (record (refresh_once lossy now send s).1 { state = st })
                      stored.tables after listed same (stored.leads complete)
                    ∙ ap (λ b. record st { blocklist = b }) (sym live))
              | inr complete ↦
                  let fails =
                    elim (refresh_sources-IsRun lossy send s.fetcher now sources true start
                        distinct).ran
                      as (λ _. 1 ≤ r.1.summary.failed) [
                        | whole cs all same merged count ↦ absurd (cc (sym complete ∙ same))
                        | partial lacks same more fails ↦ omega (arith, fails)
                      ] in
                  let counted : summary.failed ≡ r.1.summary.failed =
                    cc (rw (h, refresh_once) at done) in
                  inl (rw (h, refresh_once, complete) refl, omega (arith, counted, fails))
            ]
      ]
