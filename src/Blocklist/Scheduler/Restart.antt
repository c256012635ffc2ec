-- ===== src/Blocklist/Scheduler/Restart.antt =====
-- A restart without a network, src/blocklist/scheduler.rs: the offline cache gives the live set again.
use sagittarius.Prelude.{
  ℕ, ◌≡◌, refl, sym, ap, ap₂, ◌∙◌, subst, Bool, true, false, ◌&&◌, some, List, [], ◌∷◌, arith, ◌==◌,
  All,
}
use sagittarius.Codec.Error.{Result, ok}
use sagittarius.Codec.Reader.{Bytes}
use sagittarius.Blocklist.Parse.{Text}
use sagittarius.Blocklist.Aggregate.{Aggregator, add_source}
use sagittarius.Blocklist.Fetch.{Validators, Fetcher, Response}
use sagittarius.Storage.Sqlite.{CachedContent, Db, Tables}
use sagittarius.Storage.Blocklists.{Blocklist, cache_row, has_id, load_cache}
use sagittarius.Storage.Blocklists.Listed.{IsNew, AreDistinct}
use sagittarius.Storage.Blocklists.Rows.{
  without_faults, load_cache-without_faults, SameRows, SameRows-refl, SameRows-trans, SameSources,
  has_id-SameRows,
}
use sagittarius.Blocklist.Scheduler.{
  SourceRefresh, contributed, incomplete, Work, is_contributed, decode, decode_and_add,
  refresh_source, refresh_sources, load_sources,
}
use sagittarius.Blocklist.Scheduler.Stored.{refresh_source-IsStored}

and-eq-true : (a b : Bool) → (a && b) ≡ true → (a ≡ true) × (b ≡ true)
and-eq-true true true h = (refl, refl)
and-eq-true true false h = cc
and-eq-true false b h = cc

is_contributed-true : (x : SourceRefresh) → is_contributed x ≡ true → x ≡ contributed
is_contributed-true contributed h = refl
is_contributed-true incomplete h = cc

abbrev pub AreKnown : List Blocklist → Tables → Type 0
AreKnown sources t = All (λ (s : Blocklist). has_id s.id t.blocklists ≡ true) sources

module _ (lossy : Bytes → Text) where
  -- The cached bodies of the sources lead from one aggregation to another.
  pub data Leads (t : Tables) : List Blocklist → Aggregator → Aggregator → Type 0 where
    no_more : {agg agg' : Aggregator} → agg' ≡ agg → Leads t [] agg agg'
    one_more :
        {source : Blocklist} {sources : List Blocklist} {agg : Aggregator} {agg' : Aggregator}
        (c : CachedContent)
        → cache_row source.id t.blocklist_cache ≡ some c
        → Leads t sources (add_source source.id (decode lossy source.format c.content) agg) agg'
        → Leads t (source ∷ sources) agg agg'

  pub load_sources-Leads :
      (t : Tables) (sources' : List Blocklist) {sources : List Blocklist} {agg agg' : Aggregator}
      → Leads t sources agg agg'
      → SameSources sources sources'
      → (load_sources lossy sources' agg (without_faults t)).0 ≡ agg'
  unfolding load_sources decode_and_add
  load_sources-Leads t [] (no_more e) same = sym e
  load_sources-Leads t (s' ∷ ss') (no_more e) same = absurd same
  load_sources-Leads t [] (one_more c there rest) same = absurd same
  load_sources-Leads t (s' ∷ ss') {agg} {agg'} (one_more {source} {sources} c there rest) same =
      let loaded = load_cache-without_faults s'.id t in
      let row : (load_cache s'.id (without_faults t)).0 ≡ ok (some c) =
        ap (λ p. p.0) loaded
        ∙ ap ok (ap (λ (n : ℕ). cache_row n t.blocklist_cache) (sym same.0.0) ∙ there) in
      let db : (load_cache s'.id (without_faults t)).1 ≡ without_faults t = ap (λ p. p.1) loaded in
      let step : add_source source.id (decode lossy source.format c.content) agg
          ≡ add_source s'.id (decode lossy s'.format c.content) agg =
        ap₂ (λ n f. add_source n (decode lossy f c.content) agg) same.0.0 same.0.1 in
      rw (row, load_sources)
        (ap (λ (d : Db). (load_sources lossy ss' (decode_and_add lossy s' c.content agg) d).0) db
          ∙ load_sources-Leads t ss' {sources = sources}
              (subst (λ a. Leads t sources a agg') step rest) same.1)

  module _ {N : Type 0} (now : N → ℕ)
      (send : Text → Validators → N → Result (ℕ × Bool) Response × N) (fetcher : Fetcher) where
    -- The run of the loop, on a database without faults.
    pub record IsStoredRun (sources : List Blocklist) (t : Tables) (w : Work N) (r : Bool × Work N)
        : Type 0 where
      pub tables : Tables
      pub db : r.1.db ≡ without_faults tables
      pub rows : SameRows t.blocklists tables.blocklists
      pub others :
          (key : ℕ)
          → All (λ (s : Blocklist). (s.id == key) ≡ false) sources
          → cache_row key tables.blocklist_cache ≡ cache_row key t.blocklist_cache
      pub leads : r.0 ≡ true → Leads tables sources w.aggregator r.1.aggregator

    AreKnown-SameRows :
        (sources : List Blocklist) (t t' : Tables)
        → SameRows t.blocklists t'.blocklists
        → AreKnown sources t
        → AreKnown sources t'
    AreKnown-SameRows [] t t' same h = tt
    AreKnown-SameRows (s ∷ sources) t t' same h = (
      sym (has_id-SameRows s.id t.blocklists t'.blocklists same) ∙ h.0,
      AreKnown-SameRows sources t t' same h.1,
    )

    not_same : (a b : ℕ) → (a == b) ≡ false → (b == a) ≡ false
    not_same a b h = ground (arith, h)

    IsNew-others :
        (id : ℕ) (sources : List Blocklist)
        → IsNew id sources
        → All (λ (s : Blocklist). (s.id == id) ≡ false) sources
    IsNew-others id [] h = tt
    IsNew-others id (s ∷ sources) h = (not_same id s.id h.0, IsNew-others id sources h.1)

    complete_before :
        (sources : List Blocklist) (complete : Bool) (w : Work N)
        → (refresh_sources lossy now send fetcher sources complete w).0 ≡ true
        → complete ≡ true
    unfolding refresh_sources
    complete_before [] complete w h = h
    complete_before (source ∷ sources) complete w h =
        let r = refresh_source lossy now send fetcher source w in
        (and-eq-true complete (is_contributed r.0)
          (complete_before sources (complete && is_contributed r.0) r.1 h)).0

    pub refresh_sources-IsStoredRun :
        (sources : List Blocklist) (complete : Bool) (t : Tables) (w : Work N)
        → w.db ≡ without_faults t
        → AreDistinct sources
        → AreKnown sources t
        → IsStoredRun sources t w (refresh_sources lossy now send fetcher sources complete w)
    unfolding refresh_sources
    refresh_sources-IsStoredRun [] complete t w clean d known = record {
      tables = t;
      db = clean;
      rows = SameRows-refl t.blocklists;
      others = λ key _. refl;
      leads = λ _. no_more refl;
    }
    refresh_sources-IsStoredRun (source ∷ sources) complete t w clean d known =
        let r = refresh_source lossy now send fetcher source w in
        let one = refresh_source-IsStored lossy now send fetcher source t w clean known.0 in
        let rest =
          refresh_sources-IsStoredRun sources (complete && is_contributed r.0) one.tables r.1 one.db
            d.1 (AreKnown-SameRows sources t one.tables one.rows known.1) in
        record {
          tables = rest.tables;
          db = rest.db;
          rows =
              SameRows-trans t.blocklists one.tables.blocklists rest.tables.blocklists one.rows
                rest.rows;
          others = λ key new. rest.others key new.1 ∙ one.others key new.0;
          leads = λ all.
              let before = complete_before sources (complete && is_contributed r.0) r.1 all in
              let (c, there, merged) =
                one.holds
                  (is_contributed-true r.0 (and-eq-true complete (is_contributed r.0) before).1) in
              one_more c (rest.others source.id (IsNew-others source.id sources d.0) ∙ there) (
                subst
                  (λ a.
                    Leads rest.tables sources a
                      (refresh_sources lossy now send fetcher sources
                        (complete && is_contributed r.0) r.1).1.aggregator)
                  merged (rest.leads all));
        }
