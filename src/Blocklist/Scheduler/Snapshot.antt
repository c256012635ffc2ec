-- ===== src/Blocklist/Scheduler/Snapshot.antt =====
-- The refresh cycle of src/blocklist/scheduler.rs: a complete snapshot replaces the live set, and
-- anything less leaves it alone.
use sagittarius.Prelude.{
  ℕ, ◌+◌, ◌≤◌, ◌≡◌, refl, sym, ap, ◌∙◌, subst, ◌⊎◌, inl, inr, Bool, true, false, ◌&&◌, Option, none,
  List, [], ◌∷◌, arith, ◌==◌, length,
}
use sagittarius.Codec.Error.{Result}
use sagittarius.Codec.Reader.{Bytes}
use sagittarius.Blocklist.Parse.{Text}
use sagittarius.Blocklist.Aggregate.{add_sources}
use sagittarius.Blocklist.Fetch.{Fetcher, Response, Validators}
use sagittarius.Storage.Sqlite.{SqlxError, CachedContent}
use sagittarius.Storage.Sqlite.Ends.{Faulty}
use sagittarius.Storage.Blocklists.{Blocklist, cache_row}
use sagittarius.Storage.Blocklists.Listed.{IsNew, AreDistinct}
use sagittarius.Blocklist.Scheduler.{
  SourceRefresh, contributed, incomplete, Work, is_contributed, refresh_source, refresh_sources,
}
use sagittarius.Blocklist.Scheduler.Cached.{attempts, cache_of}
use sagittarius.Blocklist.Scheduler.Source.{
  next_net, GivesNothing, ComesFrom, downloaded, cached, Outcome, contributes, misses,
  refresh_source-IsSourceStep,
}

and-true : (b : Bool) → (b && true) ≡ b
and-true true = refl
and-true false = refl

and-false : (b : Bool) → (b && false) ≡ false
and-false true = refl
and-false false = refl

module _ (lossy : Bytes → Text) {N : Type 0}
    (send : Text → Validators → N → Result (ℕ × Bool) Response × N) (fetcher : Fetcher) where
  -- The network behind the download of a source.
  abbrev behind : Blocklist → N → N
  behind = next_net lossy send fetcher

  -- One contribution for each source, in their order, each from the network that the one before left.
  pub data AllCome (cache : List (ℕ × CachedContent))
      : N → List Blocklist → List (ℕ × List Bytes) → Type 0 where
    no_more : {net : N} → AllCome cache net [] []
    one_more :
        {net : N} (source : Blocklist) (sources : List Blocklist) (id : ℕ) (names : List Bytes)
        (cs : List (ℕ × List Bytes))
        → id ≡ source.id
        → ComesFrom lossy send fetcher source cache net names
        → AllCome cache (behind source net) sources cs
        → AllCome cache net (source ∷ sources) ((id, names) ∷ cs)

  -- Some source contributes nothing: its download gives no name, and no body of it was cached, or the
  -- database reports a fault.
  pub data SomeLacks (cache : List (ℕ × CachedContent)) (faults : List (Option SqlxError))
      : N → List Blocklist → Type 0 where
    this_one :
        {net : N} (source : Blocklist) (sources : List Blocklist)
        → GivesNothing lossy send fetcher source net
        → (cache_row source.id cache ≡ none) ⊎ Faulty faults
        → SomeLacks cache faults net (source ∷ sources)
    other_one :
        {net : N} (source : Blocklist) (sources : List Blocklist)
        → SomeLacks cache faults (behind source net) sources
        → SomeLacks cache faults net (source ∷ sources)

  ComesFrom-row :
      (source : Blocklist) (cache cache' : List (ℕ × CachedContent)) (net : N) (names : List Bytes)
      → cache_row source.id cache' ≡ cache_row source.id cache
      → ComesFrom lossy send fetcher source cache' net names
      → ComesFrom lossy send fetcher source cache net names
  ComesFrom-row source cache cache' net names e (downloaded body validators sent d pos) =
      downloaded body validators sent d pos
  ComesFrom-row source cache cache' net names e (cached c nothing there d) =
      cached c nothing (sym e ∙ there) d

  AllCome-rows :
      (id : ℕ) (cache cache' : List (ℕ × CachedContent))
      → ((key : ℕ) → (id == key) ≡ false → cache_row key cache' ≡ cache_row key cache)
      → {net : N} {sources : List Blocklist} {cs : List (ℕ × List Bytes)}
      → AllCome cache' net sources cs
      → IsNew id sources
      → AllCome cache net sources cs
  AllCome-rows id cache cache' e no_more new = no_more
  AllCome-rows id cache cache' e (one_more source sources k names cs same come rest) new =
      one_more source sources k names cs same
        (ComesFrom-row source cache cache' _ names (e source.id new.0) come)
        (AllCome-rows id cache cache' e rest new.1)

  SomeLacks-rows :
      (id : ℕ) (cache cache' : List (ℕ × CachedContent)) {faults faults' : List (Option SqlxError)}
      → ((key : ℕ) → (id == key) ≡ false → cache_row key cache' ≡ cache_row key cache)
      → (Faulty faults' → Faulty faults)
      → {net : N} {sources : List Blocklist} → SomeLacks cache' faults' net sources
      → IsNew id sources
      → SomeLacks cache faults net sources
  SomeLacks-rows id cache cache' e f (this_one source sources nothing (inl gone)) new =
      this_one source sources nothing (inl (sym (e source.id new.0) ∙ gone))
  SomeLacks-rows id cache cache' e f (this_one source sources nothing (inr fault)) new =
      this_one source sources nothing (inr (f fault))
  SomeLacks-rows id cache cache' e f (other_one source sources rest) new =
      other_one source sources (SomeLacks-rows id cache cache' e f rest new.1)

  pub SomeLacks-faults :
      (cache : List (ℕ × CachedContent)) {faults faults' : List (Option SqlxError)}
      → (Faulty faults' → Faulty faults)
      → {net : N} {sources : List Blocklist} → SomeLacks cache faults' net sources
      → SomeLacks cache faults net sources
  SomeLacks-faults cache f (this_one source sources nothing (inl gone)) =
      this_one source sources nothing (inl gone)
  SomeLacks-faults cache f (this_one source sources nothing (inr fault)) =
      this_one source sources nothing (inr (f fault))
  SomeLacks-faults cache f (other_one source sources rest) =
      other_one source sources (SomeLacks-faults cache f rest)

  -- A run of the loop.
  pub data Ran (sources : List Blocklist) (complete : Bool) (w : Work N) (r : Bool × Work N)
      : Type 0 where
    whole :
        (cs : List (ℕ × List Bytes))
        → AllCome (cache_of w) w.net sources cs
        → r.0 ≡ complete
        → r.1.aggregator ≡ add_sources cs w.aggregator
        → attempts r.1.summary ≡ attempts w.summary + length sources
        → Ran sources complete w r
    partial :
        SomeLacks (cache_of w) w.db.faults w.net sources
        → r.0 ≡ false
        → attempts w.summary + length sources ≤ attempts r.1.summary
        → w.summary.failed + 1 ≤ r.1.summary.failed
        → Ran sources complete w r

  pub record IsRun (sources : List Blocklist) (complete : Bool) (w : Work N) (r : Bool × Work N)
      : Type 0 where
    pub ran : Ran sources complete w r
    pub no_less : w.summary.failed ≤ r.1.summary.failed
    pub tried : attempts w.summary + length sources ≤ attempts r.1.summary

  -- One source, and the run of the rest.
  next-Ran :
      (source : Blocklist) (sources : List Blocklist) (complete : Bool) (w w' : Work N)
      (x : SourceRefresh) (r : Bool × Work N)
      → Outcome lossy send fetcher source w w' x
      → ((key : ℕ)
          → (source.id == key) ≡ false
          → cache_row key (cache_of w') ≡ cache_row key (cache_of w))
      → w.summary.failed ≤ w'.summary.failed
      → w'.net ≡ behind source w.net
      → (Faulty w'.db.faults → Faulty w.db.faults)
      → IsNew source.id sources
      → IsRun sources (complete && is_contributed x) w' r
      → IsRun (source ∷ sources) complete w r
  unfolding add_sources
  next-Ran source sources complete w w' contributed r (contributes names come agg tried) others less
        moves faults new run =
      record {
        ran = elim run.ran [
          | whole cs all same merged count ↦
              whole ((source.id, names) ∷ cs)
                (one_more source sources source.id names cs refl come (
                  AllCome-rows source.id (cache_of w) (cache_of w') others
                    (subst (λ net. AllCome (cache_of w') net sources cs) moves all) new))
                (same ∙ and-true complete) (merged ∙ ap (add_sources cs) agg)
                (omega (arith, count, tried))
          | partial lacks same more fails ↦
              partial
                (other_one source sources (
                  SomeLacks-rows source.id (cache_of w) (cache_of w') others faults
                    (subst (λ net. SomeLacks (cache_of w') w'.db.faults net sources) moves lacks)
                    new))
                same (omega (arith, more, tried)) (omega (arith, fails, less))
        ];
        no_less = omega (arith, less, run.no_less);
        tried = omega (arith, tried, run.tried);
      }
  next-Ran source sources complete w w' incomplete r (misses nothing gone tried fails) others less
        moves faults new run =
      let stays = elim run.ran as (λ _. r.0 ≡ false) [
        | whole cs all same merged count ↦ same ∙ and-false complete
        | partial lacks same more fails' ↦ same
      ] in
      record {
        ran =
            partial (this_one source sources nothing gone) stays (omega (arith, tried, run.tried))
              (omega (arith, fails, run.no_less));
        no_less = omega (arith, less, run.no_less);
        tried = omega (arith, tried, run.tried);
      }

  module _ (now : N → ℕ) where
    pub refresh_sources-IsRun :
        (sources : List Blocklist) (complete : Bool) (w : Work N)
        → AreDistinct sources
        → IsRun sources complete w (refresh_sources lossy now send fetcher sources complete w)
    unfolding refresh_sources add_sources
    refresh_sources-IsRun [] complete w d = record {
      ran = whole [] no_more refl refl (omega arith);
      no_less = omega arith;
      tried = omega arith;
    }
    refresh_sources-IsRun (source ∷ sources) complete w d =
        let r = refresh_source lossy now send fetcher source w in
        let step = refresh_source-IsSourceStep lossy send fetcher now source w in
        next-Ran source sources complete w r.1 r.0 _ step.outcome step.others step.no_less
          step.moves step.faults d.0
          (refresh_sources-IsRun sources (complete && is_contributed r.0) r.1 d.1)
