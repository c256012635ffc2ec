-- ===== src/Blocklist/Scheduler/Run/Live.antt =====
-- What the scheduler of src/blocklist/scheduler.rs serves while it runs.
use sagittarius.Prelude.{
  ℕ, max, ◌≤◌, ◌≡◌, refl, ap, ◌∙◌, subst, ◌⊎◌, inl, inr, Bool, List, [], ◌∷◌, map, All,
}
use sagittarius.Codec.Error.{Result, ok, err}
use sagittarius.Codec.Reader.{Bytes}
use sagittarius.Blocklist.Parse.{Text}
use sagittarius.Blocklist.Aggregate.{from_sources}
use sagittarius.Blocklist.Fetch.{Validators, Response}
use sagittarius.Resolver.State.{RuntimeSettings}
use sagittarius.Storage.Sqlite.{StorageError}
use sagittarius.Storage.Blocklists.{Blocklist, list_enabled}
use sagittarius.Storage.Blocklists.Listed.{AreKeyed}
use sagittarius.Blocklist.Scheduler.{RefreshSummary, Scheduler, refresh_once}
use sagittarius.Blocklist.Scheduler.Snapshot.{AllCome, SomeLacks}
use sagittarius.Blocklist.Scheduler.Cycle.{unlisted, installed, kept, refresh_once-Refreshed}
use sagittarius.Blocklist.Scheduler.Keys.{AreKeyed-SameRows, refresh_once-SameRows}
use sagittarius.Blocklist.Scheduler.Run.{
  interval, slept, notified, cancelled, Turn, refresh, run_loop, run,
}

-- The other tasks leave the live blocklist alone, and the ids of the sources stay distinct.
abbrev pub Leaves : {C N : Type 0} → Turn C N → Type 0
Leaves {C} {N} turn =
    (s : Scheduler C N)
    → ((turn.others s).state.blocklist ≡ s.state.blocklist)
      × (AreKeyed s.db.tables.blocklists → AreKeyed (turn.others s).db.tables.blocklists)

module _ (lossy : Bytes → Text) {C N : Type 0} (now : N → ℕ)
    (send : Text → Validators → N → Result (ℕ × Bool) Response × N) where
  -- The states in which the cycles of a run begin.
  abbrev pub later_starts : List (Turn C N) → Scheduler C N → List (Scheduler C N)
  later_starts [] s = []
  later_starts (turn ∷ turns) s = elim turn.arm [
    | cancelled ↦ []
    | slept ↦ turn.others s ∷ later_starts turns (refresh lossy now send (turn.others s))
    | notified ↦ turn.others s ∷ later_starts turns (refresh lossy now send (turn.others s))
  ]

  abbrev pub starts : List (Turn C N) → Scheduler C N → List (Scheduler C N)
  starts turns s = s ∷ later_starts turns (refresh lossy now send s)

  -- Why a cycle from a state installs nothing.
  abbrev pub Fails : Scheduler C N → Type 0
  Fails s =
      ((e : StorageError) × ((list_enabled s.db).0 ≡ err e))
      ⊎ ((sources : List Blocklist) × (summary : RefreshSummary) × ((list_enabled s.db).0
            ≡ ok sources)
          × SomeLacks lossy send s.fetcher s.db.tables.blocklist_cache s.db.faults s.net sources
          × ((refresh_once lossy now send s).0 ≡ ok summary)
          × (1 ≤ summary.failed))

  -- From one blocklist to another, by cycles that begin in these states.
  pub data Serves : List (Scheduler C N) → List (Bytes × ℕ) → List (Bytes × ℕ) → Type 0 where
    settled : {old live : List (Bytes × ℕ)} → live ≡ old → Serves [] old live
    replaced :
        {s : Scheduler C N} {ss : List (Scheduler C N)} {old live : List (Bytes × ℕ)}
        (sources : List Blocklist) (cs : List (ℕ × List Bytes))
        → (list_enabled s.db).0 ≡ ok sources
        → AllCome lossy send s.fetcher s.db.tables.blocklist_cache s.net sources cs
        → Serves ss (from_sources cs).merged live
        → Serves (s ∷ ss) old live
    retained :
        {s : Scheduler C N} {ss : List (Scheduler C N)} {old live : List (Bytes × ℕ)}
        → Fails s
        → Serves ss old live
        → Serves (s ∷ ss) old live

  cycle-Serves :
      (s : Scheduler C N) (ss : List (Scheduler C N)) {old live : List (Bytes × ℕ)}
      → AreKeyed s.db.tables.blocklists
      → s.state.blocklist ≡ old
      → Serves ss (refresh lossy now send s).state.blocklist live
      → Serves (s ∷ ss) old live
  cycle-Serves s ss {old} {live} keyed same rest =
      elim (refresh_once-Refreshed lossy send now s keyed) [
        | unlisted e listed failed state ↦
            retained (inl (e, listed))
              (subst (λ b. Serves ss b live) (ap (λ st. st.blocklist) state ∙ same) rest)
        | installed sources cs summary listed come done state each total ↦
            replaced sources cs listed come
              (subst (λ b. Serves ss b live) (ap (λ st. st.blocklist) state) rest)
        | kept sources summary listed lacks done state more failed total ↦
            retained (inr (sources, summary, listed, lacks, done, failed))
              (subst (λ b. Serves ss b live) (ap (λ st. st.blocklist) state ∙ same) rest)
      ]

  refresh-AreKeyed :
      (s : Scheduler C N)
      → AreKeyed s.db.tables.blocklists
      → AreKeyed (refresh lossy now send s).db.tables.blocklists
  refresh-AreKeyed s keyed = AreKeyed-SameRows _ _ (refresh_once-SameRows lossy now send s) keyed

  refresh-settings :
      (s : Scheduler C N)
      → AreKeyed s.db.tables.blocklists
      → (refresh lossy now send s).state.settings ≡ s.state.settings
  refresh-settings s keyed = elim (refresh_once-Refreshed lossy send now s keyed) [
    | unlisted e listed failed state ↦ ap (λ st. st.settings) state
    | installed sources cs summary listed come done state each total ↦ ap (λ st. st.settings) state
    | kept sources summary listed lacks done state more failed total ↦ ap (λ st. st.settings) state
  ]

  -- The sleep behind a cycle that began in a state, in seconds.
  abbrev pub sleep_behind : Scheduler C N → ℕ
  sleep_behind s = max s.state.settings.blocklist_refresh_interval 60

  sleep_behind-refresh :
      (s : Scheduler C N)
      → AreKeyed s.db.tables.blocklists
      → interval (refresh lossy now send s) ≡ sleep_behind s
  sleep_behind-refresh s keyed =
      ap (λ (st : RuntimeSettings). max st.blocklist_refresh_interval 60) (refresh-settings s keyed)

  -- The blocklist that a run serves and its sleeps, of which the first is given.
  abbrev pub IsRunFrom :
      List (Scheduler C N) → List (Bytes × ℕ) → ℕ → List ℕ × Scheduler C N → Type 0
  IsRunFrom cycles old first r =
      Serves cycles old r.1.state.blocklist × (r.0 ≡ first ∷ map sleep_behind cycles)

  cycled :
      (turns : List (Turn C N)) (s : Scheduler C N)
      → All Leaves turns
      → AreKeyed s.db.tables.blocklists
      → IsRunFrom
          (later_starts turns s)
          s.state.blocklist
          (interval s)
          (run_loop lossy now send turns s)
  unfolding run_loop
  cycled [] s h keyed = (settled refl, refl)
  cycled (turn ∷ turns) s h keyed =
      let s' = turn.others s in
      let keyed' = (h.0 s).1 keyed in
      let rest = cycled turns (refresh lossy now send s') h.1 (refresh-AreKeyed s' keyed') in
      let sleeps : (interval s ∷ (run_loop lossy now send turns (refresh lossy now send s')).0) ≡ (
          interval s
          ∷ sleep_behind s'
          ∷ map sleep_behind (later_starts turns (refresh lossy now send s'))) =
        ap (λ ns. interval s ∷ ns)
          (rest.1
            ∙ ap (λ n. n ∷ map sleep_behind (later_starts turns (refresh lossy now send s')))
                (sleep_behind-refresh s' keyed')) in
      let served = cycle-Serves s' _ keyed' (h.0 s).0 rest.0 in
      elim turn.arm
        as (λ arm.
          IsRunFrom (later_starts (record { others = turn.others; arm = arm } ∷ turns) s)
            s.state.blocklist (interval s)
            (run_loop lossy now send (record { others = turn.others; arm = arm } ∷ turns) s)) [
              | cancelled ↦ (settled (h.0 s).0, refl)
              | slept ↦ (served, sleeps)
              | notified ↦ (served, sleeps)
            ]

  -- A run, whatever its turns: at the start and at every turn before a cancellation a cycle begins, in a
  -- state that the other tasks left. A cycle to which every enabled source contributes replaces the live
  -- blocklist by the aggregation of exactly these contributions. A cycle that cannot list the sources, or
  -- in which for some source the request gives no body with a name and no body of it was cached before
  -- or the database has a fault to report, may leave it as it is, and in the second case counts a
  -- failure; nothing else changes the blocklist. Behind each cycle the loop asks for one sleep, as long
  -- as the refresh interval of the settings in which the cycle began, or a minute where that is less.
  -- The other tasks do not change the live blocklist while the loop waits, and the ids of the sources
  -- are distinct.
  pub run-Serves :
      (turns : List (Turn C N)) (s : Scheduler C N)
      → All Leaves turns
      → AreKeyed s.db.tables.blocklists
      → Serves (starts turns s) s.state.blocklist (run lossy now send turns s).1.state.blocklist
        × ((run lossy now send turns s).0
            ≡ map
                (λ (t : Scheduler C N). max t.state.settings.blocklist_refresh_interval 60)
                (starts turns s))
  unfolding run
  run-Serves turns s h keyed =
      let rest = cycled turns (refresh lossy now send s) h (refresh-AreKeyed s keyed) in
      (
        cycle-Serves s _ keyed refl rest.0,
        rest.1
            ∙ ap (λ n. n ∷ map sleep_behind (later_starts turns (refresh lossy now send s)))
                (sleep_behind-refresh s keyed),
      )
