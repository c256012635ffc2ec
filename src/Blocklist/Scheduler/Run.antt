-- ===== src/Blocklist/Scheduler/Run.antt =====
-- The run loop of src/blocklist/scheduler.rs. A run is the list of the turns of its `select!`.
pub mod Live
use sagittarius.Prelude.{ℕ, max, Bool, List, [], ◌∷◌}
use sagittarius.Codec.Error.{Result}
use sagittarius.Codec.Reader.{Bytes}
use sagittarius.Blocklist.Parse.{Text}
use sagittarius.Blocklist.Fetch.{Validators, Response}
use sagittarius.Blocklist.Scheduler.{Scheduler, refresh_once}

-- `MIN_INTERVAL`, in seconds.
abbrev pub min_interval : ℕ
min_interval = 60

-- The arm that `select!` takes: the sleep has ended, a trigger has come, or the token was cancelled.
pub data Arm : Type 0 where
  slept notified cancelled : Arm

-- A turn: what the other tasks do while the loop waits, and the arm that ends the wait.
pub record Turn (C N : Type 0) : Type 0 where
  pub others : Scheduler C N → Scheduler C N
  pub arm : Arm

-- The sleep that a turn asks for, in seconds.
abbrev pub interval : {C N : Type 0} → Scheduler C N → ℕ
interval s = max s.state.settings.blocklist_refresh_interval min_interval

module _ (lossy : Bytes → Text) {C N : Type 0} (now : N → ℕ)
    (send : Text → Validators → N → Result (ℕ × Bool) Response × N) where
  -- A cycle whose result is only logged.
  abbrev pub refresh : Scheduler C N → Scheduler C N
  refresh s = (refresh_once lossy now send s).1

  -- The loop, with the sleeps that its turns ask for. Behind the last turn of the list it still waits.
  unfoldable pub run_loop : List (Turn C N) → Scheduler C N → List ℕ × Scheduler C N
  run_loop [] s = (interval s ∷ [], s)
  run_loop (turn ∷ turns) s = elim turn.arm [
    | cancelled ↦ (interval s ∷ [], turn.others s)
    | slept ↦
        let (sleeps, s') = run_loop turns (refresh (turn.others s)) in (interval s ∷ sleeps, s')
    | notified ↦
        let (sleeps, s') = run_loop turns (refresh (turn.others s)) in (interval s ∷ sleeps, s')
  ]

  -- `BlocklistScheduler::run`
  unfoldable pub run : List (Turn C N) → Scheduler C N → List ℕ × Scheduler C N
  unfolding run_loop
  run turns s = run_loop turns (refresh s)
