-- ===== src/Resolver/Upstream/Health.antt =====
-- The health tracker of src/resolver/upstream/health.rs.
use sagittarius.Prelude.{
  ℕ, ◌+◌, ◌%◌, ◌^◌, Bool, ◌&&◌, Option, none, some, List, [], ◌∷◌, ◌==◌, if◌then◌else◌,
}
use sagittarius.Resolver.State.{SocketAddr}
use sagittarius.Resolver.Local.{same_addr}
use sagittarius.Resolver.Upstream.{UpstreamError, Floats}

-- `successes` and `failures` are u64s; of an error that the code keeps as text, the error.
pub record UpstreamStat (F : Type 0) : Type 0 where
  pub successes : ℕ
  pub failures : ℕ
  pub ewma_latency_ms : Option F
  pub last_error : Option UpstreamError

pub record UpstreamHealthRow (F : Type 0) : Type 0 where
  pub addr : SocketAddr
  pub successes : ℕ
  pub failures : ℕ
  pub success_rate : F
  pub ewma_latency_ms : Option F
  pub last_error : Option UpstreamError

-- `UpstreamHealth`: the rows of its map.
abbrev pub UpstreamHealth : Type 0 → Type 0
UpstreamHealth F = List (SocketAddr × UpstreamStat F)

abbrev pub same_socket : SocketAddr → SocketAddr → Bool
same_socket a b = same_addr a.ip b.ip && a.port == b.port

-- `UpstreamStat::default`
abbrev pub no_stat : {F : Type 0} → UpstreamStat F
no_stat = record { successes = 0; failures = 0; ewma_latency_ms = none; last_error = none }

-- `entry(addr).or_default()` and what is done to the row.
unfoldable pub update :
    {F : Type 0}
    → (UpstreamStat F → UpstreamStat F)
    → SocketAddr
    → UpstreamHealth F
    → UpstreamHealth F
update f addr [] = (addr, f no_stat) ∷ []
update f addr ((k, s) ∷ rows) =
    let rest = update f addr rows in if same_socket k addr then (k, f s) ∷ rows else (k, s) ∷ rest

unfoldable pub find_row : {F : Type 0} → SocketAddr → UpstreamHealth F → Option (UpstreamStat F)
find_row addr [] = none
find_row addr ((k, s) ∷ rows) =
    let rest = find_row addr rows in if same_socket k addr then some s else rest

module _ {F : Type 0} (f64 : Floats F) where
  abbrev pub ewma_alpha : F
  ewma_alpha = f64.ratio 1 5

  -- The average with one more sample.
  abbrev pub smoothed : F → Option F → F
  smoothed sample none = sample
  smoothed sample (some prev) =
      f64.add (f64.mul ewma_alpha sample) (f64.mul (f64.sub (f64.ratio 1 1) ewma_alpha) prev)

  -- `UpstreamStat::record_success`
  unfoldable pub add_success : ℕ → UpstreamStat F → UpstreamStat F
  add_success latency s = record s {
    successes = (s.successes + 1) % 2 ^ 64;
    ewma_latency_ms =
        some (smoothed (f64.mul (f64.as_secs_f64 latency) (f64.ratio 1000 1)) s.ewma_latency_ms);
  }

  -- `UpstreamHealth::record_success`
  unfoldable pub record_success : SocketAddr → ℕ → UpstreamHealth F → UpstreamHealth F
  unfolding update add_success
  record_success addr latency rows = update (add_success latency) addr rows

  -- A row of `UpstreamHealth::snapshot`.
  unfoldable pub snapshot_row : SocketAddr × UpstreamStat F → UpstreamHealthRow F
  snapshot_row (addr, stat) =
      let attempts = (stat.successes + stat.failures) % 2 ^ 64 in
      record {
        addr = addr;
        successes = stat.successes;
        failures = stat.failures;
        success_rate =
            if attempts == 0
            then f64.ratio 0 1
            else f64.div (f64.from_u64 stat.successes) (f64.from_u64 attempts);
        ewma_latency_ms = stat.ewma_latency_ms;
        last_error = stat.last_error;
      }

-- `UpstreamHealthRow::attempts`
abbrev pub row_attempts : {F : Type 0} → UpstreamHealthRow F → ℕ
row_attempts row = (row.successes + row.failures) % 2 ^ 64

-- `UpstreamStat::record_failure`
unfoldable pub add_failure : {F : Type 0} → UpstreamError → UpstreamStat F → UpstreamStat F
add_failure error s = record s { failures = (s.failures + 1) % 2 ^ 64; last_error = some error }

-- `UpstreamHealth::record_failure`
unfoldable pub record_failure :
    {F : Type 0} → SocketAddr → UpstreamError → UpstreamHealth F → UpstreamHealth F
unfolding update add_failure
record_failure addr error rows = update (add_failure error) addr rows
