-- ===== src/Telemetry/Tests.antt =====
-- A run of the statistics on two queries.
use sagittarius.Prelude.{ℕ, none, [], ◌∷◌, arith, length}
use sagittarius.Codec.Name.Reverse.{IpAddr, v4}
use sagittarius.Codec.Message.{Qtype}
use sagittarius.Codec.Tests.{name_a_b}
use sagittarius.Resolver.Pipeline.{Outcome}
use sagittarius.Telemetry.Stats.{QueryEvent}
use sagittarius.Telemetry.Stats.Totals.{record_all, Counts, record_all-Counts}

abbrev hash_of : IpAddr → ℕ
hash_of x = 35

abbrev query_for : Outcome → QueryEvent
query_for outcome = record {
  ts = 1700000000000;
  client = record { ip = v4 (192 ∷ 168 ∷ 0 ∷ 2 ∷ []); port = 5353 };
  qname = name_a_b;
  qtype = Qtype.a;
  outcome = outcome;
  rcode = none;
  upstream = none;
  latency = 3;
}

record_all-Counts_example :
    Counts length hash_of (query_for Outcome.cached ∷ query_for Outcome.blocked_by_admin ∷ []) (
      record_all length hash_of
        (query_for Outcome.cached ∷ query_for Outcome.blocked_by_admin ∷ []))
record_all-Counts_example =
    record_all-Counts length hash_of
      (query_for Outcome.cached ∷ query_for Outcome.blocked_by_admin ∷ []) (omega arith)
