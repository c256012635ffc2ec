-- ===== src/Resolver/Tests/Upstreams.antt =====
-- Runs of the upstream pool with whole numbers in place of floating point.
use sagittarius.Prelude.{
  ℕ, zero, suc, ◌+◌, ◌-◌, ◌*◌, ◌/◌, max, ◌≡◌, refl, none, some, List, [], ◌∷◌, leb,
}
use mathlib.Core.List.{Perm}
use sagittarius.Codec.Error.{Result, ok, err, with_value, with_error}
use sagittarius.Codec.Message.{Question}
use sagittarius.Resolver.Upstream.{UpstreamError, UpstreamTransport, timeout, ForwardResult, Floats}
use sagittarius.Resolver.Upstream.Order.{UpstreamObservation, range, latency_weighted_order}
use sagittarius.Resolver.Upstream.Order.Permutes.{latency_weighted_order-Perm}
use sagittarius.Resolver.Upstream.Pool.{UpstreamPool, forward_sequential, forward}
use sagittarius.Resolver.Upstream.Pool.Failover.{
  IsTotal, IsRun, forward_sequential-IsRun, forward-answers,
}
use sagittarius.Resolver.Tests.{asked}
use sagittarius.Resolver.Tests.Requests.{home, answer}

abbrev whole : Floats ℕ
whole = record {
  add = λ a b. a + b;
  sub = λ a b. a - b;
  mul = λ a b. a * b;
  div = λ a b. a / (b + 1);
  greater = max;
  at_most = leb;
  ratio = λ a b. a / b;
  from_u64 = λ n. n;
  as_secs_f64 = λ n. n / 1000;
}

abbrev seen : ℕ → UpstreamObservation ℕ
seen ms = record { ewma_latency_ms = some ms; success_rate = 1; attempts = 3 }

latency_weighted_order-Perm_example :
    (order : List ℕ) × (latency_weighted_order whole (λ k. k) (seen 0 ∷ seen 0 ∷ seen 9 ∷ [])
      ≡ some order)
    × Perm (range 3) order
latency_weighted_order-Perm_example =
    latency_weighted_order-Perm whole (λ k. k) (seen 0 ∷ seen 0 ∷ seen 9 ∷ [])

-- Two upstreams, of which the first never answers.
abbrev exchange : ℕ → Question → ℕ → Result UpstreamError ForwardResult × ℕ
exchange zero q t = (err (timeout UpstreamTransport.udp), t + 5000)
exchange (suc c) q t = (ok answer, t + 12)

exchange-IsTotal : IsTotal exchange
exchange-IsTotal zero q t = with_error _
exchange-IsTotal (suc c) q t = with_value _

abbrev pool : UpstreamPool ℕ ℕ
pool = record {
  clients = 0 ∷ 1 ∷ [];
  selector = λ seen. 0 ∷ 1 ∷ [];
  max_attempts = 2;
  parallel_fanout = none;
}

forward_sequential-IsRun_example :
    IsRun whole
      (λ c. home)
      exchange
      asked
      (0 ∷ 1 ∷ [])
      0
      []
      (forward_sequential whole (λ c. home) exchange pool asked (0 ∷ 1 ∷ []) [] 0)
forward_sequential-IsRun_example =
    forward_sequential-IsRun whole (λ c. home) exchange asked exchange-IsTotal pool (0 ∷ 1 ∷ []) []
      0

forward-answers_example :
    (fr : ForwardResult) × ((forward whole
        (λ c. home)
        exchange
        (λ cs q t. ([], t))
        pool
        asked
        []
        0).0
      ≡ ok fr)
forward-answers_example =
    forward-answers whole (λ c. home) exchange asked (λ cs q t. ([], t)) exchange-IsTotal pool [] 0
      1 1 1 refl refl refl (λ t. (answer, refl))
