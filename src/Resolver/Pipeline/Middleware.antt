-- ===== src/Resolver/Pipeline/Middleware.antt =====
-- The protective layers of src/resolver/pipeline/middleware.rs. The limiter of governor is the
-- parameter `check_key`; tower's load shedding, concurrency limit and timeout are the parameters
-- `shed`, `limit` and `expire`.
use sagittarius.Prelude.{Bool, true, false}
use sagittarius.Codec.Error.{err}
use sagittarius.Codec.Header.{Rcode, serv_fail}
use sagittarius.Codec.Name.Reverse.{IpAddr}
use sagittarius.Resolver.Pipeline.{
  Outcome, PipelineResponse, BoxError, rate_limited, overloaded, Service,
}

module _ {W : Type 0} (check_key : IpAddr → W → Bool × W) where
  -- `KeyedRateLimitService::call`
  unfoldable pub rate_limited_call : Service W PipelineResponse → Service W PipelineResponse
  rate_limited_call inner req w =
      let (allowed, w') = check_key req.client.ip w in
      elim allowed [ true ↦ inner req w' | false ↦ (err rate_limited, w') ]

  -- `build_protective_service`
  unfoldable pub protective_service :
      (shed limit expire : Service W PipelineResponse → Service W PipelineResponse)
      → Service W PipelineResponse
      → Service W PipelineResponse
  unfolding rate_limited_call
  protective_service shed limit expire resolve = rate_limited_call (shed (limit (expire resolve)))

-- `rejection_policy`
unfoldable pub rejection_policy : BoxError → Outcome × Rcode
rejection_policy rate_limited = (Outcome.refused, Rcode.refused)
rejection_policy overloaded = (Outcome.refused, Rcode.refused)
rejection_policy _ = (Outcome.servfail, serv_fail)
