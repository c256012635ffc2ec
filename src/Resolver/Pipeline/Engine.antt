-- ===== src/Resolver/Pipeline/Engine.antt =====
-- The composed services of src/resolver/pipeline/engine.rs.
pub mod Sound
pub mod Served
use sagittarius.Prelude.{ℕ, Option, none, some, List, [], ◌∷◌}
use sagittarius.Codec.Error.{Result, ok, err, out_of_fuel}
use sagittarius.Codec.Header.{Rcode}
use sagittarius.Codec.Message.{Question}
use sagittarius.Resolver.Cache.{Moka}
use sagittarius.Resolver.Upstream.{UpstreamError, ForwardResult}
use sagittarius.Resolver.State.{SocketAddr}
use sagittarius.Resolver.Pipeline.{BoxError, DnsRequest, Outcome, PipelineResponse, Service}
use sagittarius.Resolver.Pipeline.Decide.{World, decide}
use sagittarius.Resolver.Pipeline.CacheLayer.{cached_call}
use sagittarius.Resolver.Pipeline.Forward.{forward_call}
use sagittarius.Resolver.Pipeline.Middleware.{rejection_policy}

-- The clock readings of one request: the pause gate, the cache lookup, the cache insert.
pub record Times : Type 0 where
  pub gate : ℕ
  pub lookup : ℕ
  pub insert : ℕ

module _ {C T : Type 0} (moka : Moka C)
    (forward : Option SocketAddr → Question → T → Result UpstreamError ForwardResult × T) where
  -- `build_internal_service`
  unfoldable pub internal_service : Times → Service (World C T) PipelineResponse
  internal_service at = decide at.gate (cached_call moka at.lookup at.insert (forward_call forward))

  -- Requests that are served one after the other.
  unfoldable pub serve_all :
      List (Times × DnsRequest) → World C T → List (DnsRequest × PipelineResponse) × World C T
  serve_all [] w = ([], w)
  serve_all ((at, req) ∷ reqs) w =
      let (result, w') = internal_service at req w in
      let (rs, w'') = serve_all reqs w' in
      elim result [ ok r ↦ ((req, r) ∷ rs, w'') | _ ↦ (rs, w'') ]

-- The outcome, the code and the upstream that `TelemetryService::call` records.
unfoldable pub recorded :
    Result BoxError PipelineResponse → Outcome × Option Rcode × Option SocketAddr
recorded (ok resp) = (resp.outcome, none, resp.upstream)
recorded (err e) = let (o, rc) = rejection_policy e in (o, some rc, none)
recorded out_of_fuel = (Outcome.error, none, none)
