-- ===== src/Resolver/Pipeline/CacheLayer.antt =====
-- The cache layer, `CacheService::call` of src/resolver/pipeline/cache_layer.rs. The lookup reads the
-- clock at `now`, the insert at `later`.
use sagittarius.Prelude.{ℕ, none, some, List}
use sagittarius.Codec.Error.{Result, ok, err, out_of_fuel}
use sagittarius.Codec.Reader.{Bytes}
use sagittarius.Codec.Message.{Question}
use sagittarius.Resolver.Cache
use sagittarius.Resolver.Cache.{Moka}
use sagittarius.Resolver.Pipeline.{Outcome, PipelineResponse, new_response, BoxError, Service}
use sagittarius.Resolver.Pipeline.Decide.{World}

pub data CacheDirective : Type 0 where
  -- bytes, ttl_offsets, expiry
  store : Bytes → List ℕ → ℕ → CacheDirective
  skip : CacheDirective

pub record ForwardOutput : Type 0 where
  pub reply : PipelineResponse
  pub directive : CacheDirective

module _ {C T : Type 0} (moka : Moka C) (now later : ℕ) where
  unfoldable pub carry_directive : Question → CacheDirective → World C T → World C T
  carry_directive question (store bytes ttl_offsets expiry) w = record w {
    state = record (w.state) {
      cache = Cache.insert moka later question bytes ttl_offsets expiry w.state.cache;
    };
  }
  carry_directive question skip w = w

  -- What follows the call of the inner service.
  unfoldable pub after_miss :
      Question
      → Result BoxError ForwardOutput × World C T
      → Result BoxError PipelineResponse × World C T
  unfolding carry_directive
  after_miss question (ok out, w) = (ok out.reply, carry_directive question out.directive w)
  after_miss question (err e, w) = (err e, w)
  after_miss question (out_of_fuel, w) = (out_of_fuel, w)

  -- `CacheService::call`
  unfoldable pub cached_call :
      Service (World C T) ForwardOutput → Service (World C T) PipelineResponse
  unfolding after_miss
  cached_call inner req w =
      let question = req.query.question in
      elim (Cache.get moka now question req.query.header.id w.state.cache) [
        | some bytes ↦ (ok (new_response bytes Outcome.cached), w)
        | none ↦ after_miss question (inner req w)
      ]
