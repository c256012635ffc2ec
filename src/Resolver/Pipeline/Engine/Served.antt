-- ===== src/Resolver/Pipeline/Engine/Served.antt =====
-- A run of the composed services of src/resolver/pipeline/engine.rs, request by request.
use sagittarius.Prelude.{◌<◌, List, All}
use sagittarius.Codec.Error.{Result}
use sagittarius.Codec.Reader.{Bytes}
use sagittarius.Codec.Message.{Question}
use sagittarius.Resolver.Cache.{Moka}
use sagittarius.Resolver.Pipeline.{DnsRequest, PipelineResponse, BoxError}
use sagittarius.Resolver.Pipeline.Decide.{World}
use sagittarius.Resolver.Pipeline.Decide.Own.{rules_of}
use sagittarius.Resolver.Pipeline.Decide.Verdict.{Verdict}
use sagittarius.Resolver.Pipeline.Engine.{Times}
use sagittarius.Resolver.Pipeline.Engine.Sound.{Exchange, IsMap, IsHonest, IsServedBy}

module _ (IsFrom : Question → Bytes → Type 0) {C T : Type 0} (moka : Moka C) (is_map : IsMap moka)
    (forward : Exchange T) (honest : IsHonest IsFrom forward) where
  -- The reply to a request as the client sent it, whatever the layers noted in it.
  abbrev IsAnswered : DnsRequest → World C T → Result BoxError PipelineResponse × World C T → Type 0
  IsAnswered req w = IsServedBy IsFrom moka forward (rules_of w.state) req.query req.edns

  -- Requests whose ids are sixteen bits wide.
  abbrev pub AreSmall : List (Times × DnsRequest) → Type 0
  AreSmall = All (λ p. p.1.query.header.id < 65536)
