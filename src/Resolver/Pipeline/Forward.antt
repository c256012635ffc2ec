-- ===== src/Resolver/Pipeline/Forward.antt =====
-- The leaf of the pipeline, `ForwardService::call` of src/resolver/pipeline/forward.rs. The exchange
-- with the pool or with a zone's resolver is the parameter `forward`.
pub mod Sound
use sagittarius.Prelude.{ℕ, ◌/◌, ◌%◌, min, Option, none, some, List, ◌∷◌, if◌then◌else◌}
use sagittarius.Codec.Error.{Error, Result, ok, err, out_of_fuel}
use sagittarius.Codec.Reader.{Bytes}
use sagittarius.Codec.Header.{serv_fail}
use sagittarius.Codec.Message.{Question}
use sagittarius.Codec.Synth.{error_response}
use sagittarius.Codec.Ttl
use sagittarius.Codec.Ttl.{TtlScan}
use sagittarius.Resolver.Upstream.{UpstreamError, ForwardResult}
use sagittarius.Resolver.State.{SocketAddr, RuntimeSettings}
use sagittarius.Resolver.Pipeline.{
  DnsRequest, Outcome, PipelineResponse, new_response, with_upstream, Service,
}
use sagittarius.Resolver.Pipeline.Decide.{World}
use sagittarius.Resolver.Pipeline.CacheLayer.{CacheDirective, store, skip, ForwardOutput}

-- `with_txn_id`
unfoldable pub with_txn_id : ℕ → Bytes → Bytes
with_txn_id id (a ∷ b ∷ bs) = (id / 256 % 256) ∷ (id % 256) ∷ bs
with_txn_id id bs = bs

-- `Option::map` of the cap.
abbrev pub capped : ℕ → Option ℕ → Option ℕ
capped cap none = none
capped cap (some t) = some (min t cap)

-- The lifetime of a response that was scanned.
abbrev pub expiry_of : ℕ → ForwardResult → TtlScan → Option ℕ
expiry_of negative_ttl_cap fr s =
    if fr.is_negative then capped negative_ttl_cap fr.negative_ttl else s.min_ttl

abbrev pub store_for : Bytes → List ℕ → Option ℕ → CacheDirective
store_for bytes ttl_offsets (some expiry) = store bytes ttl_offsets expiry
store_for bytes ttl_offsets none = skip

abbrev pub scanned_directive : ℕ → ForwardResult → Result Error TtlScan → CacheDirective
scanned_directive negative_ttl_cap fr (ok s) =
    store_for fr.bytes s.ttl_offsets (expiry_of negative_ttl_cap fr s)
scanned_directive negative_ttl_cap fr _ = skip

-- The cache-store policy.
unfoldable pub directive_for : RuntimeSettings → ForwardResult → CacheDirective
directive_for settings fr = scanned_directive settings.negative_ttl_cap fr (Ttl.scan fr.bytes)

-- What the leaf answers to what the exchange returns. It starts from the state before the
-- exchange, whose settings nothing here changes.
unfoldable pub reply_to :
    DnsRequest → RuntimeSettings → Result UpstreamError ForwardResult → ForwardOutput
unfolding with_txn_id directive_for
reply_to req settings (ok fr) = record {
  reply =
      with_upstream fr.upstream
        (new_response (with_txn_id req.query.header.id fr.bytes) Outcome.forwarded);
  directive = directive_for settings fr;
}
reply_to req settings _ = record {
  reply = new_response (error_response req.query serv_fail req.edns) Outcome.servfail;
  directive = skip;
}

module _ {C T : Type 0}
    (forward : Option SocketAddr → Question → T → Result UpstreamError ForwardResult × T) where
  -- `ForwardService::call`
  unfoldable pub forward_call : Service (World C T) ForwardOutput
  unfolding reply_to
  forward_call req w =
      let (result, network) = forward req.forward_target req.query.question w.network in
      (ok (reply_to req w.state.settings result), record w { network = network })
