-- ===== src/Resolver/Pipeline/Decide.antt =====
-- The decision layer, `DecisionStack::call` of src/resolver/pipeline/layers.rs. `now` is the second
-- at which the pause gate reads the clock.
pub mod Own
pub mod Verdict
use sagittarius.Prelude.{ℕ, true, not, ◌&&◌, Option, none, some, [], ◌∷◌, if◌then◌else◌}
use sagittarius.Codec.Error.{Result, ok}
use sagittarius.Codec.Reader.{Bytes}
use sagittarius.Codec.Message.{Qtype, ptr}
use sagittarius.Codec.Name.{Name}
use sagittarius.Codec.Name.Reverse.{IpAddr, reverse_addr}
use sagittarius.Codec.Synth.{LocalRecord, block, local, local_nodata, local_ptr}
use sagittarius.Resolver.Suffix.{RecordData, LocalMatch, lookup, match_target}
use sagittarius.Resolver.Local.{reverse_lookup}
use sagittarius.Resolver.State.{ResolverState, SocketAddr, contains, contains_key, blocking_paused}
use sagittarius.Resolver.Pipeline.{
  DnsRequest, Outcome, PipelineResponse, new_response, BoxError, Service, set_allow_bypass,
  set_forward_target,
}

abbrev pub block_ttl_secs : ℕ
block_ttl_secs = 60

-- The layers share this state; `T` is what lies outside the resolver.
pub record World (C T : Type 0) : Type 0 where
  pub state : ResolverState C
  pub network : T

module _ {C : Type 0} (st : ResolverState C) (req : DnsRequest) where
  -- Stage 1a: the name of an address that the local records hold.
  unfoldable pub owned_ptr : Qtype → Option (Name × ℕ)
  owned_ptr ptr = elim (reverse_addr req.query.question.name) [
    | none ↦ none
    | some ip ↦ reverse_lookup st.local ip
  ]
  owned_ptr _ = none

  -- Stage 1b, on what the lookup found.
  unfoldable pub local_answer : LocalMatch → Option PipelineResponse
  local_answer (LocalMatch.answer (RecordData.a octets) ttl) = some (
      new_response (local req.query (record { rtype = 1; rdata = octets } ∷ []) ttl req.edns)
        Outcome.local)
  local_answer (LocalMatch.answer (RecordData.aaaa octets) ttl) = some (
      new_response (local req.query (record { rtype = 28; rdata = octets } ∷ []) ttl req.edns)
        Outcome.local)
  local_answer LocalMatch.name_exists_no_data =
      some (new_response (local_nodata req.query req.edns) Outcome.local_no_data)
  local_answer LocalMatch.miss = none

  -- Stage 1.
  unfoldable pub answer_locally : Option PipelineResponse
  unfolding owned_ptr local_answer
  answer_locally = elim (owned_ptr req.query.question.qtype) [
    | some (target, ttl) ↦
        some (new_response (local_ptr req.query target ttl req.edns) Outcome.local)
    | none ↦ local_answer (lookup st.local req.query.question.name req.query.question.qtype)
  ]

  -- A synthesized block response.
  unfoldable pub blocked : Outcome → PipelineResponse
  blocked outcome =
      new_response (block req.query st.settings.block_mode block_ttl_secs req.edns) outcome

module _ {C T : Type 0} (now : ℕ) (inner : Service (World C T) PipelineResponse) where
  -- Stages 2 to 5.
  unfoldable pub filter : Service (World C T) PipelineResponse
  filter req w =
      let name = req.query.question.name in
      if contains w.state.blacklist name
      then (ok (blocked w.state req Outcome.blocked_by_admin), w)
      else (let bypass = contains w.state.allowlist name in
          let req' = if bypass then set_allow_bypass true req else req in
          if not bypass && contains_key w.state.blocklist name
          then (ok (blocked w.state req' Outcome.blocked_by_blocklist), w)
          else inner req' w)

  -- `DecisionStack::call`
  unfoldable pub decide : Service (World C T) PipelineResponse
  decide req w = elim (answer_locally w.state req) [
    | some response ↦ (ok response, w)
    | none ↦ elim (match_target w.state.forward_zones req.query.question.name) [
      | some target ↦ inner (set_forward_target target req) w
      | none ↦ if blocking_paused now w.state then inner req w else filter req w
    ]
  ]
