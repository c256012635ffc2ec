-- ===== src/Resolver/Pipeline/Decide/Verdict.antt =====
-- The precedence of the decision layer of src/resolver/pipeline/layers.rs, stated without its code.
use sagittarius.Prelude.{ℕ, ◌≡◌, refl, inl, inr, true, false, none, some, Bool-cases, Option-cases}
use sagittarius.Codec.Error.{Result, ok}
use sagittarius.Resolver.Suffix.{match_target}
use sagittarius.Resolver.State.{ResolverState, SocketAddr, contains, contains_key, blocking_paused}
use sagittarius.Resolver.Pipeline.{
  BoxError, DnsRequest, Outcome, PipelineResponse, Service, set_allow_bypass, set_forward_target,
}
use sagittarius.Resolver.Pipeline.Decide.{World, answer_locally, blocked, filter, decide}

-- What becomes of a request: an answer, or the request that the inner service gets.
pub data Verdict : Type 0 where
  answered : PipelineResponse → Verdict
  passed : DnsRequest → Verdict

module _ {C : Type 0} (now : ℕ) (st : ResolverState C) (req : DnsRequest) where
  -- Neither a local answer nor a zone.
  pub record IsForeign : Type 0 where
    pub no_answer : answer_locally st req ≡ none
    pub no_zone : match_target st.forward_zones req.query.question.name ≡ none

  -- Local answers come before forward zones, zones before the pause, the pause before the three
  -- lists; the blacklist overrides the allowlist, and the allowlist the blocklist.
  pub data Decides : Verdict → Type 0 where
    is_local : (r : PipelineResponse) → answer_locally st req ≡ some r → Decides (answered r)
    in_zone :
        (target : SocketAddr)
        → answer_locally st req ≡ none
        → match_target st.forward_zones req.query.question.name ≡ some target
        → Decides (passed (set_forward_target target req))
    is_paused : IsForeign → blocking_paused now st ≡ true → Decides (passed req)
    on_blacklist :
        IsForeign
        → blocking_paused now st ≡ false
        → contains st.blacklist req.query.question.name ≡ true
        → Decides (answered (blocked st req Outcome.blocked_by_admin))
    on_allowlist :
        IsForeign
        → blocking_paused now st ≡ false
        → contains st.blacklist req.query.question.name ≡ false
        → contains st.allowlist req.query.question.name ≡ true
        → Decides (passed (set_allow_bypass true req))
    on_blocklist :
        IsForeign
        → blocking_paused now st ≡ false
        → contains st.blacklist req.query.question.name ≡ false
        → contains st.allowlist req.query.question.name ≡ false
        → contains_key st.blocklist req.query.question.name ≡ true
        → Decides (answered (blocked st req Outcome.blocked_by_blocklist))
    on_no_list :
        IsForeign
        → blocking_paused now st ≡ false
        → contains st.blacklist req.query.question.name ≡ false
        → contains st.allowlist req.query.question.name ≡ false
        → contains_key st.blocklist req.query.question.name ≡ false
        → Decides (passed req)

-- An answer leaves the state as it is; a request that is passed on is the inner service's.
abbrev pub carry_out :
    {C T : Type 0}
    → Service (World C T) PipelineResponse
    → World C T
    → Verdict
    → Result BoxError PipelineResponse × World C T
carry_out inner w (answered r) = (ok r, w)
carry_out inner w (passed req) = inner req w

module _ {C T : Type 0} (now : ℕ) (inner : Service (World C T) PipelineResponse) where
  filter-Decides :
      (req : DnsRequest) (w : World C T)
      → IsForeign now w.state req
      → blocking_paused now w.state ≡ false
      → (v : Verdict) × Decides now w.state req v × (filter now inner req w ≡ carry_out inner w v)
  unfolding filter
  filter-Decides req w f p =
      let st = w.state in
      let name = req.query.question.name in
      elim (Bool-cases (contains st.blacklist name)) [
        | inl black ↦ (answered _, on_blacklist f p black, rw black refl)
        | inr not_black ↦ elim (Bool-cases (contains st.allowlist name)) [
          | inl allow ↦ (passed _, on_allowlist f p not_black allow, rw (not_black, allow) refl)
          | inr not_allow ↦ elim (Bool-cases (contains_key st.blocklist name)) [
            | inl listed ↦ (
              answered _,
              on_blocklist f p not_black not_allow listed,
              rw (not_black, not_allow, listed) refl,
            )
            | inr free ↦ (
              passed _,
              on_no_list f p not_black not_allow free,
              rw (not_black, not_allow, free) refl,
            )
          ]
        ]
      ]

  -- Every request has a verdict of this precedence, and the decision layer carries it out.
  pub decide-Decides :
      (req : DnsRequest) (w : World C T)
      → (v : Verdict) × Decides now w.state req v × (decide now inner req w ≡ carry_out inner w v)
  unfolding decide
  decide-Decides req w = elim (Option-cases (answer_locally w.state req)) [
    | inr (r, here) ↦ (answered r, is_local r here, rw (here, decide) refl)
    | inl no_answer ↦
        elim (Option-cases (match_target w.state.forward_zones req.query.question.name)) [
          | inr (target, zone) ↦
              (passed _, in_zone target no_answer zone, rw (no_answer, zone, decide) refl)
          | inl no_zone ↦
              let f : IsForeign now w.state req = record {
                no_answer = no_answer;
                no_zone = no_zone;
              } in
              elim (Bool-cases (blocking_paused now w.state)) [
                | inl paused ↦
                    (passed req, is_paused f paused, rw (no_answer, no_zone, paused, decide) refl)
                | inr running ↦
                    let (v, d, e) = filter-Decides req w f running in
                    (v, d, rw (no_answer, no_zone, running, decide) e)
              ]
        ]
  ]
