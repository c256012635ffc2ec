-- ===== src/Resolver/Pipeline/Decide/Own.antt =====
-- The responses that src/resolver/pipeline/layers.rs makes itself, stated without its code.
use sagittarius.Prelude.{
  ℕ, ◌<◌, ◌≡◌, refl, subst, inl, inr, Bool, true, false, Option, none, some, List, [], ◌∷◌,
  Option-cases,
}
use sagittarius.Codec.Reader.{be_u16}
use sagittarius.Codec.Message.{Query, Qtype, ptr}
use sagittarius.Codec.Name.{Name}
use sagittarius.Codec.Name.Reverse.{IpAddr, reverse_addr}
use sagittarius.Codec.Header.{Rcode}
use sagittarius.Codec.Edns.{EdnsInfo}
use sagittarius.Codec.Synth.{AnswerRr, build, block, local, local_nodata, local_ptr}
use sagittarius.Codec.Synth.Layout.{IsResponse-be_u16}
use sagittarius.Codec.Synth.Replies.{build-IsResponse, block-IsResponse}
use sagittarius.Codec.Reader.{Bytes}
use sagittarius.Resolver.Suffix.{LocalRecords, RecordData, LocalMatch, lookup}
use sagittarius.Resolver.Local.{reverse_lookup}
use sagittarius.Resolver.State.{ResolverState, RuntimeSettings, contains, contains_key}
use sagittarius.Resolver.Pipeline.{DnsRequest, Outcome, PipelineResponse, new_response}
use sagittarius.Resolver.Pipeline.Decide.{owned_ptr, local_answer, answer_locally, blocked}

pub build-be_u16 :
    (q : Query) (rc : Rcode) (aa : Bool) (answers : List AnswerRr) (e : Option EdnsInfo)
    → q.header.id < 65536
    → be_u16 (build q rc aa answers e) ≡ q.header.id
build-be_u16 q rc aa answers e hi = IsResponse-be_u16 (build-IsResponse q rc aa answers e hi)

-- What the resolver's own responses depend on, which serving a request does not change.
pub record Rules : Type 0 where
  pub local : LocalRecords
  pub blacklist : List Bytes
  pub allowlist : List Bytes
  pub blocklist : List (Bytes × ℕ)
  pub settings : RuntimeSettings

abbrev pub rules_of : {C : Type 0} → ResolverState C → Rules
rules_of st = record {
  local = st.local;
  blacklist = st.blacklist;
  allowlist = st.allowlist;
  blocklist = st.blocklist;
  settings = st.settings;
}

-- The resolver's own response: from the local records, by address or by name, or a block response to a
-- name that a list has.
pub data IsOwn (rules : Rules) (q : Query) (edns : Option EdnsInfo) (r : PipelineResponse)
    : Type 0 where
  of_address :
      (ip : IpAddr) (target : Name) (ttl : ℕ)
      → q.question.qtype ≡ ptr
      → reverse_addr q.question.name ≡ some ip
      → reverse_lookup rules.local ip ≡ some (target, ttl)
      → r ≡ new_response (local_ptr q target ttl edns) Outcome.local
      → IsOwn rules q edns r
  ipv4 :
      (octets : Bytes) (ttl : ℕ)
      → lookup rules.local q.question.name q.question.qtype
        ≡ LocalMatch.answer (RecordData.a octets) ttl
      → r
        ≡ new_response (local q (record { rtype = 1; rdata = octets } ∷ []) ttl edns) Outcome.local
      → IsOwn rules q edns r
  ipv6 :
      (octets : Bytes) (ttl : ℕ)
      → lookup rules.local q.question.name q.question.qtype
        ≡ LocalMatch.answer (RecordData.aaaa octets) ttl
      → r
        ≡ new_response (local q (record { rtype = 28; rdata = octets } ∷ []) ttl edns) Outcome.local
      → IsOwn rules q edns r
  no_data :
      lookup rules.local q.question.name q.question.qtype ≡ LocalMatch.name_exists_no_data
      → r ≡ new_response (local_nodata q edns) Outcome.local_no_data
      → IsOwn rules q edns r
  by_admin :
      contains rules.blacklist q.question.name ≡ true
      → r ≡ new_response (block q rules.settings.block_mode 60 edns) Outcome.blocked_by_admin
      → IsOwn rules q edns r
  by_blocklist :
      contains rules.allowlist q.question.name ≡ false
      → contains_key rules.blocklist q.question.name ≡ true
      → r ≡ new_response (block q rules.settings.block_mode 60 edns) Outcome.blocked_by_blocklist
      → IsOwn rules q edns r

-- It is under the id of the query.
pub IsOwn-be_u16 :
    {rules : Rules} {q : Query} {edns : Option EdnsInfo} {r : PipelineResponse}
    → q.header.id < 65536
    → IsOwn rules q edns r
    → be_u16 r.bytes ≡ q.header.id
unfolding local local_nodata local_ptr
IsOwn-be_u16 {q} {edns} hi (of_address ip target ttl t a l e) =
    rw e (build-be_u16 q _ true _ edns hi)
IsOwn-be_u16 {q} {edns} hi (ipv4 octets ttl l e) = rw e (build-be_u16 q _ true _ edns hi)
IsOwn-be_u16 {q} {edns} hi (ipv6 octets ttl l e) = rw e (build-be_u16 q _ true _ edns hi)
IsOwn-be_u16 {q} {edns} hi (no_data l e) = rw e (build-be_u16 q _ true _ edns hi)
IsOwn-be_u16 {rules} {q} {edns} hi (by_admin l e) =
    rw e (IsResponse-be_u16 (block-IsResponse q rules.settings.block_mode _ edns hi))
IsOwn-be_u16 {rules} {q} {edns} hi (by_blocklist a l e) =
    rw e (IsResponse-be_u16 (block-IsResponse q rules.settings.block_mode _ edns hi))

module _ {C : Type 0} (st : ResolverState C) (req : DnsRequest) where
  abbrev Owns : PipelineResponse → Type 0
  Owns = IsOwn (rules_of st) req.query req.edns

  -- What an option holds, if anything.
  abbrev Each : Option PipelineResponse → Type 0
  Each none = Unit
  Each (some r) = Owns r

  local_answer-IsOwn :
      (m : LocalMatch)
      → lookup st.local req.query.question.name req.query.question.qtype ≡ m
      → Each (local_answer st req m)
  unfolding local_answer
  local_answer-IsOwn (LocalMatch.answer (RecordData.a octets) ttl) e = ipv4 octets ttl e refl
  local_answer-IsOwn (LocalMatch.answer (RecordData.aaaa octets) ttl) e = ipv6 octets ttl e refl
  local_answer-IsOwn LocalMatch.name_exists_no_data e = no_data e refl
  local_answer-IsOwn LocalMatch.miss e = tt

  owned_ptr-found :
      (t : Qtype) {target : Name} {ttl : ℕ}
      → owned_ptr st req t ≡ some (target, ttl)
      → (ip : IpAddr) × (t ≡ ptr)
        × (reverse_addr req.query.question.name ≡ some ip)
        × (reverse_lookup st.local ip ≡ some (target, ttl))
  unfolding owned_ptr
  owned_ptr-found ptr h = elim (Option-cases (reverse_addr req.query.question.name)) [
    | inl e ↦ absurd (cc (rw (e, owned_ptr) at h))
    | inr (ip, e) ↦ (ip, refl, e, (rw (e, owned_ptr) at h))
  ]
  owned_ptr-found _ h = cc

  answer_locally-Each : Each (answer_locally st req)
  unfolding answer_locally
  answer_locally-Each = elim (Option-cases (owned_ptr st req req.query.question.qtype)) [
    | inl e ↦ rw (e, answer_locally) (local_answer-IsOwn _ refl)
    | inr ((target, ttl), e) ↦
        let (ip, t, a, l) = owned_ptr-found req.query.question.qtype e in
        rw (e, answer_locally) (of_address ip target ttl t a l refl)
  ]

  pub answer_locally-IsOwn : {r : PipelineResponse} → answer_locally st req ≡ some r → Owns r
  answer_locally-IsOwn {r} h = subst Each h answer_locally-Each

  pub admin-IsOwn :
      contains st.blacklist req.query.question.name ≡ true
      → Owns (blocked st req Outcome.blocked_by_admin)
  unfolding blocked
  admin-IsOwn h = by_admin h refl

  pub blocklist-IsOwn :
      contains st.allowlist req.query.question.name ≡ false
      → contains_key st.blocklist req.query.question.name ≡ true
      → Owns (blocked st req Outcome.blocked_by_blocklist)
  unfolding blocked
  blocklist-IsOwn h k = by_blocklist h k refl
