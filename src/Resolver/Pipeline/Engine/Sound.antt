-- ===== src/Resolver/Pipeline/Engine/Sound.antt =====
-- What the composed services of src/resolver/pipeline/engine.rs reply, and what they keep in the cache.
use sagittarius.Prelude.{
  ℕ, ◌<◌, ◌≡◌, refl, sym, ◌∙◌, ◌⊎◌, inl, inr, false, Option, some, [], arith, Option-cases, length,
  drop,
}
use sagittarius.Codec.Error.{Result, ok, err, out_of_fuel, Result-cases}
use sagittarius.Codec.Reader.{Bytes, be_u16}
use sagittarius.Codec.Header.{serv_fail}
use sagittarius.Codec.Message.{Query, Question}
use sagittarius.Codec.Synth.{error_response}
use sagittarius.Codec.Edns.{EdnsInfo}
use sagittarius.Codec.Ttl
use sagittarius.Codec.Ttl.{TtlScan}
use sagittarius.Codec.Ttl.Sound.{scan-IsScan, scan-length}
use sagittarius.Resolver.Cache
use sagittarius.Resolver.Cache.{
  CachedResponse, patched_for, elapsed_secs, Moka, DnsCache, clamp_ttl,
}
use sagittarius.Resolver.Cache.Patch.{AreOctets}
use sagittarius.Resolver.Cache.Serve.{IsServed, IsServed-be_u16, patched_for-IsServed}
use sagittarius.Resolver.Upstream.{UpstreamError, ForwardResult}
use sagittarius.Resolver.State.{SocketAddr, RuntimeSettings}
use sagittarius.Resolver.Pipeline.{DnsRequest, Outcome, PipelineResponse, new_response, BoxError}
use sagittarius.Resolver.Pipeline.Decide.{World}
use sagittarius.Resolver.Pipeline.Decide.Own.{build-be_u16, Rules, rules_of, IsOwn}
use sagittarius.Resolver.Pipeline.CacheLayer.{
  CacheDirective, store, skip, carry_directive, after_miss, cached_call,
}
use sagittarius.Resolver.Pipeline.Forward.{reply_to, forward_call}
use sagittarius.Resolver.Pipeline.Forward.Sound.{
  Carries, with_txn_id-Carries, length-with_txn_id, drop-with_txn_id, IsPolicy, unreadable,
  without_negative_ttl, without_field, negative, positive, directive_for-IsPolicy,
}

-- An exchange with an upstream: by the pool or by a zone's resolver.
abbrev pub Exchange : Type 0 → Type 0
Exchange T = Option SocketAddr → Question → T → Result UpstreamError ForwardResult × T

-- A map in which a lookup finds what was there before an insert, or what was inserted under the
-- question, or nothing.
abbrev pub IsMap : {C : Type 0} → Moka C → Type 0
IsMap {C} moka =
    (s : C) (k : Question) (v : CachedResponse) (q : Question) (u : CachedResponse)
    → moka.get (moka.insert s k v) q ≡ some u
    → ((q ≡ k) × (u ≡ v)) ⊎ (moka.get s q ≡ some u)

module _ (IsFrom : Question → Bytes → Type 0) where
  -- Octets that an upstream sent as a response to the question.
  pub record IsResponseTo (q : Question) (bytes : Bytes) : Type 0 where
    pub octets : AreOctets bytes
    pub from : IsFrom q bytes

  abbrev pub IsHonest : {T : Type 0} → Exchange T → Type 0
  IsHonest {T} forward =
      (target : Option SocketAddr) (q : Question) (t : T) (fr : ForwardResult)
      → (forward target q t).0 ≡ ok fr
      → IsResponseTo q fr.bytes

  -- A response to the question under which it is kept, with the offsets of its TTL fields.
  pub record IsEntry (q : Question) (v : CachedResponse) : Type 0 where
    pub response : IsResponseTo q v.bytes
    pub s : TtlScan
    pub scanned : Ttl.scan v.bytes ≡ ok s
    pub offsets : v.ttl_offsets ≡ s.ttl_offsets

  -- What a request is answered with, under the id of its query: the resolver's own response; SERVFAIL after
  -- an exchange that brought no response; the response of an exchange, whole but for the id; or one from
  -- the cache to the same question.
  pub data IsReply {T : Type 0} (forward : Exchange T) (rules : Rules) (q : Query)
      (edns : Option EdnsInfo) (r : PipelineResponse) : Type 0 where
    own : IsOwn rules q edns r → be_u16 r.bytes ≡ q.header.id → IsReply forward rules q edns r
    failed :
        (target : Option SocketAddr) (t : T)
        → ((fr : ForwardResult) → (forward target q.question t).0 ≡ ok fr → ⊥)
        → r ≡ new_response (error_response q serv_fail edns) Outcome.servfail
        → be_u16 r.bytes ≡ q.header.id
        → IsReply forward rules q edns r
    relayed :
        (target : Option SocketAddr) (t : T) (fr : ForwardResult)
        → (forward target q.question t).0 ≡ ok fr
        → IsResponseTo q.question fr.bytes
        → r.outcome ≡ Outcome.forwarded
        → r.upstream ≡ some fr.upstream
        → Carries q.header.id r.bytes
        → length r.bytes ≡ length fr.bytes
        → drop 2 r.bytes ≡ drop 2 fr.bytes
        → IsReply forward rules q edns r
    from_cache :
        (v : CachedResponse) (secs : ℕ)
        → IsEntry q.question v
        → r.outcome ≡ Outcome.cached
        → be_u16 r.bytes ≡ q.header.id
        → IsServed v q.header.id secs r.bytes
        → IsReply forward rules q edns r

  module _ {C : Type 0} (moka : Moka C) where
    -- Every entry of the cache is one.
    abbrev pub IsCoherent : DnsCache C → Type 0
    IsCoherent c = (q : Question) (v : CachedResponse) → moka.get c.inner q ≡ some v → IsEntry q v

    stored-IsCoherent :
        IsMap moka
        → (later : ℕ) (q : Question) (bytes : Bytes) (s : TtlScan) (t : ℕ) (c : DnsCache C)
        → IsResponseTo q bytes
        → Ttl.scan bytes ≡ ok s
        → IsCoherent c
        → IsCoherent (Cache.insert moka later q bytes s.ttl_offsets t c)
    unfolding Cache.insert
    stored-IsCoherent is_map later q bytes s t c h e i k v found =
        elim (is_map c.inner q _ k v found) [
          | inl (same, new) ↦
              rw (same, new) (record { response = h; s = s; scanned = e; offsets = refl })
          | inr old ↦ i k v old
        ]

    carry_directive-IsCoherent :
        {T : Type 0}
        → IsMap moka
        → (now later ceiling : ℕ) (q : Question) (fr : ForwardResult) (d : CacheDirective)
          (w : World C T)
        → IsPolicy ceiling fr d
        → IsResponseTo q fr.bytes
        → IsCoherent w.state.cache
        → IsCoherent (carry_directive moka now later q d w).state.cache
    unfolding carry_directive
    carry_directive-IsCoherent is_map now later ceiling q fr _ w (unreadable _) h i = i
    carry_directive-IsCoherent is_map now later ceiling q fr _ w (without_negative_ttl _ _) h i = i
    carry_directive-IsCoherent is_map now later ceiling q fr _ w (without_field _ _ _ _) h i = i
    carry_directive-IsCoherent is_map now later ceiling q fr _ w (negative s t lifetime e _ _ _) h
          i =
        stored-IsCoherent is_map later q fr.bytes s lifetime w.state.cache h e i
    carry_directive-IsCoherent is_map now later ceiling q fr _ w (positive s t e _ _) h i =
        stored-IsCoherent is_map later q fr.bytes s t w.state.cache h e i

  carry_directive-rules :
      {C T : Type 0} (moka : Moka C) (now later : ℕ) (q : Question) (d : CacheDirective)
      (w : World C T)
      → rules_of (carry_directive moka now later q d w).state ≡ rules_of w.state
  unfolding carry_directive
  carry_directive-rules moka now later q (store bytes offsets expiry) w = refl
  carry_directive-rules moka now later q skip w = refl

  from_cache-IsReply :
      {T : Type 0} (forward : Exchange T) (rules : Rules) (edns : Option EdnsInfo) (secs : ℕ)
      (q : Query) (v : CachedResponse)
      → q.header.id < 65536
      → IsEntry q.question v
      → IsReply forward rules q edns (new_response (patched_for v q.header.id secs) Outcome.cached)
  from_cache-IsReply forward rules edns secs q v hi entry =
      let id = q.header.id in
      let long = scan-length v.bytes entry.scanned in
      let found = scan-IsScan v.bytes entry.scanned in
      let served =
        patched_for-IsServed v id secs (omega (arith, long)) entry.response.octets
          (rw entry.offsets found.apart) (rw entry.offsets found.before) in
      from_cache v secs entry refl
        (IsServed-be_u16 v id secs _ hi (omega (arith, long, served.size)) served) served

  reply_to-IsReply :
      {T : Type 0} (forward : Exchange T) (rules : Rules) (req : DnsRequest)
      (settings : RuntimeSettings) (t : T) (result : Result UpstreamError ForwardResult)
      → req.query.header.id < 65536
      → (forward req.forward_target req.query.question t).0 ≡ result
      → ((fr : ForwardResult) → result ≡ ok fr → IsResponseTo req.query.question fr.bytes)
      → IsReply forward rules req.query req.edns (reply_to req settings result).reply
  unfolding reply_to error_response
  reply_to-IsReply forward rules req settings t (ok fr) hi e h =
      relayed req.forward_target t fr e (h fr refl) refl refl
        (with_txn_id-Carries req.query.header.id fr.bytes hi)
        (length-with_txn_id req.query.header.id fr.bytes)
        (drop-with_txn_id req.query.header.id fr.bytes)
  reply_to-IsReply forward rules req settings t (err x) hi e h =
      failed req.forward_target t (λ fr k. cc (sym e ∙ k)) refl
        (build-be_u16 req.query serv_fail false [] req.edns hi)
  reply_to-IsReply forward rules req settings t out_of_fuel hi e h =
      failed req.forward_target t (λ fr k. cc (sym e ∙ k)) refl
        (build-be_u16 req.query serv_fail false [] req.edns hi)

  -- A service has replied, the cache is coherent, and the rules are as before.
  pub record IsServedBy {C T : Type 0} (moka : Moka C) (forward : Exchange T) (rules : Rules)
      (q : Query) (edns : Option EdnsInfo) (out : Result BoxError PipelineResponse × World C T)
      : Type 0 where
    pub r : PipelineResponse
    pub replied : out.0 ≡ ok r
    pub is_reply : IsReply forward rules q edns r
    pub coherent : IsCoherent moka out.1.state.cache
    pub fixed : rules_of out.1.state ≡ rules

  module _ {C T : Type 0} (moka : Moka C) (is_map : IsMap moka) (forward : Exchange T)
      (honest : IsHonest forward) where
    after_miss-IsServedBy :
        (now later : ℕ) (req : DnsRequest) (w : World C T)
        → req.query.header.id < 65536
        → IsCoherent moka w.state.cache
        → IsServedBy moka forward
            (rules_of w.state)
            req.query
            req.edns
            (after_miss moka now later req.query.question (forward_call forward req w))
    unfolding after_miss forward_call
    after_miss-IsServedBy now later req w hi i =
        let q = req.query.question in
        let exchanged = forward req.forward_target q w.network in
        record {
          r = (reply_to req w.state.settings exchanged.0).reply;
          replied = refl;
          is_reply =
              reply_to-IsReply forward (rules_of w.state) req w.state.settings w.network exchanged.0
                hi refl (λ fr e. honest req.forward_target q w.network fr e);
          coherent = elim (Result-cases exchanged.0) [
            | inl (fr, e) ↦
                rw (e, reply_to)
                  (carry_directive-IsCoherent moka is_map now later
                    w.state.settings.negative_ttl_cap q fr _ _
                    (directive_for-IsPolicy w.state.settings fr)
                    (honest req.forward_target q w.network fr e) i)
            | inr (inl (x, e)) ↦ rw (e, reply_to) i
            | inr (inr e) ↦ rw (e, reply_to) i
          ];
          fixed =
              carry_directive-rules moka now later q
                (reply_to req w.state.settings exchanged.0).directive
                (record w { network = exchanged.1 });
        }

    pub cached_call-IsServedBy :
        (now later : ℕ) (req : DnsRequest) (w : World C T)
        → req.query.header.id < 65536
        → IsCoherent moka w.state.cache
        → IsServedBy moka forward
            (rules_of w.state)
            req.query
            req.edns
            (cached_call moka now later (forward_call forward) req w)
    unfolding cached_call Cache.get
    cached_call-IsServedBy now later req w hi i =
        elim (Option-cases (moka.get w.state.cache.inner req.query.question)) [
          | inr (v, hit) ↦
              rw (hit, cached_call, Cache.get)
                (record {
                  r = _;
                  replied = refl;
                  is_reply =
                      from_cache-IsReply forward _ _ (elapsed_secs moka now v) req.query v hi
                        (i _ v hit);
                  coherent = i;
                  fixed = refl;
                })
          | inl miss ↦
              rw (miss, cached_call, Cache.get) (after_miss-IsServedBy now later req w hi i)
        ]
