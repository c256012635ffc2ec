-- ===== src/Resolver/Pipeline/Listener/Fits.antt =====
-- What `handle_datagram` of src/resolver/pipeline/listener.rs sends.
use sagittarius.Prelude.{
  ◌≤◌, ◌<◌, ◌≡◌, refl, sym, ap, ◌∙◌, inl, inr, true, Option, none, some, [], ◌∷◌, ◌++◌, arith, ltb,
  ltb→lt, ltb→le, Bool-cases, Option-cases, length, take, length-append,
}
use sagittarius.Codec.Error.{ok, err, Result-cases}
use sagittarius.Codec.Reader.{Bytes, be_u16}
use sagittarius.Codec.Header
use sagittarius.Codec.Header.{Header, Rcode, not_impl, with_rcode, with_qr}
use sagittarius.Codec.Writer
use sagittarius.Codec.Header.Wire.{write-header_bytes}
use sagittarius.Resolver.Cache.Patch.{AreOctets}
use sagittarius.Codec.Edns
use sagittarius.Codec.Edns.{EdnsInfo}
use sagittarius.Codec.Edns.Cookie.{IsCookie, scan-IsCookie}
use sagittarius.Codec.Message.{
  Query, ParseError, RejectAction, drop_silently, form_err, not_imp, reject_action, parse,
  question_wire,
}
use sagittarius.Codec.Message.Extent.{parse-IsParsed, length-question_wire}
use sagittarius.Codec.Message.Total
use sagittarius.Codec.Synth.{truncated, formerr, notimp}
use sagittarius.Codec.Synth.Layout.{opt_bytes, IsResponse-length}
use sagittarius.Codec.Synth.Replies.{build_tc-IsResponse}
use sagittarius.Resolver.State.{SocketAddr}
use sagittarius.Resolver.Pipeline.{new_request, PipelineResponse, Service}
use sagittarius.Resolver.Pipeline.Listener.{
  udp_reply_limit, reject_reply, run_service, cut_reply, handle_datagram,
}

length-opt_bytes :
    (e : Option EdnsInfo)
    → ((i : EdnsInfo) (c : Bytes) → e ≡ some i → i.cookie ≡ some c → IsCookie c)
    → length (opt_bytes e) ≤ 55
length-opt_bytes none h = omega arith
length-opt_bytes (some i) h = elim (Option-cases i.cookie) [
  | inl e ↦ rw e (omega arith)
  | inr (c, e) ↦ rw e (elim (h i c refl e) [
    | inl eight ↦ omega (arith, eight)
    | inr some_more ↦ omega (arith, some_more)
  ])
]

-- The limit lies between the classic size and the resolver's own maximum.
udp_reply_limit_lem : (e : Option EdnsInfo) → (512 ≤ udp_reply_limit e) × (udp_reply_limit e ≤ 1232)
unfolding udp_reply_limit
udp_reply_limit_lem none = (omega arith, omega arith)
udp_reply_limit_lem (some i) = (omega arith, omega arith)

length-truncated :
    (raw : Bytes) {q : Query}
    → q.header.id < 65536
    → parse raw ≡ ok q
    → length (truncated q (Edns.scan q)) ≤ 326
length-truncated raw {q} hi h = omega (
  arith,
  IsResponse-length (build_tc-IsResponse q (Edns.scan q) hi),
  length-append (question_wire q) ([] ++ opt_bytes (Edns.scan q)),
  length-question_wire raw h,
  length-opt_bytes (Edns.scan q) (λ i c e k. scan-IsCookie q e k),
)

word_fits : (l : Bytes) → AreOctets l → be_u16 (take 2 l) < 65536
word_fits [] h = omega arith
word_fits (a ∷ []) h = omega arith
word_fits (a ∷ b ∷ l) h = omega (arith, h.0, h.1.0)

pub id_fits : (raw : Bytes) {q : Query} → AreOctets raw → parse raw ≡ ok q → q.header.id < 65536
id_fits raw {q} octets h =
    omega
      (arith, ap (λ (x : Header). x.id) (parse-IsParsed raw h).same_header, word_fits raw octets)

length-reject_reply :
    (a : RejectAction) {reply : Bytes} → reject_reply a ≡ some reply → length reply ≡ 12
unfolding reject_reply formerr notimp
length-reject_reply drop_silently h = cc
length-reject_reply (form_err id) {reply} h =
    let same : formerr id ≡ reply = cc in
    sym (ap length same)
    ∙ ap length
        (write-header_bytes (with_rcode Rcode.form_err (with_qr true (Header.new id))) Writer.new)
length-reject_reply (not_imp id) {reply} h =
    let same : notimp id ≡ reply = cc in
    sym (ap length same)
    ∙ ap length (write-header_bytes (with_rcode not_impl (with_qr true (Header.new id))) Writer.new)

module _ (raw : Bytes) (served : Query → Bytes) where
  -- What is sent for a datagram, if the service has replied `served`.
  pub data IsSent : Option Bytes → Type 0 where
    whole :
        (q : Query)
        → parse raw ≡ ok q
        → length (served q) ≤ udp_reply_limit (Edns.scan q)
        → IsSent (some (served q))
    cut :
        (q : Query)
        → parse raw ≡ ok q
        → udp_reply_limit (Edns.scan q) < length (served q)
        → length (truncated q (Edns.scan q)) ≤ udp_reply_limit (Edns.scan q)
        → IsSent (some (truncated q (Edns.scan q)))
    rejected :
        (e : ParseError) (reply : Bytes)
        → parse raw ≡ err e
        → reject_reply (reject_action e) ≡ some reply
        → length reply ≡ 12
        → IsSent (some reply)
    silent :
        (e : ParseError) → parse raw ≡ err e → reject_reply (reject_action e) ≡ none → IsSent none

module _ {W : Type 0} (service : Service W PipelineResponse) where
  -- A datagram of octets leads to the service's reply, if it fits the limit for the query's EDNS
  -- record, to a truncated response that fits it, if not, and, where it does not parse, to a bare
  -- header of twelve octets or to nothing.
  pub handle_datagram-IsSent :
      (raw : Bytes) (peer : SocketAddr) (w : W)
      → AreOctets raw
      → IsSent raw
          (λ q. (run_service service (new_request q peer) w).0)
          (handle_datagram service raw peer w).0
  unfolding handle_datagram cut_reply new_request
  handle_datagram-IsSent raw peer w octets = elim (Result-cases (parse raw)) [
    | inr (inr e) ↦ absurd (elim (rw e at (Total.parse-Returns raw)) [ ])
    | inr (inl (x, e)) ↦ elim (Option-cases (reject_reply (reject_action x))) [
      | inl none_sent ↦ rw (e, handle_datagram, none_sent) (silent x e none_sent)
      | inr (reply, sent) ↦
          rw (e, handle_datagram, sent)
            (rejected x reply e sent (length-reject_reply (reject_action x) sent))
    ]
    | inl (q, e) ↦
        let reply = (run_service service (new_request q peer) w).0 in
        elim (Bool-cases (ltb (udp_reply_limit (Edns.scan q)) (length reply))) [
          | inl long ↦
              rw (e, handle_datagram, long)
                (cut q e (ltb→lt _ _ long) (
                  omega (
                    arith,
                    length-truncated raw (id_fits raw octets e) e,
                    (udp_reply_limit_lem (Edns.scan q)).0,
                  )))
          | inr short ↦ rw (e, handle_datagram, short) (whole q e (ltb→le _ _ short))
        ]
  ]
