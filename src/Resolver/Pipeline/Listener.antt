-- ===== src/Resolver/Pipeline/Listener.antt =====
-- The listener's handlers of src/resolver/pipeline/listener.rs. A UDP handler returns the datagram that
-- it sends, if any; a TCP handler reads a stream of bytes and returns the frames that it writes.
pub mod Fits
pub mod Stream
use sagittarius.Prelude.{
  ℕ, zero, suc, min, max, Option, none, some, List, [], ◌∷◌, ltb, if◌then◌else◌, length, take, drop,
}
use sagittarius.Codec.Error.{Result, ok, err, out_of_fuel, ◌>>=◌}
use sagittarius.Codec.Reader.{Bytes, be_u16}
use sagittarius.Codec.Header.{serv_fail}
use sagittarius.Codec.Framing.{try_encode_length_prefix}
use sagittarius.Codec.Message.{
  Query, ParseError, RejectAction, drop_silently, form_err, not_imp, reject_action, parse,
}
use sagittarius.Codec.Edns.{EdnsInfo}
use sagittarius.Codec.Synth.{formerr, notimp, error_response, truncated}
use sagittarius.Resolver.State.{SocketAddr}
use sagittarius.Resolver.Pipeline.{DnsRequest, new_request, PipelineResponse, BoxError, Service}
use sagittarius.Resolver.Pipeline.Middleware.{rejection_policy}

abbrev pub udp_default_limit : ℕ
udp_default_limit = 512

abbrev pub udp_max_limit : ℕ
udp_max_limit = 1232

abbrev pub advertised : Option EdnsInfo → ℕ
advertised none = udp_default_limit
advertised (some e) = max e.udp_payload_size udp_default_limit

-- `udp_reply_limit`
unfoldable pub udp_reply_limit : Option EdnsInfo → ℕ
udp_reply_limit edns = min (advertised edns) udp_max_limit

-- The bytes for what the service returned.
unfoldable pub reply_bytes : DnsRequest → Result BoxError PipelineResponse → Bytes
reply_bytes req (ok r) = r.bytes
reply_bytes req (err e) = error_response req.query (rejection_policy e).1 req.edns
reply_bytes req out_of_fuel = []

-- The reply to a datagram that does not parse.
unfoldable pub reject_reply : RejectAction → Option Bytes
reject_reply drop_silently = none
reject_reply (form_err id) = some (formerr id)
reject_reply (not_imp id) = some (notimp id)

-- What one message on a connection leads to: its end, or a frame.
pub data Next (W : Type 0) : Type 0 where
  close : W → Next W
  written : Bytes → W → Next W

-- `try_encode_length_prefix(&reply)`, or the end of the connection.
unfoldable pub frame_reply : {W : Type 0} → Bytes → W → Next W
frame_reply reply w = elim (try_encode_length_prefix reply) [
  | ok framed ↦ written framed w
  | _ ↦ close w
]

module _ {W : Type 0} (service : Service W PipelineResponse) where
  -- `ServeLoop::run_service`
  unfoldable pub run_service : DnsRequest → W → Bytes × W
  unfolding reply_bytes
  run_service req w = let (result, w') = service req w in (reply_bytes req result, w')

  -- The truncation of `handle_datagram`.
  unfoldable pub cut_reply : DnsRequest → Bytes → Bytes
  unfolding udp_reply_limit
  cut_reply req reply =
      if ltb (udp_reply_limit req.edns) (length reply) then truncated req.query req.edns else reply

  -- `ServeLoop::handle_datagram`
  unfoldable pub handle_datagram : Bytes → SocketAddr → W → Option Bytes × W
  handle_datagram raw peer w = elim (parse raw) [
    | ok query ↦
        let req = new_request query peer in
        let (reply, w') = run_service req w in (some (cut_reply req reply), w')
    | err e ↦ (reject_reply (reject_action e), w)
    | out_of_fuel ↦ (none, w)
  ]

  -- Parse, service, reply.
  unfoldable pub answer_message : Bytes → SocketAddr → W → Next W
  unfolding frame_reply
  answer_message raw peer w = elim (parse raw) [
    | ok query ↦ let (reply, w') = run_service (new_request query peer) w in frame_reply reply w'
    | err e ↦ elim (reject_reply (reject_action e)) [
      | none ↦ close w
      | some reply ↦ frame_reply reply w
    ]
    | out_of_fuel ↦ close w
  ]

  -- `ServeLoop::handle_connection`. `input` is what the connection delivers until it is at its end,
  -- idle, broken or shut down, which all close it; the peer takes `room` frames before a write fails.
  -- A round reads two octets at least.
  unfoldable pub handle_connection :
      ℕ → ℕ → SocketAddr → Bytes → W → Result BoxError (List Bytes × W)
  unfolding answer_message
  handle_connection zero room peer input w = out_of_fuel
  handle_connection (suc fuel) room peer input w =
      let msg_len = be_u16 (take 2 input) in
      let body = drop 2 input in
      if ltb (length input) 2
      then ok ([], w)
      else if ltb (length body) msg_len
      then ok ([], w)
      else elim (answer_message (take msg_len body) peer w) [
        | close w' ↦ ok ([], w')
        | written framed w' ↦ elim room [
          | zero ↦ ok ([], w')
          | suc room' ↦ do
            (frames, w'') ← handle_connection fuel room' peer (drop msg_len body) w'
            ok (framed ∷ frames, w'')
        ]
      ]
