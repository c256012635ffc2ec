-- ===== src/Resolver/Tests/Listening.antt =====
-- Runs of the listener's handlers on concrete datagrams and streams.
use sagittarius.Prelude.{ℕ, zero, suc, ◌+◌, ◌≡◌, refl, List, [], ◌∷◌, arith}
use sagittarius.Codec.Error.{ok, Returns}
use sagittarius.Codec.Reader.{Bytes}
use sagittarius.Resolver.Pipeline.{new_request, PipelineResponse, new_response, Outcome, Service}
use sagittarius.Resolver.Pipeline.Listener.{run_service, handle_datagram, handle_connection}
use sagittarius.Resolver.Pipeline.Listener.Fits.{IsSent, handle_datagram-IsSent}
use sagittarius.Resolver.Pipeline.Listener.Stream.{
  framed_stream, answer_all, handle_connection-Returns, handle_connection-answer_all,
}
use sagittarius.Resolver.Tests.{are_octets_lem}
use sagittarius.Resolver.Tests.Requests.{home}

-- A request for `a.b`, type A.
abbrev datagram : Bytes
datagram =
    0xbe ∷ 0xef ∷ 1 ∷ 0 ∷ 0 ∷ 1 ∷ 0 ∷ 0 ∷ 0 ∷ 0 ∷ 0 ∷ 0 ∷ 1 ∷ b'a' ∷ 1 ∷ b'b' ∷ 0 ∷ 0 ∷ 1 ∷ 0 ∷ 1
    ∷ []

abbrev sevens : ℕ → Bytes
sevens zero = []
sevens (suc n) = 7 ∷ sevens n

-- A service whose replies do not fit into a datagram, and which counts them.
abbrev talkative : Service ℕ PipelineResponse
talkative = λ req w. (ok (new_response (sevens 513) Outcome.forwarded), w + 1)

handle_datagram-IsSent_example :
    IsSent datagram
      (λ q. (run_service talkative (new_request q home) 0).0)
      (handle_datagram talkative datagram home 0).0
handle_datagram-IsSent_example =
    handle_datagram-IsSent talkative datagram home 0 (are_octets_lem datagram refl)

-- A request and octets that are no message.
abbrev messages : List Bytes
messages = datagram ∷ (1 ∷ 2 ∷ 3 ∷ []) ∷ []

handle_connection-answer_all_example :
    handle_connection talkative 100 8 home (framed_stream messages) 0
    ≡ ok (answer_all talkative home 8 messages 0)
handle_connection-answer_all_example =
    handle_connection-answer_all talkative home messages 100 8 0 (omega arith, (omega arith, tt))
      (omega arith)

handle_connection-Returns_example :
    Returns (handle_connection talkative 4 8 home (0 ∷ 9 ∷ 1 ∷ []) 0)
handle_connection-Returns_example =
    handle_connection-Returns talkative home 4 8 (0 ∷ 9 ∷ 1 ∷ []) 0 (omega arith)
