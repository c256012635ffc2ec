-- ===== src/Resolver/Pipeline.antt =====
-- The values that the layers of src/resolver/pipeline pass (src/resolver/pipeline/mod.rs), and what a
-- layer is: a function of a request and of the state that all layers share.
pub mod Decide
pub mod CacheLayer
pub mod Forward
pub mod Middleware
pub mod Engine
pub mod Listener
use sagittarius.Prelude.{Bool, true, false, Option, none, some}
use sagittarius.Codec.Error.{Result}
use sagittarius.Codec.Reader.{Bytes}
use sagittarius.Codec.Header.{Rcode, serv_fail}
use sagittarius.Codec.Message.{Query}
use sagittarius.Codec.Edns
use sagittarius.Codec.Edns.{EdnsInfo}
use sagittarius.Resolver.State.{SocketAddr}

pub record DnsRequest : Type 0 where
  pub query : Query
  pub client : SocketAddr
  pub edns : Option EdnsInfo
  pub allow_bypass : Bool
  pub forward_target : Option SocketAddr

-- `DnsRequest::new`
unfoldable pub new_request : Query → SocketAddr → DnsRequest
new_request query client = record {
  query = query;
  client = client;
  edns = Edns.scan query;
  allow_bypass = false;
  forward_target = none;
}

abbrev pub set_allow_bypass : Bool → DnsRequest → DnsRequest
set_allow_bypass value req = record req { allow_bypass = value }

abbrev pub set_forward_target : SocketAddr → DnsRequest → DnsRequest
set_forward_target target req = record req { forward_target = some target }

pub data Outcome : Type 0 where
  local local_no_data blocked_by_admin blocked_by_blocklist cached forwarded refused formerr
        servfail error :
      Outcome

pub data LogAction : Type 0 where
  block unblock : LogAction

unfoldable pub is_blocked : Outcome → Bool
is_blocked blocked_by_admin = true
is_blocked blocked_by_blocklist = true
is_blocked _ = false

unfoldable pub log_action : Outcome → Option LogAction
log_action cached = some block
log_action forwarded = some block
log_action blocked_by_admin = some unblock
log_action blocked_by_blocklist = some unblock
log_action _ = none

pub record PipelineResponse : Type 0 where
  pub bytes : Bytes
  pub outcome : Outcome
  pub upstream : Option SocketAddr

abbrev pub new_response : Bytes → Outcome → PipelineResponse
new_response bytes outcome = record { bytes = bytes; outcome = outcome; upstream = none }

abbrev pub with_upstream : SocketAddr → PipelineResponse → PipelineResponse
with_upstream upstream r = record r { upstream = some upstream }

-- The errors behind a `BoxError` that the code tells apart: of the rate limiter, of tower's load
-- shedding, of its timeout, and any other.
pub data BoxError : Type 0 where
  rate_limited overloaded elapsed other : BoxError

-- A tower service: what it answers, and the state that it leaves.
abbrev pub Service : Type 0 → Type 0 → Type 0
Service W A = DnsRequest → W → Result BoxError A × W
