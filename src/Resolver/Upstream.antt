-- ===== src/Resolver/Upstream.antt =====
-- The upstream values of src/resolver/upstream/mod.rs and src/resolver/upstream/forward.rs.
pub mod Health
pub mod Pool
pub mod Order
use sagittarius.Prelude.{ℕ, Bool, Option}
use sagittarius.Codec.Reader.{Bytes}
use sagittarius.Resolver.State.{SocketAddr}

pub data UpstreamTransport : Type 0 where
  udp tcp dot doh : UpstreamTransport

-- `upstream::Error`, whose texts and sources are the library's.
pub data UpstreamError : Type 0 where
  connect : UpstreamTransport → UpstreamError
  invalid_server_name : UpstreamError
  transport : UpstreamError
  timeout : UpstreamTransport → UpstreamError
  exchange : UpstreamTransport → UpstreamError
  all_upstreams_failed : ℕ → UpstreamError

-- `latency` in milliseconds.
pub record ForwardResult : Type 0 where
  pub bytes : Bytes
  pub negative_ttl : Option ℕ
  pub is_negative : Bool
  pub upstream : SocketAddr
  pub latency : ℕ

-- `f64`: the processor's operations, and what the standard library converts to it. `ratio a b` is
-- the literal a/b.
pub record Floats (F : Type 0) : Type 0 where
  pub add : F → F → F
  pub sub : F → F → F
  pub mul : F → F → F
  pub div : F → F → F
  pub greater : F → F → F
  pub at_most : F → F → Bool
  pub ratio : ℕ → ℕ → F
  pub from_u64 : ℕ → F
  pub as_secs_f64 : ℕ → F
