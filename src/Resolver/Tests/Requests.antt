-- ===== src/Resolver/Tests/Requests.antt =====
-- Runs of the decision layer, the cache layer and the services on concrete requests.
use sagittarius.Prelude.{
  ℕ, ◌+◌, ◌≡◌, Bool, true, false, ◌&&◌, Option, none, some, List, [], ◌∷◌, equal, if◌then◌else◌,
}
use sagittarius.Codec.Error.{ok}
use sagittarius.Codec.Reader.{Bytes}
use sagittarius.Codec.Name.Reverse.{v4}
use sagittarius.Codec.Message.{Question, Qtype, a, Qclass, internet, Query}
use sagittarius.Codec.Message.RoundTrip.{message}
use sagittarius.Codec.Synth.{nx_domain}
use sagittarius.Codec.Tests.{name_a_b, request}
use sagittarius.Codec.Tests.Answers.{one_record}
use sagittarius.Resolver.Cache.{CachedResponse, Moka, new}
use sagittarius.Resolver.Upstream.{ForwardResult}
use sagittarius.Resolver.State.{ResolverState, RuntimeSettings, SocketAddr, latency_weighted}
use sagittarius.Resolver.Pipeline.{
  DnsRequest, new_request, PipelineResponse, new_response, Outcome, Service,
}
use sagittarius.Resolver.Pipeline.Decide.{World, decide}
use sagittarius.Resolver.Pipeline.Decide.Verdict.{Verdict, Decides, carry_out, decide-Decides}
use sagittarius.Resolver.Pipeline.Forward.{directive_for}
use sagittarius.Resolver.Pipeline.Forward.Sound.{IsPolicy, directive_for-IsPolicy}
use sagittarius.Resolver.Pipeline.Engine.{Times}
use sagittarius.Resolver.Pipeline.Engine.Sound.{Exchange}
use sagittarius.Resolver.Tests.{asked}

-- A cache of one entry, for questions of type A in the class of the Internet.
abbrev is_a : Qtype → Bool
is_a a = true
is_a _ = false

abbrev is_internet : Qclass → Bool
is_internet internet = true
is_internet _ = false

abbrev address_question : Bytes → Question
address_question n = record { name = record { inner = n }; qtype = a; qclass = internet }

abbrev is_address_question : Question → Bool
is_address_question q = is_a q.qtype && is_internet q.qclass

abbrev same_question : Question → Question → Bool
same_question q k =
    (is_address_question q && is_address_question k) && equal q.name.inner k.name.inner

abbrev pub Slot : Type 0
Slot = Option (Question × CachedResponse)

abbrev get_slot : Slot → Question → Option CachedResponse
get_slot none q = none
get_slot (some (k, v)) q = if same_question q k then some v else none

abbrev pub one_slot : Moka Slot
one_slot = record { insert = λ s k v. some (k, v); get = get_slot; invalidate_all = λ s. none }

abbrev settings : RuntimeSettings
settings = record {
  cache_min_ttl = 60;
  cache_max_ttl = 3600;
  cache_capacity = 10;
  negative_ttl_cap = 30;
  block_mode = nx_domain;
  blocklist_refresh_interval = 86400;
  query_log_enabled = true;
  query_log_retention_days = 7;
  upstream_selection_strategy = latency_weighted;
  upstream_parallel_fanout = 2;
}

-- `a.b` is blacklisted.
abbrev pub blocking : ResolverState Slot
blocking = record {
  blacklist = name_a_b.inner ∷ [];
  allowlist = [];
  blocklist = [];
  local = record { exact = []; wildcard = []; reverse = [] };
  cache = new one_slot none 60 3600;
  settings = settings;
  forward_zones = [];
  paused_until = 0;
}

abbrev pub home : SocketAddr
home = record { ip = v4 (10 ∷ 0 ∷ 0 ∷ 9 ∷ []); port = 53 }

abbrev query_a_b : Query
query_a_b = record {
  raw = message request asked [];
  header = request;
  question = asked;
  question_end = 21;
}

abbrev req_a_b : DnsRequest
req_a_b = new_request query_a_b home

-- An upstream that always answers with the record above.
abbrev pub answer : ForwardResult
answer = record {
  bytes = one_record;
  negative_ttl = none;
  is_negative = false;
  upstream = home;
  latency = 12;
}

abbrev upstream : Exchange ℕ
upstream = λ target q t. (ok answer, t + 1)

abbrev IsAnswer : Question → Bytes → Type 0
IsAnswer q bytes = bytes ≡ one_record

abbrev world : World Slot ℕ
world = record { state = record blocking { blacklist = [] }; network = 0 }

abbrev at_noon : Times
at_noon = record { gate = 43200; lookup = 43200; insert = 43201 }

-- The second request is a hit.
abbrev twice : List (Times × DnsRequest)
twice = (at_noon, req_a_b) ∷ (at_noon, req_a_b) ∷ []

abbrev inner : Service (World Slot ℕ) PipelineResponse
inner = λ req w. (ok (new_response one_record Outcome.forwarded), w)

decide-Decides_example :
    (v : Verdict) × Decides 43200 blocking req_a_b v
    × (decide 43200 inner req_a_b (record { state = blocking; network = 0 })
        ≡ carry_out inner (record { state = blocking; network = 0 }) v)
decide-Decides_example =
    decide-Decides 43200 inner req_a_b (record { state = blocking; network = 0 })

directive_for-IsPolicy_example : IsPolicy 30 answer (directive_for settings answer)
directive_for-IsPolicy_example = directive_for-IsPolicy settings answer
