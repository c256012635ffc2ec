-- ===== src/Web/Tests.antt =====
-- Runs of the settings form, of the session check and of the guard on concrete requests.
use sagittarius.Prelude.{ℕ, ◌+◌, ◌≡◌, refl, true, none, some, [], ◌∷◌, ◌++◌}
use sagittarius.Codec.Reader.{Bytes}
use sagittarius.Resolver.Tests.Requests.{Slot, blocking}
use sagittarius.Storage.Sqlite.{SessionRecord, Db}
use sagittarius.Storage.Sessions.{find, session_row}
use sagittarius.Storage.Tests.{plain_texts}
use sagittarius.Blocklist.Tests.Refresh.{two_sources}
use sagittarius.Web.Crypto.{ct_eq, to_hex}
use sagittarius.Web.Http.{Request, post, cookie_name, cookie_insecure, host_name}
use sagittarius.Web.Origin.{auto}
use sagittarius.Web.Auth.{CurrentUser, current_user, from_headers}
use sagittarius.Web.Auth.Live.{Checked, current_user-Checked}
use sagittarius.Web.Csrf.{Crates, guard}
use sagittarius.Web.Csrf.Guarded.{Guarded, guard-Guarded}
use sagittarius.Web.Upstreams.{Outside, AppState}
use sagittarius.Web.Settings.{SettingsForm}
use sagittarius.Web.Settings.Applied.{Applied}

abbrev form : SettingsForm
form = record {
  cache_min_ttl = 60;
  cache_max_ttl = 3600;
  cache_negative_ttl_cap = 300;
  cache_capacity = 1000;
  blocking_mode = b'n' ∷ b'x' ∷ b'd' ∷ b'o' ∷ b'm' ∷ b'a' ∷ b'i' ∷ b'n' ∷ [];
  custom_block_ipv4 = [];
  custom_block_ipv6 = [];
  blocklist_refresh_interval = 86400;
  query_log_enabled = none;
  query_log_retention_days = 7;
  upstream_selection_strategy = b'p' ∷ b'a' ∷ b'r' ∷ b'a' ∷ b'l' ∷ b'l' ∷ b'e' ∷ b'l' ∷ [];
  upstream_parallel_fanout = 2;
}

abbrev outside : Outside ℕ ℕ ℕ
outside = record {
  std = plain_texts;
  socket_from_str = λ s. none;
  ip_from_str = λ s. none;
  random_selector = λ o. 0 ∷ [];
  latency_weighted_selector = λ o. 0 ∷ [];
  connect = λ c n. (some n, n + 1);
}

abbrev app : AppState Slot ℕ ℕ ℕ
app = record {
  db = record { tables = two_sources; faults = [] };
  resolver = blocking;
  upstream_pool = record {
    inner = record { clients = []; selector = λ o. []; max_attempts = 2; parallel_fanout = none };
    health = [];
  };
  net = 0;
}

abbrev digest : Bytes → Bytes
digest b = b

-- The session `i` with the token `t`.
abbrev session : SessionRecord
session = record {
  id = b'i' ∷ [];
  token_hash = b'7' ∷ b'4' ∷ [];
  user_id = 1;
  created_at = 1000;
  expires_at = 600000;
}

abbrev with_session : Db
with_session = record { tables = record two_sources { sessions = session ∷ [] }; faults = [] }

abbrev saving : Request
saving = record {
  method = post;
  path = b'/' ∷ [];
  headers =
      (cookie_name, some (cookie_insecure ++ (b'=' ∷ b'i' ∷ b'.' ∷ b't' ∷ [])))
      ∷ (host_name, some (b'h' ∷ []))
      ∷ [];
  body = some [];
}

abbrev user : CurrentUser
user = record { user_id = 1; session_id = b'i' ∷ [] }

is_user : (current_user digest 2000 saving.headers with_session).0 ≡ some user
unfolding current_user from_headers find session_row ct_eq to_hex
is_user = refl

current_user-Checked_example :
    Checked digest 2000 saving.headers with_session
      (current_user digest 2000 saving.headers with_session)
current_user-Checked_example = current_user-Checked digest 2000 saving.headers with_session

abbrev crates : Crates
crates = record { hmac = λ s. s; sha256 = digest; json_field = λ b k. none; is_utf8 = λ b. true }

guard-Guarded_example :
    Guarded crates auto 2000 saving with_session (guard crates auto 2000 saving with_session).0
guard-Guarded_example = guard-Guarded crates auto 2000 saving with_session
