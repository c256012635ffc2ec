-- ===== src/Storage/Upstreams.antt =====
-- The enabled upstreams of src/storage/upstreams.rs, and their configurations of
-- src/resolver/pipeline/engine.rs.
use sagittarius.Prelude.{
  ℕ, Bool, true, false, Option, none, some, List, [], ◌∷◌, leb, equal, if◌then◌else◌,
}
use sagittarius.Codec.Error.{Result, ok, err, ◌>>=◌}
use sagittarius.Codec.Name.Reverse.{IpAddr}
use sagittarius.Blocklist.Parse.{Text}
use sagittarius.Resolver.State.{ℤ, pos, negsuc, SocketAddr}
use sagittarius.Storage.Sqlite.{StorageError, decode_text, UpstreamRow, Db, execute, execute_on}

pub data Transport : Type 0 where
  udp tcp dot doh : Transport

pub record Upstream : Type 0 where
  pub id : ℕ
  pub address : Text
  pub transport : Transport
  pub tls_server_name : Option Text
  pub enabled : Bool
  pub sort_order : ℤ

-- `Transport::from_str`
unfoldable pub transport_from_str : Text → Result StorageError Transport
transport_from_str s =
    if equal s (b'u' ∷ b'd' ∷ b'p' ∷ [])
    then ok udp
    else if equal s (b't' ∷ b'c' ∷ b'p' ∷ [])
    then ok tcp
    else if equal s (b'd' ∷ b'o' ∷ b't' ∷ [])
    then ok dot
    else if equal s (b'd' ∷ b'o' ∷ b'h' ∷ [])
    then ok doh
    else err (decode_text s)

-- `Upstream::try_from`
unfoldable pub upstream_from_row : UpstreamRow → Result StorageError Upstream
upstream_from_row row = do
  transport ← transport_from_str row.transport
  ok (record {
    id = row.id;
    address = row.address;
    transport = transport;
    tls_server_name = row.tls_server_name;
    enabled = row.enabled;
    sort_order = row.sort_order;
  })

unfoldable pub rows_to_upstreams : List UpstreamRow → Result StorageError (List Upstream)
rows_to_upstreams [] = ok []
rows_to_upstreams (row ∷ rows) = do
  upstream ← upstream_from_row row
  upstreams ← rows_to_upstreams rows
  ok (upstream ∷ upstreams)

abbrev pub leq : ℤ → ℤ → Bool
leq (pos m) (pos n) = leb m n
leq (pos m) (negsuc n) = false
leq (negsuc m) (pos n) = true
leq (negsuc m) (negsuc n) = leb n m

-- `ORDER BY sort_order`; rows of one order stay in that of their ids.
unfoldable pub insert_sorted : UpstreamRow → List UpstreamRow → List UpstreamRow
insert_sorted row [] = row ∷ []
insert_sorted row (r ∷ rows) =
    let rest = insert_sorted row rows in
    if leq row.sort_order r.sort_order then row ∷ r ∷ rows else r ∷ rest

unfoldable pub enabled_sorted : List UpstreamRow → List UpstreamRow
unfolding insert_sorted
enabled_sorted [] = []
enabled_sorted (row ∷ rows) =
    let rest = enabled_sorted rows in if row.enabled then insert_sorted row rest else rest

-- `SqliteUpstreamRepo::list_enabled`
unfoldable pub list_enabled_upstreams : Db → Result StorageError (List Upstream) × Db
unfolding execute_on
list_enabled_upstreams db =
    let (rows, db') = execute (λ t. ok (enabled_sorted t.upstreams, t)) db in
    (rows >>= rows_to_upstreams, db')

-- `UpstreamConfig` of src/resolver/upstream/mod.rs; its transport has the cases of a stored one.
pub record UpstreamConfig : Type 0 where
  pub addr : SocketAddr
  pub transport : Transport
  pub tls_server_name : Option Text
  pub http_endpoint : Option Text

unfoldable pub default_port : Transport → ℕ
default_port udp = 53
default_port tcp = 53
default_port dot = 853
default_port doh = 443

-- The parsers of std for addresses.
module _ (socket_from_str : Text → Option SocketAddr) (ip_from_str : Text → Option IpAddr) where
  -- `UpstreamConfig::try_from`; `none` is `UnmappableUpstream`.
  unfoldable pub config_from_upstream : Upstream → Option UpstreamConfig
  unfolding default_port
  config_from_upstream row =
      let config : SocketAddr → UpstreamConfig = λ addr. record {
        addr = addr;
        transport = row.transport;
        tls_server_name = row.tls_server_name;
        http_endpoint = none;
      } in
      elim (socket_from_str row.address) [
        | some sa ↦ some (config sa)
        | none ↦ elim (ip_from_str row.address) [
          | some ip ↦ some (config (record { ip = ip; port = default_port row.transport }))
          | none ↦ none
        ]
      ]

  -- The rows that can be mapped, in `AppState::rebuild_upstream_pool`.
  unfoldable pub configs_of : List Upstream → List UpstreamConfig
  unfolding config_from_upstream
  configs_of [] = []
  configs_of (row ∷ rows) = elim (config_from_upstream row) [
    | some config ↦ config ∷ configs_of rows
    | none ↦ configs_of rows
  ]
