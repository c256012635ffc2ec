-- ===== src/Web/Upstreams.antt =====
-- The rebuilding of the upstream pool, of src/web/upstreams.rs, src/resolver/pipeline/engine.rs and
-- src/resolver/upstream/pool.rs.
pub mod Rebuilt
use sagittarius.Prelude.{ℕ, ◌+◌, Option, none, some, List, [], ◌∷◌}
use sagittarius.Codec.Error.{Result, ok, err, out_of_fuel}
use sagittarius.Codec.Name.Reverse.{IpAddr}
use sagittarius.Blocklist.Parse.{Text}
use sagittarius.Resolver.State.{
  SelectionStrategy, random, latency_weighted, parallel, SocketAddr, ResolverState,
}
use sagittarius.Resolver.Upstream.Order.{UpstreamObservation}
use sagittarius.Resolver.Upstream.Pool.{
  UpstreamPool, SharedUpstreamPool, default_failover_budget, with_parallel_fanout, store_pool,
}
use sagittarius.Storage.Sqlite.{Db}
use sagittarius.Storage.Settings.{Addresses}
use sagittarius.Storage.Upstreams.{UpstreamConfig, list_enabled_upstreams, configs_of}
use sagittarius.Web.Render.{WebError, internal}

-- What the program takes of std, of rand and of hickory: the parsers of addresses, the orders of the
-- selectors, and the connecting of an upstream, which may fail.
pub record Outside (F C N : Type 0) : Type 0 where
  pub std : Addresses
  pub socket_from_str : Text → Option SocketAddr
  pub ip_from_str : Text → Option IpAddr
  pub random_selector : List (UpstreamObservation F) → List ℕ
  pub latency_weighted_selector : List (UpstreamObservation F) → List ℕ
  pub connect : UpstreamConfig → N → Option C × N

-- `AppState`, as far as the settings use it.
pub record AppState (S F C N : Type 0) : Type 0 where
  pub db : Db
  pub resolver : ResolverState S
  pub upstream_pool : SharedUpstreamPool F C
  pub net : N

module _ {F C N : Type 0} (out : Outside F C N) where
  -- The loop of `UpstreamPool::connect`; an upstream that does not connect is skipped.
  unfoldable pub connect_all : List UpstreamConfig → N → List C × N
  connect_all [] net = ([], net)
  connect_all (config ∷ configs) net =
      let (client, net') = out.connect config net in
      let (clients, net'') = connect_all configs net' in
      (elim client [ some c ↦ c ∷ clients | none ↦ clients ], net'')

  abbrev pub selector_of : SelectionStrategy → List (UpstreamObservation F) → List ℕ
  selector_of latency_weighted = out.latency_weighted_selector
  selector_of random = out.random_selector
  selector_of parallel = out.random_selector

  abbrev pub with_fanout_of : SelectionStrategy → ℕ → UpstreamPool F C → UpstreamPool F C
  with_fanout_of parallel fanout pool = with_parallel_fanout fanout pool
  with_fanout_of random fanout pool = pool
  with_fanout_of latency_weighted fanout pool = pool

  -- `build_upstream_pool`
  unfoldable pub build_upstream_pool :
      List UpstreamConfig → SelectionStrategy → ℕ → N → UpstreamPool F C × N
  unfolding connect_all
  build_upstream_pool configs strategy fanout net =
      let (clients, net') = connect_all configs net in
      (
        with_fanout_of strategy fanout (record {
          clients = clients;
          selector = selector_of strategy;
          max_attempts = default_failover_budget + 1;
          parallel_fanout = none;
        }),
        net',
      )

  -- `AppState::rebuild_upstream_pool`
  unfoldable pub rebuild_upstream_pool :
      {S : Type 0} → AppState S F C N → Result WebError (Unit {0}) × AppState S F C N
  unfolding build_upstream_pool
  rebuild_upstream_pool app =
      let (listed, db') = list_enabled_upstreams app.db in
      elim listed [
        | ok rows ↦
            let settings = app.resolver.settings in
            let configs = configs_of out.socket_from_str out.ip_from_str rows in
            let (pool, net') =
              build_upstream_pool configs settings.upstream_selection_strategy
                settings.upstream_parallel_fanout app.net in
            (
              ok tt,
              record app {
                db = db';
                upstream_pool = store_pool pool app.upstream_pool;
                net = net';
              },
            )
        | err e ↦ (err (internal e), record app { db = db' })
        | out_of_fuel ↦ (out_of_fuel, record app { db = db' })
      ]
