-- ===== src/Web/Upstreams/Rebuilt.antt =====
-- The pool that `rebuild_upstream_pool` of src/web/upstreams.rs builds.
use sagittarius.Prelude.{
  ℕ, max, ◌≡◌, refl, ◌⊎◌, inl, inr, Option, none, some, List, [], ◌∷◌, equal, Option-cases,
}
use sagittarius.Codec.Error.{
  Result, ok, err, Returns, with_value, with_error, >>=-Returns, if-Returns, Returns-cases,
}
use sagittarius.Blocklist.Parse.{Text}
use sagittarius.Resolver.State.{SelectionStrategy, random, latency_weighted, parallel}
use sagittarius.Resolver.Upstream.Pool.{UpstreamPool}
use sagittarius.Storage.Sqlite.{StorageError, decode_text, Db, UpstreamRow}
use sagittarius.Storage.Sqlite.Ends.{Reads, answers, execute_on-Reads}
use sagittarius.Storage.Upstreams.{
  Upstream, UpstreamConfig, udp, tcp, dot, doh, transport_from_str, upstream_from_row,
  rows_to_upstreams, enabled_sorted, list_enabled_upstreams, configs_of,
}
use sagittarius.Web.Render.{WebError, internal}
use sagittarius.Web.Upstreams.{
  Outside, AppState, connect_all, selector_of, build_upstream_pool, rebuild_upstream_pool,
}

transport_from_str-Returns : (s : Text) → Returns (transport_from_str s)
unfolding transport_from_str
transport_from_str-Returns s =
    if-Returns (equal s (b'u' ∷ b'd' ∷ b'p' ∷ [])) (ok udp) _ (λ _. with_value udp)
      λ _.
        if-Returns (equal s (b't' ∷ b'c' ∷ b'p' ∷ [])) (ok tcp) _ (λ _. with_value tcp)
          λ _.
            if-Returns (equal s (b'd' ∷ b'o' ∷ b't' ∷ [])) (ok dot) _ (λ _. with_value dot)
              λ _.
                if-Returns (equal s (b'd' ∷ b'o' ∷ b'h' ∷ [])) (ok doh) _ (λ _. with_value doh)
                  λ _. with_error (decode_text s)

rows_to_upstreams-Returns : (rows : List UpstreamRow) → Returns (rows_to_upstreams rows)
unfolding rows_to_upstreams upstream_from_row
rows_to_upstreams-Returns [] = with_value []
rows_to_upstreams-Returns (row ∷ rows) =
    >>=-Returns _ _
      (>>=-Returns _ _ (transport_from_str-Returns row.transport) λ transport _. with_value _)
      λ upstream _.
        >>=-Returns _ _ (rows_to_upstreams-Returns rows) λ rest _. with_value (upstream ∷ rest)

-- A listing ends with the enabled rows, in their order, or with an error, and changes no table.
record IsListing (db : Db) (r : Result StorageError (List Upstream) × Db) : Type 0 where
  tables : r.1.tables ≡ db.tables
  ends :
      ((rows : List Upstream) × (r.0 ≡ ok rows)
        × (rows_to_upstreams (enabled_sorted db.tables.upstreams) ≡ ok rows))
      ⊎ ((e : StorageError) × (r.0 ≡ err e))

list_enabled_upstreams-IsListing : (db : Db) → IsListing db (list_enabled_upstreams db)
unfolding list_enabled_upstreams
list_enabled_upstreams-IsListing db =
    elim (execute_on-Reads (λ t. enabled_sorted t.upstreams) db.faults db.tables) [
      | answers e same ↦ record {
        tables = same;
        ends =
            rw e
              (elim (Returns-cases (rows_to_upstreams (enabled_sorted db.tables.upstreams))
                (rows_to_upstreams-Returns (enabled_sorted db.tables.upstreams))) [
                  | inl (rows, h) ↦ inl (rows, h, h)
                  | inr (x, h) ↦ inr (x, h)
                ]);
      }
      | Reads.fails x e same ↦ record { tables = same; ends = inr (x, rw e refl) }
    ]

abbrev pub fanout_of : SelectionStrategy → ℕ → Option ℕ
fanout_of parallel n = some (max n 1)
fanout_of random n = none
fanout_of latency_weighted n = none

module _ {F C N : Type 0} (out : Outside F C N) where
  -- The clients of the upstreams that connect, one after the other, in their order.
  pub data Connected : List UpstreamConfig → N → List C → Type 0 where
    all_tried : {net : N} → Connected [] net []
    connects :
        {config : UpstreamConfig} {configs : List UpstreamConfig} {net : N} {clients : List C}
        (client : C)
        → (out.connect config net).0 ≡ some client
        → Connected configs (out.connect config net).1 clients
        → Connected (config ∷ configs) net (client ∷ clients)
    skipped :
        {config : UpstreamConfig} {configs : List UpstreamConfig} {net : N} {clients : List C}
        → (out.connect config net).0 ≡ none
        → Connected configs (out.connect config net).1 clients
        → Connected (config ∷ configs) net clients

  connect_all-Connected :
      (configs : List UpstreamConfig) (net : N)
      → Connected configs net (connect_all out configs net).0
  unfolding connect_all
  connect_all-Connected [] net = all_tried
  connect_all-Connected (config ∷ configs) net =
      let rest = connect_all-Connected configs (out.connect config net).1 in
      elim (Option-cases (out.connect config net).0) [
        | inl e ↦ rw e (skipped e rest)
        | inr (client, e) ↦ rw e (connects client e rest)
      ]

  -- The pool holds the enabled upstreams that have an address and connect, and follows the strategy.
  pub record IsPoolOf (upstreams : List UpstreamRow) (net : N) (strategy : SelectionStrategy)
      (fanout : ℕ) (pool : UpstreamPool F C) : Type 0 where
    pub rows : List Upstream
    pub listed : rows_to_upstreams (enabled_sorted upstreams) ≡ ok rows
    pub connected : Connected (configs_of out.socket_from_str out.ip_from_str rows) net pool.clients
    pub selects : pool.selector ≡ selector_of out strategy
    pub races : pool.parallel_fanout ≡ fanout_of strategy fanout
    pub attempts : pool.max_attempts ≡ 2

  build_upstream_pool-IsPoolOf :
      (upstreams : List UpstreamRow) (rows : List Upstream) (net : N) (strategy : SelectionStrategy)
      (fanout : ℕ)
      → rows_to_upstreams (enabled_sorted upstreams) ≡ ok rows
      → IsPoolOf upstreams net strategy fanout
          (build_upstream_pool out
            (configs_of out.socket_from_str out.ip_from_str rows)
            strategy
            fanout
            net).0
  unfolding build_upstream_pool
  build_upstream_pool-IsPoolOf upstreams rows net parallel fanout h = record {
    rows = rows;
    listed = h;
    connected = connect_all-Connected _ net;
    selects = refl;
    races = refl;
    attempts = refl;
  }
  build_upstream_pool-IsPoolOf upstreams rows net random fanout h = record {
    rows = rows;
    listed = h;
    connected = connect_all-Connected _ net;
    selects = refl;
    races = refl;
    attempts = refl;
  }
  build_upstream_pool-IsPoolOf upstreams rows net latency_weighted fanout h = record {
    rows = rows;
    listed = h;
    connected = connect_all-Connected _ net;
    selects = refl;
    races = refl;
    attempts = refl;
  }

  module _ {S : Type 0} where
    -- Rebuilding ends with success and a new pool, or with a database error and the old pool.
    pub record IsRebuilt (app : AppState S F C N)
        (r : Result WebError (Unit {0}) × AppState S F C N) : Type 0 where
      pub tables : r.1.db.tables ≡ app.db.tables
      pub resolver : r.1.resolver ≡ app.resolver
      pub ends :
          ((r.0 ≡ ok tt)
            × IsPoolOf app.db.tables.upstreams app.net
                app.resolver.settings.upstream_selection_strategy
                app.resolver.settings.upstream_parallel_fanout r.1.upstream_pool.inner)
          ⊎ ((e : StorageError) × (r.0 ≡ err (internal e))
              × (r.1.upstream_pool ≡ app.upstream_pool))

    pub rebuild_upstream_pool-IsRebuilt :
        (app : AppState S F C N) → IsRebuilt app (rebuild_upstream_pool out app)
    unfolding rebuild_upstream_pool
    rebuild_upstream_pool-IsRebuilt app =
        let listing = list_enabled_upstreams-IsListing app.db in
        elim listing.ends [
          | inl (rows, e, decoded) ↦
              rw (e, rebuild_upstream_pool)
                (record {
                  tables = listing.tables;
                  resolver = refl;
                  ends = inl (
                    refl,
                    build_upstream_pool-IsPoolOf app.db.tables.upstreams rows app.net _ _ decoded,
                  );
                })
          | inr (x, e) ↦
              rw (e, rebuild_upstream_pool)
                (record { tables = listing.tables; resolver = refl; ends = inr (x, refl, refl) })
        ]
