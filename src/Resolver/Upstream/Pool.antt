-- ===== src/Resolver/Upstream/Pool.antt =====
-- The pool of src/resolver/upstream/pool.rs. A client of hickory, its address and its exchange with
-- the timeout are the parameters `addr` and `exchange`; what the tasks of a race return, in the order
-- in which they end, is the parameter `race`.
pub mod Failover
use sagittarius.Prelude.{ℕ, ◌+◌, max, Option, none, some, List, [], ◌∷◌, get_elem?, take}
use sagittarius.Codec.Error.{Result, ok, err, out_of_fuel}
use sagittarius.Codec.Message.{Question}
use sagittarius.Resolver.State.{SocketAddr}
use sagittarius.Resolver.Upstream.{UpstreamError, all_upstreams_failed, ForwardResult, Floats}
use sagittarius.Resolver.Upstream.Health.{
  UpstreamStat, UpstreamHealthRow, UpstreamHealth, find_row, snapshot_row, row_attempts,
  record_success, record_failure,
}
use sagittarius.Resolver.Upstream.Order.{UpstreamObservation}

abbrev pub default_failover_budget : ℕ
default_failover_budget = 1

-- `selector` orders the upstreams that it sees.
pub record UpstreamPool (F C : Type 0) : Type 0 where
  pub clients : List C
  pub selector : List (UpstreamObservation F) → List ℕ
  pub max_attempts : ℕ
  pub parallel_fanout : Option ℕ

-- `UpstreamPool::with_parallel_fanout`
abbrev pub with_parallel_fanout : {F C : Type 0} → ℕ → UpstreamPool F C → UpstreamPool F C
with_parallel_fanout fanout pool = record pool { parallel_fanout = some (max fanout 1) }

-- `order.iter().take(n)`, less the indices of no client.
abbrev pub candidates : {C : Type 0} → List C → List ℕ → List C
candidates clients [] = []
candidates clients (idx ∷ order) = elim (get_elem? clients idx) [
  | none ↦ candidates clients order
  | some client ↦ client ∷ candidates clients order
]

-- The results of a race, as they come in: the first success ends it.
unfoldable pub join_next :
    {F : Type 0}
    → Floats F
    → List (SocketAddr × Result UpstreamError ForwardResult)
    → ℕ
    → UpstreamHealth F
    → Result UpstreamError ForwardResult × UpstreamHealth F
join_next f64 [] attempts health = (err (all_upstreams_failed attempts), health)
join_next f64 ((addr, ok result) ∷ joined) attempts health =
    (ok result, record_success f64 addr result.latency health)
join_next f64 ((addr, err e) ∷ joined) attempts health =
    join_next f64 joined (attempts + 1) (record_failure addr e health)
join_next f64 ((addr, out_of_fuel) ∷ joined) attempts health = (out_of_fuel, health)

module _ {F C : Type 0} (f64 : Floats F) (addr : C → SocketAddr) where
  -- What the selector sees of a client.
  abbrev pub observed : Option (UpstreamStat F) → SocketAddr → UpstreamObservation F
  observed none a = record { ewma_latency_ms = none; success_rate = f64.ratio 0 1; attempts = 0 }
  observed (some stat) a =
      let row = snapshot_row f64 (a, stat) in
      record {
        ewma_latency_ms = row.ewma_latency_ms;
        success_rate = row.success_rate;
        attempts = row_attempts row;
      }

  -- `UpstreamPool::observations`
  unfoldable pub observations : List C → UpstreamHealth F → List (UpstreamObservation F)
  observations [] health = []
  observations (client ∷ clients) health =
      observed (find_row (addr client) health) (addr client) ∷ observations clients health

module _ {F C T : Type 0} (f64 : Floats F) (addr : C → SocketAddr)
    (exchange : C → Question → T → Result UpstreamError ForwardResult × T) where
  -- The loop of `forward_sequential` over `order.iter().take(max_attempts)`.
  unfoldable pub try_each :
      List C
      → Question
      → ℕ
      → List ℕ
      → UpstreamHealth F
      → T
      → Result UpstreamError ForwardResult × (UpstreamHealth F × T)
  try_each clients question attempts [] health t =
      (err (all_upstreams_failed attempts), (health, t))
  try_each clients question attempts (idx ∷ order) health t = elim (get_elem? clients idx) [
    | none ↦ try_each clients question attempts order health t
    | some client ↦
        let (result, t') = exchange client question t in
        elim result [
          | ok fr ↦ (ok fr, (record_success f64 (addr client) fr.latency health, t'))
          | err e ↦
              try_each clients question (attempts + 1) order (record_failure (addr client) e health)
                t'
          | out_of_fuel ↦ (out_of_fuel, (health, t'))
        ]
  ]

  -- `UpstreamPool::forward_sequential`
  unfoldable pub forward_sequential :
      UpstreamPool F C
      → Question
      → List ℕ
      → UpstreamHealth F
      → T
      → Result UpstreamError ForwardResult × (UpstreamHealth F × T)
  unfolding try_each
  forward_sequential pool question order health t =
      try_each pool.clients question 0 (take pool.max_attempts order) health t

module _ {F C T : Type 0} (f64 : Floats F)
    (race : List C
      → Question
      → T
      → List (SocketAddr × Result UpstreamError ForwardResult) × T) where
  -- `UpstreamPool::forward_parallel`
  unfoldable pub forward_parallel :
      UpstreamPool F C
      → Question
      → List ℕ
      → ℕ
      → UpstreamHealth F
      → T
      → Result UpstreamError ForwardResult × (UpstreamHealth F × T)
  unfolding join_next
  forward_parallel pool question order fanout health t =
      let (joined, t') = race (candidates pool.clients (take fanout order)) question t in
      let (result, health') = join_next f64 joined 0 health in (result, (health', t'))

module _ {F C T : Type 0} (f64 : Floats F) (addr : C → SocketAddr)
    (exchange : C → Question → T → Result UpstreamError ForwardResult × T)
    (race : List C
      → Question
      → T
      → List (SocketAddr × Result UpstreamError ForwardResult) × T) where
  -- `UpstreamPool::forward`
  unfoldable pub forward :
      UpstreamPool F C
      → Question
      → UpstreamHealth F
      → T
      → Result UpstreamError ForwardResult × (UpstreamHealth F × T)
  unfolding observations forward_sequential forward_parallel
  forward pool question health t =
      let order = pool.selector (observations f64 addr pool.clients health) in
      elim (pool.clients) [
        | [] ↦ (err (all_upstreams_failed 0), (health, t))
        | _ ∷ _ ↦ elim (pool.parallel_fanout) [
          | some fanout ↦ forward_parallel f64 race pool question order fanout health t
          | none ↦ forward_sequential f64 addr exchange pool question order health t
        ]
      ]

-- `SharedUpstreamPool`
pub record SharedUpstreamPool (F C : Type 0) : Type 0 where
  pub inner : UpstreamPool F C
  pub health : UpstreamHealth F

-- `SharedUpstreamPool::new`
abbrev pub shared : {F C : Type 0} → UpstreamPool F C → SharedUpstreamPool F C
shared pool = record { inner = pool; health = [] }

-- `SharedUpstreamPool::store`
abbrev pub store_pool :
    {F C : Type 0} → UpstreamPool F C → SharedUpstreamPool F C → SharedUpstreamPool F C
store_pool pool s = record s { inner = pool }
