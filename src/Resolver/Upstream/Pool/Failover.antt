-- ===== src/Resolver/Upstream/Pool/Failover.antt =====
-- The failover of src/resolver/upstream/pool.rs.
use sagittarius.Prelude.{
  ℕ, zero, suc, ◌+◌, ◌≡◌, refl, sym, ap, ◌∙◌, subst, ◌⊎◌, inl, inr, none, some, List, [], ◌∷◌, ◌++◌,
  map, arith, Option-cases, length, get_elem?, take, All,
}
use sagittarius.Codec.Error.{Result, ok, err, Returns, Result-cases}
use sagittarius.Codec.Message.{Question}
use sagittarius.Resolver.State.{SocketAddr}
use sagittarius.Resolver.Upstream.{UpstreamError, all_upstreams_failed, ForwardResult, Floats}
use sagittarius.Resolver.Upstream.Health.{UpstreamHealth, record_success, record_failure}
use sagittarius.Resolver.Upstream.Pool.{
  UpstreamPool, candidates, observations, try_each, forward_sequential, forward,
}

list_cases : {A : Type 0} (l : List A) → (l ≡ []) ⊎ ((x : A) × (xs : List A) × (l ≡ x ∷ xs))
list_cases [] = inl refl
list_cases (x ∷ xs) = inr (x, xs, refl)

-- Failures that were recorded one after the other.
abbrev pub record_failures :
    {F : Type 0} → List (SocketAddr × UpstreamError) → UpstreamHealth F → UpstreamHealth F
record_failures [] health = health
record_failures ((addr, e) ∷ es) health = record_failures es (record_failure addr e health)

-- An exchange ends.
abbrev pub IsTotal :
    {C T : Type 0} → (C → Question → T → Result UpstreamError ForwardResult × T) → Type 0
IsTotal {C} {T} exchange = (c : C) (q : Question) (t : T) → Returns (exchange c q t).0

module _ {F C T : Type 0} (f64 : Floats F) (addr : C → SocketAddr)
    (exchange : C → Question → T → Result UpstreamError ForwardResult × T) where
  module _ (q : Question) where
    abbrev pub Failed : C → Type 0
    Failed c = (t : T) × (e : UpstreamError) × ((exchange c q t).0 ≡ err e)

    -- The first client that answers wins, and the failure of each before it is recorded, and its
    -- own success; if none answers, the failure of each is recorded and counted.
    pub data IsRun (cs : List C) (attempts : ℕ) (health : UpstreamHealth F)
        : Result UpstreamError ForwardResult × (UpstreamHealth F × T) → Type 0 where
      won :
          (tried : List C) (c : C) (rest : List C) (es : List (SocketAddr × UpstreamError))
          (fr : ForwardResult) (t t' : T)
          → cs ≡ tried ++ (c ∷ rest)
          → All Failed tried
          → map (λ p. p.0) es ≡ map addr tried
          → exchange c q t ≡ (ok fr, t')
          → IsRun cs attempts health
              (ok fr, (record_success f64 (addr c) fr.latency (record_failures es health), t'))
      lost :
          (es : List (SocketAddr × UpstreamError)) (t' : T)
          → All Failed cs
          → map (λ p. p.0) es ≡ map addr cs
          → IsRun cs attempts health
              (err (all_upstreams_failed (attempts + length cs)), (record_failures es health, t'))

    after_failure :
        (c : C) (cs : List C) (attempts : ℕ) (health : UpstreamHealth F) (e : UpstreamError)
        (out : Result UpstreamError ForwardResult × (UpstreamHealth F × T))
        → Failed c
        → IsRun cs (attempts + 1) (record_failure (addr c) e health) out
        → IsRun (c ∷ cs) attempts health out
    after_failure c cs attempts health e _ f (won tried c' rest es fr t t' split fs same x) =
        won (c ∷ tried) c' rest ((addr c, e) ∷ es) fr t t' (ap (◌∷◌ c) split) (f, fs)
          (ap (◌∷◌ (addr c)) same) x
    after_failure c cs attempts health e _ f (lost es t' fs same) =
        let count : attempts + 1 + length cs ≡ attempts + length (c ∷ cs) = omega arith in
        rw count (lost ((addr c, e) ∷ es) t' (f, fs) (ap (◌∷◌ (addr c)) same))

    try_each-IsRun :
        IsTotal exchange
        → (clients : List C) (attempts : ℕ) (order : List ℕ) (health : UpstreamHealth F) (t : T)
        → IsRun
            (candidates clients order)
            attempts
            health
            (try_each f64 addr exchange clients q attempts order health t)
    unfolding try_each
    try_each-IsRun total clients attempts [] health t =
        let count : attempts + 0 ≡ attempts = omega arith in
        subst (λ n. IsRun [] attempts health (err (all_upstreams_failed n), (health, t))) count
          (lost [] t tt refl)
    try_each-IsRun total clients attempts (idx ∷ order) health t =
        elim (Option-cases (get_elem? clients idx)) [
          | inl absent ↦
              rw (absent, try_each, candidates)
                (try_each-IsRun total clients attempts order health t)
          | inr (c, there) ↦
              let later = (exchange c q t).1 in
              elim (Result-cases (exchange c q t).0) [
                | inl (fr, e) ↦
                    rw (there, try_each, candidates, e)
                      (won [] c (candidates clients order) [] fr t later refl tt refl
                        (ap (λ r. (r, later)) e))
                | inr (inl (x, e)) ↦
                    rw (there, try_each, candidates, e)
                      (after_failure c (candidates clients order) attempts health x _ (t, x, e)
                        (try_each-IsRun total clients (attempts + 1) order
                          (record_failure (addr c) x health) later))
                | inr (inr e) ↦ absurd (elim (rw e at (total c q t)) [ ])
              ]
        ]

    candidate-Failed :
        (clients : List C) (order : List ℕ) (k i : ℕ) (c : C)
        → get_elem? order k ≡ some i
        → get_elem? clients i ≡ some c
        → All Failed (candidates clients order)
        → Failed c
    candidate-Failed clients [] k i c at there fs = absurd (cc at)
    candidate-Failed clients (idx ∷ order) zero i c at there fs =
        let same : idx ≡ i = cc at in (rw (same, there, candidates) at fs).0
    candidate-Failed clients (idx ∷ order) (suc k) i c at there fs =
        elim (Option-cases (get_elem? clients idx)) [
          | inl absent ↦
              candidate-Failed clients order k i c at there (rw (absent, candidates) at fs)
          | inr (d, present) ↦
              candidate-Failed clients order k i c at there (rw (present, candidates) at fs).1
        ]

    IsRun-ok :
        (clients : List C) (order : List ℕ) (k i : ℕ) (c : C) (attempts : ℕ)
        (health : UpstreamHealth F)
        (out : Result UpstreamError ForwardResult × (UpstreamHealth F × T))
        → get_elem? order k ≡ some i
        → get_elem? clients i ≡ some c
        → ((t : T) → (fr : ForwardResult) × ((exchange c q t).0 ≡ ok fr))
        → IsRun (candidates clients order) attempts health out
        → (fr : ForwardResult) × (out.0 ≡ ok fr)
    IsRun-ok clients order k i c attempts health _ at there answers (won _ _ _ _ fr _ _ _ _ _ _) =
        (fr, refl)
    IsRun-ok clients order k i c attempts health _ at there answers (lost es t' fs _) =
        let (t, e, failed) = candidate-Failed clients order k i c at there fs in
        let (fr, answered) = answers t in absurd (cc (sym failed ∙ answered))

    -- If every exchange ends, sequential forwarding runs through the clients of the order, as many as
    -- the budget has: the first that answers wins, with the failures before it and its own success
    -- in the health tracker, and else the error counts the clients, and each failure is recorded.
    pub forward_sequential-IsRun :
        IsTotal exchange
        → (pool : UpstreamPool F C) (order : List ℕ) (health : UpstreamHealth F) (t : T)
        → IsRun
            (candidates pool.clients (take pool.max_attempts order))
            0
            health
            (forward_sequential f64 addr exchange pool q order health t)
    unfolding forward_sequential
    forward_sequential-IsRun total pool order health t =
        try_each-IsRun total pool.clients 0 (take pool.max_attempts order) health t

    -- If every exchange ends, and a client that the selector places within the budget answers
    -- whatever the state of the network, then a pool without fan-out returns a response.
    pub forward-answers :
        (race : List C → Question → T → List (SocketAddr × Result UpstreamError ForwardResult) × T)
        → IsTotal exchange
        → (pool : UpstreamPool F C) (health : UpstreamHealth F) (t : T) (k i : ℕ) (c : C)
        → pool.parallel_fanout ≡ none
        → get_elem?
            (take pool.max_attempts (pool.selector (observations f64 addr pool.clients health)))
            k
          ≡ some i
        → get_elem? pool.clients i ≡ some c
        → ((t : T) → (fr : ForwardResult) × ((exchange c q t).0 ≡ ok fr))
        → (fr : ForwardResult) × ((forward f64 addr exchange race pool q health t).0 ≡ ok fr)
    unfolding forward forward_sequential observations
    forward-answers race total pool health t k i c sequential at there answers =
        let order = pool.selector (observations f64 addr pool.clients health) in
        let run = forward_sequential-IsRun total pool order health t in
        let (fr, e) =
          IsRun-ok pool.clients (take pool.max_attempts order) k i c 0 health _ at there answers
            run in
        elim (list_cases pool.clients) [
          | inl nobody ↦ absurd (cc (rw nobody at there))
          | inr (d, ds, somebody) ↦
              let step : forward f64 addr exchange race pool q health t
                  ≡ forward_sequential f64 addr exchange pool q order health t =
                rw (somebody, sequential, forward, forward_sequential, observations)
                  (rw (somebody, forward_sequential, observations) refl) in
              (fr, ap (λ x. x.0) step ∙ e)
        ]
