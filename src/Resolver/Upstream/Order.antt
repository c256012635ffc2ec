-- ===== src/Resolver/Upstream/Order.antt =====
-- The order in which src/resolver/upstream/pool.rs tries the upstreams.
pub mod Permutes
use sagittarius.Prelude.{
  ℕ, zero, suc, ◌+◌, Option, none, some, List, [], ◌∷◌, map, ◌==◌, if◌then◌else◌, length, get_elem?,
}
use sagittarius.Resolver.Upstream.{Floats}

pub record UpstreamObservation (F : Type 0) : Type 0 where
  pub ewma_latency_ms : Option F
  pub success_rate : F
  pub attempts : ℕ

-- `0..n`
abbrev pub range_from : ℕ → ℕ → List ℕ
range_from start zero = []
range_from start (suc n) = start ∷ range_from (suc start) n

abbrev pub range : ℕ → List ℕ
range n = range_from 0 n

-- `Vec::remove`, which panics out of range: the element and the others.
unfoldable pub remove : List ℕ → ℕ → Option (ℕ × List ℕ)
remove [] i = none
remove (x ∷ xs) zero = some (x, xs)
remove (x ∷ xs) (suc i) = elim (remove xs i) [ none ↦ none | some (y, ys) ↦ some (y, x ∷ ys) ]

module _ {F : Type 0} (f64 : Floats F) where
  abbrev pub baseline_ms : F
  baseline_ms = f64.ratio 50 1

  abbrev pub min_latency_ms : F
  min_latency_ms = f64.ratio 1 1

  abbrev pub min_success : F
  min_success = f64.ratio 5 100

  abbrev pub latency_or : F → Option F → F
  latency_or baseline none = baseline
  latency_or baseline (some ms) = ms

  -- `LatencyWeightedSelector::weight`
  unfoldable pub weight : UpstreamObservation F → F
  weight o =
      let latency = f64.greater (latency_or baseline_ms o.ewma_latency_ms) min_latency_ms in
      let success =
        if o.attempts == 0 then f64.ratio 1 1 else f64.greater o.success_rate min_success in
      f64.div success latency

  -- `weights[i]`; an index out of range panics, and none is.
  abbrev pub weight_at : List F → ℕ → F
  weight_at weights i = elim (get_elem? weights i) [ none ↦ f64.ratio 0 1 | some w ↦ w ]

  abbrev pub total_weight : List F → List ℕ → F → F
  total_weight weights [] sum = sum
  total_weight weights (i ∷ remaining) sum =
      total_weight weights remaining (f64.add sum (weight_at weights i))

  -- The inner loop: the first position at which the pick is used up.
  unfoldable pub choose : List F → F → ℕ → ℕ → List ℕ → ℕ
  choose weights pick fallback pos [] = fallback
  choose weights pick fallback pos (i ∷ remaining) =
      let pick' = f64.sub pick (weight_at weights i) in
      let next = choose weights pick' fallback (pos + 1) remaining in
      if f64.at_most pick' (f64.ratio 0 1) then pos else next

  -- The outer loop; `random k` is the k-th number that the generator draws. A panic gives none.
  unfoldable pub permute : ℕ → List F → (ℕ → F) → ℕ → List ℕ → Option (List ℕ)
  permute zero weights random k remaining = none
  permute (suc fuel) weights random k [] = some []
  permute (suc fuel) weights random k (i ∷ is) =
      let remaining = i ∷ is in
      let total = total_weight weights remaining (f64.ratio 0 1) in
      let chosen = choose weights (f64.mul (random k) total) (length is) 0 remaining in
      if f64.at_most total (f64.ratio 0 1) then some remaining else elim (remove remaining chosen) [
        | none ↦ none
        | some (j, others) ↦ elim (permute fuel weights random (k + 1) others) [
          | none ↦ none
          | some order ↦ some (j ∷ order)
        ]
      ]

  -- `weighted_permutation`
  unfoldable pub weighted_permutation : List F → (ℕ → F) → Option (List ℕ)
  weighted_permutation weights random =
      permute (length weights + 1) weights random 0 (range (length weights))

  -- `LatencyWeightedSelector::order`
  unfoldable pub latency_weighted_order : (ℕ → F) → List (UpstreamObservation F) → Option (List ℕ)
  unfolding weight weighted_permutation
  latency_weighted_order random upstreams = weighted_permutation (map weight upstreams) random
