-- ===== src/Resolver/Upstream/Order/Permutes.antt =====
-- The order of src/resolver/upstream/pool.rs, whatever the weights and the random numbers.
use sagittarius.Prelude.{
  ℕ, zero, suc, ◌+◌, ◌≤◌, ◌<◌, ◌≡◌, refl, ap, subst, inl, inr, some, List, [], ◌∷◌, map, arith,
  Bool-cases, length,
}
use mathlib.Core.List.Perm
use mathlib.Core.List.{Perm}
use sagittarius.Resolver.Upstream.{Floats}
use sagittarius.Resolver.Upstream.Order.{
  UpstreamObservation, range_from, range, remove, weight_at, total_weight, choose, permute,
  weighted_permutation, weight, latency_weighted_order,
}

-- A removal inside the list.
record IsRemoved (xs : List ℕ) (i : ℕ) : Type 0 where
  pub y : ℕ
  pub ys : List ℕ
  pub removed : remove xs i ≡ some (y, ys)
  pub same : Perm xs (y ∷ ys)
  pub shorter : length xs ≡ suc (length ys)

remove-IsRemoved : (xs : List ℕ) (i : ℕ) → i < length xs → IsRemoved xs i
unfolding remove
remove-IsRemoved [] i h = absurd (omega arith)
remove-IsRemoved (x ∷ xs) zero h = record {
  y = x;
  ys = xs;
  removed = refl;
  same = Perm.refl (x ∷ xs);
  shorter = refl;
}
remove-IsRemoved (x ∷ xs) (suc i) h =
    let r = remove-IsRemoved xs i (omega (arith, h)) in
    record {
      y = r.y;
      ys = x ∷ r.ys;
      removed = rw (r.removed, remove) refl;
      same = Perm.trans (Perm.cons _ r.same) (Perm.swap _ _ _);
      shorter = omega (arith, r.shorter);
    }

module _ {F : Type 0} (f64 : Floats F) where
  choose_lem :
      (weights : List F) (pick : F) (fallback pos n : ℕ) (remaining : List ℕ)
      → fallback < n
      → pos + length remaining ≤ n
      → choose f64 weights pick fallback pos remaining < n
  unfolding choose
  choose_lem weights pick fallback pos n [] h k = h
  choose_lem weights pick fallback pos n (i ∷ remaining) h k =
      let pick' = f64.sub pick (weight_at f64 weights i) in
      elim (Bool-cases (f64.at_most pick' (f64.ratio 0 1))) [
        | inl here ↦ rw here (omega (arith, k))
        | inr later ↦
            rw later (choose_lem weights pick' fallback (pos + 1) n remaining h (omega (arith, k)))
      ]

  permute-Perm :
      (fuel : ℕ) (weights : List F) (random : ℕ → F) (k : ℕ) (remaining : List ℕ)
      → length remaining < fuel
      → (order : List ℕ) × (permute f64 fuel weights random k remaining ≡ some order)
        × Perm remaining order
  unfolding permute
  permute-Perm zero weights random k remaining h = absurd (omega arith)
  permute-Perm (suc fuel) weights random k [] h = ([], refl, Perm.nil)
  permute-Perm (suc fuel) weights random k (i ∷ is) h =
      let remaining = i ∷ is in
      let total = total_weight f64 weights remaining (f64.ratio 0 1) in
      let chosen = choose f64 weights (f64.mul (random k) total) (length is) 0 remaining in
      let r = remove-IsRemoved remaining chosen (
        choose_lem weights (f64.mul (random k) total) (length is) 0 (length remaining) remaining
          (omega arith) (omega arith)) in
      elim (Bool-cases (f64.at_most total (f64.ratio 0 1))) [
        | inl nothing ↦ (remaining, rw nothing refl, Perm.refl remaining)
        | inr some_left ↦
            let (order, e, p) =
              permute-Perm fuel weights random (k + 1) r.ys (omega (arith, h, r.shorter)) in
            (
              r.y ∷ order,
              rw (some_left, r.removed, permute, e) refl,
              Perm.trans r.same (Perm.cons _ p),
            )
      ]

length-range_from : (start n : ℕ) → length (range_from start n) ≡ n
length-range_from start zero = refl
length-range_from start (suc n) = ap suc (length-range_from (suc start) n)

length-map : {A B : Type 0} (f : A → B) (xs : List A) → length (map f xs) ≡ length xs
length-map f [] = refl
length-map f (x ∷ xs) = ap suc (length-map f xs)

-- Whatever the health of the upstreams, the numbers drawn and the rounding of the processor, the
-- loops end without a panic, and the order has every upstream once.
pub latency_weighted_order-Perm :
    {F : Type 0} (f64 : Floats F) (random : ℕ → F) (upstreams : List (UpstreamObservation F))
    → (order : List ℕ) × (latency_weighted_order f64 random upstreams ≡ some order)
      × Perm (range (length upstreams)) order
unfolding latency_weighted_order weighted_permutation
latency_weighted_order-Perm f64 random upstreams =
    let weights = map (weight f64) upstreams in
    let (order, e, p) =
      permute-Perm f64 (length weights + 1) weights random 0 (range (length weights))
        (omega (arith, length-range_from 0 (length weights))) in
    (order, e, subst (λ n. Perm (range n) order) (length-map (weight f64) upstreams) p)
