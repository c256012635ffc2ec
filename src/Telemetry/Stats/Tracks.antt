-- ===== src/Telemetry/Stats/Tracks.antt =====
-- What a sharded counter of src/telemetry/stats.rs tells of the keys it was given.
use sagittarius.Prelude.{
  ℕ, suc, ◌+◌, ◌^◌, ◌≤◌, ◌<◌, ◌≡◌, refl, sym, ap, ◌∙◌, subst, ◌⊎◌, inl, inr, Bool, true, false,
  none, some, List, [], ◌∷◌, map, arith, ◌==◌, Bool-cases, Option-cases, length,
}
use sagittarius.Telemetry.Stats.{
  ShardedCounts, new_counts, next_count, count_of, shard_for, record_key,
}
use sagittarius.Telemetry.Stats.Counts.{
  IsCounted, occurrences, occurrences-length, count_key-IsCounted,
}

==_refl : (n : ℕ) → (n == n) ≡ true
==_refl n = ground arith

pub next_count_small : (n : ℕ) → n + 1 < 2 ^ 64 → next_count n ≡ suc n
next_count_small n h = omega (arith, h)

module _ {K : Type 0} (same : K → K → Bool) where
  -- What the map of a key's shard says of the key: its count is exact, and it is left out only when it
  -- was never recorded or its shard is full.
  record IsTold (x : K) (seen : List K) (cap : ℕ) (map : List (K × ℕ)) : Type 0 where
    pub exact : (n : ℕ) → count_of same x map ≡ some n → n ≡ occurrences same x seen
    pub absent : count_of same x map ≡ none → (occurrences same x seen ≡ 0) ⊎ (cap ≤ length map)

  module _ (hash : K → ℕ) where
    -- A counter that has recorded the keys `seen`.
    pub record Tracks (seen : List K) (c : ShardedCounts K) : Type 0 where
      pub size : (i : ℕ) → length (c.shards i) ≤ c.max_per_shard
      pub exact :
          (x : K) (n : ℕ)
          → count_of same x (c.shards (shard_for same hash x)) ≡ some n
          → n ≡ occurrences same x seen
      pub absent :
          (x : K)
          → count_of same x (c.shards (shard_for same hash x)) ≡ none
          → (occurrences same x seen ≡ 0)
            ⊎ (c.max_per_shard ≤ length (c.shards (shard_for same hash x)))

    pub new_counts-Tracks : (max_entries : ℕ) → Tracks [] (new_counts max_entries)
    unfolding new_counts count_of
    new_counts-Tracks max_entries = record {
      size = λ i. omega arith;
      exact = λ x n h. absurd (cc h);
      absent = λ x h. inl refl;
    }

  module _ (same→path : (x y : K) → same x y ≡ true → x ≡ y)
      (same_refl : (x : K) → same x x ≡ true) where
    IsTold-again :
        (key : K) (seen : List K) (cap : ℕ) (old new : List (K × ℕ))
        → IsCounted same same→path same_refl cap key old new
        → length seen + 1 < 2 ^ 64
        → IsTold key seen cap old
        → IsTold key (key ∷ seen) cap new
    IsTold-again key seen cap old new c small t = elim (Option-cases (count_of same key old)) [
      | inr (m, there) ↦
          let m_seen = t.exact m there in
          let next : next_count m ≡ suc m =
            next_count_small m (omega (arith, m_seen, occurrences-length same key seen, small)) in
          record {
            exact = λ n h.
                let n_next : n ≡ next_count m = cc (sym h ∙ c.known m there) in
                rw (same_refl key) (n_next ∙ next ∙ ap suc m_seen);
            absent = λ h. absurd (cc (sym h ∙ c.known m there));
          }
      | inl gone ↦ elim (c.unknown gone) [
        | inl (room, one) ↦ record {
          exact = λ n h.
              let n_one : n ≡ 1 = cc (sym h ∙ one) in
              let zero_seen : occurrences same key seen ≡ 0 = elim (t.absent gone) [
                | inl z ↦ z
                | inr full ↦ absurd (omega (arith, room, full))
              ] in
              rw (same_refl key, zero_seen) n_one;
          absent = λ h. absurd (cc (sym h ∙ one));
        }
        | inr (full, still) ↦
            rw still (record { exact = λ n h. absurd (cc (sym h ∙ gone)); absent = λ h. inr full })
      ]
    ]

    IsTold-elsewhere :
        (key x : K) (seen : List K) (cap : ℕ) (map : List (K × ℕ))
        → same key x ≡ false
        → IsTold x seen cap map
        → IsTold x (key ∷ seen) cap map
    IsTold-elsewhere key x seen cap map d t = record {
      exact = λ n h. rw d (t.exact n h);
      absent = λ h. rw d (t.absent h);
    }

    IsTold-other :
        (key x : K) (seen : List K) (cap : ℕ) (old new : List (K × ℕ))
        → IsCounted same same→path same_refl cap key old new
        → same key x ≡ false
        → IsTold x seen cap old
        → IsTold x seen cap new
    IsTold-other key x seen cap old new c d t = record {
      exact = λ n h. t.exact n (sym (c.others x d) ∙ h);
      absent = λ h. elim (t.absent (sym (c.others x d) ∙ h)) [
        | inl z ↦ inl z
        | inr full ↦ inr (omega (arith, full, c.grows))
      ];
    }

    module _ (hash : K → ℕ) where
      Tracks-IsTold :
          (seen : List K) (c : ShardedCounts K)
          → Tracks hash seen c
          → (x : K) → IsTold x seen c.max_per_shard (c.shards (shard_for same hash x))
      Tracks-IsTold seen c t x = record { exact = t.exact x; absent = t.absent x }

      record_key-IsTold :
          (key : K) (seen : List K) (c : ShardedCounts K)
          → Tracks hash seen c
          → length seen + 1 < 2 ^ 64
          → (x : K)
          → IsTold x
              (key ∷ seen)
              c.max_per_shard
              ((record_key same hash key c).shards (shard_for same hash x))
      unfolding record_key
      record_key-IsTold key seen c t small x =
          let step = λ (i : ℕ).
            count_key-IsCounted same same→path same_refl c.max_per_shard key (c.shards i) in
          elim (Bool-cases (same key x)) [
            | inl e ↦
                subst
                  (λ y.
                    IsTold y (key ∷ seen) c.max_per_shard
                      ((record_key same hash key c).shards (shard_for same hash y)))
                  (same→path key x e)
                  (rw (==_refl (shard_for same hash key)) (
                    IsTold-again key seen c.max_per_shard _ _ (step _) small
                      (Tracks-IsTold seen c t key)))
            | inr d ↦
                IsTold-elsewhere key x seen c.max_per_shard _ d
                  (elim (Bool-cases (shard_for same hash x == shard_for same hash key)) [
                    | inl e ↦ rw e (
                        IsTold-other key x seen c.max_per_shard _ _ (step _) d
                          (Tracks-IsTold seen c t x))
                    | inr e ↦ rw e (Tracks-IsTold seen c t x)
                  ])
          ]

      pub record_key-Tracks :
          (key : K) (seen : List K) (c : ShardedCounts K)
          → Tracks hash seen c
          → length seen + 1 < 2 ^ 64
          → Tracks hash (key ∷ seen) (record_key same hash key c)
      unfolding record_key
      record_key-Tracks key seen c t small = record {
        size = λ i. elim (Bool-cases (i == shard_for same hash key)) [
          | inl e ↦ rw e (
              (count_key-IsCounted same same→path same_refl c.max_per_shard key
                  (c.shards i)).bounded
                (t.size i))
          | inr e ↦ rw e (t.size i)
        ];
        exact = λ x. (record_key-IsTold key seen c t small x).exact;
        absent = λ x. (record_key-IsTold key seen c t small x).absent;
      }
