-- ===== src/Telemetry/Stats/Counts.antt =====
-- What the sharded counters of src/telemetry/stats.rs hold.
use sagittarius.Prelude.{
  ℕ, suc, ◌≤◌, ◌<◌, ◌≡◌, refl, sym, ap, ◌∙◌, ◌⊎◌, inl, inr, Bool, true, false, none, some, List, [],
  ◌∷◌, arith, ltb, if◌then◌else◌, ltb→lt, ltb→le, Bool-cases, Option-cases, length,
}
use sagittarius.Telemetry.Stats.{next_count, increment, count_key, count_of}

module _ {K : Type 0} (same : K → K → Bool) where
  -- How often a key was recorded.
  abbrev pub occurrences : K → List K → ℕ
  occurrences x [] = 0
  occurrences x (k ∷ seen) = if same k x then suc (occurrences x seen) else occurrences x seen

  pub occurrences-length : (x : K) (seen : List K) → occurrences x seen ≤ length seen
  occurrences-length x [] = omega arith
  occurrences-length x (k ∷ seen) = elim (Bool-cases (same k x)) [
    | inl e ↦ rw e (omega (arith, occurrences-length x seen))
    | inr e ↦ rw e (omega (arith, occurrences-length x seen))
  ]

  module _ (same→path : (x y : K) → same x y ≡ true → x ≡ y)
      (same_refl : (x : K) → same x x ≡ true) where
    -- A map behind one more record of a key.
    pub record IsCounted (cap : ℕ) (key : K) (old new : List (K × ℕ)) : Type 0 where
      pub others : (x : K) → same key x ≡ false → count_of same x new ≡ count_of same x old
      pub known :
          (n : ℕ) → count_of same key old ≡ some n → count_of same key new ≡ some (next_count n)
      pub unknown :
          count_of same key old ≡ none
          → ((length old < cap) × (count_of same key new ≡ some 1))
            ⊎ ((cap ≤ length old) × (new ≡ old))
      pub grows : length old ≤ length new
      pub bounded : length old ≤ cap → length new ≤ cap

    record IsIncremented (key : K) (n : ℕ) (old : List (K × ℕ)) : Type 0 where
      pub new : List (K × ℕ)
      pub found : increment same key old ≡ some new
      pub size : length new ≡ length old
      pub here : count_of same key new ≡ some (next_count n)
      pub others : (x : K) → same key x ≡ false → count_of same x new ≡ count_of same x old

    increment-IsIncremented :
        (key : K) (n : ℕ) (old : List (K × ℕ))
        → count_of same key old ≡ some n
        → IsIncremented key n old
    unfolding increment count_of
    increment-IsIncremented key n [] h = absurd (cc h)
    increment-IsIncremented key n ((k, m) ∷ old) h = elim (Bool-cases (same k key)) [
      | inl e ↦
          let m_n : m ≡ n = cc (rw e at h) in
          record {
            new = (k, next_count m) ∷ old;
            found = rw e refl;
            size = refl;
            here = rw (e, m_n) refl;
            others = λ x d.
                let k_x : same k x ≡ false = ap (λ y. same y x) (same→path k key e) ∙ d in
                rw k_x refl;
          }
      | inr e ↦
          let i = increment-IsIncremented key n old (rw e at h) in
          record {
            new = (k, m) ∷ i.new;
            found = rw (e, i.found) refl;
            size = ap suc i.size;
            here = rw e i.here;
            others = λ x d. elim (Bool-cases (same k x)) [
              | inl k_x ↦ rw k_x refl
              | inr k_x ↦ rw k_x (i.others x d)
            ];
          }
    ]

    increment-none :
        (key : K) (old : List (K × ℕ))
        → count_of same key old ≡ none
        → increment same key old ≡ none
    unfolding increment count_of
    increment-none key [] h = refl
    increment-none key ((k, m) ∷ old) h = elim (Bool-cases (same k key)) [
      | inl e ↦ absurd (cc (rw e at h))
      | inr e ↦ rw (e, increment-none key old (rw e at h)) refl
    ]

    pub count_key-IsCounted :
        (cap : ℕ) (key : K) (old : List (K × ℕ))
        → IsCounted cap key old (count_key same cap key old)
    unfolding count_key count_of
    count_key-IsCounted cap key old = elim (Option-cases (count_of same key old)) [
      | inr (n, there) ↦
          let i = increment-IsIncremented key n old there in
          rw (i.found, count_key)
            (record {
              others = i.others;
              known = λ m e. i.here ∙ ap (λ (x : ℕ). some (next_count x)) (cc (sym there ∙ e));
              unknown = λ e. absurd (cc (sym there ∙ e));
              grows = omega (arith, i.size);
              bounded = λ h. omega (arith, i.size, h);
            })
      | inl absent ↦ elim (Bool-cases (ltb (length old) cap)) [
        | inl room ↦
            rw (increment-none key old absent, count_key, room)
              (record {
                others = λ x d. rw d refl;
                known = λ m e. absurd (cc (sym absent ∙ e));
                unknown = λ _. inl (ltb→lt (length old) cap room, rw (same_refl key) refl);
                grows = omega arith;
                bounded = λ h. omega (arith, ltb→lt (length old) cap room);
              })
        | inr full ↦
            rw (increment-none key old absent, count_key, full)
              (record {
                others = λ x d. refl;
                known = λ m e. absurd (cc (sym absent ∙ e));
                unknown = λ _. inr (ltb→le (length old) cap full, refl);
                grows = omega arith;
                bounded = λ h. h;
              })
      ]
    ]
