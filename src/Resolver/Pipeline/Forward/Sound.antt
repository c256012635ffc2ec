-- ===== src/Resolver/Pipeline/Forward/Sound.antt =====
-- What src/resolver/pipeline/forward.rs answers and hands to the cache.
use sagittarius.Prelude.{
  ℕ, ◌≤◌, ◌<◌, min, ◌≡◌, refl, sym, ap, ◌∙◌, subst, ◌⊎◌, inl, inr, Bool, true, false, Option, none,
  some, List, [], ◌∷◌, ◌++◌, map, arith, leb, if◌then◌else◌, leb→le, Bool-cases, Option-cases,
  length, drop, All,
}
use sagittarius.Codec.Error.{ok, Result-cases}
use sagittarius.Codec.Reader.{Bytes, be_u16}
use sagittarius.Codec.Ttl
use sagittarius.Codec.Ttl.{TtlScan}
use sagittarius.Codec.Ttl.Sound.{least, ttl_at, scan-IsScan}
use sagittarius.Resolver.Upstream.{ForwardResult}
use sagittarius.Resolver.State.{RuntimeSettings}
use sagittarius.Resolver.Pipeline.CacheLayer.{CacheDirective, store, skip}
use sagittarius.Resolver.Pipeline.Forward.{with_txn_id, capped, store_for, directive_for}

-- Octets that are too short to have an id, or that begin with it.
abbrev pub Carries : ℕ → Bytes → Type 0
Carries id bytes = (length bytes < 2) ⊎ (be_u16 bytes ≡ id)

pub with_txn_id-Carries : (id : ℕ) (l : Bytes) → id < 65536 → Carries id (with_txn_id id l)
unfolding with_txn_id
with_txn_id-Carries id [] h = inl (omega arith)
with_txn_id-Carries id (a ∷ []) h = inl (omega arith)
with_txn_id-Carries id (a ∷ b ∷ l) h = inr (omega arith)

pub length-with_txn_id : (id : ℕ) (l : Bytes) → length (with_txn_id id l) ≡ length l
unfolding with_txn_id
length-with_txn_id id [] = refl
length-with_txn_id id (a ∷ []) = refl
length-with_txn_id id (a ∷ b ∷ l) = refl

pub drop-with_txn_id : (id : ℕ) (l : Bytes) → drop 2 (with_txn_id id l) ≡ drop 2 l
unfolding with_txn_id
drop-with_txn_id id [] = refl
drop-with_txn_id id (a ∷ []) = refl
drop-with_txn_id id (a ∷ b ∷ l) = refl

-- The least number of a list, which occurs in it.
pub record IsLeast (n : ℕ) (ns : List ℕ) : Type 0 where
  pub below : All (λ (m : ℕ). n ≤ m) ns
  pub before : List ℕ
  pub behind : List ℕ
  pub occurs : ns ≡ before ++ (n ∷ behind)

All-≤ : (n m : ℕ) (ns : List ℕ) → n ≤ m → All (λ (x : ℕ). m ≤ x) ns → All (λ (x : ℕ). n ≤ x) ns
All-≤ n m [] h k = tt
All-≤ n m (x ∷ xs) h k = (omega (arith, h, k.0), All-≤ n m xs h k.1)

least-IsLeast : (ns : List ℕ) {n : ℕ} → least ns ≡ some n → IsLeast n ns
least-IsLeast [] h = cc
least-IsLeast (x ∷ xs) {n} h = elim (Option-cases (least xs)) [
  | inl e ↦
      let same : x ≡ n = cc (rw e at h) in
      let empty = least_none xs e in
      rw (sym same, empty)
        (record { below = (omega arith, tt); before = []; behind = []; occurs = refl })
  | inr (m, e) ↦
      let rest = least-IsLeast xs e in
      let same : min m x ≡ n = cc (rw e at h) in
      elim (Bool-cases (leb m x)) [
        | inl le ↦
            let taken : m ≡ n = omega (arith, same, leb→le m x le) in
            record {
              below = (
                omega (arith, taken, leb→le m x le),
                subst (λ k. All (λ (y : ℕ). k ≤ y) xs) taken rest.below,
              );
              before = x ∷ rest.before;
              behind = rest.behind;
              occurs = ap (◌∷◌ x) (rest.occurs ∙ ap (λ k. rest.before ++ (k ∷ rest.behind)) taken);
            }
        | inr gt ↦
            let above : x ≤ m = ground (arith, gt) in
            let taken : x ≡ n = omega (arith, same, above) in
            record {
              below = (omega (arith, taken), All-≤ n m xs (omega (arith, taken, above)) rest.below);
              before = [];
              behind = xs;
              occurs = ap (λ k. k ∷ xs) taken;
            }
      ]
]
  where
    least_none : (ns : List ℕ) → least ns ≡ none → ns ≡ []
    least_none [] h = refl
    least_none (x ∷ xs) h = cc

-- What is stored of an exchange. Nothing, if the response cannot be scanned, is negative without a
-- negative TTL, or has no TTL field. Otherwise the response, whole, with the offsets of its own TTL
-- fields, and for a lifetime: the negative TTL under the cap, or the least TTL.
pub data IsPolicy (ceiling : ℕ) (fr : ForwardResult) : CacheDirective → Type 0 where
  unreadable : ((s : TtlScan) → Ttl.scan fr.bytes ≡ ok s → ⊥) → IsPolicy ceiling fr skip
  without_negative_ttl : fr.is_negative ≡ true → fr.negative_ttl ≡ none → IsPolicy ceiling fr skip
  without_field :
      (s : TtlScan)
      → Ttl.scan fr.bytes ≡ ok s
      → fr.is_negative ≡ false
      → s.ttl_offsets ≡ []
      → IsPolicy ceiling fr skip
  negative :
      (s : TtlScan) (t lifetime : ℕ)
      → Ttl.scan fr.bytes ≡ ok s
      → fr.is_negative ≡ true
      → fr.negative_ttl ≡ some t
      → (lifetime ≤ t) × (lifetime ≤ ceiling) × ((lifetime ≡ t) ⊎ (lifetime ≡ ceiling))
      → IsPolicy ceiling fr (store fr.bytes s.ttl_offsets lifetime)
  positive :
      (s : TtlScan) (lifetime : ℕ)
      → Ttl.scan fr.bytes ≡ ok s
      → fr.is_negative ≡ false
      → IsLeast lifetime (map (ttl_at fr.bytes) s.ttl_offsets)
      → IsPolicy ceiling fr (store fr.bytes s.ttl_offsets lifetime)

module _ (ceiling : ℕ) (fr : ForwardResult) (s : TtlScan) (e : Ttl.scan fr.bytes ≡ ok s) where
  no_field : (os : List ℕ) → none ≡ least (map (ttl_at fr.bytes) os) → os ≡ []
  no_field [] h = refl
  no_field (o ∷ os) h = cc

  store_for-IsPolicy :
      (b : Bool) (n m : Option ℕ)
      → fr.is_negative ≡ b
      → fr.negative_ttl ≡ n
      → m ≡ least (map (ttl_at fr.bytes) s.ttl_offsets)
      → IsPolicy ceiling fr (store_for fr.bytes s.ttl_offsets (if b then capped ceiling n else m))
  store_for-IsPolicy true none m hb hn hm = without_negative_ttl hb hn
  store_for-IsPolicy true (some t) m hb hn hm = negative s t (min t ceiling) e hb hn (
    omega arith,
    omega arith,
    elim (Bool-cases (leb t ceiling)) [
      | inl le ↦ inl (omega (arith, leb→le t ceiling le))
      | inr gt ↦ inr (ground (arith, gt))
    ],
  )
  store_for-IsPolicy false n none hb hn hm = without_field s e hb (no_field s.ttl_offsets hm)
  store_for-IsPolicy false n (some t) hb hn hm = positive s t e hb (least-IsLeast _ (sym hm))

-- What the leaf hands to the cache for an upstream's response. It stores nothing if the scan refuses the
-- response, if that is negative and has no negative TTL, or if it is not negative and has no TTL field.
-- Otherwise it stores the whole response with the offsets of its scan: for the lesser of the negative TTL
-- and the cap of the settings, if the response is negative, and for the least of the TTL fields in its
-- octets if not.
pub directive_for-IsPolicy :
    (settings : RuntimeSettings) (fr : ForwardResult)
    → IsPolicy settings.negative_ttl_cap fr (directive_for settings fr)
unfolding directive_for
directive_for-IsPolicy settings fr = elim (Result-cases (Ttl.scan fr.bytes)) [
  | inl (s, e) ↦ rw e (
      store_for-IsPolicy settings.negative_ttl_cap fr s e fr.is_negative fr.negative_ttl s.min_ttl
        refl refl (scan-IsScan fr.bytes e).is_min)
  | inr (inl (x, e)) ↦ rw e (unreadable (λ s h. cc (sym e ∙ h)))
  | inr (inr e) ↦ rw e (unreadable (λ s h. cc (sym e ∙ h)))
]
