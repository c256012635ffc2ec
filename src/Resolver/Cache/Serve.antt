-- ===== src/Resolver/Cache/Serve.antt =====
-- What a client gets from the cache of src/resolver/cache.rs: the stored bytes under its own
-- transaction id, with the TTL fields counted down.
use sagittarius.Prelude.{
  ℕ, ◌+◌, ◌-◌, ◌/◌, ◌%◌, ◌≤◌, ◌<◌, ◌≡◌, ◌⊎◌, inl, inr, refl, sym, ap, ◌∙◌, subst, none, some, List,
  [], ◌∷◌, le→leb, length, set, All, length-set, min, arith,
}
use sagittarius.Codec.Reader.{Bytes, be_u16}
use sagittarius.Codec.Message.{Question}
use sagittarius.Codec.Error.{ok}
use sagittarius.Codec.Ttl.{TtlScan, scan}
use sagittarius.Codec.Ttl.Sound.{Apart, Before, scan-IsScan, scan-length}
use sagittarius.Resolver.Cache.{
  CachedResponse, index, u32_at, set_u32, patch_id, patch_ttls, patched_for, Moka, DnsCache,
  clamp_ttl, insert, get,
}
use sagittarius.Resolver.Cache.Patch.{
  Outside, set_u32-length, u32_at-set_u32, AreOctets, u32_at_fits, AreOctets-set_u32,
  AreOctets-patch_id, u32_at-set_outside, patch_ttl_inside, patch_ttls-Outside, patch_ttls-length,
  Outside-below, index-set_same, index-set_other,
}

-- A value that the octets of a field determine is not changed by a loop that leaves them alone.
u32_at-patch_ttls :
    (len e p : ℕ) (os : List ℕ) (l : Bytes)
    → Before len os
    → Apart (p + 4) os
    → u32_at (patch_ttls len e os l) p ≡ u32_at l p
unfolding u32_at
u32_at-patch_ttls len e p os l b a =
    let same = λ (i : ℕ) (h : i < p + 4).
      patch_ttls-Outside len e i os l b (Outside-below i (p + 4) os h a) in
    rw
      (
        same p (omega arith),
        same (p + 1) (omega arith),
        same (p + 2) (omega arith),
        same (p + 3) (omega arith),
      )
      refl

-- Fields behind a write read the same before it.
All-behind :
    (e o v : ℕ) (os : List ℕ) (l r : Bytes)
    → Apart (o + 4) os
    → All (λ p. u32_at r p ≡ u32_at (set_u32 l o v) p - e) os
    → All (λ p. u32_at r p ≡ u32_at l p - e) os
All-behind e o v os l r a h = walk (o + 4) os (omega arith) a h
  where
    walk :
        (from : ℕ) (os : List ℕ)
        → o + 4 ≤ from
        → Apart from os
        → All (λ p. u32_at r p ≡ u32_at (set_u32 l o v) p - e) os
        → All (λ p. u32_at r p ≡ u32_at l p - e) os
    walk from [] hf a h = tt
    walk from (p ∷ ps) hf a h = (
      h.0 ∙ ap (λ (x : ℕ). x - e) (u32_at-set_outside l o v p (omega (arith, hf, a.0))),
      walk (p + 4) ps (omega (arith, hf, a.0)) a.1 h.1,
    )

-- Every field is counted down once.
patch_ttls_fields :
    (len e from : ℕ) (os : List ℕ) (l : Bytes)
    → len ≡ length l
    → AreOctets l
    → Apart from os
    → Before len os
    → All (λ p. u32_at (patch_ttls len e os l) p ≡ u32_at l p - e) os
unfolding patch_ttls
patch_ttls_fields len e from [] l hl ho a b = tt
patch_ttls_fields len e from (o ∷ os) l hl ho a b =
    let v = u32_at l o - e in
    let small : v < 4294967296 = omega (arith, u32_at_fits l o ho) in
    let step : patch_ttls len e (o ∷ os) l ≡ patch_ttls len e os (set_u32 l o v) =
      ap (patch_ttls len e os) (patch_ttl_inside len e o l b.0) in
    subst (λ (r : Bytes). (u32_at r o ≡ v) × All (λ p. u32_at r p ≡ u32_at l p - e) os) (sym step)
      (
        u32_at-patch_ttls len e o os (set_u32 l o v) b.1 a.1
            ∙ u32_at-set_u32 l o v (omega (arith, hl, b.0)) small,
        All-behind e o v os l (patch_ttls len e os (set_u32 l o v)) a.1 (
            patch_ttls_fields len e (o + 4) os (set_u32 l o v) (hl ∙ sym (set_u32-length l o v))
              (AreOctets-set_u32 l o v ho) a.1 b.1),
      )

-- What a client with the id `id` gets `e` seconds after `c` was stored.
pub record IsServed (c : CachedResponse) (id e : ℕ) (served : Bytes) : Type 0 where
  pub size : length served ≡ length c.bytes
  pub id_high : index served 0 ≡ id / 256 % 256
  pub id_low : index served 1 ≡ id % 256
  pub counted_down : All (λ o. u32_at served o ≡ u32_at c.bytes o - e) c.ttl_offsets
  pub others : (j : ℕ) → 2 ≤ j → All (Outside j) c.ttl_offsets → index served j ≡ index c.bytes j

-- Behind the two octets of the id, nothing changes.
index-patch_id :
    (id : ℕ) (l : Bytes) (i : ℕ) → 2 ≤ length l → 2 ≤ i → index (patch_id id l) i ≡ index l i
unfolding patch_id
index-patch_id id l i two hi = rw (le→leb 2 (length l) two) (
    index-set_other (set l 0 (id / 256 % 256)) 1 (id % 256) i (λ e. ground arith)
    ∙ index-set_other l 0 (id / 256 % 256) i (λ e. ground arith))

u32_at-patch_id :
    (id : ℕ) (l : Bytes) (p : ℕ) → 2 ≤ length l → 2 ≤ p → u32_at (patch_id id l) p ≡ u32_at l p
unfolding u32_at
u32_at-patch_id id l p two hp =
    rw
      (
        index-patch_id id l p two hp,
        index-patch_id id l (p + 1) two (omega (arith, hp)),
        index-patch_id id l (p + 2) two (omega (arith, hp)),
        index-patch_id id l (p + 3) two (omega (arith, hp)),
      )
      refl

-- Fields behind the id.
All-patch_id :
    (id e from : ℕ) (os : List ℕ) (l r : Bytes)
    → 2 ≤ length l
    → 2 ≤ from
    → Apart from os
    → All (λ p. u32_at r p ≡ u32_at (patch_id id l) p - e) os
    → All (λ p. u32_at r p ≡ u32_at l p - e) os
All-patch_id id e from [] l r two hf a h = tt
All-patch_id id e from (p ∷ ps) l r two hf a h = (
  h.0 ∙ ap (λ (x : ℕ). x - e) (u32_at-patch_id id l p two (omega (arith, hf, a.0))),
  All-patch_id id e (p + 4) ps l r two (omega (arith, hf, a.0)) a.1 h.1,
)

patch_id-length : (id : ℕ) (l : Bytes) → 2 ≤ length l → length (patch_id id l) ≡ length l
unfolding patch_id
patch_id-length id l two =
    rw (le→leb 2 (length l) two)
      (length-set (set l 0 (id / 256 % 256)) 1 (id % 256) ∙ length-set l 0 (id / 256 % 256))

patch_id_octets :
    (id : ℕ) (l : Bytes)
    → 2 ≤ length l
    → (index (patch_id id l) 0 ≡ id / 256 % 256) × (index (patch_id id l) 1 ≡ id % 256)
unfolding patch_id
patch_id_octets id l two = rw (le→leb 2 (length l) two) (
  index-set_other (set l 0 (id / 256 % 256)) 1 (id % 256) 0 (λ e. ground arith)
      ∙ index-set_same l 0 (id / 256 % 256) (omega (arith, two)),
  index-set_same (set l 0 (id / 256 % 256)) 1 (id % 256)
      (omega (arith, two, length-set l 0 (id / 256 % 256))),
)

-- A response of at least two octets whose fields lie inside it, behind the header and apart, is
-- served under the client's id: each field is counted down, not below 0, and no other octet changes.
pub patched_for-IsServed :
    (c : CachedResponse) (id e : ℕ)
    → 2 ≤ length c.bytes
    → AreOctets c.bytes
    → Apart 12 c.ttl_offsets
    → Before (length c.bytes) c.ttl_offsets
    → IsServed c id e (patched_for c id e)
unfolding patched_for
patched_for-IsServed c id e two octets apart before =
    let l = patch_id id c.bytes in
    let n = length c.bytes in
    let ids = patch_id_octets id c.bytes two in
    record {
      size = patch_ttls-length n e c.ttl_offsets l before ∙ patch_id-length id c.bytes two;
      id_high =
          patch_ttls-Outside n e 0 c.ttl_offsets l before
            (Outside-below 0 12 c.ttl_offsets (omega arith) apart)
          ∙ ids.0;
      id_low =
          patch_ttls-Outside n e 1 c.ttl_offsets l before
            (Outside-below 1 12 c.ttl_offsets (omega arith) apart)
          ∙ ids.1;
      counted_down =
          All-patch_id id e 12 c.ttl_offsets c.bytes (patch_ttls n e c.ttl_offsets l) two
            (omega arith) apart
            (patch_ttls_fields n e 12 c.ttl_offsets l (sym (patch_id-length id c.bytes two))
              (AreOctets-patch_id id c.bytes octets) apart before);
      others = λ j hj out.
          patch_ttls-Outside n e j c.ttl_offsets l before out ∙ index-patch_id id c.bytes j two hj;
    }

-- The two octets together.
pub IsServed-be_u16 :
    (c : CachedResponse) (id e : ℕ) (served : Bytes)
    → id < 65536
    → 2 ≤ length served
    → IsServed c id e served
    → be_u16 served ≡ id
unfolding index
IsServed-be_u16 c id e [] hi h s = absurd (omega arith)
IsServed-be_u16 c id e (a ∷ []) hi h s = absurd (omega arith)
IsServed-be_u16 c id e (a ∷ b ∷ l) hi h s = omega (arith, hi, s.id_high, s.id_low)

-- The entry that an insert stores.
abbrev pub entry : {S : Type 0} → Moka S → ℕ → Bytes → List ℕ → ℕ → DnsCache S → CachedResponse
entry moka now response offsets ttl c = record {
  bytes = response;
  ttl_offsets = offsets;
  stored_at = now;
  expiry = clamp_ttl moka ttl c;
}

-- A map that holds an entry, or has evicted it.
abbrev pub Holds : {S : Type 0} → Moka S → Type 0
Holds {S} moka =
    (s : S) (k : Question) (v : CachedResponse)
    → (moka.get (moka.insert s k v) k ≡ none) ⊎ (moka.get (moka.insert s k v) k ≡ some v)

-- A response that the scan accepts and that was inserted with the offsets of the scan: a later
-- lookup of the same question misses if, and only if, the map no longer holds the entry; otherwise it
-- serves these bytes with the client's id and each TTL field counted down by the seconds since.
pub get-insert :
    {S : Type 0} (moka : Moka S)
    → Holds moka
    → (now later : ℕ) (key : Question) (response : Bytes) (ttl id : ℕ) (c : DnsCache S)
      {s : TtlScan}
    → AreOctets response
    → scan response ≡ ok s
    → ((moka.get (moka.insert c.inner key (entry moka now response s.ttl_offsets ttl c)) key ≡ none)
        × (get moka later key id (insert moka now key response s.ttl_offsets ttl c) ≡ none))
      ⊎ ((served : Bytes) × (moka.get
              (moka.insert c.inner key (entry moka now response s.ttl_offsets ttl c))
              key
            ≡ some (entry moka now response s.ttl_offsets ttl c))
          × (get moka later key id (insert moka now key response s.ttl_offsets ttl c) ≡ some served)
          × IsServed
              (entry moka now response s.ttl_offsets ttl c)
              id
              (min (later - now) 4294967295)
              served)
unfolding get insert
get-insert moka holds now later key response ttl id c {s} octets scanned =
    let v = entry moka now response s.ttl_offsets ttl c in
    let found = scan-IsScan response scanned in
    elim (holds c.inner key v) [
      | inl gone ↦ inl (gone, rw (gone, get) refl)
      | inr kept ↦ inr (
        patched_for v id (min (later - now) 4294967295),
        kept,
        rw (kept, get) refl,
        patched_for-IsServed v id (min (later - now) 4294967295)
            (omega (arith, scan-length response scanned)) octets found.apart found.before,
      )
    ]
