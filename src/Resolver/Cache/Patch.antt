-- ===== src/Resolver/Cache/Patch.antt =====
-- `CachedResponse::patched_for` of src/resolver/cache.rs, octet by octet.
use sagittarius.Prelude.{
  ℕ, zero, suc, ◌+◌, ◌-◌, ◌/◌, ◌%◌, ◌≤◌, ◌<◌, ◌≡◌, ◌≢◌, ◌⊎◌, inl, inr, refl, ap, ◌∙◌, List, [], ◌∷◌,
  leb, le→leb, Bool-cases, length, set, All, length-set, arith,
}
use sagittarius.Codec.Reader.{Bytes}
use sagittarius.Codec.Ttl.Sound.{Apart, Before}
use sagittarius.Resolver.Cache.{index, u32_at, set_u32, patch_id, patch_ttl, patch_ttls}

pub index-set_same : (l : Bytes) (i v : ℕ) → i < length l → index (set l i v) i ≡ v
unfolding index
index-set_same [] i v h = absurd (omega arith)
index-set_same (x ∷ xs) zero v h = refl
index-set_same (x ∷ xs) (suc i) v h = index-set_same xs i v (omega arith)

pub index-set_other : (l : Bytes) (i v j : ℕ) → i ≢ j → index (set l i v) j ≡ index l j
unfolding index
index-set_other [] i v j h = refl
index-set_other (x ∷ xs) zero v zero h = absurd (h refl)
index-set_other (x ∷ xs) zero v (suc j) h = refl
index-set_other (x ∷ xs) (suc i) v zero h = refl
index-set_other (x ∷ xs) (suc i) v (suc j) h = index-set_other xs i v j (λ e. h (ap suc e))

-- An octet that the field at `o` does not cover.
abbrev pub Outside : ℕ → ℕ → Type 0
Outside j o = (j < o) ⊎ (o + 4 ≤ j)

set_u32-Outside : (l : Bytes) (o v j : ℕ) → Outside j o → index (set_u32 l o v) j ≡ index l j
unfolding set_u32
set_u32-Outside l o v j h =
    let l1 = set l o (v / 16777216 % 256) in
    let l2 = set l1 (o + 1) (v / 65536 % 256) in
    let l3 = set l2 (o + 2) (v / 256 % 256) in
    index-set_other l3 (o + 3) (v % 256) j (λ e. ground arith)
    ∙ index-set_other l2 (o + 2) (v / 256 % 256) j (λ e. ground arith)
    ∙ index-set_other l1 (o + 1) (v / 65536 % 256) j (λ e. ground arith)
    ∙ index-set_other l o (v / 16777216 % 256) j (λ e. ground arith)

pub set_u32-length : (l : Bytes) (o v : ℕ) → length (set_u32 l o v) ≡ length l
unfolding set_u32
set_u32-length l o v =
    let l1 = set l o (v / 16777216 % 256) in
    let l2 = set l1 (o + 1) (v / 65536 % 256) in
    let l3 = set l2 (o + 2) (v / 256 % 256) in
    length-set l3 (o + 3) (v % 256)
    ∙ length-set l2 (o + 2) (v / 256 % 256)
    ∙ length-set l1 (o + 1) (v / 65536 % 256)
    ∙ length-set l o (v / 16777216 % 256)

-- The four octets that were written.
pub u32_at-set_u32 :
    (l : Bytes) (o v : ℕ) → o + 4 ≤ length l → v < 4294967296 → u32_at (set_u32 l o v) o ≡ v
unfolding set_u32 u32_at
u32_at-set_u32 l o v h fits =
    let b0 = v / 16777216 % 256 in
    let b1 = v / 65536 % 256 in
    let b2 = v / 256 % 256 in
    let l1 = set l o b0 in
    let l2 = set l1 (o + 1) b1 in
    let l3 = set l2 (o + 2) b2 in
    let l4 = set l3 (o + 3) (v % 256) in
    let s1 = length-set l o b0 in
    let s2 = length-set l1 (o + 1) b1 in
    let s3 = length-set l2 (o + 2) b2 in
    let e0 : index l4 o ≡ b0 =
      index-set_other l3 (o + 3) (v % 256) o (λ e. ground arith)
      ∙ index-set_other l2 (o + 2) b2 o (λ e. ground arith)
      ∙ index-set_other l1 (o + 1) b1 o (λ e. ground arith)
      ∙ index-set_same l o b0 (omega (arith, h)) in
    let e1 : index l4 (o + 1) ≡ b1 =
      index-set_other l3 (o + 3) (v % 256) (o + 1) (λ e. ground arith)
      ∙ index-set_other l2 (o + 2) b2 (o + 1) (λ e. ground arith)
      ∙ index-set_same l1 (o + 1) b1 (omega (arith, h, s1)) in
    let e2 : index l4 (o + 2) ≡ b2 =
      index-set_other l3 (o + 3) (v % 256) (o + 2) (λ e. ground arith)
      ∙ index-set_same l2 (o + 2) b2 (omega (arith, h, s1, s2)) in
    let e3 : index l4 (o + 3) ≡ v % 256 =
      index-set_same l3 (o + 3) (v % 256) (omega (arith, h, s1, s2, s3)) in
    rw (e0, e1, e2, e3) (omega arith)

-- Every octet is below 256.
abbrev pub AreOctets : Bytes → Type 0
AreOctets = All (λ b. b < 256)

index_fits : (l : Bytes) (i : ℕ) → AreOctets l → index l i < 256
unfolding index
index_fits [] i h = omega arith
index_fits (x ∷ xs) zero h = h.0
index_fits (x ∷ xs) (suc i) h = index_fits xs i h.1

pub u32_at_fits : (l : Bytes) (o : ℕ) → AreOctets l → u32_at l o < 4294967296
unfolding u32_at
u32_at_fits l o h = omega (
  arith,
  index_fits l o h,
  index_fits l (o + 1) h,
  index_fits l (o + 2) h,
  index_fits l (o + 3) h,
)

AreOctets-set : (l : Bytes) (i v : ℕ) → v < 256 → AreOctets l → AreOctets (set l i v)
AreOctets-set [] i v hv h = tt
AreOctets-set (x ∷ xs) zero v hv h = (hv, h.1)
AreOctets-set (x ∷ xs) (suc i) v hv h = (h.0, AreOctets-set xs i v hv h.1)

pub AreOctets-set_u32 : (l : Bytes) (o v : ℕ) → AreOctets l → AreOctets (set_u32 l o v)
unfolding set_u32
AreOctets-set_u32 l o v h = AreOctets-set _ (o + 3) (v % 256) (omega arith) (
    AreOctets-set _ (o + 2) (v / 256 % 256) (omega arith) (
      AreOctets-set _ (o + 1) (v / 65536 % 256) (omega arith)
        (AreOctets-set l o (v / 16777216 % 256) (omega arith) h)))

pub AreOctets-patch_id : (id : ℕ) (l : Bytes) → AreOctets l → AreOctets (patch_id id l)
unfolding patch_id
AreOctets-patch_id id l h = elim (Bool-cases (leb 2 (length l))) [
  | inl e ↦ rw e (
      AreOctets-set _ 1 (id % 256) (omega arith)
        (AreOctets-set l 0 (id / 256 % 256) (omega arith) h))
  | inr e ↦ rw e h
]

-- A field far from `o` reads the same after a write at `o`.
pub u32_at-set_outside : (l : Bytes) (o v p : ℕ) → o + 4 ≤ p → u32_at (set_u32 l o v) p ≡ u32_at l p
unfolding u32_at
u32_at-set_outside l o v p h =
    rw
      (
        set_u32-Outside l o v p (inr h),
        set_u32-Outside l o v (p + 1) (inr (omega (arith, h))),
        set_u32-Outside l o v (p + 2) (inr (omega (arith, h))),
        set_u32-Outside l o v (p + 3) (inr (omega (arith, h))),
      )
      refl

-- One field, inside the bytes.
module _ (len e o : ℕ) (l : Bytes) where
  pub patch_ttl_inside : o + 4 ≤ len → patch_ttl len e l o ≡ set_u32 l o (u32_at l o - e)
  unfolding patch_ttl
  patch_ttl_inside h = rw (le→leb (o + 4) len h) refl

-- All fields: those octets that no field covers stay as they were.
pub patch_ttls-Outside :
    (len e j : ℕ) (os : List ℕ) (l : Bytes)
    → Before len os
    → All (Outside j) os
    → index (patch_ttls len e os l) j ≡ index l j
unfolding patch_ttls
patch_ttls-Outside len e j [] l b h = refl
patch_ttls-Outside len e j (o ∷ os) l b h = rw (patch_ttl_inside len e o l b.0) (
    patch_ttls-Outside len e j os (set_u32 l o (u32_at l o - e)) b.1 h.1
    ∙ set_u32-Outside l o (u32_at l o - e) j h.0)

pub patch_ttls-length :
    (len e : ℕ) (os : List ℕ) (l : Bytes)
    → Before len os
    → length (patch_ttls len e os l) ≡ length l
unfolding patch_ttls
patch_ttls-length len e [] l b = refl
patch_ttls-length len e (o ∷ os) l b = rw (patch_ttl_inside len e o l b.0) (
    patch_ttls-length len e os (set_u32 l o (u32_at l o - e)) b.1
    ∙ set_u32-length l o (u32_at l o - e))

-- An octet before every field.
pub Outside-below : (j from : ℕ) (os : List ℕ) → j < from → Apart from os → All (Outside j) os
Outside-below j from [] h a = tt
Outside-below j from (o ∷ os) h a =
    (inl (omega (arith, h, a.0)), Outside-below j (o + 4) os (omega (arith, h, a.0)) a.1)
