-- ===== src/Resolver/Cache/Clamp.antt =====
-- The lifetime bounds of the cache of src/resolver/cache.rs, packed into one number.
use sagittarius.Prelude.{ℕ, ◌+◌, ◌*◌, ◌/◌, ◌%◌, ◌^◌, ◌≤◌, ◌<◌, ◌≡◌, ap₂, ◌∙◌, bit_or, arith}
use sagittarius.Prelude.Bits.{or_split, bit_or-zero, zero-bit_or}
use sagittarius.Resolver.Cache.{
  pack_bounds, unpack_bounds, clamp, Moka, DnsCache, set_ttl_bounds, clamp_ttl,
}

pub unpack_bounds-pack_bounds :
    (lo hi : ℕ) → lo < 2 ^ 32 → hi < 2 ^ 32 → unpack_bounds (pack_bounds lo hi) ≡ (lo, hi)
unfolding unpack_bounds pack_bounds
unpack_bounds-pack_bounds lo hi hl hh =
    let e : bit_or (lo * 2 ^ 32) hi ≡ lo * 2 ^ 32 + hi =
      let high : lo * 2 ^ 32 ≡ lo * 2 ^ 32 + 0 = omega arith in
      let low : hi ≡ 0 * 2 ^ 32 + hi = omega arith in
      let split : bit_or (lo * 2 ^ 32 + 0) (0 * 2 ^ 32 + hi) ≡ bit_or lo 0 * 2 ^ 32 + bit_or 0 hi =
        or_split 32 lo 0 0 hi (omega arith) hh in
      ap₂ bit_or high low
      ∙ split
      ∙ ap₂ (λ (a b : ℕ). a * 2 ^ 32 + b) (bit_or-zero lo) (zero-bit_or hi) in
    let back_lo : (lo * 2 ^ 32 + hi) / 2 ^ 32 % 2 ^ 32 ≡ lo = omega (arith, hl, hh) in
    let back_hi : (lo * 2 ^ 32 + hi) % 2 ^ 32 ≡ hi = omega (arith, hh) in
    rw e (ap₂ (λ (a b : ℕ). (a, b)) back_lo back_hi)

-- After an update of the bounds, a lifetime that is stored lies within them, and is the requested
-- one where that one lies within them.
pub clamp_ttl-set_ttl_bounds :
    {S : Type 0} (moka : Moka S) (lo hi secs : ℕ) (c : DnsCache S)
    → lo ≤ hi
    → hi < 2 ^ 32
    → (lo ≤ clamp_ttl moka secs (set_ttl_bounds moka lo hi c))
      × (clamp_ttl moka secs (set_ttl_bounds moka lo hi c) ≤ hi)
      × (lo ≤ secs → secs ≤ hi → clamp_ttl moka secs (set_ttl_bounds moka lo hi c) ≡ secs)
unfolding clamp_ttl clamp
clamp_ttl-set_ttl_bounds moka lo hi secs c h fits =
    rw (unpack_bounds-pack_bounds lo hi (omega (arith, h, fits)) fits)
      (omega (arith, h), omega (arith, h), λ a b. omega (arith, a, b, h))
