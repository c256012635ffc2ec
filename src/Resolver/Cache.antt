-- ===== src/Resolver/Cache.antt =====
-- src/resolver/cache.rs: the cache of response bytes. The concurrent map of moka is the parameter
-- `Moka`; its state is passed in and returned. `Instant::now()` is an argument, in whole seconds.
pub mod Patch
pub mod Serve
pub mod Clamp
use sagittarius.Prelude.{
  ℕ, ◌+◌, ◌-◌, ◌*◌, ◌/◌, ◌%◌, ◌^◌, min, max, bit_or, Bool, true, false, Option, none, some, List,
  [], ◌∷◌, if◌then◌else◌, leb, length, get_elem?, set,
}
use sagittarius.Codec.Reader.{Bytes}
use sagittarius.Codec.Message.{Question}

pub record CachedResponse : Type 0 where
  pub bytes : Bytes
  pub ttl_offsets : List ℕ
  pub stored_at : ℕ
  pub expiry : ℕ

-- `buf[i]`; the source reads inside the buffer only.
unfoldable pub index : Bytes → ℕ → ℕ
index buf i = elim (get_elem? buf i) [ none ↦ 0 | some b ↦ b ]

-- `u32::from_be_bytes([buf[offset], .., buf[offset + 3]])`
unfoldable pub u32_at : Bytes → ℕ → ℕ
u32_at buf offset =
    ((index buf offset * 256 + index buf (offset + 1)) * 256 + index buf (offset + 2)) * 256
    + index buf (offset + 3)

-- The four assignments of a `u32::to_be_bytes`.
unfoldable pub set_u32 : Bytes → ℕ → ℕ → Bytes
set_u32 buf offset v =
    set
      (set (set (set buf offset (v / 16777216 % 256)) (offset + 1) (v / 65536 % 256)) (offset + 2)
        (v / 256 % 256))
      (offset + 3) (v % 256)

unfoldable pub patch_id : ℕ → Bytes → Bytes
patch_id client_txn_id buf =
    if leb 2 (length buf)
    then set (set buf 0 (client_txn_id / 256 % 256)) 1 (client_txn_id % 256)
    else buf

-- The body of the loop over the offsets; `len` is the length of the cached bytes.
unfoldable pub patch_ttl : ℕ → ℕ → Bytes → ℕ → Bytes
patch_ttl len elapsed_secs buf offset =
    if leb (offset + 4) len then set_u32 buf offset (u32_at buf offset - elapsed_secs) else buf

unfoldable pub patch_ttls : ℕ → ℕ → List ℕ → Bytes → Bytes
patch_ttls len elapsed_secs [] buf = buf
patch_ttls len elapsed_secs (offset ∷ offsets) buf =
    patch_ttls len elapsed_secs offsets (patch_ttl len elapsed_secs buf offset)

-- `CachedResponse::patched_for`
unfoldable pub patched_for : CachedResponse → ℕ → ℕ → Bytes
patched_for c client_txn_id elapsed_secs =
    patch_ttls (length c.bytes) elapsed_secs c.ttl_offsets (patch_id client_txn_id c.bytes)

-- `(u64::from(min_ttl) << 32) | u64::from(max_ttl)`
unfoldable pub pack_bounds : ℕ → ℕ → ℕ
pack_bounds min_ttl max_ttl = bit_or (min_ttl * 2 ^ 32) max_ttl

unfoldable pub unpack_bounds : ℕ → ℕ × ℕ
unpack_bounds packed = (packed / 2 ^ 32 % 2 ^ 32, packed % 2 ^ 32)

-- `u32::clamp`, which panics if `lo` is above `hi`.
unfoldable pub clamp : ℕ → ℕ → ℕ → ℕ
clamp secs lo hi = min (max secs lo) hi

-- moka's cache, as far as the code uses it.
pub record Moka (S : Type 0) : Type 0 where
  pub insert : S → Question → CachedResponse → S
  pub get : S → Question → Option CachedResponse
  pub invalidate_all : S → S

pub record DnsCache (S : Type 0) : Type 0 where
  pub inner : S
  pub ttl_bounds : ℕ

module _ {S : Type 0} (moka : Moka S) where
  -- `DnsCache::new`, on the empty cache that moka builds.
  abbrev pub new : S → ℕ → ℕ → DnsCache S
  new inner min_ttl max_ttl = record { inner = inner; ttl_bounds = pack_bounds min_ttl max_ttl }

  abbrev pub set_ttl_bounds : ℕ → ℕ → DnsCache S → DnsCache S
  set_ttl_bounds min_ttl max_ttl c = record c { ttl_bounds = pack_bounds min_ttl max_ttl }

  unfoldable pub clamp_ttl : ℕ → DnsCache S → ℕ
  clamp_ttl secs c =
      let (min_ttl, max_ttl) = unpack_bounds c.ttl_bounds in clamp secs min_ttl max_ttl

  -- `DnsCache::insert`
  unfoldable pub insert : ℕ → Question → Bytes → List ℕ → ℕ → DnsCache S → DnsCache S
  insert now key bytes ttl_offsets expiry_ttl_secs c = record c {
    inner = moka.insert c.inner key (record {
      bytes = bytes;
      ttl_offsets = ttl_offsets;
      stored_at = now;
      expiry = clamp_ttl expiry_ttl_secs c;
    });
  }

  -- Seconds that passed, cut to a u32.
  abbrev pub elapsed_secs : ℕ → CachedResponse → ℕ
  elapsed_secs now entry = min (now - entry.stored_at) 4294967295

  -- `DnsCache::get`
  unfoldable pub get : ℕ → Question → ℕ → DnsCache S → Option Bytes
  get now key client_txn_id c = elim (moka.get c.inner key) [
    | none ↦ none
    | some entry ↦ some (patched_for entry client_txn_id (elapsed_secs now entry))
  ]

  abbrev pub clear : DnsCache S → DnsCache S
  clear c = record c { inner = moka.invalidate_all c.inner }
