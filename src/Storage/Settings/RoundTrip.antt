-- ===== src/Storage/Settings/RoundTrip.antt =====
-- What src/storage/settings.rs reads after a write.
use sagittarius.Prelude.{
  ℕ, ◌-◌, ◌^◌, ◌≤◌, ◌<◌, ◌≡◌, refl, inl, inr, Bool, true, false, Option, none, some, [], ltb, leb,
  if◌then◌else◌, lt→ltb, le→leb, Bool-cases, length, All,
}
use sagittarius.Codec.Error.{Result, ok, err, ◌>>=◌}
use sagittarius.Codec.Reader.{Bytes}
use sagittarius.Blocklist.Parse.{Text}
use sagittarius.Resolver.State.{
  pos, negsuc, BlockingMode, nxdomain, null_address, custom, SelectionStrategy, random,
  latency_weighted, parallel, Settings,
}
use sagittarius.Storage.Sqlite.{StorageError, decode_number, Tables, execute_on}
use sagittarius.Storage.Blocklists.{u64_try_from, as_i64}
use sagittarius.Storage.Settings.{
  mode_as_str, mode_from_str, strategy_as_str, strategy_from_str, narrow_u32, is_nonzero,
  bool_as_i64, parse_option, map_option, Addresses, settings_from_row, row_of_settings, get, update,
}

mode_from_str-mode_as_str : (m : BlockingMode) → mode_from_str (mode_as_str m) ≡ ok m
unfolding mode_from_str mode_as_str
mode_from_str-mode_as_str nxdomain = refl
mode_from_str-mode_as_str null_address = refl
mode_from_str-mode_as_str custom = refl

strategy_from_str-strategy_as_str :
    (s : SelectionStrategy) → strategy_from_str (strategy_as_str s) ≡ ok s
unfolding strategy_from_str strategy_as_str
strategy_from_str-strategy_as_str random = refl
strategy_from_str-strategy_as_str latency_weighted = refl
strategy_from_str-strategy_as_str parallel = refl

narrow_u32-pos : (n : ℕ) → n < 2 ^ 32 → narrow_u32 (pos n) ≡ ok n
unfolding narrow_u32
narrow_u32-pos n h = rw (lt→ltb n (2 ^ 32) h) refl

is_nonzero-bool_as_i64 : (b : Bool) → is_nonzero (bool_as_i64 b) ≡ b
is_nonzero-bool_as_i64 true = refl
is_nonzero-bool_as_i64 false = refl

-- The addresses of a width that parse back.
abbrev pub IsAddress : ℕ → Bytes → Type 0
IsAddress width addr = (length addr ≡ width) × All (λ (b : ℕ). b < 256) addr

abbrev pub IsOptionAddress : ℕ → Option Bytes → Type 0
IsOptionAddress width none = Unit
IsOptionAddress width (some addr) = IsAddress width addr

-- The documented behaviour of std: the text of an address parses to that address.
pub record ParseBack (std : Addresses) : Type 0 where
  pub v4 : (addr : Bytes) → IsAddress 4 addr → std.v4_from_str (std.v4_to_string addr) ≡ some addr
  pub v6 : (addr : Bytes) → IsAddress 16 addr → std.v6_from_str (std.v6_to_string addr) ≡ some addr

-- The widths of the fields, with the fan-out that the schema demands.
pub record IsSettings (s : Settings) : Type 0 where
  pub min_ttl : s.cache_min_ttl < 2 ^ 32
  pub max_ttl : s.cache_max_ttl < 2 ^ 32
  pub negative_cap : s.cache_negative_ttl_cap < 2 ^ 32
  pub interval : s.blocklist_refresh_interval < 2 ^ 32
  pub retention : s.query_log_retention_days < 2 ^ 32
  pub fanout : s.upstream_parallel_fanout < 2 ^ 32
  pub fanout_pos : 1 ≤ s.upstream_parallel_fanout
  pub capacity : s.cache_capacity < 2 ^ 64
  pub v4 : IsOptionAddress 4 s.custom_block_ipv4
  pub v6 : IsOptionAddress 16 s.custom_block_ipv6

parse_option-map_option :
    (from_str : Text → Option Bytes) (to_string : Bytes → Text) (width : ℕ)
    → ((addr : Bytes) → IsAddress width addr → from_str (to_string addr) ≡ some addr)
    → (o : Option Bytes) → IsOptionAddress width o
    → parse_option from_str (map_option to_string o) ≡ ok o
parse_option-map_option from_str to_string width back none h = refl
parse_option-map_option from_str to_string width back (some addr) h = rw (back addr h) refl

-- What the capacity column holds, read back.
abbrev pub capacity_read : ℕ → Result StorageError ℕ
capacity_read n = if ltb n (2 ^ 63) then ok n else err (decode_number (negsuc (2 ^ 64 - 1 - n)))

u64_try_from-as_i64 : (n : ℕ) → u64_try_from (as_i64 n) ≡ capacity_read n
unfolding u64_try_from as_i64
u64_try_from-as_i64 n = elim (Bool-cases (ltb n (2 ^ 63))) [ inl e ↦ rw e refl | inr e ↦ rw e refl ]

module _ (std : Addresses) (back : ParseBack std) where
  settings_from_row-row_of_settings :
      (s : Settings)
      → IsSettings s
      → settings_from_row std (row_of_settings std s)
        ≡ (capacity_read s.cache_capacity >>= λ n. ok s)
  unfolding settings_from_row row_of_settings
  settings_from_row-row_of_settings s v = elim (Bool-cases (ltb s.cache_capacity (2 ^ 63))) [
    | inl e ↦
        rw
          (
            mode_from_str-mode_as_str s.blocking_mode,
            parse_option-map_option std.v4_from_str std.v4_to_string 4 back.v4 s.custom_block_ipv4
                v.v4,
            parse_option-map_option std.v6_from_str std.v6_to_string 16 back.v6 s.custom_block_ipv6
                v.v6,
            narrow_u32-pos s.cache_min_ttl v.min_ttl,
            narrow_u32-pos s.cache_max_ttl v.max_ttl,
            narrow_u32-pos s.cache_negative_ttl_cap v.negative_cap,
            u64_try_from-as_i64 s.cache_capacity,
            e,
            narrow_u32-pos s.blocklist_refresh_interval v.interval,
            narrow_u32-pos s.query_log_retention_days v.retention,
            strategy_from_str-strategy_as_str s.upstream_selection_strategy,
            narrow_u32-pos s.upstream_parallel_fanout v.fanout,
            is_nonzero-bool_as_i64 s.query_log_enabled,
          )
          refl
    | inr e ↦
        rw
          (
            mode_from_str-mode_as_str s.blocking_mode,
            parse_option-map_option std.v4_from_str std.v4_to_string 4 back.v4 s.custom_block_ipv4
                v.v4,
            parse_option-map_option std.v6_from_str std.v6_to_string 16 back.v6 s.custom_block_ipv6
                v.v6,
            narrow_u32-pos s.cache_min_ttl v.min_ttl,
            narrow_u32-pos s.cache_max_ttl v.max_ttl,
            narrow_u32-pos s.cache_negative_ttl_cap v.negative_cap,
            u64_try_from-as_i64 s.cache_capacity,
            e,
          )
          refl
  ]

  -- Settings whose fields have the widths of the program are read back as they were written, provided
  -- that the cache capacity is below 2^63. A larger capacity is a negative number in the table: the write
  -- succeeds, and every later read fails with a decode error. The database reports no fault.
  pub get-update :
      (s : Settings) (t : Tables)
      → IsSettings s
      → ((update std s (record { tables = t; faults = [] })).0 ≡ ok tt)
        × ((get std (update std s (record { tables = t; faults = [] })).1).0 ≡ (
            if ltb s.cache_capacity (2 ^ 63)
            then ok s
            else err (decode_number (negsuc (2 ^ 64 - 1 - s.cache_capacity)))))
  unfolding get update execute_on
  get-update s t v =
      let allowed : leb 1 s.upstream_parallel_fanout ≡ true =
        le→leb 1 s.upstream_parallel_fanout v.fanout_pos in
      let read = settings_from_row-row_of_settings s v in
      (
        rw allowed refl,
        elim (Bool-cases (ltb s.cache_capacity (2 ^ 63))) [
          | inl e ↦ rw (allowed, read, e) refl
          | inr e ↦ rw (allowed, read, e) refl
        ],
      )
