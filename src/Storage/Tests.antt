-- ===== src/Storage/Tests.antt =====
-- A write of settings, read back.
use sagittarius.Prelude.{ℕ, ◌-◌, ◌^◌, ◌≡◌, refl, true, none, some, [], ◌∷◌, arith}
use sagittarius.Codec.Error.{ok, err}
use sagittarius.Resolver.State.{Settings, custom, parallel, negsuc}
use sagittarius.Storage.Sqlite.{decode_number}
use sagittarius.Storage.Settings.{Addresses, get, update}
use sagittarius.Storage.Settings.RoundTrip.{ParseBack, IsSettings, get-update}
use sagittarius.Blocklist.Tests.Refresh.{two_sources}

-- Addresses that are written as their octets.
abbrev pub plain_texts : Addresses
plain_texts = record {
  v4_from_str = λ s. some s;
  v6_from_str = λ s. some s;
  v4_to_string = λ a. a;
  v6_to_string = λ a. a;
}

pub plain_texts-ParseBack : ParseBack plain_texts
plain_texts-ParseBack = record { v4 = λ a h. refl; v6 = λ a h. refl }

abbrev with_capacity : ℕ → Settings
with_capacity n = record {
  cache_min_ttl = 60;
  cache_max_ttl = 86400;
  cache_negative_ttl_cap = 3600;
  cache_capacity = n;
  blocking_mode = custom;
  custom_block_ipv4 = some (10 ∷ 0 ∷ 0 ∷ 1 ∷ []);
  custom_block_ipv6 = none;
  blocklist_refresh_interval = 86400;
  ui_theme = b'd' ∷ b'a' ∷ b'r' ∷ b'k' ∷ [];
  query_log_enabled = true;
  query_log_retention_days = 30;
  upstream_selection_strategy = parallel;
  upstream_parallel_fanout = 3;
}

huge-IsSettings : IsSettings (with_capacity (2 ^ 63))
huge-IsSettings = omega arith

-- A capacity of 2^63 is written, and cannot be read.
get-update_example :
    ((update plain_texts (with_capacity (2 ^ 63)) (record { tables = two_sources; faults = [] })).0
      ≡ ok tt)
    × ((get plain_texts
          (update plain_texts
            (with_capacity (2 ^ 63))
            (record { tables = two_sources; faults = [] })).1).0
        ≡ err (decode_number (negsuc (2 ^ 63 - 1))))
get-update_example =
    get-update plain_texts plain_texts-ParseBack (with_capacity (2 ^ 63)) two_sources
      huge-IsSettings
