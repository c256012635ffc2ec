-- ===== src/Blocklist/Tests/Refresh.antt =====
-- A refresh of two sources: the first answers with a body, the second with 304.
use sagittarius.Prelude.{
  ◌↔◌, map, max, ℕ, ◌+◌, ◌≤◌, ◌≡◌, refl, ◌⊎◌, Bool, true, false, Option, none, some, List, [], ◌∷◌,
  equal,
}
use sagittarius.Codec.Error.{Result, ok}
use sagittarius.Codec.Reader.{Bytes}
use sagittarius.Resolver.State.{pos}
use sagittarius.Storage.Blocklists.{
  rows_to_blocklists, enabled_rows, blocklist_from_row, format_from_str, u64_try_from, load_cache,
  update_refresh_metadata, as_i64, cache_row, has_id, save_cache, update_row, upsert_cache,
}
use sagittarius.Blocklist.Parse.{
  parse, lines, is_whitespace, encode_utf8, domain_line, hosts_line, insert_field, insert_fields,
  insert_name, is_ascii_whitespace, preprocess, split_fields, split_lines, strip_comment, trim_end,
  trim_start,
}
use sagittarius.Codec.Name.{
  from_str, parse_labels, split_dot, strip_dot, parse_label, validate_label, first_is,
  is_ascii_alphanumeric, is_root_text, last_is, to_ascii_lowercase, validate_bytes,
}
use sagittarius.Blocklist.Aggregate.{add_source, insert_all, install, or_insert}
use sagittarius.Blocklist.Fetch.{read_body, send_error, take_response}
use sagittarius.Blocklist.Scheduler.{
  add_cached_source, decode_and_add, handle_fetch_error, handle_modified, handle_not_modified,
  install_snapshot, refresh_source, refresh_sources,
}
use sagittarius.Resolver.State.{contains}
use sagittarius.Resolver.Suffix.{lookup_key}
use sagittarius.Storage.Sqlite.{execute_on}
use sagittarius.Resolver.Tests.Requests.{Slot, blocking}
use sagittarius.Blocklist.Parse.{Text, domain_list}
use sagittarius.Blocklist.Fetch.{Validators, Response, new_fetcher, modified, fetch}
use sagittarius.Blocklist.Fetch.Bounded.{IsModified, fetch-joined}
use sagittarius.Storage.Sqlite.{BlocklistRow, SettingsRow, Tables}
use sagittarius.Storage.Blocklists.{Blocklist, domain_list_text, list_enabled}
use sagittarius.Blocklist.Scheduler.{RefreshSummary, Scheduler, refresh_once, load_from_cache}
use sagittarius.Blocklist.Scheduler.Cycle.{Refreshed, refresh_once-Refreshed}
use sagittarius.Blocklist.Scheduler.Run.{Arm, slept, notified, cancelled, Turn, run}
use sagittarius.Blocklist.Scheduler.Run.Live.{Serves, starts, run-Serves}
use sagittarius.Blocklist.Scheduler.Reload.{refresh_once-load_from_cache}

-- A list of one domain.
abbrev body : Bytes
body = b'a' ∷ b'.' ∷ b'b' ∷ 10 ∷ []

abbrev source_row : ℕ → Text → BlocklistRow
source_row id url = record {
  id = id;
  url = url;
  format = domain_list_text;
  enabled = true;
  entry_count = pos 0;
  last_updated = none;
  etag = none;
  last_modified = none;
}

abbrev pub default_settings : SettingsRow
default_settings = record {
  cache_min_ttl = pos 0;
  cache_max_ttl = pos 86400;
  cache_negative_ttl_cap = pos 3600;
  cache_capacity = pos 10000;
  blocking_mode = b'n' ∷ b'u' ∷ b'l' ∷ b'l' ∷ b'-' ∷ b'i' ∷ b'p' ∷ [];
  custom_block_ipv4 = none;
  custom_block_ipv6 = none;
  blocklist_refresh_interval = pos 86400;
  ui_theme = b'd' ∷ b'a' ∷ b'r' ∷ b'k' ∷ [];
  query_log_enabled = pos 1;
  query_log_retention_days = pos 30;
  upstream_selection_strategy = b'r' ∷ b'a' ∷ b'n' ∷ b'd' ∷ b'o' ∷ b'm' ∷ [];
  upstream_parallel_fanout = pos 2;
}

abbrev pub two_sources : Tables
two_sources = record {
  next_id = 3;
  blocklists = source_row 1 (b'x' ∷ []) ∷ source_row 2 (b'y' ∷ []) ∷ [];
  blocklist_cache = (2, record { content = b'c' ∷ b'.' ∷ b'd' ∷ []; fetched_at = 5 }) ∷ [];
  settings = default_settings;
  upstreams = [];
  sessions = [];
}

abbrev answer_of : Bool → Response
answer_of true = record { status = 200; etag = none; last_modified = none; chunks = ok body ∷ [] }
answer_of false = record { status = 304; etag = none; last_modified = none; chunks = [] }

abbrev no_validators : Validators
no_validators = record { etag = none; last_modified = none }

-- The state of the network is the time.
abbrev send : Text → Validators → ℕ → Result (ℕ × Bool) Response × ℕ
send url validators net = (ok (answer_of (equal url (b'x' ∷ []))), net + 1)

abbrev lossy : Bytes → Text
lossy b = b

abbrev clock : ℕ → ℕ
clock n = n

abbrev scheduler : Scheduler Slot ℕ
scheduler = record {
  db = record { tables = two_sources; faults = [] };
  state = blocking;
  fetcher = new_fetcher;
  net = 1700000000;
}

refresh_once-Refreshed_example :
    Refreshed lossy send scheduler (refresh_once lossy clock send scheduler)
refresh_once-Refreshed_example =
    refresh_once-Refreshed lossy send clock scheduler ((refl, tt), (tt, tt))

fetch-joined_example :
    ((fetch send new_fetcher (b'x' ∷ []) no_validators 0).0 ≡ ok (modified body no_validators)) ↔ (
      (response : Response) × ((send (b'x' ∷ []) no_validators 0).0 ≡ ok response)
      × IsModified new_fetcher.max_size response body no_validators)
fetch-joined_example = fetch-joined send new_fetcher (b'x' ∷ []) no_validators 0 body no_validators

abbrev done : RefreshSummary
done = record { fetched = 1; not_modified = 1; failed = 0; total_domains = 2 }

abbrev listed : ℕ → Text → ℕ → Option ℕ → Blocklist
listed id url entry_count last_updated = record {
  id = id;
  url = url;
  format = domain_list;
  enabled = true;
  entry_count = entry_count;
  last_updated = last_updated;
  etag = none;
  last_modified = none;
}

abbrev behind : List Blocklist
behind = listed 1 (b'x' ∷ []) 1 (some 1700000001) ∷ listed 2 (b'y' ∷ []) 0 none ∷ []

refreshed :
    ((refresh_once lossy clock send scheduler).0 ≡ ok done)
    × ((list_enabled (refresh_once lossy clock send scheduler).1.db).0 ≡ ok behind)
unfolding refresh_once fetch list_enabled rows_to_blocklists enabled_rows blocklist_from_row
    format_from_str u64_try_from load_cache update_refresh_metadata as_i64 cache_row has_id
    save_cache update_row upsert_cache parse lines is_whitespace encode_utf8 domain_line hosts_line
    insert_field insert_fields insert_name is_ascii_whitespace preprocess split_fields split_lines
    strip_comment trim_end trim_start from_str parse_labels split_dot strip_dot parse_label
    validate_label first_is is_ascii_alphanumeric is_root_text last_is to_ascii_lowercase
    validate_bytes add_source insert_all install or_insert read_body send_error take_response
    add_cached_source decode_and_add handle_fetch_error handle_modified handle_not_modified
    install_snapshot refresh_source refresh_sources contains lookup_key execute_on
refreshed = (refl, refl)

refresh_once-load_from_cache_example :
    (((refresh_once lossy clock send scheduler).1.state ≡ blocking) × (1 ≤ 0))
    ⊎ ((load_from_cache lossy
          (record (refresh_once lossy clock send scheduler).1 { state = blocking })).state
        ≡ record blocking {
          blocklist = (refresh_once lossy clock send scheduler).1.state.blocklist;
        })
refresh_once-load_from_cache_example =
    refresh_once-load_from_cache lossy clock send scheduler blocking ((refl, tt), (tt, tt)) refl
      refreshed.0 refreshed.1

abbrev idle : Arm → Turn Slot ℕ
idle arm = record { others = λ s. s; arm = arm }

abbrev turns : List (Turn Slot ℕ)
turns = idle slept ∷ idle notified ∷ idle cancelled ∷ idle slept ∷ []

run-Serves_example :
    Serves lossy clock send
      (starts lossy clock send turns scheduler)
      []
      (run lossy clock send turns scheduler).1.state.blocklist
    × ((run lossy clock send turns scheduler).0
        ≡ map
            (λ (t : Scheduler Slot ℕ). max t.state.settings.blocklist_refresh_interval 60)
            (starts lossy clock send turns scheduler))
run-Serves_example =
    run-Serves lossy clock send turns scheduler
      (λ s. (refl, λ k. k), (λ s. (refl, λ k. k), (λ s. (refl, λ k. k), (λ s. (refl, λ k. k), tt))))
      ((refl, tt), (tt, tt))
