-- ===== src/Web/Settings/Total.antt =====
-- The steps of saving a form of src/web/settings.rs end with a value or an error.
use sagittarius.Prelude.{
  ◌^◌, inl, inr, Bool, true, false, Option, none, some, [], ◌∷◌, ltb, ◌==◌, equal, if◌then◌else◌,
  Option-cases,
}
use sagittarius.Codec.Error.{
  Result, ok, err, out_of_fuel, map_err, Returns, with_value, with_error, >>=-Returns, if-Returns,
}
use sagittarius.Codec.Reader.{Bytes}
use sagittarius.Blocklist.Parse.{Text}
use sagittarius.Resolver.State.{
  ℤ, pos, negsuc, BlockingMode, nxdomain, null_address, custom, random, latency_weighted, parallel,
}
use sagittarius.Storage.Sqlite.{decode_text, decode_number, SettingsRow}
use sagittarius.Storage.Blocklists.{u64_try_from}
use sagittarius.Storage.Settings.{
  Addresses, mode_from_str, strategy_from_str, narrow_u32, parse_option, settings_from_row,
  nxdomain_text, null_ip_text, custom_text, random_text, latency_weighted_text, parallel_text,
}
use sagittarius.Web.Render.{BadRequest, bad_request, invalid_v4, invalid_v6}
use sagittarius.Web.Settings.{
  SettingsForm, reject_if, parse_trimmed, parse_opt_ip, trim, custom_addresses, into_settings,
}

reject_if-Returns : (b : Bool) (e : BadRequest) → Returns (reject_if b e)
reject_if-Returns true e = with_error (bad_request e)
reject_if-Returns false e = with_value tt

map_err-Returns : {E F A : Type 0} (f : E → F) (r : Result E A) → Returns r → Returns (map_err f r)
map_err-Returns f (ok a) h = with_value a
map_err-Returns f (err e) h = with_error (f e)
map_err-Returns f out_of_fuel h = elim h [ ]

-- Three tests, each with its value.
choice-Returns :
    {E A : Type 0} (a b c : Bool) (x y z : A) (e : E)
    → Returns (if a then ok x else if b then ok y else if c then ok z else err e)
choice-Returns true b c x y z e = with_value x
choice-Returns false true c x y z e = with_value y
choice-Returns false false true x y z e = with_value z
choice-Returns false false false x y z e = with_error e

mode_from_str-Returns : (s : Text) → Returns (mode_from_str s)
unfolding mode_from_str
mode_from_str-Returns s =
    choice-Returns (equal s nxdomain_text) (equal s null_ip_text) (equal s custom_text) nxdomain
      null_address custom (decode_text s)

strategy_from_str-Returns : (s : Text) → Returns (strategy_from_str s)
unfolding strategy_from_str
strategy_from_str-Returns s =
    choice-Returns (equal s random_text) (equal s latency_weighted_text) (equal s parallel_text)
      random latency_weighted parallel (decode_text s)

narrow_u32-Returns : (n : ℤ) → Returns (narrow_u32 n)
unfolding narrow_u32
narrow_u32-Returns (pos n) =
    if-Returns (ltb n (2 ^ 32)) (ok n) (err (decode_number (pos n))) (λ _. with_value n)
      (λ _. with_error (decode_number (pos n)))
narrow_u32-Returns (negsuc n) = with_error (decode_number (negsuc n))

u64_try_from-Returns : (n : ℤ) → Returns (u64_try_from n)
unfolding u64_try_from
u64_try_from-Returns (pos n) = with_value n
u64_try_from-Returns (negsuc n) = with_error (decode_number (negsuc n))

parse_option-Returns :
    (from_str : Text → Option Bytes) (o : Option Text) → Returns (parse_option from_str o)
parse_option-Returns from_str none = with_value none
parse_option-Returns from_str (some s) = elim (Option-cases (from_str s)) [
  | inl e ↦ rw (e, parse_option) (with_error (decode_text s))
  | inr (addr, e) ↦ rw (e, parse_option) (with_value (some addr))
]

parse_trimmed-Returns :
    (from_str : Text → Option Bytes) (invalid : Text → BadRequest) (s : Text)
    → Returns (parse_trimmed from_str invalid s)
parse_trimmed-Returns from_str invalid [] = with_value none
parse_trimmed-Returns from_str invalid (c ∷ cs) = elim (Option-cases (from_str (c ∷ cs))) [
  | inl e ↦ rw (e, parse_trimmed) (with_error (bad_request (invalid (c ∷ cs))))
  | inr (addr, e) ↦ rw (e, parse_trimmed) (with_value (some addr))
]

parse_opt_ip-Returns :
    (from_str : Text → Option Bytes) (invalid : Text → BadRequest) (s : Text)
    → Returns (parse_opt_ip from_str invalid s)
unfolding parse_opt_ip
parse_opt_ip-Returns from_str invalid s = parse_trimmed-Returns from_str invalid (trim s)

module _ (std : Addresses) where
  custom_addresses-Returns :
      (mode : BlockingMode) (form : SettingsForm) → Returns (custom_addresses std mode form)
  unfolding custom_addresses
  custom_addresses-Returns custom form =
      >>=-Returns _ _ (parse_opt_ip-Returns std.v4_from_str invalid_v4 form.custom_block_ipv4)
        λ ipv4 _.
          >>=-Returns _ _ (parse_opt_ip-Returns std.v6_from_str invalid_v6 form.custom_block_ipv6)
            λ ipv6 _. with_value (ipv4, ipv6)
  custom_addresses-Returns nxdomain form = with_value _
  custom_addresses-Returns null_address form = with_value _

  pub into_settings-Returns :
      (form : SettingsForm) (ui_theme : Text) → Returns (into_settings std form ui_theme)
  unfolding into_settings
  into_settings-Returns form ui_theme =
      >>=-Returns _ _
        (reject_if-Returns (ltb form.cache_max_ttl form.cache_min_ttl) BadRequest.ttl_order)
        λ _ _.
          >>=-Returns _ _ (reject_if-Returns (form.cache_capacity == 0) BadRequest.no_capacity)
            λ _ _.
              >>=-Returns _ _
                (map_err-Returns (λ _. bad_request BadRequest.invalid_mode) _
                  (mode_from_str-Returns form.blocking_mode))
                λ mode _. >>=-Returns _ _ (custom_addresses-Returns mode form) λ addresses _.
                  >>=-Returns _ _
                    (reject_if-Returns (form.query_log_retention_days == 0) BadRequest.no_retention)
                    λ _ _.
                      >>=-Returns _ _
                        (map_err-Returns (λ _. bad_request BadRequest.invalid_strategy) _
                          (strategy_from_str-Returns form.upstream_selection_strategy))
                        λ strategy _.
                          >>=-Returns _ _
                            (reject_if-Returns (ltb form.upstream_parallel_fanout 1)
                              BadRequest.no_fanout)
                            λ _ _. with_value _

  pub settings_from_row-Returns : (row : SettingsRow) → Returns (settings_from_row std row)
  unfolding settings_from_row
  settings_from_row-Returns row =
      >>=-Returns _ _ (mode_from_str-Returns row.blocking_mode) λ mode _.
        >>=-Returns _ _ (parse_option-Returns std.v4_from_str row.custom_block_ipv4) λ ipv4 _.
          >>=-Returns _ _ (parse_option-Returns std.v6_from_str row.custom_block_ipv6) λ ipv6 _.
            >>=-Returns _ _ (narrow_u32-Returns row.cache_min_ttl) λ min_ttl _.
              >>=-Returns _ _ (narrow_u32-Returns row.cache_max_ttl) λ max_ttl _.
                >>=-Returns _ _ (narrow_u32-Returns row.cache_negative_ttl_cap) λ cap _.
                  >>=-Returns _ _ (u64_try_from-Returns row.cache_capacity) λ capacity _.
                    >>=-Returns _ _ (narrow_u32-Returns row.blocklist_refresh_interval)
                      λ interval _.
                        >>=-Returns _ _ (narrow_u32-Returns row.query_log_retention_days) λ days _.
                          >>=-Returns _ _
                            (strategy_from_str-Returns row.upstream_selection_strategy)
                            λ strategy _.
                              >>=-Returns _ _ (narrow_u32-Returns row.upstream_parallel_fanout)
                                λ fanout _. with_value _
